-- ===== src/System/Progress.antt =====
-- The tasks together never come to a standstill.
use dragon_bench.Common.{ℕ, ◌≡◌, refl, ◌⊎◌, inl, inr, true, none, Option-cases}
use dragon_bench.Prog.{Call, Reply, done, out_of_fuel, ask, take_lock}
use dragon_bench.Prog.Slot.{IsActive}
use dragon_bench.System.{Shared, Thread, Device, Inputs, System, Step, acts}
use dragon_bench.System.Invariant.{Reached}
use dragon_bench.System.Schedule.{Replies, may_run, effect_of-Effect}
use dragon_bench.System.Exclusion.{Enabled, holder_runs}
use dragon_bench.System.Duties.{active_run_owed}

-- A thread has returned, or has no fuel left.
abbrev pub Ended : Thread → Type 0
Ended m = (m ≡ done tt) ⊎ (m ≡ out_of_fuel)

Enabled-may_run : (s : Shared) (c : Call) → Enabled s c → may_run s c ≡ true
Enabled-may_run s take_lock h = rw h refl
Enabled-may_run s _ h = refl

free-Enabled : (s : Shared) (c : Call) → s.owner ≡ none → Enabled s c
free-Enabled s take_lock h = h
free-Enabled s _ h = tt

module _ (dev : Device) (inputs : Inputs) (o : Replies) where
  -- A call that may be made now is a step of the system.
  Enabled-Step :
      (s : System) (i : ℕ) (c : Call) (k : Reply c → Thread)
      → s.threads i ≡ ask c k
      → Enabled s.shared c
      → (u : System) × Step dev inputs s u
  Enabled-Step s i c k e h =
      (_, acts i c k _ _ e (effect_of-Effect o i s.shared c (Enabled-may_run s.shared c h)) refl)

  free-Step :
      (s : System) (i : ℕ) (m : Thread)
      → s.threads i ≡ m
      → s.shared.owner ≡ none
      → Ended (s.threads i) ⊎ ((u : System) × Step dev inputs s u)
  free-Step s i (done tt) e f = inl (inl e)
  free-Step s i out_of_fuel e f = inl (inr e)
  free-Step s i (ask c k) e f = inr (Enabled-Step s i c k e (free-Enabled s.shared c f))

  thread-Step :
      (s : System)
      → Reached dev inputs s
      → (i : ℕ) → Ended (s.threads i) ⊎ ((u : System) × Step dev inputs s u)
  thread-Step s r i = elim (Option-cases s.shared.owner) [
    | inl free ↦ free-Step s i (s.threads i) refl free
    | inr (j, held) ↦
        let (c, k, e, h) = holder_runs dev inputs s r j held in inr (Enabled-Step s j c k e h)
  ]

  -- No deadlock, and no standstill with a run in progress: in every state that the tasks reach
  -- together, if a thread has neither returned nor run out of the model's fuel, some thread can make
  -- its next step; and while a run is active, some thread can make its next step or has run out of
  -- that fuel. The platform answers every call with some reply.
  pub never_stuck :
      (s : System)
      → Reached dev inputs s
      → ((i : ℕ) → Ended (s.threads i) ⊎ ((u : System) × Step dev inputs s u))
        × (IsActive s.shared.run
            → ((i : ℕ) × (s.threads i ≡ out_of_fuel)) ⊎ ((u : System) × Step dev inputs s u))
  never_stuck s r = (
    thread-Step s r,
    λ a.
        let owed = active_run_owed dev inputs s r a in
        elim (thread-Step s r owed.0) [
          | inl (inl ended) ↦ absurd (owed.4 ended)
          | inl (inr empty) ↦ inl (owed.0, empty)
          | inr step ↦ inr step
        ],
  )

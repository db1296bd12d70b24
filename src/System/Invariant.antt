-- ===== src/System/Invariant.antt =====
-- The invariant of the system: every thread keeps both protocols from where it stands.
use dragon_bench.Common.{
  ℕ, ◌≡◌, ◌≢◌, subst, inl, inr, Bool, true, false, some, arith, ◌==◌, Bool-cases,
}
use dragon_bench.Prog
use dragon_bench.Prog.{Call, Reply, done, ask, create_workload_task, boot_step}
use dragon_bench.Prog.Locks.{KeepsLock}
use dragon_bench.Prog.Slot.{Held, nothing, slot_next, KeepsSlot}
use dragon_bench.Task.{workload_task}
use dragon_bench.Task.Locks.{workload_task-KeepsLock}
use dragon_bench.Task.Slot.{workload_task-KeepsSlot}
use dragon_bench.System.{
  Shared, Effect, Thread, update, Device, Inputs, System, started, Step, acts, spawns, creates,
  start_system, Reach, here, onward,
}
use dragon_bench.System.Threads.{KeepsLock-Parts, KeepsSlot-Parts, started-rule, first_threads-rule}
use dragon_bench.System.Locks.{owns, Effect-OwnerStep, Effect-owns, OwnerStep-owns, KeepsLock-call}
use dragon_bench.System.Slot.{Fresh, Effect-Fresh, Effect-Fresh_other, KeepsSlot-call}

-- A thread with what it has read.
abbrev pub Grip : ℕ → Shared → Thread → Type 0
Grip i s m = (h : Held) × KeepsSlot h m × Fresh i s h

-- Every thread keeps both protocols from where it stands.
pub record Inv (s : System) : Type 0 where
  pub locks : (i : ℕ) → KeepsLock (owns i s.shared.owner) (s.threads i)
  pub grips : (i : ℕ) → Grip i s.shared (s.threads i)

-- A family after an update.
update_cases :
    (P : ℕ → Thread → Type 0) (f : ℕ → Thread) (i : ℕ) (m : Thread)
    → P i m
    → ((j : ℕ) → i ≢ j → P j (f j))
    → (j : ℕ) → P j (update f i m j)
update_cases P f i m h k j = elim (Bool-cases (i == j)) [
  | inl e ↦ rw e (subst (λ n. P n m) (ground arith) h)
  | inr e ↦ rw e (k j (λ d. ground arith))
]

-- What a thread that stands at a known program keeps.
lock_at :
    (s : System)
    → Inv s
    → (i : ℕ) (m : Thread) → s.threads i ≡ m
    → KeepsLock (owns i s.shared.owner) m
lock_at s v i m e = subst (λ m. KeepsLock (owns i s.shared.owner) m) e (v.locks i)

slot_at :
    (s : System) (v : Inv s) (i : ℕ) (m : Thread) → s.threads i ≡ m → KeepsSlot (v.grips i).0 m
slot_at s v i m e = subst (λ m. KeepsSlot (v.grips i).0 m) e (v.grips i).1

module _ (dev : Device) (inputs : Inputs) where
  acts-Inv :
      (s : System) (i : ℕ) (c : Call) (k : Reply c → Thread) (r : Reply c) (t : Shared)
      → s.threads i ≡ ask c k
      → Effect i s.shared c r t
      → Inv s
      → Inv (record { shared = t; threads = update s.threads i (k r) })
  acts-Inv s i c k r t e effect v =
      let lock =
        KeepsLock-call (owns i s.shared.owner) c k
          (subst (λ m. KeepsLock (owns i s.shared.owner) m) e (v.locks i)) in
      let h : Held = (v.grips i).0 in
      let slot = KeepsSlot-call h c k (subst (λ m. KeepsSlot h m) e (v.grips i).1) in
      let owner = Effect-OwnerStep i s.shared c r t lock.0 effect in
      record {
        locks =
            update_cases (λ j m. KeepsLock (owns j t.owner) m) s.threads i (k r)
              (rw (Effect-owns i s.shared c r t effect) (lock.1 r))
              (λ j ne. rw (OwnerStep-owns i j s.shared.owner t.owner ne owner) (v.locks j));
        grips =
            update_cases (λ j m. Grip j t m) s.threads i (k r)
              (
                slot_next h c r,
                slot.1 r,
                Effect-Fresh i s.shared c r t h lock.0 effect (v.grips i).2,
              )
              (λ j ne.
                let g = v.grips j in
                (g.0, g.1, Effect-Fresh_other i j s.shared c r t g.0 ne lock.0 effect g.2));
      }

  -- A thread that is done holds nothing.
  done-owns : (s : System) (j : ℕ) → s.threads j ≡ done tt → Inv s → owns j s.shared.owner ≡ false
  unfolding KeepsLock
  done-owns s j e v = subst (λ m. KeepsLock (owns j s.shared.owner) m) e (v.locks j)

  -- A new thread, beside a call that leaves the shared state.
  new_thread-Inv :
      (s : System) (i j : ℕ) (n m : Thread)
      → s.threads j ≡ done tt
      → KeepsLock (owns i s.shared.owner) n
      → Grip i s.shared n
      → KeepsLock false m
      → KeepsSlot nothing m
      → Inv s
      → Inv (record { shared = s.shared; threads = update (update s.threads i n) j m })
  new_thread-Inv s i j n m d lock grip new_lock new_slot v = record {
    locks =
        update_cases (λ a x. KeepsLock (owns a s.shared.owner) x) (update s.threads i n) j m
          (rw (done-owns s j d v) new_lock)
          (λ a _.
            update_cases (λ a x. KeepsLock (owns a s.shared.owner) x) s.threads i n lock
              (λ a _. v.locks a) a);
    grips =
        update_cases (λ a x. Grip a s.shared x) (update s.threads i n) j m
          (nothing, new_slot, (tt, tt))
          (λ a _. update_cases (λ a x. Grip a s.shared x) s.threads i n grip (λ a _. v.grips a) a);
  }

  spawns-Inv :
      (s : System) (i j : ℕ) (k : Bool → Thread)
      → s.threads i ≡ ask create_workload_task k
      → s.threads j ≡ done tt
      → Inv s
      → Inv (record {
        shared = s.shared;
        threads =
            update
              (update s.threads i (k true))
              j
              (workload_task dev.fuel dev.cjson dev.settings.config);
      })
  spawns-Inv s i j k e d v =
      new_thread-Inv s i j (k true) _ d
        ((KeepsLock-call _ create_workload_task k (lock_at s v i _ e)).1 true)
        (
          (v.grips i).0,
          (KeepsSlot-call _ create_workload_task k (slot_at s v i _ e)).1 true,
          (v.grips i).2,
        )
        (workload_task-KeepsLock _ _ _) (workload_task-KeepsSlot _ _ _) v

  creates-Inv :
      (s : System) (i j : ℕ) (step : Prog.Step) (k : Bool → Thread) (m : Thread)
      → s.threads i ≡ ask (boot_step step) k
      → started dev inputs step ≡ some m
      → s.threads j ≡ done tt
      → Inv s
      → Inv (record { shared = s.shared; threads = update (update s.threads i (k true)) j m })
  creates-Inv s i j step k m e f d v =
      new_thread-Inv s i j (k true) m d
        ((KeepsLock-call _ (boot_step step) k (lock_at s v i _ e)).1 true)
        (
          (v.grips i).0,
          (KeepsSlot-call _ (boot_step step) k (slot_at s v i _ e)).1 true,
          (v.grips i).2,
        )
        (started-rule (λ A m. KeepsLock false m) KeepsLock-Parts dev inputs step m f)
        (started-rule (λ A m. KeepsSlot nothing m) KeepsSlot-Parts dev inputs step m f) v

  pub Step-Inv : (s u : System) → Step dev inputs s u → Inv s → Inv u
  Step-Inv s u (acts i c k r t e effect q) v = rw q (acts-Inv s i c k r t e effect v)
  Step-Inv s u (spawns i j k e d q) v = rw q (spawns-Inv s i j k e d v)
  Step-Inv s u (creates i j step k m e f d q) v = rw q (creates-Inv s i j step k m e f d v)

  pub start_system-Inv : Inv (start_system dev inputs)
  unfolding start_system
  start_system-Inv = record {
    locks = first_threads-rule (λ A m. KeepsLock false m) KeepsLock-Parts dev inputs;
    grips = λ i. (
      nothing,
      first_threads-rule (λ A m. KeepsSlot nothing m) KeepsSlot-Parts dev inputs i,
      (tt, tt),
    );
  }

  pub Reach-Inv : (s u : System) → Reach dev inputs s u → Inv s → Inv u
  Reach-Inv s u here v = v
  Reach-Inv s u (onward {t} before step) v = Step-Inv t u step (Reach-Inv s t before v)

  -- The states that the tasks reach together.
  abbrev pub Reached : System → Type 0
  Reached s = Reach dev inputs (start_system dev inputs) s

  pub Reached-Inv : (s : System) → Reached s → Inv s
  Reached-Inv s r = Reach-Inv (start_system dev inputs) s r start_system-Inv

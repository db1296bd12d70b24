-- ===== src/System/Exclusion.antt =====
-- Mutual exclusion, and no deadlock on state_lock.
use dragon_bench.Common.{ℕ, ◌≡◌, refl, subst, true, Option, none, some, arith}
use dragon_bench.Prog.{Call, Reply, done, out_of_fuel, ask, take_lock}
use dragon_bench.Prog.Locks.{held, need, Meets, KeepsLock}
use dragon_bench.System.{Shared, Thread, Device, Inputs, System}
use dragon_bench.System.Locks.{owns, owns_eq, KeepsLock-call}
use dragon_bench.System.Invariant.{Reached, Reached-Inv, Inv}

-- A thread stands at a call that needs the lock: an access to current_run, the run counter or the
-- ring, or the release.
abbrev pub Critical : Thread → Type 0
Critical m = (c : Call) × (k : Reply c → Thread) × (need c ≡ held) × (m ≡ ask c k)

Critical-owns : (s : System) → Inv s → (i : ℕ) → Critical (s.threads i) → s.shared.owner ≡ some i
Critical-owns s v i (c, k, n, e) = owns_eq i s.shared.owner (
    subst (λ x. Meets x (owns i s.shared.owner)) n
      (KeepsLock-call (owns i s.shared.owner) c k
        (subst (λ m. KeepsLock (owns i s.shared.owner) m) e (v.locks i))).0)

unique_owner : (i j : ℕ) (o : Option ℕ) → o ≡ some i → o ≡ some j → i ≡ j
unique_owner i j o p q = ground arith

-- However the tasks interleave, whatever requests come and whatever the platform replies: a thread
-- that stands at an access to what state_lock protects holds the lock, so two never stand at such
-- accesses together.
pub mutual_exclusion :
    (dev : Device) (inputs : Inputs) (s : System)
    → Reached dev inputs s
    → (i j : ℕ) → Critical (s.threads i)
    → Critical (s.threads j)
    → (s.shared.owner ≡ some i) × (i ≡ j)
mutual_exclusion dev inputs s r i j x y =
    let v : Inv s = Reached-Inv dev inputs s r in
    let here : s.shared.owner ≡ some i = Critical-owns s v i x in
    (here, unique_owner i j s.shared.owner here (Critical-owns s v j y))

owns-some : (i : ℕ) (o : Option ℕ) → o ≡ some i → owns i o ≡ true
owns-some i o e = rw e (ground arith)

-- What a call that may be made now is: the lock is free where it is to be taken.
abbrev pub Enabled : Shared → Call → Type 0
Enabled s take_lock = s.owner ≡ none
Enabled s _ = Unit {0}

Meets-Enabled :
    (i : ℕ) (s : Shared) (c : Call)
    → s.owner ≡ some i
    → Meets (need c) (owns i s.owner)
    → Enabled s c
Meets-Enabled i s take_lock o m = absurd (ground arith)
Meets-Enabled i s _ o m = tt

-- The holder of the lock never waits for it and never stops: in every state that the tasks reach
-- together it stands at a call that may be made at once, so a thread that waits at take_lock waits
-- for a thread that can go on.
pub holder_runs :
    (dev : Device) (inputs : Inputs) (s : System)
    → Reached dev inputs s
    → (i : ℕ) → s.shared.owner ≡ some i
    → (c : Call) × (k : Reply c → Thread) × (s.threads i ≡ ask c k) × Enabled s.shared c
unfolding KeepsLock
holder_runs dev inputs s r i o = holder (s.threads i) (v.locks i) refl
  where
    v : Inv s
    v = Reached-Inv dev inputs s r

    held_here : owns i s.shared.owner ≡ true
    held_here = owns-some i s.shared.owner o

    holder :
        (m : Thread)
        → KeepsLock (owns i s.shared.owner) m
        → s.threads i ≡ m
        → (c : Call) × (k : Reply c → Thread) × (s.threads i ≡ ask c k) × Enabled s.shared c
    holder (done x) h e = absurd (cc (h, held_here))
    holder out_of_fuel h e = absurd (cc (h, held_here))
    holder (ask c k) h e = (c, k, e, Meets-Enabled i s.shared c o h.0)

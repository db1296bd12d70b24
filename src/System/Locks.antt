-- ===== src/System/Locks.antt =====
-- The lock protocol of every thread, carried over the steps of the system.
use dragon_bench.Common.{
  ℕ, ◌≡◌, ◌≢◌, refl, ◌⊎◌, inl, inr, Bool, true, false, Option, none, some, arith, ◌==◌,
}
use dragon_bench.Prog.{
  Call, Reply, ask, take_lock, give_lock, get_run, put_run, get_log, put_log, get_seq, put_seq,
  bump_run_counter, create_workload_task,
}
use dragon_bench.Prog.Locks.{need, Meets, after_call, KeepsLock}
use dragon_bench.System.{Shared, Effect, Thread}

-- Whether a thread holds the lock.
abbrev pub owns : ℕ → Option ℕ → Bool
owns i none = false
owns i (some j) = i == j

pub owns_eq : (i : ℕ) (o : Option ℕ) → owns i o ≡ true → o ≡ some i
owns_eq i none h = cc
owns_eq i (some j) h = ground arith

-- How the owner of the lock may change by a call of the thread `i`.
abbrev pub OwnerStep : ℕ → Option ℕ → Option ℕ → Type 0
OwnerStep i o o' = (o' ≡ o) ⊎ ((o ≡ none) × (o' ≡ some i)) ⊎ ((o ≡ some i) × (o' ≡ none))

pub Effect-OwnerStep :
    (i : ℕ) (s : Shared) (c : Call) (r : Reply c) (t : Shared)
    → Meets (need c) (owns i s.owner)
    → Effect i s c r t
    → OwnerStep i s.owner t.owner
Effect-OwnerStep i s take_lock r t m e = inr (inl (e.0, rw e.1 refl))
Effect-OwnerStep i s give_lock r t m e = inr (inr (owns_eq i s.owner m, rw e refl))
Effect-OwnerStep i s get_run r t m e = inl (rw e.1 refl)
Effect-OwnerStep i s (put_run run) r t m e = inl (rw e refl)
Effect-OwnerStep i s get_log r t m e = inl (rw e.1 refl)
Effect-OwnerStep i s (put_log l) r t m e = inl (rw e refl)
Effect-OwnerStep i s get_seq r t m e = inl (rw e.1 refl)
Effect-OwnerStep i s (put_seq n) r t m e = inl (rw e refl)
Effect-OwnerStep i s bump_run_counter r t m e = inl (rw e.1 refl)
Effect-OwnerStep i s create_workload_task r t m e = inl (rw e.1 refl)
Effect-OwnerStep i s _ r t m e = inl (rw e refl)

-- Whether the thread that calls holds the lock after it.
pub Effect-owns :
    (i : ℕ) (s : Shared) (c : Call) (r : Reply c) (t : Shared)
    → Effect i s c r t
    → owns i t.owner ≡ after_call (owns i s.owner) c
Effect-owns i s take_lock r t e = rw e.1 (ground arith)
Effect-owns i s give_lock r t e = rw e refl
Effect-owns i s get_run r t e = rw e.1 refl
Effect-owns i s (put_run run) r t e = rw e refl
Effect-owns i s get_log r t e = rw e.1 refl
Effect-owns i s (put_log l) r t e = rw e refl
Effect-owns i s get_seq r t e = rw e.1 refl
Effect-owns i s (put_seq n) r t e = rw e refl
Effect-owns i s bump_run_counter r t e = rw e.1 refl
Effect-owns i s create_workload_task r t e = rw e.1 refl
Effect-owns i s _ r t e = rw e refl

-- The ownership of another thread is untouched.
pub OwnerStep-owns : (i j : ℕ) (o o' : Option ℕ) → i ≢ j → OwnerStep i o o' → owns j o' ≡ owns j o
OwnerStep-owns i j o o' ne (inl e) = rw e refl
OwnerStep-owns i j o o' ne (inr (inl e)) = rw (e.0, e.1) (ground arith)
OwnerStep-owns i j o o' ne (inr (inr e)) = rw (e.0, e.1) (ground arith)

-- What a thread at a call owes, and keeps after it.
pub KeepsLock-call :
    (b : Bool) (c : Call) (k : Reply c → Thread)
    → KeepsLock b (ask c k)
    → Meets (need c) b × ((r : Reply c) → KeepsLock (after_call b c) (k r))
unfolding KeepsLock
KeepsLock-call b c k h = (h.0, λ r. h.1 r tt)

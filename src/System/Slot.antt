-- ===== src/System/Slot.antt =====
-- What a thread has read under the lock stays true while it holds it.
use dragon_bench.Common.{
  ℕ, ◌+◌, ◌≡◌, ◌≢◌, refl, sym, ap, ◌∙◌, ◌⊎◌, inl, inr, true, Option, none, some, Text, arith,
}
use dragon_bench.Run.{Run}
use dragon_bench.Events.{EventLog, store_event}
use dragon_bench.Prog.{
  Call, Reply, ask, take_lock, give_lock, get_run, put_run, get_log, put_log, get_seq, put_seq,
  bump_run_counter, create_workload_task,
}
use dragon_bench.Prog.Locks.{need, Meets}
use dragon_bench.Prog.Slot.{
  Held, nothing, Transition, keeps, RunAllowed, LogAllowed, SlotAllowed, slot_next, KeepsSlot,
}
use dragon_bench.System.{Shared, Effect, Thread}
use dragon_bench.System.Locks.{owns, owns_eq}

-- A value read by the thread `i` is the current one, and the thread holds the lock. The number
-- event_seq is not protected.
abbrev pub FreshRun : ℕ → Shared → Option Run → Type 0
FreshRun i s none = Unit {0}
FreshRun i s (some r) = (s.owner ≡ some i) × (r ≡ s.run)

abbrev pub FreshLog : ℕ → Shared → Option EventLog → Type 0
FreshLog i s none = Unit {0}
FreshLog i s (some l) = (s.owner ≡ some i) × (l ≡ record (s.log) { event_seq = l.event_seq })

abbrev pub Fresh : ℕ → Shared → Held → Type 0
Fresh i s h = FreshRun i s h.run × FreshLog i s h.log

keep_run :
    (i : ℕ) (s t : Shared) (o : Option Run)
    → t.owner ≡ s.owner
    → t.run ≡ s.run
    → FreshRun i s o
    → FreshRun i t o
keep_run i s t none e d f = tt
keep_run i s t (some r) e d f = (e ∙ f.0, f.1 ∙ sym d)

keep_log :
    (i : ℕ) (s t : Shared) (o : Option EventLog)
    → t.owner ≡ s.owner
    → ((n : ℕ) → record (t.log) { event_seq = n } ≡ record (s.log) { event_seq = n })
    → FreshLog i s o
    → FreshLog i t o
keep_log i s t none e d f = tt
keep_log i s t (some l) e d f = (e ∙ f.0, f.1 ∙ sym (d l.event_seq))

keep_all :
    (i : ℕ) (s t : Shared) (h : Held)
    → t.owner ≡ s.owner
    → t.run ≡ s.run
    → ((n : ℕ) → record (t.log) { event_seq = n } ≡ record (s.log) { event_seq = n })
    → Fresh i s h
    → Fresh i t h
keep_all i s t h e d g f = (keep_run i s t h.run e d f.0, keep_log i s t h.log e g f.1)

-- For the thread that calls.
pub Effect-Fresh :
    (i : ℕ) (s : Shared) (c : Call) (r : Reply c) (t : Shared) (h : Held)
    → Meets (need c) (owns i s.owner)
    → Effect i s c r t
    → Fresh i s h
    → Fresh i t (slot_next h c r)
Effect-Fresh i s take_lock r t h m e f = (tt, tt)
Effect-Fresh i s give_lock r t h m e f = (tt, tt)
Effect-Fresh i s get_run r t h m e f = rw e.1 ((owns_eq i s.owner m, e.0), f.1)
Effect-Fresh i s (put_run run) r t h m e f =
    rw e (
      (owns_eq i s.owner m, refl),
      keep_log i s (record s { run = run }) h.log refl (λ n. refl) f.1,
    )
Effect-Fresh i s get_log r t h m e f = rw e.1 (f.0, (owns_eq i s.owner m, rw e.0 refl))
Effect-Fresh i s (put_log l) r t h m e f = rw e (
  keep_run i s (record s { log = record l { event_seq = s.log.event_seq } }) h.run refl refl f.0,
  tt,
)
Effect-Fresh i s get_seq r t h m e f = rw e.1 f
Effect-Fresh i s (put_seq n) r t h m e f =
    rw e
      (keep_all i s (record s { log = record (s.log) { event_seq = n } }) h refl refl (λ n. refl) f)
Effect-Fresh i s bump_run_counter r t h m e f =
    rw e.1 (keep_all i s (record s { run_counter = s.run_counter + 1 }) h refl refl (λ n. refl) f)
Effect-Fresh i s create_workload_task r t h m e f = rw e.1 f
Effect-Fresh i s _ r t h m e f = rw e f

-- A value that a thread has read says that it holds the lock.
abbrev pub Reader : ℕ → Shared → Held → Type 0
Reader j s h = (h ≡ nothing) ⊎ (s.owner ≡ some j)

pub Fresh-Reader : (j : ℕ) (s : Shared) (h : Held) → Fresh j s h → Reader j s h
Fresh-Reader j s h f = reader h.run h.log f.0 f.1 refl
  where
    reader :
        (o : Option Run) (p : Option EventLog)
        → FreshRun j s o
        → FreshLog j s p
        → h ≡ record { run = o; log = p }
        → Reader j s h
    reader none none x y e = inl e
    reader (some r) p x y e = inr x.0
    reader none (some l) x y e = inr y.0

held_by_one : (i j : ℕ) (o : Option ℕ) → i ≢ j → owns i o ≡ true → o ≡ some j → ⊥
held_by_one i j o ne h e = ne (ground (arith, owns_eq i o h))

-- For another thread that holds the lock.
Effect-Fresh_owner :
    (i j : ℕ) (s : Shared) (c : Call) (r : Reply c) (t : Shared) (h : Held)
    → i ≢ j
    → s.owner ≡ some j
    → Meets (need c) (owns i s.owner)
    → Effect i s c r t
    → Fresh j s h
    → Fresh j t h
Effect-Fresh_owner i j s take_lock r t h ne o m e f = absurd (cc (e.0, o))
Effect-Fresh_owner i j s give_lock r t h ne o m e f = absurd (held_by_one i j s.owner ne m o)
Effect-Fresh_owner i j s get_run r t h ne o m e f = rw e.1 f
Effect-Fresh_owner i j s (put_run run) r t h ne o m e f = absurd (held_by_one i j s.owner ne m o)
Effect-Fresh_owner i j s get_log r t h ne o m e f = rw e.1 f
Effect-Fresh_owner i j s (put_log l) r t h ne o m e f = absurd (held_by_one i j s.owner ne m o)
Effect-Fresh_owner i j s get_seq r t h ne o m e f = rw e.1 f
Effect-Fresh_owner i j s (put_seq n) r t h ne o m e f =
    rw e
      (keep_all j s (record s { log = record (s.log) { event_seq = n } }) h refl refl (λ n. refl) f)
Effect-Fresh_owner i j s bump_run_counter r t h ne o m e f = absurd (held_by_one i j s.owner ne m o)
Effect-Fresh_owner i j s create_workload_task r t h ne o m e f = rw e.1 f
Effect-Fresh_owner i j s _ r t h ne o m e f = rw e f

-- For every other thread.
pub Effect-Fresh_other :
    (i j : ℕ) (s : Shared) (c : Call) (r : Reply c) (t : Shared) (h : Held)
    → i ≢ j
    → Meets (need c) (owns i s.owner)
    → Effect i s c r t
    → Fresh j s h
    → Fresh j t h
Effect-Fresh_other i j s c r t h ne m e f = elim (Fresh-Reader j s h f) [
  | inl none_read ↦ rw none_read (tt, tt)
  | inr o ↦ Effect-Fresh_owner i j s c r t h ne o m e f
]

-- A step of current_run, and of the ring: nothing, or one event stored with the number that the
-- thread read.
pub Effect-Transition :
    (i : ℕ) (s : Shared) (c : Call) (r : Reply c) (t : Shared) (h : Held)
    → Effect i s c r t
    → Fresh i s h
    → SlotAllowed h c
    → Transition s.run t.run
Effect-Transition i s take_lock r t h e f a = keeps (rw e.1 refl)
Effect-Transition i s give_lock r t h e f a = keeps (rw e refl)
Effect-Transition i s get_run r t h e f a = keeps (rw e.1 refl)
Effect-Transition i s (put_run run) r t h e f a = rw e (allowed h.run f.0 a)
  where
    allowed : (o : Option Run) → FreshRun i s o → RunAllowed o run → Transition s.run run
    allowed none x y = absurd y
    allowed (some q) x y = rw (← x.1) y
Effect-Transition i s get_log r t h e f a = keeps (rw e.1 refl)
Effect-Transition i s (put_log l) r t h e f a = keeps (rw e refl)
Effect-Transition i s get_seq r t h e f a = keeps (rw e.1 refl)
Effect-Transition i s (put_seq n) r t h e f a = keeps (rw e refl)
Effect-Transition i s bump_run_counter r t h e f a = keeps (rw e.1 refl)
Effect-Transition i s create_workload_task r t h e f a = keeps (rw e.1 refl)
Effect-Transition i s _ r t h e f a = keeps (rw e refl)

-- The ring of a log, with another number.
abbrev pub renumber : EventLog → ℕ → EventLog
renumber l n = record l { event_seq = n }

abbrev pub LogStep : EventLog → EventLog → Type 0
LogStep l l' =
    ((n : ℕ) × (l' ≡ renumber l n))
    ⊎ ((n : ℕ) × (json : Option Text) × (l'
          ≡ renumber (store_event (renumber l n) json) l.event_seq))

pub Effect-LogStep :
    (i : ℕ) (s : Shared) (c : Call) (r : Reply c) (t : Shared) (h : Held)
    → Effect i s c r t
    → Fresh i s h
    → SlotAllowed h c
    → LogStep s.log t.log
Effect-LogStep i s take_lock r t h e f a = inl (s.log.event_seq, rw e.1 refl)
Effect-LogStep i s give_lock r t h e f a = inl (s.log.event_seq, rw e refl)
Effect-LogStep i s get_run r t h e f a = inl (s.log.event_seq, rw e.1 refl)
Effect-LogStep i s (put_run run) r t h e f a = inl (s.log.event_seq, rw e refl)
Effect-LogStep i s get_log r t h e f a = inl (s.log.event_seq, rw e.1 refl)
Effect-LogStep i s (put_log l) r t h e f a = inr (allowed h.log f.1 a)
  where
    allowed :
        (o : Option EventLog)
        → FreshLog i s o
        → LogAllowed o l
        → (n : ℕ) × (json : Option Text) × (t.log
            ≡ renumber (store_event (renumber (s.log) n) json) s.log.event_seq)
    allowed none x y = absurd y
    allowed (some q) x y = (
      q.event_seq,
      y.0,
      rw e (ap (λ v. renumber v s.log.event_seq) (y.1 ∙ ap (λ v. store_event v y.0) x.1)),
    )
Effect-LogStep i s get_seq r t h e f a = inl (s.log.event_seq, rw e.1 refl)
Effect-LogStep i s (put_seq n) r t h e f a = inl (n, rw e refl)
Effect-LogStep i s bump_run_counter r t h e f a = inl (s.log.event_seq, rw e.1 refl)
Effect-LogStep i s create_workload_task r t h e f a = inl (s.log.event_seq, rw e.1 refl)
Effect-LogStep i s _ r t h e f a = inl (s.log.event_seq, rw e refl)

pub KeepsSlot-call :
    (h : Held) (c : Call) (k : Reply c → Thread)
    → KeepsSlot h (ask c k)
    → SlotAllowed h c × ((r : Reply c) → KeepsSlot (slot_next h c r) (k r))
unfolding KeepsSlot
KeepsSlot-call h c k f = (f.0, λ r. f.1 r tt)

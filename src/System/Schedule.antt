-- ===== src/System/Schedule.antt =====
-- Executions of the tasks, computed from the order in which they run.
use dragon_bench.Common.{
  ℕ, ◌+◌, ◌≡◌, refl, inl, inr, Bool, true, false, Option, none, some, List, [], ◌∷◌, if◌then◌else◌,
  Bool-cases,
}
use dragon_bench.Prog
use dragon_bench.Prog.{
  Call, Reply, done, out_of_fuel, ask, take_lock, give_lock, get_run, put_run, get_log, put_log,
  get_seq, put_seq, bump_run_counter, create_workload_task, boot_step,
}
use dragon_bench.Task.{workload_task}
use dragon_bench.System.{
  Shared, Effect, Thread, update, System, started, acts, spawns, creates, Device, Inputs, Reach,
  onward,
}

-- Replies of the platform.
abbrev pub Replies : Type 0
Replies = (c : Call) → Reply c

-- What `Effect` says of a call that may be made now.
abbrev pub effect_of : Replies → ℕ → Shared → (c : Call) → Reply c × Shared
effect_of o i s take_lock = (o take_lock, record s { owner = some i })
effect_of o i s give_lock = (o give_lock, record s { owner = none })
effect_of o i s get_run = (s.run, s)
effect_of o i s (put_run run) = (o (put_run run), record s { run = run })
effect_of o i s get_log = (s.log, s)
effect_of o i s (put_log l) =
    (o (put_log l), record s { log = record l { event_seq = s.log.event_seq } })
effect_of o i s get_seq = (s.log.event_seq, s)
effect_of o i s (put_seq n) = (o (put_seq n), record s { log = record (s.log) { event_seq = n } })
effect_of o i s bump_run_counter = (s.run_counter + 1, record s { run_counter = s.run_counter + 1 })
effect_of o i s create_workload_task = (false, s)
effect_of o i s c = (o c, s)

abbrev pub unowned : Option ℕ → Bool
unowned none = true
unowned (some i) = false

abbrev pub may_run : Shared → Call → Bool
may_run s take_lock = unowned s.owner
may_run s _ = true

free_owner : (o : Option ℕ) → unowned o ≡ true → o ≡ none
free_owner none e = refl
free_owner (some i) e = cc

pub effect_of-Effect :
    (o : Replies) (i : ℕ) (s : Shared) (c : Call)
    → may_run s c ≡ true
    → Effect i s c (effect_of o i s c).0 (effect_of o i s c).1
effect_of-Effect o i s take_lock e = (free_owner s.owner e, refl)
effect_of-Effect o i s give_lock e = refl
effect_of-Effect o i s get_run e = (refl, refl)
effect_of-Effect o i s (put_run run) e = refl
effect_of-Effect o i s get_log e = (refl, refl)
effect_of-Effect o i s (put_log l) e = refl
effect_of-Effect o i s get_seq e = (refl, refl)
effect_of-Effect o i s (put_seq n) e = refl
effect_of-Effect o i s bump_run_counter e = (refl, refl)
effect_of-Effect o i s create_workload_task e = (refl, refl)
effect_of-Effect o i s _ e = refl

-- One call of a thread, or the start of a task by the first thread in the place of the second.
pub data Turn : Type 0 where
  runs_call : ℕ → Turn
  starts : ℕ → ℕ → Turn

module _ (dev : Device) (inputs : Inputs) (o : Replies) where
  abbrev called : System → ℕ → (c : Call) → (Reply c → Thread) → System
  called s i c k = record {
    shared = (effect_of o i s.shared c).1;
    threads = update s.threads i (k (effect_of o i s.shared c).0);
  }

  -- A thread that has ended or waits leaves the system as it is.
  abbrev call_turn : System → ℕ → Thread → System
  call_turn s i (done x) = s
  call_turn s i out_of_fuel = s
  call_turn s i (ask c k) = if may_run s.shared c then called s i c k else s

  abbrev create_turn : System → ℕ → ℕ → (Bool → Thread) → Option Thread → System
  create_turn s i j k none = s
  create_turn s i j k (some m) = record {
    shared = s.shared;
    threads = update (update s.threads i (k true)) j m;
  }

  abbrev start_turn : System → ℕ → ℕ → Thread → Thread → System
  start_turn s i j (ask create_workload_task k) (done x) = record {
    shared = s.shared;
    threads =
        update (update s.threads i (k true)) j
          (workload_task dev.fuel dev.cjson dev.settings.config);
  }
  start_turn s i j (ask (boot_step step) k) (done x) = create_turn s i j k (started dev inputs step)
  start_turn s i j m n = s

  abbrev pub take_turn : System → Turn → System
  take_turn s (runs_call i) = call_turn s i (s.threads i)
  take_turn s (starts i j) = start_turn s i j (s.threads i) (s.threads j)

  abbrev pub schedule : System → List Turn → System
  schedule s [] = s
  schedule s (t ∷ ts) = schedule (take_turn s t) ts

  call_turn-Reach :
      (z s : System) (i : ℕ) (m : Thread)
      → s.threads i ≡ m
      → Reach dev inputs z s
      → Reach dev inputs z (call_turn s i m)
  call_turn-Reach z s i (done x) e r = r
  call_turn-Reach z s i out_of_fuel e r = r
  call_turn-Reach z s i (ask c k) e r = elim (Bool-cases (may_run s.shared c)) [
    | inl t ↦ rw t (onward r (acts i c k _ _ e (effect_of-Effect o i s.shared c t) refl))
    | inr f ↦ rw f r
  ]

  create_turn-Reach :
      (z s : System) (i j : ℕ) (step : Prog.Step) (k : Bool → Thread) (m : Option Thread)
      → s.threads i ≡ ask (boot_step step) k
      → s.threads j ≡ done tt
      → started dev inputs step ≡ m
      → Reach dev inputs z s
      → Reach dev inputs z (create_turn s i j k m)
  create_turn-Reach z s i j step k none e d f r = r
  create_turn-Reach z s i j step k (some m) e d f r = onward r (creates i j step k m e f d refl)

  start_turn-Reach :
      (z s : System) (i j : ℕ) (m n : Thread)
      → s.threads i ≡ m
      → s.threads j ≡ n
      → Reach dev inputs z s
      → Reach dev inputs z (start_turn s i j m n)
  start_turn-Reach z s i j (ask create_workload_task k) (done x) e d r =
      onward r (spawns i j k e d refl)
  start_turn-Reach z s i j (ask (boot_step step) k) (done x) e d r =
      create_turn-Reach z s i j step k (started dev inputs step) e d refl r
  start_turn-Reach z s i j _ _ e d r = r

  take_turn-Reach :
      (z s : System) (t : Turn) → Reach dev inputs z s → Reach dev inputs z (take_turn s t)
  take_turn-Reach z s (runs_call i) r = call_turn-Reach z s i (s.threads i) refl r
  take_turn-Reach z s (starts i j) r =
      start_turn-Reach z s i j (s.threads i) (s.threads j) refl refl r

  pub schedule-Reach :
      (z s : System) (ts : List Turn) → Reach dev inputs z s → Reach dev inputs z (schedule s ts)
  schedule-Reach z s [] r = r
  schedule-Reach z s (t ∷ ts) r = schedule-Reach z (take_turn s t) ts (take_turn-Reach z s t r)

-- ===== src/System/Duties.antt =====
-- A run that is active has a thread that will finish it.
use dragon_bench.Common.{
  Bool, some, ℕ, ◌≡◌, ◌≢◌, refl, ap, ◌∙◌, subst, inl, inr, true, arith, ◌==◌, Bool-cases,
}
use dragon_bench.Run.{Run, RunState, run_idle, running, aborting, complete, begin, finish}
use dragon_bench.Prog
use dragon_bench.Prog.{
  boot_step, Call, Reply, done, ask, take_lock, give_lock, get_run, put_run, get_log, put_log,
  get_seq, put_seq, bump_run_counter, create_workload_task,
}
use dragon_bench.Prog.Slot.{Transition, begins, aborts, finishes, keeps, IsActive}
use dragon_bench.Prog.Duties.{Duties, no_duties, unfinished_after, duty_next, Settles}
use dragon_bench.Task.{workload_task}
use dragon_bench.Task.Duties.{owing, workload_task-Settles}
use dragon_bench.System.{
  Shared, Effect, Thread, update, Device, Inputs, System, Step, started, acts, spawns, creates,
  start_system, here, onward,
}
use dragon_bench.System.Threads.{Settles-Parts, started-rule, first_threads-rule}
use dragon_bench.System.Invariant.{Reached, Reached-Inv, Inv}
use dragon_bench.System.Life.{Step-Transition}

-- What every thread owes, and that an active run is owed by one.
pub record Owed (s : System) : Type 0 where
  pub debts : ℕ → Duties
  pub settles : (i : ℕ) → Settles (debts i) no_duties (s.threads i)
  pub covers : IsActive s.shared.run → (i : ℕ) × ((debts i).unfinished ≡ true)

Settles-call :
    (d : Duties) (c : Call) (k : Reply c → Thread)
    → Settles d no_duties (ask c k)
    → (r : Reply c) → Settles (duty_next d c r) no_duties (k r)
unfolding Settles
Settles-call d c k h r = h.1 r tt

-- A thread that has ended owes nothing.
not_done : (d : Duties) → d.unfinished ≡ true → Settles {A = Unit {0}} d no_duties (done tt) → ⊥
unfolding Settles
not_done d h e = cc (h, ap (λ (x : Duties). x.unfinished) e)

update-Settles :
    (debts : ℕ → Duties) (threads : ℕ → Thread) (i : ℕ) (d : Duties) (m : Thread)
    → ((j : ℕ) → Settles (debts j) no_duties (threads j))
    → Settles d no_duties m
    → (j : ℕ) → Settles (update debts i d j) no_duties (update threads i m j)
update-Settles debts threads i d m h k j = elim (Bool-cases (i == j)) [
  | inl e ↦ rw e k
  | inr e ↦ rw e (h j)
]

-- The same debts after a call that changes none.
same-Settles :
    (debts : ℕ → Duties) (threads : ℕ → Thread) (i : ℕ) (m : Thread)
    → ((j : ℕ) → Settles (debts j) no_duties (threads j))
    → Settles (debts i) no_duties m
    → (j : ℕ) → Settles (debts j) no_duties (update threads i m j)
same-Settles debts threads i m h k j = elim (Bool-cases (i == j)) [
  | inl e ↦ rw e (subst (λ n. Settles (debts n) no_duties m) (ground arith) k)
  | inr e ↦ rw e (h j)
]

update-covers :
    (debts : ℕ → Duties) (i : ℕ) (d : Duties)
    → d.unfinished ≡ (debts i).unfinished
    → (j : ℕ) × ((debts j).unfinished ≡ true)
    → (j : ℕ) × ((update debts i d j).unfinished ≡ true)
update-covers debts i d same (j, h) = elim (Bool-cases (i == j)) [
  | inl e ↦ (j, rw e (same ∙ ap (λ n. (debts n).unfinished) (ground arith) ∙ h))
  | inr e ↦ (j, rw e h)
]

update-covers_new :
    (debts : ℕ → Duties) (i : ℕ) (d : Duties)
    → d.unfinished ≡ true
    → (j : ℕ) × ((update debts i d j).unfinished ≡ true)
update-covers_new debts i d h = let same : (i == i) ≡ true = ground arith in (i, rw same h)

update-covers_other :
    (debts : ℕ → Duties) (i : ℕ) (d : Duties)
    → ((debts i).unfinished ≡ true → ⊥)
    → (j : ℕ) × ((debts j).unfinished ≡ true)
    → (j : ℕ) × ((update debts i d j).unfinished ≡ true)
update-covers_other debts i d idle (j, h) = elim (Bool-cases (i == j)) [
  | inl e ↦
      let same : j ≡ i = ground arith in
      absurd (idle (subst (λ n. (debts n).unfinished ≡ true) same h))
  | inr e ↦ (j, rw e h)
]

-- A write of current_run.
put_run-covers :
    (old new : Run) (state : RunState)
    → new.state ≡ state
    → Transition old new
    → (debts : ℕ → Duties) (i : ℕ) → (IsActive old → (j : ℕ) × ((debts j).unfinished ≡ true))
    → IsActive new
    → (j : ℕ) × ((update debts i
          (record (debts i) { unfinished = unfinished_after state (debts i).unfinished })
          j).unfinished
        ≡ true)
unfolding begin finish
put_run-covers old new running e t debts i covers a = update-covers_new debts i _ refl
put_run-covers old new complete e t debts i covers a = absurd (ground arith)
put_run-covers old new run_idle e t debts i covers a = absurd (ground arith)
put_run-covers old new aborting e (begins q id now h v f x) debts i covers a =
    absurd (ground (arith, ap (λ (r : Run). r.state) x))
put_run-covers old new aborting e (finishes result now x) debts i covers a =
    absurd (ground (arith, ap (λ (r : Run). r.state) x))
put_run-covers old new aborting e (aborts h x) debts i covers a =
    update-covers debts i _ refl (covers (inl h))
put_run-covers old new aborting e (keeps x) debts i covers a =
    update-covers debts i _ refl (covers (subst (λ r. IsActive r) x a))

-- Every other call leaves current_run and the debt.
Effect-covers :
    (i : ℕ) (s : Shared) (c : Call) (r : Reply c) (t : Shared)
    → Effect i s c r t
    → Transition s.run t.run
    → (debts : ℕ → Duties) → (IsActive s.run → (j : ℕ) × ((debts j).unfinished ≡ true))
    → IsActive t.run
    → (j : ℕ) × ((update debts i (duty_next (debts i) c r) j).unfinished ≡ true)
Effect-covers i s (put_run new) r t e tr debts covers a =
    put_run-covers s.run new new.state refl (subst (λ (x : Shared). Transition s.run x.run) e tr)
      debts i covers (subst (λ (x : Shared). IsActive x.run) e a)
Effect-covers i s take_lock r t e tr debts covers a =
    update-covers debts i _ refl (covers (subst (λ (x : Shared). IsActive x.run) e.1 a))
Effect-covers i s give_lock r t e tr debts covers a =
    update-covers debts i _ refl (covers (subst (λ (x : Shared). IsActive x.run) e a))
Effect-covers i s get_run r t e tr debts covers a =
    update-covers debts i _ refl (covers (subst (λ (x : Shared). IsActive x.run) e.1 a))
Effect-covers i s get_log r t e tr debts covers a =
    update-covers debts i _ refl (covers (subst (λ (x : Shared). IsActive x.run) e.1 a))
Effect-covers i s (put_log l) r t e tr debts covers a =
    update-covers debts i _ refl (covers (subst (λ (x : Shared). IsActive x.run) e a))
Effect-covers i s get_seq r t e tr debts covers a =
    update-covers debts i _ refl (covers (subst (λ (x : Shared). IsActive x.run) e.1 a))
Effect-covers i s (put_seq n) r t e tr debts covers a =
    update-covers debts i _ refl (covers (subst (λ (x : Shared). IsActive x.run) e a))
Effect-covers i s bump_run_counter r t e tr debts covers a =
    update-covers debts i _ refl (covers (subst (λ (x : Shared). IsActive x.run) e.1 a))
Effect-covers i s create_workload_task r t e tr debts covers a =
    update-covers debts i _ (rw e.0 refl) (covers (subst (λ (x : Shared). IsActive x.run) e.1 a))
Effect-covers i s _ r t e tr debts covers a =
    update-covers debts i _ refl (covers (subst (λ (x : Shared). IsActive x.run) e a))

module _ (dev : Device) (inputs : Inputs) where
  -- A step of the boot leaves the debts; the task that it starts owes nothing.
  creates-Owed :
      (s : System) (i j : ℕ) (step : Prog.Step) (k : Bool → Thread) (m : Thread)
      → s.threads i ≡ ask (boot_step step) k
      → started dev inputs step ≡ some m
      → s.threads j ≡ done tt
      → Owed s
      → Owed (record { shared = s.shared; threads = update (update s.threads i (k true)) j m })
  creates-Owed s i j step k m e f d o = record {
    debts = update o.debts j no_duties;
    settles =
        update-Settles o.debts (update s.threads i (k true)) j no_duties m
          (same-Settles o.debts s.threads i (k true) o.settles (
            Settles-call (o.debts i) (boot_step step) k
              (subst (λ m. Settles (o.debts i) no_duties m) e (o.settles i)) true))
          (started-rule (λ A m. Settles no_duties no_duties m) Settles-Parts dev inputs step m f);
    covers = λ a.
        update-covers_other o.debts j no_duties
          (λ h.
            not_done (o.debts j) h (subst (λ m. Settles (o.debts j) no_duties m) d (o.settles j)))
          (o.covers a);
  }

  Step-Owed : (s u : System) → Step dev inputs s u → Inv s → Owed s → Owed u
  Step-Owed s u (acts i c k r t e effect q) v o =
      let moved : Transition s.shared.run t.run =
        subst (λ (x : System). Transition s.shared.run x.shared.run) q
          (Step-Transition dev inputs s u (acts i c k r t e effect q) v) in
      rw q (record {
        debts = update o.debts i (duty_next (o.debts i) c r);
        settles = update-Settles o.debts s.threads i _ (k r) o.settles (
            Settles-call (o.debts i) c k
              (subst (λ m. Settles (o.debts i) no_duties m) e (o.settles i)) r);
        covers = Effect-covers i s.shared c r t effect moved o.debts o.covers;
      })
  Step-Owed s u (spawns i j k e d q) v o = rw q (record {
    debts = update (update o.debts i (duty_next (o.debts i) create_workload_task true)) j owing;
    settles =
        update-Settles _ (update s.threads i (k true)) j owing
          (workload_task dev.fuel dev.cjson dev.settings.config)
          (update-Settles o.debts s.threads i _ (k true) o.settles (
            Settles-call (o.debts i) create_workload_task k
              (subst (λ m. Settles (o.debts i) no_duties m) e (o.settles i)) true))
          (workload_task-Settles dev.fuel dev.cjson dev.settings.config);
    covers = λ _. update-covers_new _ j owing refl;
  })
  Step-Owed s u (creates i j step k m e f d q) v o = rw q (creates-Owed s i j step k m e f d o)

  Reached-Owed : (s : System) → Reached dev inputs s → Owed s
  unfolding start_system
  Reached-Owed s here = record {
    debts = λ _. no_duties;
    settles = first_threads-rule (λ A m. Settles no_duties no_duties m) Settles-Parts dev inputs;
    covers = λ a. absurd (ground arith);
  }
  Reached-Owed s (onward {t} before step) =
      Step-Owed t s step (Reached-Inv dev inputs t before) (Reached-Owed t before)

  -- The device is never left busy: in every state that the tasks reach together, however they
  -- interleave, an active run has a thread that has not ended and that, unless it runs out of the
  -- model's fuel, writes a completed run before it ends or hands that over to a task it starts.
  pub active_run_owed :
      (s : System)
      → Reached dev inputs s
      → IsActive s.shared.run
      → (i : ℕ) × (d : Duties) × (d.unfinished ≡ true)
        × Settles d no_duties (s.threads i)
        × (s.threads i ≢ done tt)
  active_run_owed s r a =
      let o : Owed s = Reached-Owed s r in
      let c = o.covers a in
      (
        c.0,
        o.debts c.0,
        c.1,
        o.settles c.0,
        λ e.
            not_done (o.debts c.0) c.1
              (subst (λ m. Settles (o.debts c.0) no_duties m) e (o.settles c.0)),
      )

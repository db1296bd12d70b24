-- ===== src/System/Life.antt =====
-- The life of current_run under all tasks together.
use dragon_bench.Common.{ℕ, ◌≡◌, refl, subst, inl, true, Option, Text, arith, snprintf}
use dragon_bench.Run.{Run, running, aborting, begin, finish}
use dragon_bench.Run.Validate.{IsAcceptable, FitsFields}
use dragon_bench.Run.Lifecycle.{IsWellFormed, begin-IsWellFormed, finish-IsWellFormed}
use dragon_bench.Prog.Slot.{Transition, begins, aborts, finishes, keeps, IsActive, KeepsSlot}
use dragon_bench.Boot.{initial_run}
use dragon_bench.System.{
  Device, Inputs, System, Step, acts, spawns, creates, start_system, here, onward,
}
use dragon_bench.System.Slot.{Effect-Transition, KeepsSlot-call}
use dragon_bench.System.Invariant.{Reached, Reached-Inv, Inv}

-- What holds of current_run: it is well formed, and an active run has a request that
-- db_request_validate accepts and whose values fit their fields.
pub record RunHolds (r : Run) : Type 0 where
  pub well_formed : IsWellFormed r
  pub acceptable : IsActive r → IsAcceptable r.request × FitsFields r.request

aborting-IsWellFormed :
    (r : Run)
    → r.state ≡ running
    → IsWellFormed r
    → IsWellFormed (record r { state = aborting; abort_requested = true })
aborting-IsWellFormed r h w = ground arith

finish-inactive : (r : Run) (result : Option Text) (now : ℕ) → IsActive (finish r result now) → ⊥
unfolding finish
finish-inactive r result now a = ground arith

Transition-RunHolds : (r r' : Run) → Transition r r' → RunHolds r → RunHolds r'
Transition-RunHolds r r' (begins q id now h a f e) v =
    rw e (record {
      well_formed = begin-IsWellFormed q id now;
      acceptable = λ _. unfold begin in (a, f);
    })
Transition-RunHolds r r' (aborts h e) v = rw e (record {
  well_formed = aborting-IsWellFormed r h v.well_formed;
  acceptable = λ _. v.acceptable (inl h);
})
Transition-RunHolds r r' (finishes result now e) v = rw e (record {
  well_formed = finish-IsWellFormed r result now v.well_formed;
  acceptable = λ a. absurd (finish-inactive r result now a);
})
Transition-RunHolds r r' (keeps e) v = rw e v

initial_run-RunHolds : RunHolds initial_run
unfolding snprintf
initial_run-RunHolds = record {
  well_formed = ground arith;
  acceptable = λ a. absurd (ground arith);
}

-- A step of the system is a step in the life of current_run.
pub Step-Transition :
    (dev : Device) (inputs : Inputs) (s u : System)
    → Step dev inputs s u
    → Inv s
    → Transition s.shared.run u.shared.run
Step-Transition dev inputs s u (acts i c k r t e effect q) v = rw q (
    Effect-Transition i s.shared c r t (v.grips i).0 effect (v.grips i).2
      (KeepsSlot-call (v.grips i).0 c k (subst (λ m. KeepsSlot (v.grips i).0 m) e (v.grips i).1)).0)
Step-Transition dev inputs s u (spawns i j k e d q) v = keeps (rw q refl)
Step-Transition dev inputs s u (creates i j step k m e f d q) v = keeps (rw q refl)

module _ (dev : Device) (inputs : Inputs) where
  Reached-RunHolds : (s : System) → Reached dev inputs s → RunHolds s.shared.run
  unfolding start_system
  Reached-RunHolds s here = initial_run-RunHolds
  Reached-RunHolds s (onward {t} before step) =
      Transition-RunHolds t.shared.run s.shared.run
        (Step-Transition dev inputs t s step (Reached-Inv dev inputs t before))
        (Reached-RunHolds t before)

  -- However the tasks interleave, whatever requests come and whatever the platform replies:
  -- current_run stays well formed, an active run has a request that db_request_validate accepts and
  -- whose values fit their fields, and the next step of any task begins a run only where none is
  -- active, aborts only a running one, finishes one, or leaves it.
  pub run_safe :
      (s u : System)
      → Reached dev inputs s
      → Step dev inputs s u
      → IsWellFormed s.shared.run
        × (IsActive s.shared.run
            → IsAcceptable s.shared.run.request × FitsFields s.shared.run.request)
        × Transition s.shared.run u.shared.run
  run_safe s u r step =
      let v : RunHolds s.shared.run = Reached-RunHolds s r in
      (
        v.well_formed,
        v.acceptable,
        Step-Transition dev inputs s u step (Reached-Inv dev inputs s r),
      )

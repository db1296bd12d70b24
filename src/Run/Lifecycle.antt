-- ===== src/Run/Lifecycle.antt =====
-- The life of a run under db_run_begin, db_run_abort and db_run_finish.
use dragon_bench.Common.{
  ℕ, ◌<◌, ◌≡◌, refl, ◌↔◌, ◌⊎◌, inr, true, false, Option, none, some, List, [], ◌∷◌, Text,
  text_eq_refl, eq_of_text_eq, arith, length, snprintf, length-snprintf, codes,
}
use dragon_bench.Run.{
  Run, Request, run_idle, running, aborting, run_id_len, result_len, begin, abort, finish,
  result_or_fail,
}

-- What holds of `current_run` between two calls.
pub record IsWellFormed (r : Run) : Type 0 where
  pub id_fits : length r.run_id < run_id_len
  pub result_fits : length r.result < result_len
  pub idle_clear : r.state ≡ run_idle → r.abort_requested ≡ false
  pub running_clear : r.state ≡ running → r.abort_requested ≡ false
  pub aborting_set : r.state ≡ aborting → r.abort_requested ≡ true
  pub running_result : r.state ≡ running → (r.result ≡ codes "running") × (r.ended_ms ≡ 0)
  pub aborting_result : r.state ≡ aborting → (r.result ≡ codes "running") × (r.ended_ms ≡ 0)

pub begin-IsWellFormed : (q : Request) (id : Text) (now : ℕ) → IsWellFormed (begin q id now)
unfolding begin snprintf
begin-IsWellFormed q id now = ground (arith, length-snprintf run_id_len id (omega arith))

pub abort-IsWellFormed : (r : Run) (id : Option Text) → IsWellFormed r → IsWellFormed (abort r id).1
unfolding abort
abort-IsWellFormed r none w = w
abort-IsWellFormed r (some id) w = ground arith

pub finish-IsWellFormed :
    (r : Run) (result : Option Text) (now : ℕ) → IsWellFormed r → IsWellFormed (finish r result now)
unfolding finish
finish-IsWellFormed r result now w =
    ground (arith, length-snprintf result_len (result_or_fail result) (omega arith))

-- A call of the run component.
pub data Call : Type 0 where
  to_begin : Request → Text → ℕ → Call
  to_abort : Option Text → Call
  to_finish : Option Text → ℕ → Call

pub call : Run → Call → Run
call r (to_begin q id now) = begin q id now
call r (to_abort id) = (abort r id).1
call r (to_finish result now) = finish r result now

pub calls : Run → List Call → Run
unfolding call
calls r [] = r
calls r (c ∷ cs) = calls (call r c) cs

-- Any sequence of begins, aborts and finishes keeps a run well formed: its texts fit their fields,
-- the abort flag is clear while it runs and set while it aborts, and until it is complete its result
-- stays "running" and its end time 0.
pub calls-IsWellFormed : (cs : List Call) (r : Run) → IsWellFormed r → IsWellFormed (calls r cs)
unfolding calls call
calls-IsWellFormed [] r w = w
calls-IsWellFormed (to_begin q id now ∷ cs) r w =
    calls-IsWellFormed cs (begin q id now) (begin-IsWellFormed q id now)
calls-IsWellFormed (to_abort id ∷ cs) r w =
    calls-IsWellFormed cs (abort r id).1 (abort-IsWellFormed r id w)
calls-IsWellFormed (to_finish result now ∷ cs) r w =
    calls-IsWellFormed cs (finish r result now) (finish-IsWellFormed r result now w)

-- db_run_abort accepts exactly the identifier of a run in the state RUNNING.
pub abort_iff :
    (r : Run) (id : Text) → ((abort r (some id)).0 ≡ true) ↔ ((r.state ≡ running) × (r.run_id ≡ id))
unfolding abort
abort_iff r id =
    (λ h. ground (arith, eq_of_text_eq r.run_id id), λ h. rw h.1 (ground (arith, text_eq_refl id)))

-- An accepted abort sets the flag and the state and keeps the rest; a refused one changes nothing;
-- and no second abort is accepted before the next begin, whatever identifiers are sent.
pub abort_once :
    (r : Run) (id other : Option Text)
    → let (ok, r') = abort r id in
      ((ok ≡ true)
        × (r' ≡ record r { abort_requested = true; state = aborting })
        × ((abort r' other).0 ≡ false))
      ⊎ ((ok ≡ false) × (r' ≡ r))
unfolding abort
abort_once r none other = inr (refl, refl)
abort_once r (some id) none = ground arith
abort_once r (some id) (some other) = ground arith

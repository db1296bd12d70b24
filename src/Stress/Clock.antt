-- ===== src/Stress/Clock.antt =====
-- The loops end: fuel of a thousand rounds for each millisecond, and one more, is always enough.
use dragon_bench.Common.{
  suc, some, ℕ, zero, suc, ◌+◌, ◌*◌, ◌/◌, ◌%◌, ◌≤◌, ◌<◌, ◌^◌, ◌≡◌, refl, ◌⊎◌, inl, inr, Bool, true,
  false, arith, ltb, ltb→lt,
}
use dragon_bench.Prog.{get_run, timer}
use dragon_bench.Prog.Protocol.{Follows, Follows-branch}
use dragon_bench.Prog.Replay.{Outside, replay}
use dragon_bench.Prog.Time.{Advances, Tracks, Tracks-onwards, Tracks-start, clock-replay}
use dragon_bench.Prog.Clock.{Seen, observe, clock_protocol}
use dragon_bench.Stress.{wait_loop, wait_abortable}

-- What wait_abortable's result says.
abbrev pub Waited : ℕ → Bool → Seen → Type 0
Waited deadline ok t =
    ((ok ≡ true) × (deadline ≤ t.now / 1000)) ⊎ ((ok ≡ false) × (t.abort_seen ≡ true))

wait_loop_lem :
    (fuel deadline : ℕ) (s : Seen)
    → deadline * 1000 < s.now + fuel
    → 0 < fuel
    → Follows clock_protocol (wait_loop fuel deadline) s (Waited deadline)
unfolding wait_loop
wait_loop_lem zero deadline s h p = absurd (omega arith)
wait_loop_lem (suc fuel) deadline s h p = (
  tt,
  λ us later.
      Follows-branch clock_protocol (ltb (us / 1000) deadline) _ _ (observe s timer us)
        (Waited deadline)
        (λ early.
          let before : us / 1000 < deadline = ltb→lt (us / 1000) deadline early in
          (
            tt,
            λ _ _. (
              tt,
              λ run _. (
                tt,
                λ _ _.
                    Follows-branch clock_protocol run.abort_requested _ _
                      (record { now = us; abort_seen = run.abort_requested }) (Waited deadline)
                      (λ e. inr (refl, e))
                      (λ e. (
                        tt,
                        λ _ _.
                            wait_loop_lem fuel deadline
                              (record { now = us; abort_seen = run.abort_requested })
                              (omega (arith, later)) (omega (arith, later, before)),
                      )),
              ),
            ),
          ))
        (λ late. inl (refl, ground arith)),
)

-- Against any outside whose clock advances and whose first reading is a signed 64-bit number,
-- wait_abortable returns on fuel for its duration, of 32 bits and not 0. Where it returns true, a later reading of the timer is the duration or more after the first one, in whole
-- milliseconds; where it returns false, a reading of current_run showed the abort flag set.
pub wait_abortable_returns :
    (o : Outside)
    → Advances o
    → (fuel duration n : ℕ) → 0 < duration
    → duration < 2 ^ 32
    → 1000 * duration < fuel
    → o n timer < 2 ^ 63
    → (ok : Bool) × (k : ℕ) × (replay o n (wait_abortable fuel duration) ≡ some (ok, k))
      × (((ok ≡ true) × ((j : ℕ) × (j < k) × (o n timer / 1000 + duration ≤ o j timer / 1000)))
          ⊎ ((ok ≡ false) × ((j : ℕ) × (j < k) × ((o j get_run).abort_requested ≡ true))))
unfolding wait_abortable
wait_abortable_returns o a fuel duration n p b f g =
    let deadline : ℕ = (o n timer / 1000 + duration) % 2 ^ 64 in
    let exact : deadline ≡ o n timer / 1000 + duration = omega (arith, g) in
    let s : Seen = record { now = o n timer; abort_seen = false } in
    let r =
      clock-replay o a (wait_loop fuel deadline) s (Waited deadline) (suc n)
        (wait_loop_lem fuel deadline s (omega (arith, exact)) (omega arith))
        (Tracks-onwards o a n (record { now = 0; abort_seen = false }) timer
          (Tracks-start o a n)) in
    (r.0, r.1, r.3, waited_since r.0 r.1 r.2 r.4.0 r.4.1 exact)
  where
    waited_since :
        (ok : Bool) (k : ℕ) (t : Seen)
        → Waited ((o n timer / 1000 + duration) % 2 ^ 64) ok t
        → Tracks o k t
        → (o n timer / 1000 + duration) % 2 ^ 64 ≡ o n timer / 1000 + duration
        → ((ok ≡ true) × ((j : ℕ) × (j < k) × (o n timer / 1000 + duration ≤ o j timer / 1000)))
          ⊎ ((ok ≡ false) × ((j : ℕ) × (j < k) × ((o j get_run).abort_requested ≡ true)))
    waited_since ok k t (inr (e, g)) h exact = inr (e, h.flag_seen g)
    waited_since ok k t (inl (e, g)) h exact = inl (
      e,
      elim h.time_seen [
        | inl z ↦ absurd (omega (arith, z, g, exact))
        | inr (j, l, x) ↦ (j, l, omega (arith, x, g, exact))
      ],
    )

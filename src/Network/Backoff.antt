-- ===== src/Network/Backoff.antt =====
-- The station's retry delays.
use native.Mathlib.Nat.{pow-suc}
use dragon_bench.Common.{
  ℕ, zero, suc, ◌+◌, ◌-◌, ◌*◌, ◌^◌, ◌≤◌, ◌≡◌, refl, arith, min, ltb, ◌∙◌, ap, if◌then◌else◌,
}
use dragon_bench.Network.{backoff_loop, sta_retry_delay_ms}

-- From the maximum on the loop leaves at once.
backoff_loop_done : (step delay : ℕ) → 60000 ≤ delay → backoff_loop step delay ≡ delay
unfolding backoff_loop
backoff_loop_done zero delay h = refl
backoff_loop_done (suc step) delay h = ground arith

-- Four doublings are enough, and none of them wraps.
backoff_loop_lem : (step : ℕ) → 4 ≤ step → backoff_loop step 5000 ≡ 80000
unfolding backoff_loop
backoff_loop_lem (suc (suc (suc (suc step)))) h = backoff_loop_done step 80000 (omega arith)
backoff_loop_lem _ h = absurd (omega arith)

sta_retry_delay_ms-late : (attempt : ℕ) → 7 ≤ attempt → sta_retry_delay_ms attempt ≡ 60000
unfolding sta_retry_delay_ms
sta_retry_delay_ms-late attempt h = ground (arith, backoff_loop_lem (attempt - 3) (omega arith))

-- 2 ^ k as `omega` reads it.
pow_pos : (k : ℕ) → 1 ≤ 2 ^ k
pow_pos zero = omega arith
pow_pos (suc k) = omega (arith, pow-suc 2 k, pow_pos k)

sixteen : (a k : ℕ) → a ≡ k + 7 → 2 ^ (a - 3) ≡ 16 * 2 ^ k
sixteen a k e = ap (λ x. 2 ^ x) shifted ∙ four
  where
    shifted : a - 3 ≡ suc (suc (suc (suc k)))
    shifted = omega arith

    four : 2 ^ suc (suc (suc (suc k))) ≡ 16 * 2 ^ k
    four = omega (
      arith,
      pow-suc 2 k,
      pow-suc 2 (suc k),
      pow-suc 2 (suc (suc k)),
      pow-suc 2 (suc (suc (suc k))),
    )

-- The delays are those of the header: 0 for the first three attempts, then 5000 ms doubled at every
-- further attempt up to 60000 ms, at every attempt and with no wrap of the 32-bit product.
pub sta_retry_delay_ms_lem :
    (attempt : ℕ)
    → sta_retry_delay_ms attempt
      ≡ (if ltb attempt 3 then 0 else min 60000 (5000 * 2 ^ (attempt - 3)))
unfolding sta_retry_delay_ms backoff_loop
sta_retry_delay_ms_lem zero = refl
sta_retry_delay_ms_lem (suc zero) = refl
sta_retry_delay_ms_lem (suc (suc zero)) = refl
sta_retry_delay_ms_lem (suc (suc (suc zero))) = refl
sta_retry_delay_ms_lem (suc (suc (suc (suc zero)))) = refl
sta_retry_delay_ms_lem (suc (suc (suc (suc (suc zero))))) = refl
sta_retry_delay_ms_lem (suc (suc (suc (suc (suc (suc zero)))))) = refl
sta_retry_delay_ms_lem (suc (suc (suc (suc (suc (suc (suc n))))))) =
    late (suc (suc (suc (suc (suc (suc (suc n))))))) n (omega arith)
  where
    late :
        (a k : ℕ)
        → a ≡ k + 7
        → sta_retry_delay_ms a ≡ (if ltb a 3 then 0 else min 60000 (5000 * 2 ^ (a - 3)))
    late a k e = ground (arith, sta_retry_delay_ms-late a (omega arith), sixteen a k e, pow_pos k)

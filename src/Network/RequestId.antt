-- ===== src/Network/RequestId.antt =====
-- The serial numbers of configuration requests.
use dragon_bench.Common.{
  ℕ, zero, suc, ◌+◌, ◌-◌, ◌^◌, ◌<◌, ◌≡◌, ◌⊎◌, true, false, arith, ltb, if◌then◌else◌,
}
use dragon_bench.Network.{request_id_next, request_id_is_newer}

-- The identifier after `k` requests.
unfoldable pub after : ℕ → ℕ → ℕ
after zero id = id
after (suc k) id = after k (request_id_next id)

after_lem :
    (k id : ℕ)
    → 0 < id
    → id < 2 ^ 32
    → k < 2 ^ 32 - 1
    → after k id ≡ (if ltb (id + k) (2 ^ 32) then id + k else id + k + 1 - 2 ^ 32)
unfolding after request_id_next
after_lem zero id p h k = ground arith
after_lem (suc k) id p h m = ground (arith, after_lem k (request_id_next id))

-- No identifier of a request is the reserved 0, and each fits 32 bits.
pub request_id_next_range :
    (id : ℕ) → id < 2 ^ 32 → (0 < request_id_next id) × (request_id_next id < 2 ^ 32)
unfolding request_id_next
request_id_next_range id h = ground arith

-- The identifier that k requests make of an identifier of 32 bits that is not 0, for k from 1 below
-- 2^31 - 1, is newer than that identifier, across the wrap too, and that one is not newer than it.
pub after-is_newer :
    (k id : ℕ)
    → 0 < id
    → id < 2 ^ 32
    → 0 < k
    → k < 2 ^ 31 - 1
    → (request_id_is_newer (after k id) id ≡ true) × (request_id_is_newer id (after k id) ≡ false)
unfolding request_id_is_newer
after-is_newer k id p h j m = ground (arith, after_lem k id p h (omega arith))

-- Two identifiers of 32 bits are ordered one way at most, and neither is newer only if they are
-- equal or exactly 2^31 apart.
pub is_newer_trichotomy :
    (a b : ℕ)
    → a < 2 ^ 32
    → b < 2 ^ 32
    → ((a ≡ b) × (request_id_is_newer a b ≡ false) × (request_id_is_newer b a ≡ false))
      ⊎ ((request_id_is_newer a b ≡ true) × (request_id_is_newer b a ≡ false))
      ⊎ ((request_id_is_newer a b ≡ false) × (request_id_is_newer b a ≡ true))
      ⊎ (((a + 2 ^ 31 ≡ b) ⊎ (b + 2 ^ 31 ≡ a))
          × (request_id_is_newer a b ≡ false)
          × (request_id_is_newer b a ≡ false))
unfolding request_id_is_newer
is_newer_trichotomy a b ha hb = ground arith

-- ===== src/Http/Bodies.antt =====
-- read_body receives into a buffer of JSON_BODY_MAX bytes.
use dragon_bench.Common.{
  ℕ, zero, suc, ◌+◌, ◌-◌, ◌≤◌, ◌<◌, ◌≡◌, refl, ◌⊎◌, inl, inr, false, ◌||◌, Option, none, some, [],
  ◌∷◌, ◌++◌, Text, arith, length, length-append, is_empty, leb, ◌==◌,
}
use dragon_bench.Prog.{Call, Reply, recv_body}
use dragon_bench.Prog.Replay.{Outside, replay, Follows-replay}
use dragon_bench.Prog.Protocol.{Protocol, Follows, Follows-branch}
use dragon_bench.Http.{HttpRequest, json_body_max, read_loop, read_text}

-- The state is the number of bytes in the buffer. The server gives no more bytes than were asked
-- for, and the last byte of the buffer stays free for the NUL.
abbrev pub Room : ℕ → Call → Type 0
Room total (recv_body n) = (0 < n) × (total + n < json_body_max)
Room total _ = Unit {0}

abbrev pub AtMost : ℕ → (c : Call) → Reply c → Type 0
AtMost total (recv_body n) bytes = length bytes ≤ n
AtMost total _ r = Unit {0}

abbrev pub filled : ℕ → (c : Call) → Reply c → ℕ
filled total (recv_body n) bytes = total + length bytes
filled total _ r = total

abbrev pub body_protocol : Protocol
body_protocol = record {
  State = ℕ;
  Allowed = Room;
  Answers = AtMost;
  next = filled;
  Exhausted = λ s. ⊥;
}

-- A whole body, or none.
abbrev pub Whole : ℕ → Option Text → ℕ → Type 0
Whole len r total = (r ≡ none) ⊎ ((text : Text) × (r ≡ some text) × (length text ≡ len))

nonempty : (bytes : Text) → is_empty bytes ≡ false → 0 < length bytes
nonempty [] e = cc
nonempty (b ∷ bytes) e = omega arith

read_loop_lem :
    (fuel remaining : ℕ) (got : Text) (len total : ℕ)
    → total ≡ length got
    → total + remaining ≡ len
    → len < json_body_max
    → remaining < fuel
    → Follows body_protocol (read_loop fuel remaining got) total (Whole len)
unfolding read_loop
read_loop_lem zero remaining got len total e s b f = absurd (omega arith)
read_loop_lem (suc fuel) remaining got len total e s b f =
    Follows-branch body_protocol (remaining == 0) _ _ total (Whole len)
      (λ z. inr (got, refl, ground arith))
      (λ nz. (
        ground arith,
        λ bytes h.
            Follows-branch body_protocol (is_empty bytes) _ _ (total + length bytes) (Whole len)
              (λ _. inl refl)
              (λ some_bytes.
                read_loop_lem fuel (remaining - length bytes) (got ++ bytes) len
                  (total + length bytes) (omega (arith, length-append got bytes)) (omega (arith, h))
                  b (omega (arith, h, nonempty bytes some_bytes))),
      ))

-- read_body ends on its fuel, asks for at least one byte at a time and never for more than fits the
-- buffer beside what it has and the NUL, and hands on a text of exactly the announced length or none.
pub read_text_lem :
    (req : HttpRequest) → Follows body_protocol (read_text req) 0 (Whole req.content_len)
unfolding read_text
read_text_lem req =
    Follows-branch body_protocol (req.content_len == 0 || leb json_body_max req.content_len) _ _ 0
      (Whole req.content_len) (λ _. inl refl)
      (λ e.
        read_loop_lem json_body_max req.content_len [] req.content_len 0 refl (omega arith)
          (ground arith) (ground arith))

server_answers :
    (o : Outside)
    → ((n m : ℕ) → length (o n (recv_body m)) ≤ m)
    → (n s : ℕ) (c : Call) → Unit {0}
    → AtMost s c (o n c)
server_answers o h n s (recv_body m) x = h n m
server_answers o h n s _ x = tt

-- Against any server that gives no more bytes than were asked for, read_body's loop returns: no text,
-- or one of exactly the announced length.
pub read_text_returns :
    (o : Outside)
    → ((n m : ℕ) → length (o n (recv_body m)) ≤ m)
    → (req : HttpRequest) (n : ℕ)
    → (r : Option Text) × (k : ℕ) × (replay o n (read_text req) ≡ some (r, k))
      × ((r ≡ none) ⊎ ((text : Text) × (r ≡ some text) × (length text ≡ req.content_len)))
read_text_returns o h req n =
    let r =
      Follows-replay body_protocol o (λ _ _. Unit {0}) (λ s e. e) (server_answers o h)
        (λ _ _ _ _. tt) (read_text req) 0 (Whole req.content_len) n (read_text_lem req) tt in
    (r.0, r.1, r.3, r.4.0)

-- ===== src/Common/Printing.antt =====
-- The printf conversions that the source uses: %X with a fixed width, and %u.
use Prim.Native.Nat.{ℕ, zero, suc, ◌+◌, ◌-◌, ◌*◌, ◌/◌, ◌%◌, ◌^◌, ◌≤◌, ◌<◌}
use native.Mathlib.Nat.{pow-suc}
use mathlib.Core.Path.{◌≡◌, refl, sym, ap, ◌∙◌}
use mathlib.Core.List.{[], ◌∷◌, ◌++◌}
use native.Mathlib.Omega.{arith}
use dragon_bench.Common.Tests.{ltb, if◌then◌else◌}
use dragon_bench.Common.Lists.{length, length-append}
use dragon_bench.Common.Strings.{Text}

-- A digit below 16; `letter` is b'A' for %X and b'a' for %x.
unfoldable pub hex_digit : ℕ → ℕ → ℕ
hex_digit letter d = if ltb d 10 then b'0' + d else letter + (d - 10)

-- "%0<width>x" of a value below 16 ^ width, most significant digit first.
unfoldable pub hex_fixed : ℕ → ℕ → ℕ → Text
hex_fixed letter zero n = []
hex_fixed letter (suc width) n = hex_fixed letter width (n / 16) ++ hex_digit letter (n % 16) ∷ []

pub length-hex_fixed : (letter width n : ℕ) → length (hex_fixed letter width n) ≡ width
unfolding hex_fixed
length-hex_fixed letter zero n = refl
length-hex_fixed letter (suc w) n = omega (
  arith,
  length-append {0} (hex_fixed letter w (n / 16)) (hex_digit letter (n % 16) ∷ []),
  length-hex_fixed letter w (n / 16),
)

-- "%u" of a value below 10 ^ fuel.
unfoldable pub decimal : ℕ → ℕ → Text
decimal zero n = []
decimal (suc fuel) n =
    let rest = decimal fuel (n / 10) in
    if ltb n 10 then (b'0' + n) ∷ [] else rest ++ (b'0' + n % 10) ∷ []

-- uint64_t has at most 20 digits.
unfoldable pub print_u64 : ℕ → Text
unfolding decimal
print_u64 n = decimal 20 n

-- Reading a hexadecimal text back, from the left.
digit_value : ℕ → ℕ → ℕ
digit_value letter c = if ltb c b':' then c - b'0' else c - letter + 10

pub hex_value : ℕ → ℕ → Text → ℕ
hex_value letter acc [] = acc
hex_value letter acc (c ∷ s) = hex_value letter (acc * 16 + digit_value letter c) s

hex_value-snoc :
    (letter acc : ℕ) (s : Text) (c : ℕ)
    → hex_value letter acc (s ++ c ∷ []) ≡ hex_value letter acc s * 16 + digit_value letter c
unfolding hex_value
hex_value-snoc letter acc [] c = refl
hex_value-snoc letter acc (x ∷ s) c = hex_value-snoc letter (acc * 16 + digit_value letter x) s c

digit_value-hex_digit :
    (letter d : ℕ) → b':' ≤ letter → d < 16 → digit_value letter (hex_digit letter d) ≡ d
unfolding digit_value hex_digit
digit_value-hex_digit letter d l h = ground arith

-- A fixed width loses nothing of a value that fits it.
pub hex_value-hex_fixed :
    (letter width n : ℕ)
    → b':' ≤ letter
    → n < 16 ^ width
    → hex_value letter 0 (hex_fixed letter width n) ≡ n
unfolding hex_fixed hex_value
hex_value-hex_fixed letter zero n l h = omega arith
hex_value-hex_fixed letter (suc w) n l h = rw hex_value-snoc (
    omega (
      arith,
      pow-suc 16 w,
      hex_value-hex_fixed letter w (n / 16) l (omega (arith, pow-suc 16 w)),
      digit_value-hex_digit letter (n % 16) l (omega arith),
    ))

pub hex_fixed_injective :
    (letter width a b : ℕ)
    → b':' ≤ letter
    → a < 16 ^ width
    → b < 16 ^ width
    → hex_fixed letter width a ≡ hex_fixed letter width b
    → a ≡ b
hex_fixed_injective letter w a b l ha hb e =
    sym (hex_value-hex_fixed letter w a l ha)
    ∙ ap (hex_value letter 0) e
    ∙ hex_value-hex_fixed letter w b l hb

-- A decimal of a value below 10 ^ k has at most k digits, for k at least 1.
pub length-decimal : (fuel k n : ℕ) → n < 10 ^ suc k → length (decimal fuel n) ≤ suc k
unfolding decimal
length-decimal zero k n h = omega arith
length-decimal (suc fuel) zero n h = ground (arith, pow-suc 10 0)
length-decimal (suc fuel) (suc k) n h = ground (
  arith,
  length-append {0} (decimal fuel (n / 10)) ((b'0' + n % 10) ∷ []),
  length-decimal fuel k (n / 10) (omega (arith, pow-suc 10 (suc k))),
)

-- ===== src/Network/Hostname.antt =====
-- The mDNS hostname.
use dragon_bench.Common.{
  ℕ, zero, suc, ◌+◌, ◌-◌, ◌≤◌, ◌<◌, ◌≡◌, ◌≢◌, refl, ◌⊎◌, inl, inr, Bool, true, false, Option, none,
  some, [], ◌∷◌, map, Text, arith, length, take, drop, take_all, is_empty, leb, ltb, ◌==◌,
  if◌then◌else◌, ◌||◌,
}
use dragon_bench.Network.{lower, copy_lower, choose_source, hostname_from, mdns_hostname}

copy_lower_room :
    (s : Text) (i n room : ℕ)
    → n - 1 - i ≡ room
    → copy_lower s i n ≡ (map lower (take room s), drop room s)
unfolding copy_lower
copy_lower_room [] i n zero h = refl
copy_lower_room [] i n (suc room) h = refl
copy_lower_room (c ∷ s) i n zero h = ground arith
copy_lower_room (c ∷ s) i n (suc room) h =
    ground (arith, copy_lower_room s (i + 1) n room (omega arith))

is_empty-drop : (n : ℕ) (s : Text) → is_empty (drop n s) ≡ leb (length s) n
is_empty-drop zero [] = refl
is_empty-drop zero (c ∷ s) = ground arith
is_empty-drop (suc n) [] = ground arith
is_empty-drop (suc n) (c ∷ s) = ground (arith, is_empty-drop n s)

is_empty_iff : (s : Text) → is_empty s ≡ leb (length s) 0
is_empty_iff [] = refl
is_empty_iff (c ∷ s) = ground arith

-- What db_mdns_hostname makes of the source that it chose: it fails and writes nothing for an empty
-- one or a buffer of no bytes; else it writes the source in lower case, cut to the buffer's size
-- less one, and returns true exactly if nothing was cut.
pub hostname_from_lem :
    (source : Text) (n : ℕ)
    → hostname_from (some source) (some n) ≡ (
        if is_empty source || n == 0
        then (false, none)
        else (ltb (length source) n, some (map lower (take (n - 1) source))))
unfolding hostname_from
hostname_from_lem source n =
    ground (arith, copy_lower_room source 0 n (n - 1) (omega arith), is_empty-drop (n - 1) source)

-- No byte of the text is an ASCII capital.
abbrev pub NoCapitals : Text → Type 0
NoCapitals [] = Unit {0}
NoCapitals (c ∷ s) = ((c < b'A') ⊎ (b'Z' < c)) × NoCapitals s

NoCapitals-lower : (n : ℕ) (s : Text) → NoCapitals (map lower (take n s))
unfolding lower
NoCapitals-lower zero s = tt
NoCapitals-lower (suc n) [] = tt
NoCapitals-lower (suc n) (c ∷ s) = (ground arith, NoCapitals-lower n s)

length-map-lower : (n : ℕ) (s : Text) → length (map lower (take n s)) ≤ n
length-map-lower zero s = omega arith
length-map-lower (suc n) [] = omega arith
length-map-lower (suc n) (c ∷ s) = omega (arith, length-map-lower n s)

-- The second text is the first in lower case: each ASCII capital has become the letter 32 above it in
-- the code, and every other byte is as it was.
abbrev pub IsLowered : Text → Text → Type 0
IsLowered [] out = out ≡ []
IsLowered (c ∷ s) [] = ⊥
IsLowered (c ∷ s) (d ∷ out) =
    (((b'A' ≤ c) × (c ≤ b'Z') × (d ≡ c + 32)) ⊎ (((c < b'A') ⊎ (b'Z' < c)) × (d ≡ c)))
    × IsLowered s out

map-lower-IsLowered : (s : Text) → IsLowered s (map lower s)
unfolding lower
map-lower-IsLowered [] = refl
map-lower-IsLowered (c ∷ s) = (ground arith, map-lower-IsLowered s)

written :
    (source : Text) (n : ℕ) {ok : Bool} {out : Text}
    → hostname_from (some source) (some n) ≡ (ok, some out)
    → (length out < n) × NoCapitals out × ((ok ≡ true) → IsLowered source out)
written source n {ok} {out} h =
    let inside : (0 < n) × (out ≡ map lower (take (n - 1) source)) × (ok ≡ ltb (length source) n) =
      ground (arith, hostname_from_lem source n) in
    (
      rw inside.1 (omega (arith, length-map-lower (n - 1) source)),
      rw inside.1 (NoCapitals-lower (n - 1) source),
      λ t.
          rw (inside.1, take_all (n - 1) source (ground (arith, inside.2)))
            (map-lower-IsLowered source),
    )

-- Whatever db_mdns_hostname writes fits its buffer with the NUL and has no capital letter, and where
-- it returns true it is the whole of the configured name in lower case, or of the device's
-- identifier if the configured name is missing or empty.
pub mdns_hostname_written :
    (configured : Option Text) (device_id : Text) (n : ℕ) {ok : Bool} {out : Text}
    → mdns_hostname configured (some device_id) (some n) ≡ (ok, some out)
    → (length out < n)
      × NoCapitals out
      × ((ok ≡ true)
          → (((configured ≡ none) ⊎ (configured ≡ some [])) × IsLowered device_id out)
            ⊎ ((name : Text) × (configured ≡ some name) × (name ≢ []) × IsLowered name out))
unfolding mdns_hostname choose_source
mdns_hostname_written none device_id n h =
    let w = written device_id n h in (w.0, w.1, λ t. inl (inl refl, w.2 t))
mdns_hostname_written (some []) device_id n h =
    let w = written device_id n h in (w.0, w.1, λ t. inl (inr refl, w.2 t))
mdns_hostname_written (some (c ∷ s)) device_id n h =
    let w = written (c ∷ s) n h in (w.0, w.1, λ t. inr (c ∷ s, refl, λ e. cc, w.2 t))

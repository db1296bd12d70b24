-- ===== src/Network/Naming.antt =====
-- The device's names: what db_network_identity prints, and that they tell devices apart.
use dragon_bench.Common.{
  ℕ, zero, suc, ◌/◌, ◌%◌, ◌≤◌, ◌<◌, ◌≡◌, refl, ap₂, ◌∙◌, inl, inr, Text, [], ◌∷◌, get_or, hex_digit,
  ap, ◌⊎◌, true, false, none, some, ◌++◌, codes, arith, length, snprintf_fits, length-append,
  length-hex_fixed, hex_fixed, hex_fixed_injective, take, drop,
}
use dragon_bench.Network.{Mac, Identity, print_suffix, print_identity, network_identity}

length-print_suffix : (mac : Mac) → length (print_suffix mac) ≡ 6
unfolding print_suffix
length-print_suffix mac = omega (
  arith,
  length-append {0} (hex_fixed b'A' 2 mac.m3) (hex_fixed b'A' 2 mac.m4 ++ hex_fixed b'A' 2 mac.m5),
  length-append {0} (hex_fixed b'A' 2 mac.m4) (hex_fixed b'A' 2 mac.m5),
  length-hex_fixed b'A' 2 mac.m3,
  length-hex_fixed b'A' 2 mac.m4,
  length-hex_fixed b'A' 2 mac.m5,
)

-- A byte as two capital hexadecimal digits, by a table of the digits.
abbrev pub digit_table : Text
digit_table = codes "0123456789ABCDEF"

unfoldable pub hex_byte : ℕ → Text
hex_byte b = get_or digit_table (b / 16) 0 ∷ get_or digit_table (b % 16) 0 ∷ []

table-hex_digit : (d : ℕ) → d < 16 → get_or digit_table d 0 ≡ hex_digit b'A' d
unfolding hex_digit
table-hex_digit zero h = refl
table-hex_digit (suc zero) h = refl
table-hex_digit (suc (suc zero)) h = refl
table-hex_digit (suc (suc (suc zero))) h = refl
table-hex_digit (suc (suc (suc (suc zero)))) h = refl
table-hex_digit (suc (suc (suc (suc (suc zero))))) h = refl
table-hex_digit (suc (suc (suc (suc (suc (suc zero)))))) h = refl
table-hex_digit (suc (suc (suc (suc (suc (suc (suc zero))))))) h = refl
table-hex_digit (suc (suc (suc (suc (suc (suc (suc (suc zero)))))))) h = refl
table-hex_digit (suc (suc (suc (suc (suc (suc (suc (suc (suc zero))))))))) h = refl
table-hex_digit (suc (suc (suc (suc (suc (suc (suc (suc (suc (suc zero)))))))))) h = refl
table-hex_digit (suc (suc (suc (suc (suc (suc (suc (suc (suc (suc (suc zero))))))))))) h = refl
table-hex_digit (suc (suc (suc (suc (suc (suc (suc (suc (suc (suc (suc (suc zero)))))))))))) h =
    refl
table-hex_digit (suc (suc (suc (suc (suc (suc (suc (suc (suc (suc (suc (suc (suc zero)))))))))))))
      h =
    refl
table-hex_digit
      (suc (suc (suc (suc (suc (suc (suc (suc (suc (suc (suc (suc (suc (suc zero)))))))))))))) h =
    refl
table-hex_digit
      (suc (suc (suc (suc (suc (suc (suc (suc (suc (suc (suc (suc (suc (suc (suc zero)))))))))))))))
      h =
    refl
table-hex_digit
      (suc
        (suc (suc (suc (suc (suc (suc (suc (suc (suc (suc (suc (suc (suc (suc (suc n))))))))))))))))
      h =
    absurd (omega arith)

hex_byte_lem : (b : ℕ) → b < 256 → hex_byte b ≡ hex_fixed b'A' 2 b
unfolding hex_byte hex_fixed
hex_byte_lem b h =
    ap₂ (λ c d. c ∷ d ∷ [])
      (table-hex_digit (b / 16) (omega arith) ∙ ap (hex_digit b'A') (omega arith))
      (table-hex_digit (b % 16) (omega arith))

-- The bytes of an address.
abbrev pub AllBytes : Mac → Type 0
AllBytes mac = (mac.m3 < 256) × (mac.m4 < 256) × (mac.m5 < 256)

-- The texts that identify a device: the hexadecimal digits of the fourth, fifth and sixth byte of its
-- address.
abbrev pub suffix_of : Mac → Text
suffix_of mac = hex_byte mac.m3 ++ (hex_byte mac.m4 ++ hex_byte mac.m5)

abbrev pub identity_of : Mac → Identity
identity_of mac = record {
  suffix = suffix_of mac;
  device_id = codes "dragonbench-" ++ suffix_of mac;
  ssid = codes "DragonBench-" ++ suffix_of mac;
}

suffix_of_lem : (mac : Mac) → AllBytes mac → print_suffix mac ≡ suffix_of mac
unfolding print_suffix
suffix_of_lem mac (h3, h4, h5) =
    rw (hex_byte_lem mac.m3 h3, hex_byte_lem mac.m4 h4, hex_byte_lem mac.m5 h5) refl

-- The same with the suffix as the code prints it.
abbrev printed_identity : Mac → Identity
printed_identity mac = record {
  suffix = print_suffix mac;
  device_id = codes "dragonbench-" ++ print_suffix mac;
  ssid = codes "DragonBench-" ++ print_suffix mac;
}

print_identity_lem :
    (mac : Mac) (s d n : ℕ)
    → 7 ≤ s
    → 19 ≤ d
    → 33 ≤ n
    → print_identity mac s d n ≡ (true, some (printed_identity mac))
unfolding print_identity
print_identity_lem mac s d n hs hd hn =
    rw (snprintf_fits s (print_suffix mac) (omega (arith, length-print_suffix mac))) (
      ground (
        arith,
        length-print_suffix mac,
        snprintf_fits d (codes "dragonbench-" ++ print_suffix mac)
            (omega (arith, length-print_suffix mac)),
        snprintf_fits n (codes "DragonBench-" ++ print_suffix mac)
            (omega (arith, length-print_suffix mac)),
      ))

printed_identity_lem : (mac : Mac) → AllBytes mac → printed_identity mac ≡ identity_of mac
printed_identity_lem mac h =
    ap
      (λ (t : Text). record {
        suffix = t;
        device_id = codes "dragonbench-" ++ t;
        ssid = codes "DragonBench-" ++ t;
      })
      (suffix_of_lem mac h)

network_identity_cases :
    (mac : Mac) (s d n : ℕ)
    → ((7 ≤ s)
        × (19 ≤ d)
        × (33 ≤ n)
        × (network_identity (some mac) (some s) (some d) (some n)
            ≡ (true, some (printed_identity mac))))
      ⊎ (((s < 7) ⊎ (d < 19) ⊎ (n < 33))
          × (network_identity (some mac) (some s) (some d) (some n) ≡ (false, none)))
unfolding network_identity
network_identity_cases mac s d n = ground (arith, print_identity_lem mac s d n)

-- With buffers of the sizes that the header names, db_network_identity returns true and writes the
-- six capital hexadecimal digits of the fourth, fifth and sixth byte of the address, alone and behind
-- the two prefixes, none of them cut; with a smaller buffer it returns false and writes nothing.
pub network_identity_lem :
    (mac : Mac) (s d n : ℕ)
    → AllBytes mac
    → ((7 ≤ s)
        × (19 ≤ d)
        × (33 ≤ n)
        × (network_identity (some mac) (some s) (some d) (some n) ≡ (true, some (identity_of mac))))
      ⊎ (((s < 7) ⊎ (d < 19) ⊎ (n < 33))
          × (network_identity (some mac) (some s) (some d) (some n) ≡ (false, none)))
network_identity_lem mac s d n h = elim (network_identity_cases mac s d n) [
  | inl (hs, hd, hn, e) ↦
      inl (hs, hd, hn, e ∙ ap (λ (x : Identity). (true, some x)) (printed_identity_lem mac h))
  | inr failed ↦ inr failed
]

-- Two devices whose addresses consist of bytes have one device_id only if the last three bytes of
-- their addresses agree.
pub device_id_injective :
    (a b : Mac)
    → (a.m3 < 256) × (a.m4 < 256) × (a.m5 < 256)
    → (b.m3 < 256) × (b.m4 < 256) × (b.m5 < 256)
    → (printed_identity a).device_id ≡ (printed_identity b).device_id
    → (a.m3 ≡ b.m3) × (a.m4 ≡ b.m4) × (a.m5 ≡ b.m5)
unfolding print_suffix hex_fixed
device_id_injective a b ha hb e = (
  hex_fixed_injective b'A' 2 a.m3 b.m3 (omega arith) ha.0 hb.0 (ap (λ t. take 2 (drop 12 t)) e),
  hex_fixed_injective b'A' 2 a.m4 b.m4 (omega arith) ha.1 hb.1 (ap (λ t. take 2 (drop 14 t)) e),
  hex_fixed_injective b'A' 2 a.m5 b.m5 (omega arith) ha.2 hb.2 (ap (λ t. take 2 (drop 16 t)) e),
)

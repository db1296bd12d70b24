-- ===== src/Run/Names.antt =====
-- The names of the workloads: printing and parsing.
use dragon_bench.Common.{
  ℕ, zero, suc, ◌+◌, ◌<◌, ◌≡◌, refl, ◌↔◌, true, some, List, [], ◌∷◌, Text, text_eq, eq_of_text_eq,
  arith, Bool-cases, get_or, length, ap, sym, ◌∙◌, inl, inr,
}
use dragon_bench.Run.{
  Workload, names, workload_of, workload_supported, workload_name, parse_from, workload_parse,
  workload_count,
}

-- What the loop finds stands in the table at an index that it passed.
parse_from_sound :
    (name : Text) (i : ℕ) (ns : List Text) {w : Workload}
    → parse_from name i ns ≡ some w
    → (j : ℕ) × (j < length ns) × (get_or ns j [] ≡ name) × (w ≡ workload_of (i + j))
unfolding parse_from
parse_from_sound name i [] h = cc
parse_from_sound name i (n ∷ ns) {w} h = elim (Bool-cases (text_eq name n)) [
  | inl e ↦ (0, omega arith, sym (eq_of_text_eq name n e), ground arith)
  | inr e ↦
      let (j, lt, found, same) = parse_from_sound name (i + 1) ns {w = w} (ground arith) in
      (suc j, omega arith, found, same ∙ ap workload_of (omega arith))
]

-- The table holds the name of each supported workload at its number.
table :
    (j : ℕ)
    → j < 11
    → (workload_name (workload_of j) ≡ get_or names j [])
      × (workload_supported (workload_of j) ≡ true)
unfolding workload_name workload_supported
table zero h = (refl, refl)
table (suc zero) h = (refl, refl)
table (suc (suc zero)) h = (refl, refl)
table (suc (suc (suc zero))) h = (refl, refl)
table (suc (suc (suc (suc zero)))) h = (refl, refl)
table (suc (suc (suc (suc (suc zero))))) h = (refl, refl)
table (suc (suc (suc (suc (suc (suc zero)))))) h = (refl, refl)
table (suc (suc (suc (suc (suc (suc (suc zero))))))) h = (refl, refl)
table (suc (suc (suc (suc (suc (suc (suc (suc zero)))))))) h = (refl, refl)
table (suc (suc (suc (suc (suc (suc (suc (suc (suc zero))))))))) h = (refl, refl)
table (suc (suc (suc (suc (suc (suc (suc (suc (suc (suc zero)))))))))) h = (refl, refl)
table (suc (suc (suc (suc (suc (suc (suc (suc (suc (suc (suc j))))))))))) h = absurd (omega arith)

parse-name :
    (w : Workload)
    → workload_supported w ≡ true
    → workload_parse (some (workload_name w)) true ≡ some w
unfolding workload_parse workload_name workload_supported
parse-name workload_count h = cc
parse-name _ h = refl

-- A text is parsed as a workload exactly when that workload is supported and the text is its name.
pub workload_parse_iff :
    (t : Text) (w : Workload)
    → (workload_parse (some t) true ≡ some w)
      ↔ ((workload_supported w ≡ true) × (workload_name w ≡ t))
workload_parse_iff t w = (to, from)
  where
    to :
        workload_parse (some t) true ≡ some w
        → (workload_supported w ≡ true) × (workload_name w ≡ t)
    to h =
        let (j, lt, found, same) =
          parse_from_sound t 0 names {w = w} (unfold workload_parse in h) in
        let here : w ≡ workload_of j = same ∙ ap workload_of (omega arith) in
        let (named, supported) = table j lt in (rw here supported, rw here (named ∙ found))

    from :
        (workload_supported w ≡ true) × (workload_name w ≡ t)
        → workload_parse (some t) true ≡ some w
    from h = rw (← h.1) (parse-name w h.0)

-- ===== src/Pages/Display.antt =====
-- What the dashboard of firmware/targets/esp32s3/main/main.c shows of the device's status.
use dragon_bench.Common.{
  ℕ, ◌+◌, ◌*◌, ◌≤◌, ◌≡◌, refl, ◌↔◌, inl, inr, Bool, true, false, Option, none, some, List, [], ◌∷◌,
  codes, arith, Bool-cases,
}
use dragon_bench.Run.{Run, workload_name}
use dragon_bench.Http.Runs.{run_state_name}
use dragon_bench.Http.Pages.{Booted}
use dragon_bench.Pages.Rows.{Label}
use dragon_bench.Pages.Dashboard.{
  Tile, metric_tile, fmt_uptime, unreachable, live, freshness, any_answer, worst_over, stale_ms,
  connection_word,
}

-- The tiles of the device's state.
abbrev pub tiles_of : Booted → Run → ℕ → Bool → List Tile
tiles_of b run uptime connected =
    metric_tile (codes "Target") (some b.config.target_name) none
    ∷ metric_tile (codes "Firmware") (some b.config.firmware_version) none
    ∷ metric_tile (codes "Image class") (some (codes "characterization")) none
    ∷ metric_tile (codes "Run state") (some (run_state_name run.state))
        (some (run_state_name run.state))
    ∷ metric_tile (codes "Workload") (some (workload_name run.request.workload)) none
    ∷ metric_tile (codes "Result") (some run.result) (some run.result)
    ∷ metric_tile (codes "Uptime") (some (fmt_uptime (some uptime))) none
    ∷ metric_tile (codes "Reset reason") (some b.reset_reason_text) none
    ∷ metric_tile (codes "Previous reboot run") (some b.previous_reboot_run_id) none
    ∷ metric_tile (codes "Network") (connection_word (some connected))
        (connection_word (some connected))
    ∷ metric_tile (codes "Run ID") (some run.run_id) none
    ∷ metric_tile (codes "Measurement authority") (some (codes "external_bench_equipment")) none
    ∷ []

-- The labels of a device that can drive neither.
abbrev pub absent : Label
absent = record { text = codes "ABSENT"; status = codes "unsupported" }

-- Each endpoint answered, and not longer ago than that.
abbrev pub AllWithin : ℕ → ℕ → List (Option ℕ) → Type 0
AllWithin now limit [] = Unit {0}
AllWithin now limit (none ∷ ls) = ⊥
AllWithin now limit (some t ∷ ls) = (now ≤ t + limit) × AllWithin now limit ls

worst_over-AllWithin :
    (now limit : ℕ) (ls : List (Option ℕ))
    → (worst_over now limit ls ≡ false) ↔ AllWithin now limit ls
worst_over-AllWithin now limit [] = (λ _. tt, λ _. refl)
worst_over-AllWithin now limit (none ∷ ls) = (λ e. cc, λ h. absurd h)
worst_over-AllWithin now limit (some t ∷ ls) =
    let rest = worst_over-AllWithin now limit ls in
    (λ e. (ground arith, rest.0 (ground arith)), λ h. ground (arith, h.0, rest.1 h.1))

-- A larger limit is kept where a smaller one is.
AllWithin-weaken :
    (now a c : ℕ) (ls : List (Option ℕ)) → AllWithin now a ls → AllWithin now (a + c) ls
AllWithin-weaken now a c [] h = tt
AllWithin-weaken now a c (none ∷ ls) h = h
AllWithin-weaken now a c (some t ∷ ls) h = (omega (arith, h.0), AllWithin-weaken now a c ls h.1)

any_answer-within :
    (now limit : ℕ) (l : Option ℕ) (ls : List (Option ℕ))
    → AllWithin now limit (l ∷ ls)
    → any_answer (l ∷ ls) ≡ true
any_answer-within now limit none ls h = absurd h
any_answer-within now limit (some t) ls h = refl

-- No endpoint ever answered.
abbrev pub AllSilent : List (Option ℕ) → Type 0
AllSilent [] = Unit {0}
AllSilent (l ∷ ls) = (l ≡ none) × AllSilent ls

any_answer-AllSilent : (ls : List (Option ℕ)) → (any_answer ls ≡ false) ↔ AllSilent ls
any_answer-AllSilent [] = (λ _. tt, λ _. refl)
any_answer-AllSilent (none ∷ ls) =
    let rest = any_answer-AllSilent ls in (λ e. (refl, rest.0 e), λ h. rest.1 h.1)
any_answer-AllSilent (some t ∷ ls) = (λ e. cc, λ h. cc h.0)

freshness_cases :
    (now : ℕ) (l : Option ℕ) (ls : List (Option ℕ))
    → ((freshness now (l ∷ ls) ≡ live) ↔ AllWithin now stale_ms (l ∷ ls))
      × ((freshness now (l ∷ ls) ≡ unreachable) ↔ (any_answer (l ∷ ls) ≡ false))
unfolding freshness
freshness_cases now l ls = elim (Bool-cases (any_answer (l ∷ ls))) [
  | inr a ↦
      rw a (((λ e. cc), λ h. cc (a, any_answer-within now stale_ms l ls h)), (λ _. refl, λ _. refl))
  | inl a ↦ elim (Bool-cases (worst_over now stale_ms (l ∷ ls))) [
    | inl e ↦ elim (Bool-cases (worst_over now (stale_ms * 3) (l ∷ ls))) [
      | inl f ↦
          rw (a, f)
            (
              ((λ x. cc), λ h. cc (e, (worst_over-AllWithin now stale_ms (l ∷ ls)).1 h)),
              (λ x. cc, λ x. cc),
            )
      | inr f ↦
          rw (a, f, e)
            (
              ((λ x. cc), λ h. cc (e, (worst_over-AllWithin now stale_ms (l ∷ ls)).1 h)),
              (λ x. cc, λ x. cc),
            )
    ]
    | inr e ↦
        let within : AllWithin now stale_ms (l ∷ ls) =
          (worst_over-AllWithin now stale_ms (l ∷ ls)).0 e in
        let f : worst_over now (stale_ms * 3) (l ∷ ls) ≡ false =
          (worst_over-AllWithin now (stale_ms * 3) (l ∷ ls)).1
            (AllWithin-weaken now stale_ms 10000 (l ∷ ls) within) in
        rw (a, f, e) ((λ _. within, λ _. refl), (λ x. cc, λ x. cc))
  ]
]

-- The dashboard says that it is live exactly if each endpoint answered in the last five seconds, and
-- that it is unreachable exactly if none ever answered, for the times of the last good answers of
-- any list of endpoints that is not empty.
pub freshness_iff :
    (now : ℕ) (l : Option ℕ) (ls : List (Option ℕ))
    → ((freshness now (l ∷ ls) ≡ live) ↔ AllWithin now 5000 (l ∷ ls))
      × ((freshness now (l ∷ ls) ≡ unreachable) ↔ AllSilent (l ∷ ls))
freshness_iff now l ls =
    let cases = freshness_cases now l ls in
    let silent = any_answer-AllSilent (l ∷ ls) in
    (cases.0, (λ e. silent.0 (cases.1.0 e), λ h. cases.1.1 (silent.1 h)))

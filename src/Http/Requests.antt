-- ===== src/Http/Requests.antt =====
-- What runs_post lets through to a run, and the identifiers that it gives.
use dragon_bench.Common.{
  ℕ, ◌<◌, ◌^◌, ◌≡◌, sym, ap, ◌∙◌, inl, inr, true, Option, some, ◌∷◌, ◌++◌, Text, codes, arith,
  length, length-append, take, drop, take-length_append, drop-length_append, snprintf_fits,
  length-snprintf, hex_fixed, length-hex_fixed, hex_fixed_injective, Bool-cases,
}
use dragon_bench.Run.{run_id_len, host_len}
use dragon_bench.Run.Validate.{IsAcceptable, FitsFields, request_validate_iff}
use dragon_bench.Json.{Item, string_item, number_item, Body}
use dragon_bench.Http.Drafts.{IsDrawn, draft_request-IsDrawn}
use dragon_bench.Http.Runs.{
  Draft, take_workload, take_duration, take_host, take_port, take_rate, draft_request,
  validate_draft, print_run_id, item,
}

take_workload-FitsFields : (i : Option Item) → FitsFields (take_workload i).request
unfolding take_workload
take_workload-FitsFields (some (string_item name)) = ground arith
take_workload-FitsFields _ = omega arith

take_duration-FitsFields :
    (i : Option Item) (d : Draft) → FitsFields (d.request) → FitsFields (take_duration i d).request
unfolding take_duration
take_duration-FitsFields (some (number_item n)) d f = ground arith
take_duration-FitsFields _ d f = f

take_host-FitsFields :
    (i : Option Item) (d : Draft) → FitsFields (d.request) → FitsFields (take_host i d).request
unfolding take_host
take_host-FitsFields (some (string_item h)) d f =
    ground (arith, length-snprintf host_len h (omega arith))
take_host-FitsFields _ d f = f

take_port-FitsFields :
    (i : Option Item) (d : Draft) → FitsFields (d.request) → FitsFields (take_port i d).request
unfolding take_port
take_port-FitsFields (some (number_item n)) d f = ground arith
take_port-FitsFields _ d f = f

take_rate-FitsFields :
    (i : Option Item) (d : Draft) → FitsFields (d.request) → FitsFields (take_rate i d).request
unfolding take_rate
take_rate-FitsFields (some (number_item n)) d f = ground arith
take_rate-FitsFields _ d f = f

draft_request-FitsFields : (body : Option Body) → FitsFields (draft_request body).request
unfolding draft_request
draft_request-FitsFields body =
    let d1 : Draft = take_workload (item body (codes "workload")) in
    let d2 : Draft = take_duration (item body (codes "duration_ms")) d1 in
    let d3 : Draft = take_host (item body (codes "host")) d2 in
    let d4 : Draft = take_port (item body (codes "port")) d3 in
    take_rate-FitsFields (item body (codes "rate_bps")) d4 (
      take_port-FitsFields (item body (codes "port")) d3 (
        take_host-FitsFields (item body (codes "host")) d2 (
          take_duration-FitsFields (item body (codes "duration_ms")) d1
            (take_workload-FitsFields (item body (codes "workload"))))))

-- A body that runs_post accepts makes a request that db_request_validate accepts, whose numbers and
-- host fit their fields, and that has what the body says: the workload that the body names, each
-- number of the body as it is or the default where there is none, and the whole host of the body, or
-- none where the body has none or one of 254 bytes or more.
pub validate_draft_sound :
    (body : Option Body)
    → (validate_draft (draft_request body)).0 ≡ true
    → IsAcceptable (draft_request body).request
      × FitsFields (draft_request body).request
      × IsDrawn body (draft_request body).request
unfolding validate_draft
validate_draft_sound body h = elim (Bool-cases (draft_request body).parsed) [
  | inl e ↦ (
    (request_validate_iff (draft_request body).request (codes "invalid workload") 96).0 (rw e at h),
    draft_request-FitsFields body,
    draft_request-IsDrawn body e,
  )
  | inr e ↦ absurd (ground arith)
]

unfoldable pub run_id_text : ℕ → ℕ → Text
run_id_text nonce number = hex_fixed b'a' 8 nonce ++ (b'-' ∷ hex_fixed b'a' 8 number)

length-run_id_text : (nonce number : ℕ) → length (run_id_text nonce number) ≡ 17
unfolding run_id_text
length-run_id_text nonce number =
    length-append {0} (hex_fixed b'a' 8 nonce) (b'-' ∷ hex_fixed b'a' 8 number)
    ∙ grind (arith, length-hex_fixed b'a' 8 nonce, length-hex_fixed b'a' 8 number)

pub print_run_id_whole : (nonce number : ℕ) → print_run_id nonce number ≡ run_id_text nonce number
unfolding print_run_id run_id_text
print_run_id_whole nonce number =
    snprintf_fits run_id_len (run_id_text nonce number)
      (grind (arith, length-run_id_text nonce number))

pub length-print_run_id : (nonce number : ℕ) → length (print_run_id nonce number) ≡ 17
length-print_run_id nonce number =
    ap length (print_run_id_whole nonce number) ∙ length-run_id_text nonce number

-- The parts of an identifier.
take-run_id_text : (n m : ℕ) → take 8 (run_id_text n m) ≡ hex_fixed b'a' 8 n
unfolding run_id_text
take-run_id_text n m =
    take-length_append 8 (hex_fixed b'a' 8 n) (b'-' ∷ hex_fixed b'a' 8 m)
      (length-hex_fixed b'a' 8 n)

drop-run_id_text : (n m : ℕ) → drop 8 (run_id_text n m) ≡ b'-' ∷ hex_fixed b'a' 8 m
unfolding run_id_text
drop-run_id_text n m =
    drop-length_append 8 (hex_fixed b'a' 8 n) (b'-' ∷ hex_fixed b'a' 8 m)
      (length-hex_fixed b'a' 8 n)

run_id_text_injective :
    (nonce number nonce' number' : ℕ)
    → nonce < 2 ^ 32
    → number < 2 ^ 32
    → nonce' < 2 ^ 32
    → number' < 2 ^ 32
    → run_id_text nonce number ≡ run_id_text nonce' number'
    → (nonce ≡ nonce') × (number ≡ number')
run_id_text_injective nonce number nonce' number' n1 n2 n3 n4 e = (
  hex_fixed_injective b'a' 8 nonce nonce' (omega arith) n1 n3
      (sym (take-run_id_text nonce number) ∙ ap (take 8) e ∙ take-run_id_text nonce' number'),
  hex_fixed_injective b'a' 8 number number' (omega arith) n2 n4 (
      ap (drop 1)
        (sym (drop-run_id_text nonce number) ∙ ap (drop 8) e ∙ drop-run_id_text nonce' number')),
)

-- Two runs, their nonces and numbers of 32 bits, have the same identifier only if the boot's nonce
-- and the run's number are the same: the buffer of run_id holds the whole text.
pub print_run_id_injective :
    (nonce number nonce' number' : ℕ)
    → nonce < 2 ^ 32
    → number < 2 ^ 32
    → nonce' < 2 ^ 32
    → number' < 2 ^ 32
    → print_run_id nonce number ≡ print_run_id nonce' number'
    → (nonce ≡ nonce') × (number ≡ number')
print_run_id_injective nonce number nonce' number' n1 n2 n3 n4 e =
    run_id_text_injective nonce number nonce' number' n1 n2 n3 n4
      (sym (print_run_id_whole nonce number) ∙ e ∙ print_run_id_whole nonce' number')

-- ===== src/Http/Routing.antt =====
-- The way from the identifier that runs_post answers to run_get.
use dragon_bench.Common.{
  ℕ, zero, suc, ◌/◌, ◌%◌, ◌<◌, ◌≡◌, refl, ap, Bool, true, false, not, ◌&&◌, Option, none, some,
  List, [], ◌∷◌, ◌++◌, Text, codes, arith, length, length-append, all, ◌==◌, Bool-cases, inl, inr,
  hex_digit, hex_fixed, snprintf_fits, if◌then◌else◌,
}
use dragon_bench.Run.{Request, run_id_len, begin}
use dragon_bench.Http.{path_run_id}
use dragon_bench.Http.Runs.{print_run_id}
use dragon_bench.Http.Requests.{run_id_text, print_run_id_whole, length-print_run_id}
use dragon_bench.Http.Paths.{IsSegment, IsPlain, is_post, path_run_id-path}
use dragon_bench.Http.Server.{Method, http_get, http_post, Route, run, Entry, routes}

abbrev pub same_method : Method → Method → Bool
same_method http_get m = not (is_post m)
same_method http_post m = is_post m

-- The server's choice: the first route of the table with the method whose template matches.
unfoldable pub first_route : (Text → Text → Bool) → Method → Text → List Entry → Option Route
first_route matches method uri [] = none
first_route matches method uri (e ∷ es) =
    let rest = first_route matches method uri es in
    if same_method method e.method && matches e.uri uri then some e.route else rest

abbrev pub run_uri : ℕ → ℕ → Text
run_uri nonce number = codes "/api/v1/runs/" ++ print_run_id nonce number

all-append : (p : ℕ → Bool) (s t : Text) → all p s ≡ true → all p t ≡ true → all p (s ++ t) ≡ true
all-append p [] t h k = k
all-append p (c ∷ s) t h k = ground (arith, all-append p s t)

hex_fixed-IsSegment : (width n : ℕ) → IsSegment (hex_fixed b'a' width n)
unfolding hex_fixed IsSegment
hex_fixed-IsSegment zero n = refl
hex_fixed-IsSegment (suc w) n =
    all-append (λ c. not (c == b'/')) (hex_fixed b'a' w (n / 16)) (hex_digit b'a' (n % 16) ∷ [])
      (hex_fixed-IsSegment w (n / 16)) (unfold hex_digit in ground arith)

print_run_id-IsSegment : (nonce number : ℕ) → IsSegment (print_run_id nonce number)
unfolding IsSegment run_id_text
print_run_id-IsSegment nonce number = rw (print_run_id_whole nonce number) (
    all-append (λ c. not (c == b'/')) (hex_fixed b'a' 8 nonce) (b'-' ∷ hex_fixed b'a' 8 number)
      (hex_fixed-IsSegment 8 nonce) (hex_fixed-IsSegment 8 number))

length-run_uri : (nonce number : ℕ) → length (run_uri nonce number) ≡ 30
length-run_uri nonce number = omega (
  arith,
  length-append {0} (codes "/api/v1/runs/") (print_run_id nonce number),
  length-print_run_id nonce number,
)

begin-run_id :
    (q : Request) (nonce number now : ℕ)
    → (begin q (print_run_id nonce number) now).run_id ≡ print_run_id nonce number
unfolding begin
begin-run_id q nonce number now =
    snprintf_fits run_id_len (print_run_id nonce number)
      (omega (arith, length-print_run_id nonce number))

-- The server's match function is a parameter. As documented for httpd_uri_match_wildcard, a template
-- that ends with `*` matches each path that begins with what is before, and a template that ends with
-- neither `*` nor `?` matches itself alone.
module _ (matches : Text → Text → Bool)
    (plain_matches : (template uri : Text)
      → IsPlain template
      → matches template uri ≡ true
      → template ≡ uri)
    (star_matches : (start rest : Text) → matches (start ++ codes "*") (start ++ rest) ≡ true) where
  get_unmatched :
      (template : Text) (nonce number : ℕ)
      → IsPlain template
      → length template < 30
      → matches template (run_uri nonce number) ≡ false
  get_unmatched template nonce number p short =
      elim (Bool-cases (matches template (run_uri nonce number))) [
        | inl e ↦ absurd (
            omega (
              arith,
              ap length (plain_matches template (run_uri nonce number) p e),
              length-run_uri nonce number,
            ))
        | inr e ↦ e
      ]

  -- With a server where `*` at the end of a template is a wildcard and a template that ends with
  -- neither `*` nor `?` matches itself alone, a GET of the path of the run that runs_post began
  -- goes to run_get, which reads from the path the identifier that the run has in current_run,
  -- whatever the boot's nonce, the run's number, its request and its start.
  pub run_uri-route :
      (nonce number : ℕ) (q : Request) (now : ℕ)
      → (first_route matches http_get (run_uri nonce number) routes ≡ some run)
        × (path_run_id (run_uri nonce number) false run_id_len
            ≡ some (begin q (print_run_id nonce number) now).run_id)
  unfolding first_route routes IsPlain
  run_uri-route nonce number q now = (
    rw
        (
          get_unmatched (codes "/") nonce number refl (omega arith),
          get_unmatched (codes "/setup") nonce number refl (omega arith),
          get_unmatched (codes "/api/v1/device") nonce number refl (omega arith),
          get_unmatched (codes "/api/v1/status") nonce number refl (omega arith),
          get_unmatched (codes "/api/v1/sensors") nonce number refl (omega arith),
          get_unmatched (codes "/api/v1/workloads") nonce number refl (omega arith),
          star_matches (codes "/api/v1/runs/") (print_run_id nonce number),
        )
        refl,
    rw (begin-run_id q nonce number now)
        (path_run_id-path (print_run_id nonce number) run_id_len
          (print_run_id-IsSegment nonce number) (omega (arith, length-print_run_id nonce number))
          (omega (arith, length-print_run_id nonce number))).0,
  )

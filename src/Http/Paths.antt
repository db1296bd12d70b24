-- ===== src/Http/Paths.antt =====
-- path_run_id, which takes the identifier out of a request's path, and the routes that reach it.
use dragon_bench.Common.{
  ℕ, ◌<◌, ◌≡◌, refl, ap, Bool, true, false, not, ◌&&◌, ◌||◌, Option, none, some, List, [], ◌∷◌,
  ◌++◌, Text, codes, arith, length, length-append, drop, all, ◌==◌, Bool-cases, inl, inr,
}
use dragon_bench.Http.{starts_with, before, bounded_id, path_run_id}
use dragon_bench.Http.Runs.{print_run_id}
use dragon_bench.Http.Requests.{length-print_run_id}
use dragon_bench.Http.Server.{Method, http_get, http_post, Entry, routes}

-- A text with no slash.
unfoldable pub IsSegment : Text → Type 0
IsSegment id = all (λ c. not (c == b'/')) id ≡ true

before-segment :
    (id : Text) → IsSegment id → before (codes "/abort") (id ++ codes "/abort") ≡ some id
unfolding before starts_with IsSegment
before-segment [] h = refl
before-segment (c ∷ id) h = ground (arith, before-segment id)

-- An identifier that has no slash, is not empty and fits the buffer is read back from the path of
-- its run and from the path of its abort.
pub path_run_id-path :
    (id : Text) (size : ℕ)
    → IsSegment id
    → 0 < length id
    → length id < size
    → (path_run_id (codes "/api/v1/runs/" ++ id) false size ≡ some id)
      × (path_run_id (codes "/api/v1/runs/" ++ (id ++ codes "/abort")) true size ≡ some id)
unfolding path_run_id bounded_id
path_run_id-path [] size s lo hi = absurd (omega arith)
path_run_id-path (c ∷ id) size s lo hi =
    (ground arith, rw (before-segment (c ∷ id) s) (ground arith))

bounded_id_fits :
    (found : Option Text) (size : ℕ) (id : Text)
    → bounded_id found size ≡ some id
    → (0 < length id) × (length id < size)
unfolding bounded_id
bounded_id_fits none size id h = cc
bounded_id_fits (some []) size id h = cc
bounded_id_fits (some (c ∷ t)) size id h = ground arith

-- Whatever the path, the identifier that path_run_id copies is not empty and leaves room for its
-- terminator in the buffer.
pub path_run_id_fits :
    (uri : Text) (abort_path : Bool) (size : ℕ) (id : Text)
    → path_run_id uri abort_path size ≡ some id
    → (0 < length id) × (length id < size)
unfolding path_run_id
path_run_id_fits uri true size id h =
    bounded_id_fits (before (codes "/abort") (drop 13 uri)) size id h
path_run_id_fits uri false size id h = bounded_id_fits (some (drop 13 uri)) size id h

-- The path of a run's abort.
abbrev pub abort_uri : ℕ → ℕ → Text
abort_uri nonce number = codes "/api/v1/runs/" ++ (print_run_id nonce number ++ codes "/abort")

-- A template that ends with neither `*` nor `?`.
unfoldable pub IsPlain : Text → Type 0
IsPlain [] = Unit {0}
IsPlain (c ∷ []) = (c == b'*' || c == b'?') ≡ false
IsPlain (c ∷ d ∷ t) = IsPlain (d ∷ t)

abbrev pub is_post : Method → Bool
is_post http_get = false
is_post http_post = true

-- No route of a method takes a path.
unfoldable pub unrouted : (Text → Text → Bool) → Method → Text → List Entry → Bool
unrouted matches method uri [] = true
unrouted matches http_get uri (e ∷ es) =
    unrouted matches http_get uri es && (is_post e.method || not (matches e.uri uri))
unrouted matches http_post uri (e ∷ es) =
    unrouted matches http_post uri es && (not (is_post e.method) || not (matches e.uri uri))

length-abort_uri : (nonce number : ℕ) → length (abort_uri nonce number) ≡ 36
length-abort_uri nonce number = omega (
  arith,
  length-append {0} (codes "/api/v1/runs/") (print_run_id nonce number ++ codes "/abort"),
  length-append {0} (print_run_id nonce number) (codes "/abort"),
  length-print_run_id nonce number,
)

-- The server's match function is a parameter. As documented for httpd_uri_match_wildcard, `*` and
-- `?` mean something only at the end of a template; any other template matches itself alone.
module _ (matches : Text → Text → Bool)
    (plain_matches : (template uri : Text)
      → IsPlain template
      → matches template uri ≡ true
      → template ≡ uri) where
  post_unmatched :
      (template : Text) (nonce number : ℕ)
      → IsPlain template
      → length template < 36
      → matches template (abort_uri nonce number) ≡ false
  post_unmatched template nonce number p short =
      elim (Bool-cases (matches template (abort_uri nonce number))) [
        | inl e ↦ absurd (
            omega (
              arith,
              ap length (plain_matches template (abort_uri nonce number) p e),
              length-abort_uri nonce number,
            ))
        | inr e ↦ e
      ]

  -- With a server where a template that ends with neither `*` nor `?` matches itself alone, no POST
  -- route of the table takes the path of the abort of a run, whatever the run's identifier.
  pub abort_uri-unrouted :
      (nonce number : ℕ) → unrouted matches http_post (abort_uri nonce number) routes ≡ true
  unfolding unrouted routes IsPlain
  abort_uri-unrouted nonce number =
      rw
        (
          post_unmatched (codes "/api/v1/runs") nonce number refl (omega arith),
          post_unmatched (codes "/api/v1/runs/*/abort") nonce number refl (omega arith),
          post_unmatched (codes "/api/v1/network/sta") nonce number refl (omega arith),
        )
        refl

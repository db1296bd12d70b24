-- ===== src/Pages/Requests.antt =====
-- The requests of the two pages of firmware/targets/esp32s3/main/main.c, and the routes of start_http.
use dragon_bench.Common.{
  ◌≡◌, refl, arith, inl, inr, Bool, true, false, not, ◌&&◌, ◌||◌, ◌==◌, Option, none, some, List,
  [], ◌∷◌, map, Text, codes, Bool-cases, text_eq, text_eq_refl, eq_of_text_eq, if◌then◌else◌,
}
use dragon_bench.Http.Paths.{IsPlain}
use dragon_bench.Http.Routing.{same_method, first_route}
use dragon_bench.Http.Server.{
  Method, Entry, Route, http_get, http_post, landing, status, sensors, workloads, network_sta,
  routes,
}
use dragon_bench.Pages.Watch.{submit_uri, status_uri, dashboard_uri}
use dragon_bench.Pages.Dashboard.{endpoints, poll_uri}

-- A template that ends with neither `*` nor `?`, as a test.
unfoldable is_plain : Text → Bool
is_plain [] = true
is_plain (c ∷ []) = not (c == b'*' || c == b'?')
is_plain (c ∷ d ∷ t) = is_plain (d ∷ t)

is_plain-IsPlain : (t : Text) → is_plain t ≡ true → IsPlain t
unfolding is_plain IsPlain
is_plain-IsPlain [] h = tt
is_plain-IsPlain (c ∷ []) h = ground arith
is_plain-IsPlain (c ∷ d ∷ t) h = is_plain-IsPlain (d ∷ t) h

-- The route whose template is the path, if no template of the method before it has a wildcard.
unfoldable plain_route : Method → Text → List Entry → Option Route
unfolding is_plain
plain_route method uri [] = none
plain_route method uri (e ∷ es) =
    let rest = plain_route method uri es in
    if same_method method e.method
    then (if is_plain e.uri then (if text_eq e.uri uri then some e.route else rest) else none)
    else rest

-- What the two do with an entry.
entry_step :
    (same plain equal matched : Bool) (found rest others : Option Route) (r : Route)
    → (plain ≡ true → matched ≡ equal)
    → (rest ≡ some r → others ≡ some r)
    → (if same then (if plain then (if equal then found else rest) else none) else rest) ≡ some r
    → (if same && matched then found else others) ≡ some r
entry_step false plain equal matched found rest others r m k h = k h
entry_step true false equal matched found rest others r m k h = cc
entry_step true true true matched found rest others r m k h = rw (m refl) h
entry_step true true false matched found rest others r m k h = rw (m refl) (k h)

-- The server's match function is a parameter. As documented for httpd_uri_match_wildcard, a template
-- that ends with neither `*` nor `?` matches itself, and nothing else.
module _ (matches : Text → Text → Bool)
    (plain_matches : (template uri : Text)
      → IsPlain template
      → matches template uri ≡ true
      → template ≡ uri)
    (self_matches : (template : Text) → IsPlain template → matches template template ≡ true) where
  unmatched :
      (template uri : Text)
      → IsPlain template
      → text_eq template uri ≡ false
      → matches template uri ≡ false
  unmatched template uri p d = elim (Bool-cases (matches template uri)) [
    | inl e ↦
        let same : template ≡ uri = plain_matches template uri p e in
        absurd (cc (d, same, text_eq_refl template))
    | inr e ↦ e
  ]

  plain_match :
      (template uri : Text) (b : Bool)
      → is_plain template ≡ true
      → text_eq template uri ≡ b
      → matches template uri ≡ b
  plain_match template uri true p e =
      rw (← eq_of_text_eq template uri e) (self_matches template (is_plain-IsPlain template p))
  plain_match template uri false p e = unmatched template uri (is_plain-IsPlain template p) e

  plain_route-first :
      (method : Method) (uri : Text) (es : List Entry) (r : Route)
      → plain_route method uri es ≡ some r
      → first_route matches method uri es ≡ some r
  unfolding plain_route first_route
  plain_route-first method uri [] r h = cc
  plain_route-first method uri (e ∷ es) r h =
      entry_step (same_method method e.method) (is_plain e.uri) (text_eq e.uri uri)
        (matches e.uri uri) (some e.route) (plain_route method uri es)
        (first_route matches method uri es) r (λ p. plain_match e.uri uri _ p refl)
        (plain_route-first method uri es r) h

  -- The pages ask only for what the device serves: with a server where a template that ends with
  -- neither `*` nor `?` matches itself alone, the dashboard's polls go to the handlers of the status,
  -- the sensors and the workloads in that order, the setup page's poll to that of the status, its
  -- submission to network_sta_post, and its link to the dashboard.
  pub page_requests-route :
      (map (λ name. first_route matches http_get (poll_uri name) routes) endpoints
        ≡ some status ∷ some sensors ∷ some workloads ∷ [])
      × (first_route matches http_get status_uri routes ≡ some status)
      × (first_route matches http_post submit_uri routes ≡ some network_sta)
      × (first_route matches http_get dashboard_uri routes ≡ some landing)
  unfolding plain_route is_plain routes text_eq
  page_requests-route = (
    cc (
      plain_route-first http_get (poll_uri (codes "status")) routes status refl,
      plain_route-first http_get (poll_uri (codes "sensors")) routes sensors refl,
      plain_route-first http_get (poll_uri (codes "workloads")) routes workloads refl,
    ),
    plain_route-first http_get status_uri routes status refl,
    plain_route-first http_post submit_uri routes network_sta refl,
    plain_route-first http_get dashboard_uri routes landing refl,
  )

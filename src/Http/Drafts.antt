-- ===== src/Http/Drafts.antt =====
-- What runs_post takes from a body, against a description that does not follow its tests.
use dragon_bench.Common.{
  ℕ, ◌≤◌, ◌<◌, ◌≡◌, refl, sym, subst, ◌∙◌, ◌⊎◌, true, false, Option, none, some, [], Text, codes,
  arith, length, snprintf_fits,
}
use dragon_bench.Run.{Request, Workload, host_len, workload_name, workload_parse}
use dragon_bench.Run.Names.{workload_parse_iff}
use dragon_bench.Json.{Item, string_item, number_item, other_item, Body}
use dragon_bench.Http.Runs.{
  Draft, drafted, take_workload, take_duration, take_host, take_port, take_rate, draft_request,
  item,
}

-- A number of the body is the natural number that the request has, or the body has none and the
-- request has the default.
abbrev pub IsNumber : Option Item → ℕ → ℕ → Type 0
IsNumber (some (number_item n)) default value =
    (value ≡ n.whole) × (n.fractional ≡ false) × ((n.negative ≡ false) ⊎ (n.whole ≡ 0))
IsNumber _ default value = value ≡ default

-- A host of the body is whole in the request, or it is too long and the request has none, or the body
-- has none.
abbrev pub IsHost : Option Item → Text → Type 0
IsHost (some (string_item host)) value =
    ((length host < 254) × (value ≡ host)) ⊎ ((254 ≤ length host) × (value ≡ []))
IsHost _ value = value ≡ []

abbrev pub IsNamed : Option Item → Workload → Type 0
IsNamed (some (string_item name)) w = workload_name w ≡ name
IsNamed _ w = ⊥

-- The request has what the body says.
pub record IsDrawn (body : Option Body) (q : Request) : Type 0 where
  pub workload : IsNamed (item body (codes "workload")) q.workload
  pub duration : IsNumber (item body (codes "duration_ms")) 30000 q.duration_ms
  pub host : IsHost (item body (codes "host")) q.host
  pub port : IsNumber (item body (codes "port")) 0 q.port
  pub rate : IsNumber (item body (codes "rate_bps")) 0 q.rate_bps

take_workload_default :
    (i : Option Item)
    → ((take_workload i).request.duration_ms ≡ 30000)
      × ((take_workload i).request.host ≡ [])
      × ((take_workload i).request.port ≡ 0)
      × ((take_workload i).request.rate_bps ≡ 0)
unfolding take_workload
take_workload_default (some (string_item name)) = ground arith
take_workload_default _ = (refl, refl, refl, refl)

drafted_name :
    (name : Text) (o : Option Workload)
    → workload_parse (some name) true ≡ o
    → (drafted o).parsed ≡ true
    → workload_name (drafted o).request.workload ≡ name
drafted_name name none e h = cc
drafted_name name (some w) e h = ((workload_parse_iff name w).0 e).1

take_workload-IsNamed :
    (i : Option Item)
    → (take_workload i).parsed ≡ true
    → IsNamed i (take_workload i).request.workload
unfolding take_workload
take_workload-IsNamed (some (string_item name)) h =
    drafted_name name (workload_parse (some name) true) refl h
take_workload-IsNamed (some (number_item n)) h = cc
take_workload-IsNamed (some other_item) h = cc
take_workload-IsNamed none h = cc

take_duration_keeps :
    (i : Option Item) (d : Draft)
    → ((take_duration i d).request.host ≡ d.request.host)
      × ((take_duration i d).request.port ≡ d.request.port)
      × ((take_duration i d).request.rate_bps ≡ d.request.rate_bps)
      × ((take_duration i d).request.workload ≡ d.request.workload)
      × ((take_duration i d).parsed ≡ true → d.parsed ≡ true)
unfolding take_duration
take_duration_keeps (some (number_item x)) d = ground arith
take_duration_keeps _ d = (refl, refl, refl, refl, λ h. h)

take_host_keeps :
    (i : Option Item) (d : Draft)
    → ((take_host i d).request.duration_ms ≡ d.request.duration_ms)
      × ((take_host i d).request.port ≡ d.request.port)
      × ((take_host i d).request.rate_bps ≡ d.request.rate_bps)
      × ((take_host i d).request.workload ≡ d.request.workload)
      × ((take_host i d).parsed ≡ true → d.parsed ≡ true)
unfolding take_host
take_host_keeps (some (string_item x)) d = ground arith
take_host_keeps _ d = (refl, refl, refl, refl, λ h. h)

take_port_keeps :
    (i : Option Item) (d : Draft)
    → ((take_port i d).request.duration_ms ≡ d.request.duration_ms)
      × ((take_port i d).request.host ≡ d.request.host)
      × ((take_port i d).request.rate_bps ≡ d.request.rate_bps)
      × ((take_port i d).request.workload ≡ d.request.workload)
      × ((take_port i d).parsed ≡ true → d.parsed ≡ true)
unfolding take_port
take_port_keeps (some (number_item x)) d = ground arith
take_port_keeps _ d = (refl, refl, refl, refl, λ h. h)

take_rate_keeps :
    (i : Option Item) (d : Draft)
    → ((take_rate i d).request.duration_ms ≡ d.request.duration_ms)
      × ((take_rate i d).request.host ≡ d.request.host)
      × ((take_rate i d).request.port ≡ d.request.port)
      × ((take_rate i d).request.workload ≡ d.request.workload)
      × ((take_rate i d).parsed ≡ true → d.parsed ≡ true)
unfolding take_rate
take_rate_keeps (some (number_item x)) d = ground arith
take_rate_keeps _ d = (refl, refl, refl, refl, λ h. h)

take_duration-IsNumber :
    (i : Option Item) (d : Draft)
    → d.request.duration_ms ≡ 30000
    → (take_duration i d).parsed ≡ true
    → IsNumber i 30000 (take_duration i d).request.duration_ms
unfolding take_duration
take_duration-IsNumber (some (number_item n)) d e h = ground arith
take_duration-IsNumber _ d e h = e

take_port-IsNumber :
    (i : Option Item) (d : Draft)
    → d.request.port ≡ 0
    → (take_port i d).parsed ≡ true
    → IsNumber i 0 (take_port i d).request.port
unfolding take_port
take_port-IsNumber (some (number_item n)) d e h = ground arith
take_port-IsNumber _ d e h = e

take_rate-IsNumber :
    (i : Option Item) (d : Draft)
    → d.request.rate_bps ≡ 0
    → (take_rate i d).parsed ≡ true
    → IsNumber i 0 (take_rate i d).request.rate_bps
unfolding take_rate
take_rate-IsNumber (some (number_item n)) d e h = ground arith
take_rate-IsNumber _ d e h = e

take_host-IsHost :
    (i : Option Item) (d : Draft) → d.request.host ≡ [] → IsHost i (take_host i d).request.host
unfolding take_host
take_host-IsHost (some (string_item host)) d e = ground (arith, snprintf_fits host_len host)
take_host-IsHost _ d e = e

-- For every body whose draft is still good at its end.
pub draft_request-IsDrawn :
    (body : Option Body)
    → (draft_request body).parsed ≡ true
    → IsDrawn body (draft_request body).request
unfolding draft_request
draft_request-IsDrawn body h =
    let d1 : Draft = take_workload (item body (codes "workload")) in
    let d2 : Draft = take_duration (item body (codes "duration_ms")) d1 in
    let d3 : Draft = take_host (item body (codes "host")) d2 in
    let d4 : Draft = take_port (item body (codes "port")) d3 in
    let k0 = take_workload_default (item body (codes "workload")) in
    let k2 = take_duration_keeps (item body (codes "duration_ms")) d1 in
    let k3 = take_host_keeps (item body (codes "host")) d2 in
    let k4 = take_port_keeps (item body (codes "port")) d3 in
    let k5 = take_rate_keeps (item body (codes "rate_bps")) d4 in
    let p4 : d4.parsed ≡ true = k5.4 h in
    let p3 : d3.parsed ≡ true = k4.4 p4 in
    let p2 : d2.parsed ≡ true = k3.4 p3 in
    let p1 : d1.parsed ≡ true = k2.4 p2 in
    record {
      workload =
          subst (IsNamed (item body (codes "workload"))) (sym (k5.3 ∙ k4.3 ∙ k3.3 ∙ k2.3))
            (take_workload-IsNamed (item body (codes "workload")) p1);
      duration =
          subst (IsNumber (item body (codes "duration_ms")) 30000) (sym (k5.0 ∙ k4.0 ∙ k3.0))
            (take_duration-IsNumber (item body (codes "duration_ms")) d1 k0.0 p2);
      host =
          subst (IsHost (item body (codes "host"))) (sym (k5.1 ∙ k4.1))
            (take_host-IsHost (item body (codes "host")) d2 (k2.0 ∙ k0.1));
      port =
          subst (IsNumber (item body (codes "port")) 0) (sym k5.2)
            (take_port-IsNumber (item body (codes "port")) d3 (k3.1 ∙ k2.1 ∙ k0.2) p4);
      rate = take_rate-IsNumber (item body (codes "rate_bps")) d4 (k4.2 ∙ k3.2 ∙ k2.2 ∙ k0.3) h;
    }

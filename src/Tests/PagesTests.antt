-- ===== src/Tests/PagesTests.antt =====
-- Runs of the model of the pages' scripts.
use dragon_bench.Common.{
  ℕ, ◌+◌, ◌-◌, ◌^◌, ◌<◌, ◌≡◌, refl, ◌↔◌, ◌⊎◌, arith, true, false, none, some, List, [], ◌∷◌, ◌++◌,
  map, Text, codes, utf8, utf8_lines, take, print_u64,
}
use dragon_bench.Json.{str, members_of}
use dragon_bench.Network.{ap_active, sta_connecting, sta_connected, request_id_next}
use dragon_bench.Network.RequestId.{after}
use dragon_bench.Http.Pages.{Reading}
use dragon_bench.Http.Server.{
  http_get, http_post, landing, status, sensors, workloads, network_sta, routes,
}
use dragon_bench.Http.Routing.{first_route}
use dragon_bench.Pages.Landing.{landing_page}
use dragon_bench.Pages.Landing.Head.{landing_head}
use dragon_bench.Pages.Watch.{
  Page, dash, accepted, rejected, read_answer, submitted, watch, replaced_message, submit_uri,
  status_uri, dashboard_uri,
}
use dragon_bench.Http.Station.{valid_credentials, credentials_of, accepted_fields}
use dragon_bench.Pages.Outcome.{Told}
use dragon_bench.Pages.Answer.{read_answer-accepted_fields}
use dragon_bench.Pages.Submission.{answers, Once, submission_outcome}
use dragon_bench.Pages.Order.{Precedes, submission_replaced}
use dragon_bench.Pages.Dashboard.{unreachable, live, freshness, fmt_uptime, endpoints, poll_uri}
use dragon_bench.Pages.Display.{AllWithin, AllSilent, freshness_iff}
use dragon_bench.Pages.Requests.{page_requests-route}
use dragon_bench.Tests.HttpTests.{booted, wildcard, wildcard_plain, wildcard_self}

-- A reading of the statics while the request with a number is published.
abbrev published : ℕ → Reading
published id = record {
  mode_configured = true;
  ap_state = ap_active;
  active_state = ap_active;
  ap_ip = codes "192.168.4.1";
  ap_client_count = 1;
  sta_state = sta_connecting;
  sta_ssid = codes "lab";
  sta_last_reason = 201;
  sta_config_request_id = id;
  sta_config_result = codes "applied";
  sta_configured = true;
  connected_state = sta_connected;
  address = some (codes "10.0.0.9");
}

abbrev opened : Page
opened = record {
  pending = none;
  message = [];
  state = dash;
  current = dash;
  ip = dash;
  reason = dash;
}

abbrev polls : List (Reading × Text)
polls = (published 4, codes "bench") ∷ (published 5, codes "bench") ∷ []

submission_outcome_example :
    ((watch (answers booted polls) (submitted (accepted 5 (codes "lab")) opened)).pending
      ≡ some (record { id = 5; ssid = codes "lab" }))
    ⊎ (((watch (answers booted polls) (submitted (accepted 5 (codes "lab")) opened)).pending ≡ none)
        × Once
            (λ w.
              Told w
                (record { id = 5; ssid = codes "lab" })
                (watch (answers booted polls) (submitted (accepted 5 (codes "lab")) opened)))
            polls)
submission_outcome_example =
    submission_outcome booted polls 5 (codes "lab") opened (omega arith, (omega arith, tt))
      (omega arith)

next_number : (n : ℕ) → 0 < n → n < 2 ^ 32 - 1 → Precedes n (n + 1)
unfolding after request_id_next
next_number n p h = record {
  distance = 1;
  positive = omega arith;
  near = omega arith;
  reserved = p;
  fits = omega arith;
  follows = ground arith;
}

submission_replaced_example :
    ((watch
        (answers booted ((published 4, codes "bench") ∷ []))
        (submitted (accepted 5 (codes "lab")) opened)).pending
      ≡ some (record { id = 5; ssid = codes "lab" }))
    × ((watch
          (answers booted ((published 4, codes "bench") ∷ []))
          (submitted (accepted 5 (codes "lab")) opened)).message
        ≡ (submitted (accepted 5 (codes "lab")) opened).message)
    × ((watch
          (answers booted ((published 4, codes "bench") ∷ [])
            ++ (answers booted ((published 6, codes "bench") ∷ []) ++ []))
          (submitted (accepted 5 (codes "lab")) opened)).pending
        ≡ none)
    × ((watch
          (answers booted ((published 4, codes "bench") ∷ [])
            ++ (answers booted ((published 6, codes "bench") ∷ []) ++ []))
          (submitted (accepted 5 (codes "lab")) opened)).message
        ≡ replaced_message)
unfolding submitted
submission_replaced_example =
    submission_replaced booted ((published 4, codes "bench") ∷ []) (published 6) (codes "bench") []
      5 (codes "lab") opened (next_number 4 (omega arith) (omega arith), tt)
      (next_number 5 (omega arith) (omega arith)) (omega arith)

freshness_iff_example :
    ((freshness 9000 (some 5000 ∷ some 4500 ∷ none ∷ []) ≡ live)
      ↔ AllWithin 9000 5000 (some 5000 ∷ some 4500 ∷ none ∷ []))
    × ((freshness 9000 (some 5000 ∷ some 4500 ∷ none ∷ []) ≡ unreachable)
        ↔ AllSilent (some 5000 ∷ some 4500 ∷ none ∷ []))
freshness_iff_example = freshness_iff 9000 (some 5000) (some 4500 ∷ none ∷ [])

page_requests-route_example :
    (map (λ name. first_route wildcard http_get (poll_uri name) routes) endpoints
      ≡ some status ∷ some sensors ∷ some workloads ∷ [])
    × (first_route wildcard http_get status_uri routes ≡ some status)
    × (first_route wildcard http_post submit_uri routes ≡ some network_sta)
    × (first_route wildcard http_get dashboard_uri routes ≡ some landing)
page_requests-route_example = page_requests-route wildcard wildcard_plain wildcard_self

read_answer-accepted_fields_example :
    ((credentials_of 4 (codes "lab") (codes "eight888")).ssid ≡ codes "lab")
    × ((credentials_of 4 (codes "lab") (codes "eight888")).password ≡ codes "eight888")
    × (read_answer true
          (members_of (accepted_fields (credentials_of 4 (codes "lab") (codes "eight888"))))
        ≡ some
            (accepted (credentials_of 4 (codes "lab") (codes "eight888")).request_id (codes "lab")))
    × (read_answer false (members_of ((codes "error", str (codes "busy")) ∷ []))
        ≡ some (rejected (some (codes "busy"))))
unfolding valid_credentials
read_answer-accepted_fields_example =
    read_answer-accepted_fields 4 (codes "lab") (codes "eight888") (codes "busy") refl

-- The page as a whole.
opening : take 15 (landing_page (codes "1.0")) ≡ codes "<!doctype html>"
unfolding landing_page landing_head utf8 utf8_lines
opening = refl

uptime_text : fmt_uptime (some 3723999) ≡ codes "1h 2m 3s"
unfolding fmt_uptime print_u64
uptime_text = refl

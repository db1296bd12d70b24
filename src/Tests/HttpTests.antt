-- ===== src/Tests/HttpTests.antt =====
-- Runs of the model of the HTTP handlers.
use dragon_bench.Common.{
  ℕ, Option, ◌⊎◌, ◌≤◌, ◌≡◌, refl, Bool, true, false, none, some, [], ◌∷◌, ◌++◌, Text, codes, arith,
  length, text_eq, if◌then◌else◌, snprintf, is_empty, ◌==◌, ◌||◌, ◌&&◌,
}
use dragon_bench.Run.{run_id_len, workload_parse, request_validate}
use dragon_bench.Run.Validate.{IsAcceptable, FitsFields}
use dragon_bench.Json.{Cjson, string_item, number_item, Body}
use dragon_bench.Prog.Locks.{KeepsLock}
use dragon_bench.Prog.Slot.{KeepsSlot, nothing}
use dragon_bench.Http.{HttpRequest, read_text, path_run_id, bounded_id}
use dragon_bench.Http.Runs.{draft_request, validate_draft}
use dragon_bench.Http.Pages.{Booted}
use dragon_bench.Http.Server.{http_get, http_post, run, runs, routes, handle}
use dragon_bench.Http.Locks.{handle-KeepsLock}
use dragon_bench.Http.Slot.{handle-KeepsSlot}
use dragon_bench.Http.Bodies.{read_text_returns}
use dragon_bench.Prog.{recv_body}
use dragon_bench.Prog.Replay.{replay}
use dragon_bench.Tests.Platform.{platform, net_request}
use dragon_bench.Http.Routing.{first_route, run_uri, run_uri-route}
use dragon_bench.Http.Runs.{print_run_id}
use dragon_bench.Run.{begin}
use dragon_bench.Http.Drafts.{IsDrawn}
use dragon_bench.Http.Requests.{validate_draft_sound, print_run_id_injective}
use dragon_bench.Http.Paths.{IsSegment, IsPlain, abort_uri, unrouted, abort_uri-unrouted}

abbrev pub net_body : Body
net_body name =
    if text_eq name (codes "workload")
    then some (string_item (codes "NET_TX"))
    else if text_eq name (codes "host")
    then some (string_item (codes "10.0.0.2"))
    else if text_eq name (codes "port")
    then some (number_item (record { negative = false; whole = 5001; fractional = false }))
    else none

abbrev pub tiny_cjson : Cjson
tiny_cjson = record {
  print = λ j. some (codes "{}");
  parses = λ t. true;
  parse_body = λ t. some net_body;
}

abbrev pub booted : Booted
booted = record {
  config = record { target_name = codes "esp32s3-n8r8"; firmware_version = codes "0.1.0" };
  device_id = codes "dragonbench-E2A12C";
  ap_ssid = codes "DragonBench-E2A12C";
  reset_reason_text = codes "POWERON";
  previous_reboot_run_id = [];
  boot_nonce = 0xbeef;
  temp_available = true;
  mdns_ready = true;
  mdns_hostname = codes "dragonbench-e2a12c";
}

abbrev pub post_run : HttpRequest
post_run = record { uri = codes "/api/v1/runs"; content_len = 2 }

handle-KeepsLock_example : KeepsLock false (handle tiny_cjson booted runs post_run)
handle-KeepsLock_example = handle-KeepsLock tiny_cjson booted runs post_run

handle-KeepsSlot_example : KeepsSlot nothing (handle tiny_cjson booted runs post_run)
handle-KeepsSlot_example = handle-KeepsSlot tiny_cjson booted runs post_run

platform_body : (n m : ℕ) → length (platform n (recv_body m)) ≤ m
platform_body n m = ground arith

read_text_returns_example :
    (r : Option Text) × (k : ℕ) × (replay platform 0 (read_text post_run) ≡ some (r, k))
    × ((r ≡ none) ⊎ ((text : Text) × (r ≡ some text) × (length text ≡ 2)))
read_text_returns_example = read_text_returns platform platform_body post_run 0

net_body_accepted : (validate_draft (draft_request (some net_body))).0 ≡ true
unfolding validate_draft draft_request text_eq snprintf workload_parse request_validate
net_body_accepted = refl

validate_draft_sound_example :
    IsAcceptable (draft_request (some net_body)).request
    × FitsFields (draft_request (some net_body)).request
    × IsDrawn (some net_body) (draft_request (some net_body)).request
validate_draft_sound_example = validate_draft_sound (some net_body) net_body_accepted

print_run_id_injective_example : ◌≡◌ {A = ℕ} 0xbeef 0xbeef × ◌≡◌ {A = ℕ} 1 1
print_run_id_injective_example =
    print_run_id_injective 0xbeef 1 0xbeef 1 (omega arith) (omega arith) (omega arith) (omega arith)
      refl

segment : IsSegment (codes "0000beef-00000001")
unfolding IsSegment
segment = refl

found :
    path_run_id (codes "/api/v1/runs/0000beef-00000001") false run_id_len
    ≡ some (codes "0000beef-00000001")
unfolding path_run_id bounded_id
found = refl

-- A match function with `*` as a wildcard at the end of a template.
abbrev pub wildcard : Text → Text → Bool
wildcard [] uri = is_empty uri
wildcard (t ∷ []) [] = t == b'*'
wildcard (t ∷ []) (c ∷ uri) = t == b'*' || (t == c && is_empty uri)
wildcard (t ∷ u ∷ template) [] = false
wildcard (t ∷ u ∷ template) (c ∷ uri) = t == c && wildcard (u ∷ template) uri

pub wildcard_plain :
    (template uri : Text) → IsPlain template → wildcard template uri ≡ true → template ≡ uri
unfolding IsPlain
wildcard_plain [] [] p h = refl
wildcard_plain [] (c ∷ uri) p h = cc
wildcard_plain (t ∷ []) [] p h = ground arith
wildcard_plain (t ∷ []) (c ∷ []) p h = ground arith
wildcard_plain (t ∷ []) (c ∷ d ∷ uri) p h = ground arith
wildcard_plain (t ∷ u ∷ template) [] p h = cc
wildcard_plain (t ∷ u ∷ template) (c ∷ uri) p h =
    ground (arith, wildcard_plain (u ∷ template) uri p)

pub wildcard_self : (template : Text) → IsPlain template → wildcard template template ≡ true
unfolding IsPlain
wildcard_self [] p = refl
wildcard_self (t ∷ []) p = ground arith
wildcard_self (t ∷ u ∷ template) p = ground (arith, wildcard_self (u ∷ template) p)

abort_uri-unrouted_example : unrouted wildcard http_post (abort_uri 0xbeef 1) routes ≡ true
abort_uri-unrouted_example = abort_uri-unrouted wildcard wildcard_plain 0xbeef 1

wildcard_star : (rest : Text) → wildcard (codes "*") rest ≡ true
wildcard_star [] = refl
wildcard_star (c ∷ rest) = refl

wildcard_starts : (start rest : Text) → wildcard (start ++ codes "*") (start ++ rest) ≡ true
wildcard_starts [] rest = wildcard_star rest
wildcard_starts (c ∷ []) rest = ground (arith, wildcard_star rest)
wildcard_starts (c ∷ d ∷ s) rest = ground (arith, wildcard_starts (d ∷ s) rest)

run_uri-route_example :
    (first_route wildcard http_get (run_uri 0xbeef 1) routes ≡ some run)
    × (path_run_id (run_uri 0xbeef 1) false run_id_len
        ≡ some (begin net_request (print_run_id 0xbeef 1) 100).run_id)
run_uri-route_example =
    run_uri-route wildcard wildcard_plain wildcard_starts 0xbeef 1 net_request 100

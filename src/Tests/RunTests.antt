-- ===== src/Tests/RunTests.antt =====
-- Runs of the model of db_run.c, most at the inputs of tests/native/test_db_run.c.
use dragon_bench.Common.{
  ◌<◌, ◌≡◌, refl, ◌↔◌, ◌⊎◌, true, false, none, some, List, [], ◌∷◌, Text, codes, arith, length,
  text_eq, snprintf,
}
use dragon_bench.Run.{
  net_tx, cpu_stress, Request, Run, run_idle, complete, workload_supported, workload_name,
  workload_parse, request_validate, begin, abort, finish, idle,
}
use dragon_bench.Run.Names.{workload_parse_iff}
use dragon_bench.Run.Validate.{IsAcceptable, request_validate_iff, request_validate_error}
use dragon_bench.Run.Lifecycle.{Call, to_begin, to_abort, to_finish}

abbrev net_request : Request
net_request = record {
  workload = net_tx;
  duration_ms = 1000;
  rate_bps = 0;
  port = 5001;
  host = codes "bench-host.local";
}

abbrev cpu_request : Request
cpu_request = record {
  workload = cpu_stress;
  duration_ms = 1000;
  rate_bps = 0;
  port = 0;
  host = [];
}

abbrev boot_id : Text
boot_id = codes "boot0001-00000001"

-- current_run as app_main leaves it.
abbrev idle_run : Run
idle_run = record {
  run_id = [];
  request = record { workload = idle; duration_ms = 0; rate_bps = 0; port = 0; host = [] };
  state = run_idle;
  abort_requested = false;
  result = codes "none";
  started_ms = 0;
  ended_ms = 0;
}

refuses_no_host :
    (request_validate (some (record net_request { host = [] })) [] 96).1
    ≡ codes "network workloads require host and port"
unfolding request_validate snprintf
refuses_no_host = refl

refuses_quote :
    (request_validate (some (record net_request { host = codes "bad\"host" })) [] 96).1
    ≡ codes "host contains unsupported characters"
unfolding request_validate snprintf
refuses_quote = refl

no_ble : workload_parse (some (codes "BLE_STRESS")) true ≡ none
unfolding workload_parse
no_ble = refl

workload_parse_iff_example :
    (workload_parse (some (codes "CPU_STRESS")) true ≡ some cpu_stress)
    ↔ ((workload_supported cpu_stress ≡ true) × (workload_name cpu_stress ≡ codes "CPU_STRESS"))
workload_parse_iff_example = workload_parse_iff (codes "CPU_STRESS") cpu_stress

request_validate_iff_example :
    ((request_validate (some net_request) [] 96).0 ≡ true) ↔ IsAcceptable net_request
request_validate_iff_example = request_validate_iff net_request [] 96

accepts : (request_validate (some net_request) [] 96).0 ≡ true
unfolding request_validate
accepts = refl

request_validate_error_example :
    let (valid, text) = request_validate none [] 8 in
    ((valid ≡ true) × (text ≡ []))
    ⊎ ((valid ≡ false) × (length text < 8) × (1 < 8 → 0 < length text))
request_validate_error_example = request_validate_error none [] 8 (omega arith)

abbrev script : List Call
script =
    to_begin cpu_request boot_id 10
    ∷ to_abort (some (codes "wrong-id"))
    ∷ to_abort (some boot_id)
    ∷ to_finish (some (codes "aborted")) 20
    ∷ []

accepts_abort : (abort (begin cpu_request boot_id 10) (some boot_id)).0 ≡ true
unfolding abort begin text_eq snprintf
accepts_abort = refl

whole_life :
    let r =
      finish (abort (begin cpu_request boot_id 10) (some boot_id)).1 (some (codes "aborted")) 20 in
    (r.state ≡ complete) × (r.result ≡ codes "aborted") × (r.started_ms ≡ 10) × (r.ended_ms ≡ 20)
unfolding abort begin finish text_eq snprintf
whole_life = (refl, refl, refl, refl)

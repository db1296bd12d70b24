-- ===== src/Run.antt =====
-- firmware/common/db_run.c and include/db_run.h: the workloads, a run's request and the life of a
-- run. A function that writes through a pointer returns what it wrote; a pointer that the code
-- tests for NULL and that a caller may leave NULL is an `Option`.
pub mod Names
pub mod Validate
pub mod Lifecycle
use dragon_bench.Common.{
  ℕ, zero, suc, ◌+◌, ◌-◌, ◌<◌, Bool, true, false, ◌&&◌, ◌||◌, not, Option, none, some, List, [],
  ◌∷◌, String, Text, codes, text_eq, is_empty, snprintf, length, get_or, ltb, leb, ◌==◌,
  if◌then◌else◌,
}

-- db_workload_t; the last enumerator counts the others.
pub data Workload : Type 0 where
  boot idle wifi_associated_idle net_tx net_rx net_bidirectional cpu_stress : Workload
  flash_write nvs_write ota_partition_write controlled_reboot workload_count : Workload

-- The number that C gives the enumerator.
abbrev pub ordinal : Workload → ℕ
ordinal boot = 0
ordinal idle = 1
ordinal wifi_associated_idle = 2
ordinal net_tx = 3
ordinal net_rx = 4
ordinal net_bidirectional = 5
ordinal cpu_stress = 6
ordinal flash_write = 7
ordinal nvs_write = 8
ordinal ota_partition_write = 9
ordinal controlled_reboot = 10
ordinal workload_count = 11

-- The cast (db_workload_t)i, for i at most 11.
abbrev pub workload_of : ℕ → Workload
workload_of zero = boot
workload_of (suc zero) = idle
workload_of (suc (suc zero)) = wifi_associated_idle
workload_of (suc (suc (suc zero))) = net_tx
workload_of (suc (suc (suc (suc zero)))) = net_rx
workload_of (suc (suc (suc (suc (suc zero))))) = net_bidirectional
workload_of (suc (suc (suc (suc (suc (suc zero)))))) = cpu_stress
workload_of (suc (suc (suc (suc (suc (suc (suc zero))))))) = flash_write
workload_of (suc (suc (suc (suc (suc (suc (suc (suc zero)))))))) = nvs_write
workload_of (suc (suc (suc (suc (suc (suc (suc (suc (suc zero))))))))) = ota_partition_write
workload_of (suc (suc (suc (suc (suc (suc (suc (suc (suc (suc zero)))))))))) = controlled_reboot
workload_of (suc (suc (suc (suc (suc (suc (suc (suc (suc (suc (suc n))))))))))) = workload_count

-- db_run_state_t
pub data RunState : Type 0 where
  run_idle running aborting complete : RunState

-- The table `names`.
abbrev pub names : List Text
names =
    codes "BOOT"
    ∷ codes "IDLE"
    ∷ codes "WIFI_ASSOCIATED_IDLE"
    ∷ codes "NET_TX"
    ∷ codes "NET_RX"
    ∷ codes "NET_BIDIRECTIONAL"
    ∷ codes "CPU_STRESS"
    ∷ codes "FLASH_WRITE"
    ∷ codes "NVS_WRITE"
    ∷ codes "OTA_PARTITION_WRITE"
    ∷ codes "CONTROLLED_REBOOT"
    ∷ []

abbrev pub run_id_len : ℕ
run_id_len = 33

abbrev pub host_len : ℕ
host_len = 254

-- The size of the field `result` of db_run_t.
abbrev pub result_len : ℕ
result_len = 16

-- db_run_request_t. `host` is below `host_len`, the others within their widths.
pub record Request : Type 0 where
  pub workload : Workload
  pub duration_ms : ℕ
  pub rate_bps : ℕ
  pub port : ℕ
  pub host : Text

-- db_run_t
pub record Run : Type 0 where
  pub run_id : Text
  pub request : Request
  pub state : RunState
  pub abort_requested : Bool
  pub result : Text
  pub started_ms : ℕ
  pub ended_ms : ℕ

-- db_workload_supported
unfoldable pub workload_supported : Workload → Bool
workload_supported w = leb 0 (ordinal w) && ltb (ordinal w) 11

-- db_workload_name
unfoldable pub workload_name : Workload → Text
workload_name w =
    if leb 0 (ordinal w) && ltb (ordinal w) 11 then get_or names (ordinal w) [] else codes "UNKNOWN"

-- The loop of db_workload_parse from index `i`, over the names that are left.
unfoldable pub parse_from : Text → ℕ → List Text → Option Workload
parse_from name i [] = none
parse_from name i (n ∷ ns) =
    let rest = parse_from name (i + 1) ns in if text_eq name n then some (workload_of i) else rest

-- db_workload_parse; the second argument says that `out` is not NULL. `none` is `return false`, with
-- `*out` left alone.
unfoldable pub workload_parse : Option Text → Bool → Option Workload
unfolding parse_from text_eq
workload_parse none out = none
workload_parse (some name) false = none
workload_parse (some name) true = parse_from name 0 names

-- isalnum in the C locale
unfoldable pub isalnum : ℕ → Bool
isalnum c = leb b'0' c && leb c b'9' || leb b'A' c && leb c b'Z' || leb b'a' c && leb c b'z'

unfoldable pub host_char : ℕ → Bool
unfolding isalnum
host_char c = isalnum c || c == b'.' || c == b'-' || c == b'_' || c == b':'

-- The loop over `host`: whether it ends with no refusal.
unfoldable pub host_chars : Text → Bool
unfolding host_char
host_chars [] = true
host_chars (c ∷ s) = let rest = host_chars s in if not (host_char c) then false else rest

unfoldable pub is_network : Workload → Bool
is_network net_tx = true
is_network net_rx = true
is_network net_bidirectional = true
is_network _ = false

-- db_request_validate: its result, and what it leaves in the buffer `error` of `error_len` bytes.
unfoldable pub request_validate : Option Request → Text → ℕ → Bool × Text
unfolding workload_supported is_network host_chars
request_validate none error error_len = (false, snprintf error_len (codes "unsupported workload"))
request_validate (some r) error error_len =
    if not (workload_supported r.workload)
    then (false, snprintf error_len (codes "unsupported workload"))
    else if r.duration_ms == 0 || ltb 3600000 r.duration_ms
    then (false, snprintf error_len (codes "duration_ms must be 1..3600000"))
    else if is_network r.workload && (is_empty r.host || r.port == 0)
    then (false, snprintf error_len (codes "network workloads require host and port"))
    else if is_network r.workload && not (host_chars r.host)
    then (false, snprintf error_len (codes "host contains unsupported characters"))
    else (true, error)

-- db_run_begin: every field is written, those that it does not set by the memset.
unfoldable pub begin : Request → Text → ℕ → Run
begin request run_id now_ms = record {
  run_id = snprintf run_id_len run_id;
  request = request;
  state = running;
  abort_requested = false;
  result = snprintf result_len (codes "running");
  started_ms = now_ms;
  ended_ms = 0;
}

-- run->state == DB_RUN_RUNNING
abbrev pub is_running : RunState → Bool
is_running running = true
is_running _ = false

-- db_run_abort; `run` is never NULL at its callers, which pass the address of a static.
unfoldable pub abort : Run → Option Text → Bool × Run
abort run none = (false, run)
abort run (some run_id) =
    if not (is_running run.state) || not (text_eq run.run_id run_id)
    then (false, run)
    else (true, record run { abort_requested = true; state = aborting })

-- result ? result : "fail"
abbrev pub result_or_fail : Option Text → Text
result_or_fail none = codes "fail"
result_or_fail (some result) = result

-- db_run_finish
unfoldable pub finish : Run → Option Text → ℕ → Run
finish run result now_ms = record run {
  state = complete;
  ended_ms = now_ms;
  result = snprintf result_len (result_or_fail result);
}

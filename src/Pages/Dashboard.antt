-- ===== src/Pages/Dashboard.antt =====
-- The script of `landing` in firmware/targets/esp32s3/main/main.c: what it shows of the status, and
-- what it says of the age of what it shows.
use dragon_bench.Common.{
  ℕ, ◌+◌, ◌*◌, ◌/◌, ◌%◌, Bool, true, false, ◌||◌, Option, none, some, List, [], ◌∷◌, ◌++◌, Text,
  codes, print_u64, is_empty, ltb, if◌then◌else◌,
}
use dragon_bench.Json.{Json, bool, Members}
use dragon_bench.Pages.Watch.{lookup, text_of, number_of, shown}

-- ENDPOINTS, and the path that poll asks for.
abbrev pub endpoints : List Text
endpoints = codes "status" ∷ codes "sensors" ∷ codes "workloads" ∷ []

abbrev pub poll_uri : Text → Text
poll_uri name = codes "/api/v1/" ++ name

-- fmtUptime
unfoldable pub fmt_uptime : Option ℕ → Text
fmt_uptime none = shown none
fmt_uptime (some ms) =
    let s = ms / 1000 in
    print_u64 (s / 3600)
    ++ (codes "h "
        ++ (print_u64 (s % 3600 / 60) ++ (codes "m " ++ (print_u64 (s % 60) ++ codes "s"))))

-- A tile of metricTile, with the status where it is set.
pub record Tile : Type 0 where
  pub label : Text
  pub value : Text
  pub status : Option Text

abbrev pub truthy : Option Text → Option Text
truthy none = none
truthy (some s) = if is_empty s then none else some s

unfoldable pub metric_tile : Text → Option Text → Option Text → Tile
unfolding shown
metric_tile label value status = record {
  label = label;
  value = shown value;
  status = truthy status;
}

abbrev pub bool_of : Option Json → Option Bool
bool_of (some (bool b)) = some b
bool_of _ = none

-- The word for network_connected.
abbrev pub connection_word : Option Bool → Option Text
connection_word none = none
connection_word (some b) = some (if b then codes "connected" else codes "disconnected")

-- The tiles of renderStatus.
unfoldable pub status_tiles : Members → List Tile
unfolding lookup fmt_uptime metric_tile
status_tiles status =
    metric_tile (codes "Target") (text_of (lookup (codes "target") status)) none
    ∷ metric_tile (codes "Firmware") (text_of (lookup (codes "firmware_version") status)) none
    ∷ metric_tile (codes "Image class") (text_of (lookup (codes "image_class") status)) none
    ∷ metric_tile (codes "Run state") (text_of (lookup (codes "run_state") status))
        (text_of (lookup (codes "run_state") status))
    ∷ metric_tile (codes "Workload") (text_of (lookup (codes "workload") status)) none
    ∷ metric_tile (codes "Result") (text_of (lookup (codes "result") status))
        (text_of (lookup (codes "result") status))
    ∷ metric_tile (codes "Uptime")
        (some (fmt_uptime (number_of (lookup (codes "uptime_ms") status)))) none
    ∷ metric_tile (codes "Reset reason") (text_of (lookup (codes "reset_reason") status)) none
    ∷ metric_tile (codes "Previous reboot run")
        (text_of (lookup (codes "previous_reboot_run_id") status)) none
    ∷ metric_tile (codes "Network")
        (connection_word (bool_of (lookup (codes "network_connected") status)))
        (connection_word (bool_of (lookup (codes "network_connected") status)))
    ∷ metric_tile (codes "Run ID") (text_of (lookup (codes "run_id") status)) none
    ∷ metric_tile (codes "Measurement authority")
        (text_of (lookup (codes "measurement_authority") status)) none
    ∷ []

-- What the badge of updateFreshness says, with its status.
pub data Freshness : Type 0 where
  unreachable stale_error stale live : Freshness

-- The time in milliseconds of the last good answer of each endpoint, if it had one.
abbrev pub any_answer : List (Option ℕ) → Bool
any_answer [] = false
any_answer (none ∷ ls) = any_answer ls
any_answer (some t ∷ ls) = true

-- Whether the oldest of the answers is older than that; one that never came is of infinite age.
abbrev pub worst_over : ℕ → ℕ → List (Option ℕ) → Bool
worst_over now limit [] = false
worst_over now limit (none ∷ ls) = true
worst_over now limit (some t ∷ ls) = ltb (t + limit) now || worst_over now limit ls

abbrev pub stale_ms : ℕ
stale_ms = 5000

-- updateFreshness
unfoldable pub freshness : ℕ → List (Option ℕ) → Freshness
freshness now last =
    if any_answer last
    then (if worst_over now (stale_ms * 3) last
        then stale_error
        else (if worst_over now stale_ms last then stale else live))
    else unreachable

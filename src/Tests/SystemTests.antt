-- ===== src/Tests/SystemTests.antt =====
-- Executions of the model of the tasks together.
use dragon_bench.Common.{
  ℕ, zero, suc, codes, hex_fixed, ◌≡◌, ◌≢◌, ◌⊎◌, refl, inl, true, some, List, [], ◌∷◌, map, text_eq,
  snprintf,
}
use dragon_bench.Run.{workload_parse, request_validate, begin}
use dragon_bench.Run.Lifecycle.{IsWellFormed}
use dragon_bench.Run.Validate.{IsAcceptable, FitsFields}
use dragon_bench.Events.{Event, snapshot_events_locked}
use dragon_bench.Events.Ring.{IsRing, contents}
use dragon_bench.Prog.{done, out_of_fuel, give_lock, get_log}
use dragon_bench.Prog.Slot.{Transition, IsActive}
use dragon_bench.Prog.Duties.{Duties, no_duties, Settles}
use dragon_bench.Http.{delete_body, read_body, read_text, read_loop}
use dragon_bench.Http.Runs.{runs_post, draft_request, validate_draft, start_run}
use dragon_bench.Http.Server.{runs, handle}
use dragon_bench.Task.{emit, copy_run, workload_task}
use dragon_bench.Stress.{uptime_ms}
use dragon_bench.Prog.{branch}
use dragon_bench.Tests.Platform.{platform}
use dragon_bench.System.{
  Device, Inputs, System, Step, acts, serve_requests, main_task, start_system, here,
}
use dragon_bench.System.Schedule.{Turn, runs_call, starts, take_turn, schedule, schedule-Reach}
use dragon_bench.Wifi.{sta_lost}
use dragon_bench.System.Exclusion.{Critical, mutual_exclusion}
use dragon_bench.System.Invariant.{Reached}
use dragon_bench.System.Life.{run_safe}
use dragon_bench.System.Progress.{Ended, never_stuck}
use dragon_bench.System.Ring.{log_stays_whole}
use dragon_bench.System.Duties.{active_run_owed}
use dragon_bench.Tests.BootTests.{settings}
use dragon_bench.Prog.{on_option}
use dragon_bench.Network.{network_identity, mdns_hostname, sta_is_configured}
use dragon_bench.Boot.{
  start_device, all_steps, start_network, start_wifi, initial_credentials, start_station, start_ap,
  start_radio, serve, start_mdns, start_http, check_step, register_routes,
}
use dragon_bench.Wifi.{nvs_load_sta, configure_sta}
use dragon_bench.Http.Server.{routes}
use dragon_bench.Tests.HttpTests.{tiny_cjson, booted, post_run}

-- A request to run a workload and a lost connection, with the last event of app_main beside them.
abbrev inputs : Inputs
inputs = record {
  requests = (runs, post_run) ∷ [];
  reason_assoc_leave = 8;
  events = sta_lost 3 ∷ [];
  retries = 1;
}

abbrev device : Device
device = record {
  fuel = 30;
  cjson = tiny_cjson;
  settings = settings;
  nonce = 0xbeef;
  reason_text = codes "power_on";
  previous = [];
  booted = booted;
}

abbrev start : System
start = start_system device inputs

abbrev after : List Turn → System
after = schedule device inputs (platform 7) start

after-Reach : (ts : List Turn) → Reached device inputs (after ts)
after-Reach ts = schedule-Reach device inputs (platform 7) start start ts here

-- Calls of one thread, and then more.
abbrev calls_of : ℕ → ℕ → List Turn → List Turn
calls_of i zero ts = ts
calls_of i (suc n) ts = runs_call i ∷ calls_of i n ts

-- app_main's task takes the number of its first event and the lock.
abbrev to_lock : List Turn
to_lock = calls_of 1 8 []

abbrev locked : System
locked = after to_lock

locked-owner : locked.shared.owner ≡ some 1
unfolding start_system main_task start_device all_steps emit uptime_ms branch
locked-owner = refl

locked-Critical : Critical (locked.threads 1)
unfolding start_system main_task start_device all_steps emit uptime_ms branch
locked-Critical = (get_log, _, refl, refl)

mutual_exclusion_example : (locked.shared.owner ≡ some 1) × ◌≡◌ {A = ℕ} 1 1
mutual_exclusion_example =
    mutual_exclusion device inputs locked (after-Reach to_lock) 1 1 locked-Critical locked-Critical

-- app_main boots and starts the server, whose task reads the body and begins a run.
abbrev to_begin : List Turn
to_begin = calls_of 1 58 (starts 1 0 ∷ calls_of 0 8 [])

abbrev begun : System
begun = after to_begin

begun-IsActive : IsActive begun.shared.run
unfolding start_system main_task start_device all_steps emit branch on_option start_network
    start_wifi network_identity nvs_load_sta initial_credentials start_station start_ap start_radio
    configure_sta serve start_mdns mdns_hostname hex_fixed sta_is_configured start_http check_step
    register_routes routes serve_requests handle runs_post read_body read_text read_loop
    draft_request validate_draft delete_body start_run begin text_eq snprintf workload_parse
    request_validate uptime_ms
begun-IsActive = inl refl

-- Its next call gives the lock back.
abbrev released : System
released = take_turn device inputs (platform 7) begun (runs_call 0)

released-Step : Step device inputs begun released
unfolding start_system main_task start_device all_steps emit branch on_option start_network
    start_wifi network_identity nvs_load_sta initial_credentials start_station start_ap start_radio
    configure_sta serve start_mdns mdns_hostname hex_fixed sta_is_configured start_http check_step
    register_routes routes serve_requests handle runs_post read_body read_text read_loop
    draft_request validate_draft delete_body start_run begin text_eq snprintf workload_parse
    request_validate uptime_ms
released-Step = acts 0 give_lock _ tt _ refl refl refl

run_safe_example :
    IsWellFormed begun.shared.run
    × (IsActive begun.shared.run
        → IsAcceptable begun.shared.run.request × FitsFields begun.shared.run.request)
    × Transition begun.shared.run released.shared.run
run_safe_example = run_safe device inputs begun released (after-Reach to_begin) released-Step

never_stuck_example :
    ((i : ℕ) → Ended (begun.threads i) ⊎ ((u : System) × Step device inputs begun u))
    × (IsActive begun.shared.run
        → ((i : ℕ) × (begun.threads i ≡ out_of_fuel)) ⊎ ((u : System) × Step device inputs begun u))
never_stuck_example = never_stuck device inputs (platform 7) begun (after-Reach to_begin)

log_stays_whole_example :
    IsRing locked.shared.log
    × (snapshot_events_locked locked.shared.log
        ≡ map (λ (e : Event). e.json) (contents locked.shared.log))
log_stays_whole_example = log_stays_whole device inputs locked (after-Reach to_lock)

active_run_owed_example :
    (i : ℕ) × (d : Duties) × (d.unfinished ≡ true)
    × Settles d no_duties (begun.threads i)
    × (begun.threads i ≢ done tt)
active_run_owed_example = active_run_owed device inputs begun (after-Reach to_begin) begun-IsActive

-- The run's task starts and reads event_seq after app_main's task has read it and before it writes
-- it back: both events have the number 3.
abbrev raced : System
raced =
    schedule device inputs (platform 7) released
      (calls_of 1 13 (starts 0 5 ∷ calls_of 5 6 (calls_of 1 1 [])))

raced-event_seq : raced.shared.log.event_seq ≡ 3
unfolding start_system main_task start_device all_steps emit branch on_option start_network
    start_wifi network_identity nvs_load_sta initial_credentials start_station start_ap start_radio
    configure_sta serve start_mdns mdns_hostname hex_fixed sta_is_configured start_http check_step
    register_routes routes serve_requests handle runs_post read_body read_text read_loop
    draft_request validate_draft delete_body start_run begin text_eq snprintf workload_parse
    request_validate uptime_ms workload_task copy_run
raced-event_seq = refl

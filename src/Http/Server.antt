-- ===== src/Http/Server.antt =====
-- The table `routes` of start_http. Which request goes to which route is the server's matter
-- (httpd_uri_match_wildcard), and a parameter.
use dragon_bench.Common.{Bool, List, [], ◌∷◌, Text, codes}
use dragon_bench.Json.{Cjson}
use dragon_bench.Prog.{Prog}
use dragon_bench.Pages.Landing.{landing_page}
use dragon_bench.Pages.Setup.{setup_page}
use dragon_bench.Http.{HttpRequest}
use dragon_bench.Http.Runs.{runs_post, run_get, abort_post}
use dragon_bench.Http.Pages.{
  Booted, device_get, status_get, sensors_get, workloads_get, events_get, send_page,
}
use dragon_bench.Http.Station.{network_sta_post}

pub data Method : Type 0 where
  http_get http_post : Method

pub data Route : Type 0 where
  landing setup device status sensors workloads runs abort_run run events network_sta : Route

pub record Entry : Type 0 where
  pub uri : Text
  pub method : Method
  pub route : Route

abbrev pub entry : Text → Method → Route → Entry
entry uri method route = record { uri = uri; method = method; route = route }

-- The table, in the order of registration.
unfoldable pub routes : List Entry
routes =
    entry (codes "/") http_get landing
    ∷ entry (codes "/setup") http_get setup
    ∷ entry (codes "/api/v1/device") http_get device
    ∷ entry (codes "/api/v1/status") http_get status
    ∷ entry (codes "/api/v1/sensors") http_get sensors
    ∷ entry (codes "/api/v1/workloads") http_get workloads
    ∷ entry (codes "/api/v1/runs") http_post runs
    ∷ entry (codes "/api/v1/runs/*/abort") http_post abort_run
    ∷ entry (codes "/api/v1/runs/*") http_get run
    ∷ entry (codes "/api/v1/events") http_get events
    ∷ entry (codes "/api/v1/network/sta") http_post network_sta
    ∷ []

-- The handler of a route.
unfoldable pub handle : Cjson → Booted → Route → HttpRequest → Prog Bool
handle cjson b landing req = send_page (landing_page b.config.firmware_version)
handle cjson b setup req = send_page setup_page
handle cjson b device req = device_get cjson b
handle cjson b status req = status_get cjson b
handle cjson b sensors req = sensors_get cjson b
handle cjson b workloads req = workloads_get cjson
handle cjson b runs req = runs_post cjson b.boot_nonce req
handle cjson b abort_run req = abort_post cjson req
handle cjson b run req = run_get cjson req
handle cjson b events req = events_get
handle cjson b network_sta req = network_sta_post cjson req

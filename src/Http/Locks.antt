-- ===== src/Http/Locks.antt =====
-- The handlers keep the lock protocol.
use dragon_bench.Common.{ℕ, zero, suc, false, Option, List, [], ◌∷◌, Text}
use dragon_bench.Run.{Request}
use dragon_bench.Json.{Json, Body, Cjson}
use dragon_bench.Prog.Locks.{KeepsLock, KeepsLock-bind, lock_rules}
use dragon_bench.Http.{
  HttpRequest, read_loop, read_text, read_body, delete_body, send_json, respond,
}
use dragon_bench.Http.Runs.{start_run, runs_post, run_get, abort_post}
use dragon_bench.Http.Statics.{read_statics-KeepsLock}
use dragon_bench.Http.Pages.{
  Booted, device_get, status_get, sensors_get, workloads_get, send_events, events_get, send_page,
}
use dragon_bench.Http.Station.{network_sta_post}
use dragon_bench.Http.Server.{
  Route, landing, setup, device, status, sensors, workloads, runs, abort_run, run, events,
  network_sta, handle,
}

read_loop-KeepsLock : (fuel n : ℕ) (got : Text) → KeepsLock false (read_loop fuel n got)
unfolding read_loop
read_loop-KeepsLock zero n got = search lock_rules
read_loop-KeepsLock (suc fuel) n got =
    search (lock_rules, λ (m : ℕ) (t : Text). read_loop-KeepsLock fuel m t) depth 20

read_body-KeepsLock : (cjson : Cjson) (req : HttpRequest) → KeepsLock false (read_body cjson req)
unfolding read_body read_text
read_body-KeepsLock cjson req = search (lock_rules, read_loop-KeepsLock) depth 20

send_json-KeepsLock :
    (cjson : Cjson) (root : Json) (code : ℕ) → KeepsLock false (send_json cjson root code)
unfolding send_json
send_json-KeepsLock cjson root code = search lock_rules depth 20

respond-KeepsLock :
    (cjson : Cjson) (root : Json) (code : ℕ) → KeepsLock false (respond cjson root code)
unfolding respond
respond-KeepsLock cjson root code = search (lock_rules, send_json-KeepsLock) depth 20

delete_body-KeepsLock : (body : Option Body) → KeepsLock false (delete_body body)
unfolding delete_body
delete_body-KeepsLock body = search lock_rules depth 20

ruleset answer_rules = (lock_rules, send_json-KeepsLock, respond-KeepsLock, delete_body-KeepsLock)

start_run-KeepsLock :
    (cjson : Cjson) (nonce : ℕ) (q : Request) → KeepsLock false (start_run cjson nonce q)
unfolding start_run
start_run-KeepsLock cjson nonce q = search answer_rules depth 40

runs_post-KeepsLock :
    (cjson : Cjson) (nonce : ℕ) (req : HttpRequest) → KeepsLock false (runs_post cjson nonce req)
unfolding runs_post
runs_post-KeepsLock cjson nonce req =
    KeepsLock-bind (read_body cjson req) _ (read_body-KeepsLock cjson req)
      λ body. search (answer_rules, start_run-KeepsLock) depth 20

run_get-KeepsLock : (cjson : Cjson) (req : HttpRequest) → KeepsLock false (run_get cjson req)
unfolding run_get
run_get-KeepsLock cjson req = search answer_rules depth 20

abort_post-KeepsLock : (cjson : Cjson) (req : HttpRequest) → KeepsLock false (abort_post cjson req)
unfolding abort_post
abort_post-KeepsLock cjson req = search answer_rules depth 20

status_get-KeepsLock : (cjson : Cjson) (b : Booted) → KeepsLock false (status_get cjson b)
unfolding status_get
status_get-KeepsLock cjson b = search (answer_rules, read_statics-KeepsLock) depth 40

sensors_get-KeepsLock : (cjson : Cjson) (b : Booted) → KeepsLock false (sensors_get cjson b)
unfolding sensors_get
sensors_get-KeepsLock cjson b = search answer_rules depth 40

send_events-KeepsLock : (texts : List Text) → KeepsLock false (send_events texts)
unfolding send_events
send_events-KeepsLock [] = search lock_rules
send_events-KeepsLock (t ∷ rest) = search (lock_rules, send_events-KeepsLock rest) depth 20

events_get-KeepsLock : KeepsLock false events_get
unfolding events_get
events_get-KeepsLock = search (lock_rules, send_events-KeepsLock) depth 30

network_sta_post-KeepsLock :
    (cjson : Cjson) (req : HttpRequest) → KeepsLock false (network_sta_post cjson req)
unfolding network_sta_post
network_sta_post-KeepsLock cjson req =
    KeepsLock-bind (read_body cjson req) _ (read_body-KeepsLock cjson req)
      λ body. search answer_rules depth 20

-- Every handler of the server, on every request and for all replies, takes and gives back state_lock
-- in turn, touches current_run, the run counter and the event ring under it alone, and never
-- receives, sends or starts a task while it holds the lock.
pub handle-KeepsLock :
    (cjson : Cjson) (b : Booted) (route : Route) (req : HttpRequest)
    → KeepsLock false (handle cjson b route req)
unfolding handle
handle-KeepsLock cjson b landing req = unfold send_page in search lock_rules depth 20
handle-KeepsLock cjson b setup req = unfold send_page in search lock_rules depth 20
handle-KeepsLock cjson b device req = unfold device_get in respond-KeepsLock cjson _ 200
handle-KeepsLock cjson b status req = status_get-KeepsLock cjson b
handle-KeepsLock cjson b sensors req = sensors_get-KeepsLock cjson b
handle-KeepsLock cjson b workloads req = unfold workloads_get in respond-KeepsLock cjson _ 200
handle-KeepsLock cjson b runs req = runs_post-KeepsLock cjson b.boot_nonce req
handle-KeepsLock cjson b abort_run req = abort_post-KeepsLock cjson req
handle-KeepsLock cjson b run req = run_get-KeepsLock cjson req
handle-KeepsLock cjson b events req = events_get-KeepsLock
handle-KeepsLock cjson b network_sta req = network_sta_post-KeepsLock cjson req

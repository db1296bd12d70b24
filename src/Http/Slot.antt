-- ===== src/Http/Slot.antt =====
-- The handlers' writes of current_run are transitions of its life.
use dragon_bench.Common.{ℕ, zero, suc, false, not, Option, List, [], ◌∷◌, Text, ◌≡◌, arith}
use dragon_bench.Run.{Request, Run}
use dragon_bench.Json.{Json, Body, Cjson}
use dragon_bench.Prog.Slot.{
  KeepsSlot, nothing, KeepsSlot-ask, KeepsSlot-test, KeepsSlot-bind, IsActive, begin-Transition,
  slot_rules,
}
use dragon_bench.Http.{
  HttpRequest, read_loop, read_text, read_body, delete_body, send_json, respond,
}
use dragon_bench.Http.Runs.{
  start_run, fail_run, runs_post, run_get, abort_post, is_active, draft_request, validate_draft,
}
use dragon_bench.Run.Validate.{IsAcceptable, FitsFields}
use dragon_bench.Http.Requests.{validate_draft_sound}
use dragon_bench.Http.Statics.{read_statics-KeepsSlot}
use dragon_bench.Http.Pages.{
  Booted, device_get, status_get, sensors_get, workloads_get, send_events, events_get, send_page,
}
use dragon_bench.Http.Station.{network_sta_post}
use dragon_bench.Http.Server.{
  Route, landing, setup, device, status, sensors, workloads, runs, abort_run, run, events,
  network_sta, handle,
}

read_loop-KeepsSlot : (fuel n : ℕ) (got : Text) → KeepsSlot nothing (read_loop fuel n got)
unfolding read_loop
read_loop-KeepsSlot zero n got = search slot_rules
read_loop-KeepsSlot (suc fuel) n got =
    search (slot_rules, λ (m : ℕ) (t : Text). read_loop-KeepsSlot fuel m t) depth 20

read_body-KeepsSlot : (cjson : Cjson) (req : HttpRequest) → KeepsSlot nothing (read_body cjson req)
unfolding read_body read_text
read_body-KeepsSlot cjson req = search (slot_rules, read_loop-KeepsSlot) depth 20

send_json-KeepsSlot :
    (cjson : Cjson) (root : Json) (code : ℕ) → KeepsSlot nothing (send_json cjson root code)
unfolding send_json
send_json-KeepsSlot cjson root code = search slot_rules depth 20

respond-KeepsSlot :
    (cjson : Cjson) (root : Json) (code : ℕ) → KeepsSlot nothing (respond cjson root code)
unfolding respond
respond-KeepsSlot cjson root code = search (slot_rules, send_json-KeepsSlot) depth 20

delete_body-KeepsSlot : (body : Option Body) → KeepsSlot nothing (delete_body body)
unfolding delete_body
delete_body-KeepsSlot body = search slot_rules depth 20

ruleset answer_rules = (slot_rules, send_json-KeepsSlot, respond-KeepsSlot, delete_body-KeepsSlot)

inactive : (r : Run) → is_active r.state ≡ false → IsActive r → ⊥
inactive r e a = ground arith

fail_run-KeepsSlot : (cjson : Cjson) → KeepsSlot nothing (fail_run cjson)
unfolding fail_run
fail_run-KeepsSlot cjson = search answer_rules depth 20

start_run-KeepsSlot :
    (cjson : Cjson) (nonce : ℕ) (q : Request)
    → IsAcceptable q
    → FitsFields q
    → KeepsSlot nothing (start_run cjson nonce q)
unfolding start_run
start_run-KeepsSlot cjson nonce q a f = KeepsSlot-ask _ _ _ tt λ _. KeepsSlot-ask _ _ _ tt λ r.
    KeepsSlot-test _ (is_active r.state) _ _ (search answer_rules depth 20) (λ e.
      KeepsSlot-ask _ _ _ tt λ number. KeepsSlot-ask _ _ _ tt λ us.
        KeepsSlot-ask _ _ _ (begin-Transition r q _ _ (inactive r e) a f)
          λ _. search (answer_rules, fail_run-KeepsSlot) depth 20)

runs_post-KeepsSlot :
    (cjson : Cjson) (nonce : ℕ) (req : HttpRequest) → KeepsSlot nothing (runs_post cjson nonce req)
unfolding runs_post
runs_post-KeepsSlot cjson nonce req =
    KeepsSlot-bind (read_body cjson req) _ (read_body-KeepsSlot cjson req) λ body.
      KeepsSlot-bind (delete_body body) _ (delete_body-KeepsSlot body) λ _.
        KeepsSlot-test nothing (not (validate_draft (draft_request body)).0) _ _
          (search answer_rules depth 20)
          (λ e.
            let sound = validate_draft_sound body (ground arith) in
            start_run-KeepsSlot cjson nonce (draft_request body).request sound.0 sound.1)

send_events-KeepsSlot : (texts : List Text) → KeepsSlot nothing (send_events texts)
unfolding send_events
send_events-KeepsSlot [] = search slot_rules
send_events-KeepsSlot (t ∷ rest) = search (slot_rules, send_events-KeepsSlot rest) depth 20

events_get-KeepsSlot : KeepsSlot nothing events_get
unfolding events_get
events_get-KeepsSlot = search (slot_rules, send_events-KeepsSlot) depth 30 fits 20000

-- On every request and for all replies, whatever a handler writes to current_run is a transition of
-- the run's life from the value that it read under the same hold of the lock: it begins a run only
-- where none is active and only with a request that db_request_validate accepts and whose values fit
-- their fields, aborts only a running one, and finishes a run without touching its identifier, its
-- request or its abort flag. Whatever it writes to the ring is one event stored in the ring that it
-- read under the same hold.
pub handle-KeepsSlot :
    (cjson : Cjson) (b : Booted) (route : Route) (req : HttpRequest)
    → KeepsSlot nothing (handle cjson b route req)
unfolding handle
handle-KeepsSlot cjson b landing req = unfold send_page in search slot_rules depth 20
handle-KeepsSlot cjson b setup req = unfold send_page in search slot_rules depth 20
handle-KeepsSlot cjson b device req = unfold device_get in respond-KeepsSlot cjson _ 200
handle-KeepsSlot cjson b status req =
    unfold status_get in search (answer_rules, read_statics-KeepsSlot) depth 40
handle-KeepsSlot cjson b sensors req = unfold sensors_get in search answer_rules depth 40
handle-KeepsSlot cjson b workloads req = unfold workloads_get in respond-KeepsSlot cjson _ 200
handle-KeepsSlot cjson b runs req = runs_post-KeepsSlot cjson b.boot_nonce req
handle-KeepsSlot cjson b abort_run req = unfold abort_post in search answer_rules depth 20
handle-KeepsSlot cjson b run req = unfold run_get in search answer_rules depth 20
handle-KeepsSlot cjson b events req = events_get-KeepsSlot
handle-KeepsSlot cjson b network_sta req =
    unfold network_sta_post in
    KeepsSlot-bind (read_body cjson req) _ (read_body-KeepsSlot cjson req)
      λ body. search answer_rules depth 20

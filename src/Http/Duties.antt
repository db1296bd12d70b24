-- ===== src/Http/Duties.antt =====
-- The handlers settle what they owe.
use dragon_bench.Common.{
  ℕ, zero, suc, ◌≡◌, refl, Bool, true, Option, none, some, List, [], ◌∷◌, Text, arith,
}
use dragon_bench.Run.{Request, Run, aborting, begin, abort, finish}
use dragon_bench.Json.{Json, Body, Cjson}
use dragon_bench.Prog.{
  Prog, done, call, on_option, ◌>>=◌, ◌>>◌, free, new_tree, get_request_counter,
  put_request_counter,
}
use dragon_bench.Prog.Protocol.{Follows, Follows-then, Follows-branch, Follows-on_option}
use dragon_bench.Prog.Duties.{
  Duties, no_duties, duty_protocol, Settles, Settles-ask, Settles-bind, Settles-then,
  Settles-branch, Settles-malloc, Settles-create, duty_rules,
}
use dragon_bench.Task.Duties.{owing}
use dragon_bench.Http.{
  HttpRequest, read_loop, read_text, parse_text, read_body, delete_body, send_json, respond,
}
use dragon_bench.Http.Runs.{start_run, fail_run, runs_post, run_get, abort_post}
use dragon_bench.Http.Statics.{read_statics-Settles}
use dragon_bench.Http.Pages.{
  Booted, device_get, status_get, sensors_get, workloads_get, send_events, events_get, send_page,
}
use dragon_bench.Http.Station.{queue_credentials, network_sta_post}
use dragon_bench.Http.Server.{
  Route, landing, setup, device, status, sensors, workloads, runs, abort_run, run, events,
  network_sta, handle,
}

read_loop-Settles : (fuel n : ℕ) (got : Text) → Settles no_duties no_duties (read_loop fuel n got)
unfolding read_loop
read_loop-Settles zero n got = search duty_rules
read_loop-Settles (suc fuel) n got =
    search (duty_rules, λ (m : ℕ) (t : Text). read_loop-Settles fuel m t) depth 20

-- One tree to delete, and what a body leaves.
abbrev one_tree : Duties
one_tree = record no_duties { trees = tt ∷ [] }

abbrev parsed_duties : Option Body → Duties
parsed_duties none = no_duties
parsed_duties (some body) = one_tree

read_text-Settles : (req : HttpRequest) → Settles no_duties no_duties (read_text req)
unfolding read_text
read_text-Settles req = search (duty_rules, read_loop-Settles) depth 20

parsed-Settles :
    (o : Option Body)
    → Follows duty_protocol
        (on_option o (done none) (λ body. do call new_tree; done (some body)))
        no_duties
        (λ body t. t ≡ parsed_duties body)
unfolding on_option
parsed-Settles none = refl
parsed-Settles (some body) = (tt, λ _ _. refl)

-- read_body leaves the tree of the body that it gives, and no other.
read_body-Settles :
    (cjson : Cjson) (req : HttpRequest) (k : Option Body → Prog Bool)
    → ((body : Option Body) → Settles (parsed_duties body) no_duties (k body))
    → Settles no_duties no_duties (read_body cjson req >>= k)
unfolding read_body Settles
read_body-Settles cjson req k h =
    Follows-then duty_protocol (read_body cjson req) k no_duties (λ body t. t ≡ parsed_duties body)
      (λ _ t. t ≡ no_duties)
      (Follows-then duty_protocol (read_text req) _ no_duties (λ _ t. t ≡ no_duties)
        (λ body t. t ≡ parsed_duties body) (read_text-Settles req)
        (λ text t q. rw q (parsed-Settles (parse_text cjson text))))
      (λ body t q. rw q (h body))

delete_body-Settles :
    (body : Option Body) → Settles (parsed_duties body) no_duties (delete_body body)
unfolding delete_body on_option Settles
delete_body-Settles none = refl
delete_body-Settles (some body) = (tt, λ _ _. refl)

send_json-Settles :
    (cjson : Cjson) (root : Json) (code : ℕ)
    → Settles one_tree no_duties (send_json cjson root code)
unfolding send_json
send_json-Settles cjson root code = search duty_rules depth 20 fits 40000

respond-Settles :
    (cjson : Cjson) (root : Json) (code : ℕ) → Settles no_duties no_duties (respond cjson root code)
unfolding respond
respond-Settles cjson root code =
    Settles-ask no_duties _ new_tree _ tt λ _. send_json-Settles cjson root code

fail_run-Settles : (cjson : Cjson) → Settles owing no_duties (fail_run cjson)
unfolding fail_run finish
fail_run-Settles cjson = Settles-ask owing _ _ _ tt λ _. Settles-ask owing _ _ _ tt λ us.
    Settles-ask owing _ _ _ tt λ run.
      Settles-ask owing _ _ _ tt
        λ _. Settles-ask no_duties _ _ _ tt λ _. respond-Settles cjson _ 409

start_run-Settles :
    (cjson : Cjson) (nonce : ℕ) (q : Request)
    → Settles no_duties no_duties (start_run cjson nonce q)
unfolding start_run begin
start_run-Settles cjson nonce q = Settles-ask no_duties _ _ _ tt λ _.
    Settles-ask no_duties _ _ _ tt λ run.
      Settles-branch no_duties _ _ _ _ (search (duty_rules, respond-Settles) depth 20) (
        Settles-ask no_duties _ _ _ tt λ number. Settles-ask no_duties _ _ _ tt λ us.
          Settles-ask no_duties _ _ _ tt λ _. Settles-ask owing _ _ _ tt λ _.
            Settles-create owing no_duties _ _ (fail_run-Settles cjson)
              (respond-Settles cjson _ 201))

runs_post-Settles :
    (cjson : Cjson) (nonce : ℕ) (req : HttpRequest)
    → Settles no_duties no_duties (runs_post cjson nonce req)
unfolding runs_post
runs_post-Settles cjson nonce req = read_body-Settles cjson req _ λ body.
    Settles-then (delete_body body) _ _ no_duties no_duties (delete_body-Settles body)
      λ _. search (duty_rules, respond-Settles, start_run-Settles) depth 20

abort_state :
    (r : Run) (id : Text) → (abort r (some id)).0 ≡ true → (abort r (some id)).1.state ≡ aborting
unfolding abort
abort_state r id e = ground arith

abort_post-Settles :
    (cjson : Cjson) (req : HttpRequest) → Settles no_duties no_duties (abort_post cjson req)
unfolding abort_post Settles
abort_post-Settles cjson req =
    Follows-on_option duty_protocol _ _ _ no_duties _ (λ _. (tt, λ _ _. refl))
      (λ id _. (
        tt,
        λ _ _. (
          tt,
          λ run _.
              Follows-branch duty_protocol (abort run (some id)).0 _ _ no_duties _
                (λ e.
                  rw (abort_state run id e) (tt, λ _ _. (tt, λ _ _. respond-Settles cjson _ 200)))
                (λ _. (tt, λ _ _. respond-Settles cjson _ 409)),
        ),
      ))

send_events-Settles : (texts : List Text) (d : Duties) → Settles d d (send_events texts)
unfolding send_events
send_events-Settles [] d = search duty_rules
send_events-Settles (t ∷ rest) d = search (duty_rules, send_events-Settles rest) depth 20

events_get-Settles : Settles no_duties no_duties events_get
unfolding events_get
events_get-Settles =
    let inner : Duties = record no_duties { memory = 32772 ∷ [] } in
    Settles-malloc no_duties no_duties _ _ _ (search duty_rules depth 20) (
      Settles-ask inner _ _ _ tt λ _. Settles-ask inner _ _ _ tt λ log.
        Settles-ask inner _ _ _ tt λ _. Settles-ask inner _ _ _ tt λ _.
          Settles-bind (send_events _) _ inner _ (send_events-Settles _ inner)
            λ ok. Settles-ask inner _ free _ tt λ _. search duty_rules depth 20)

queue_credentials-Settles :
    (cjson : Cjson) (body : Option Body) (ssid password : Text)
    → Settles (parsed_duties body) no_duties (queue_credentials cjson body ssid password)
unfolding queue_credentials
queue_credentials-Settles cjson body ssid password =
    let d : Duties = parsed_duties body in
    Settles-ask d _ get_request_counter _ tt λ counter.
      Settles-ask d _ (put_request_counter _) _ tt λ _.
        Settles-then (delete_body body) _ d no_duties no_duties (delete_body-Settles body)
          λ _. search (duty_rules, respond-Settles) depth 20

status_get-Settles : (cjson : Cjson) (b : Booted) → Settles no_duties no_duties (status_get cjson b)
unfolding status_get
status_get-Settles cjson b =
    Settles-ask no_duties _ new_tree _ tt
      λ _. search (duty_rules, send_json-Settles, read_statics-Settles) depth 40 fits 40000

sensors_get-Settles :
    (cjson : Cjson) (b : Booted) → Settles no_duties no_duties (sensors_get cjson b)
unfolding sensors_get
sensors_get-Settles cjson b =
    Settles-ask no_duties _ new_tree _ tt
      λ _. search (duty_rules, send_json-Settles) depth 40 fits 40000

run_get-Settles :
    (cjson : Cjson) (req : HttpRequest) → Settles no_duties no_duties (run_get cjson req)
unfolding run_get
run_get-Settles cjson req = search (duty_rules, send_json-Settles) depth 30 fits 40000

pub handle-Settles :
    (cjson : Cjson) (b : Booted) (route : Route) (req : HttpRequest)
    → Settles no_duties no_duties (handle cjson b route req)
unfolding handle Settles
handle-Settles cjson b landing req = unfold send_page in search duty_rules depth 20
handle-Settles cjson b setup req = unfold send_page in search duty_rules depth 20
handle-Settles cjson b device req = unfold device_get in respond-Settles cjson _ 200
handle-Settles cjson b status req = status_get-Settles cjson b
handle-Settles cjson b sensors req = sensors_get-Settles cjson b
handle-Settles cjson b workloads req = unfold workloads_get in respond-Settles cjson _ 200
handle-Settles cjson b runs req = runs_post-Settles cjson b.boot_nonce req
handle-Settles cjson b abort_run req = abort_post-Settles cjson req
handle-Settles cjson b run req = run_get-Settles cjson req
handle-Settles cjson b events req = events_get-Settles
handle-Settles cjson b network_sta req =
    unfold network_sta_post in
    read_body-Settles cjson req _ λ body.
      Settles-branch (parsed_duties body) no_duties _ _ _
        (Settles-then (delete_body body) _ _ no_duties no_duties (delete_body-Settles body)
          λ _. respond-Settles cjson _ 400)
        (queue_credentials-Settles cjson body _ _)

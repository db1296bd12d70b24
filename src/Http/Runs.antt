-- ===== src/Http/Runs.antt =====
-- The handlers that start, show and abort runs.
use dragon_bench.Common.{
  ℕ, Bool, true, false, ◌&&◌, ◌||◌, not, Option, none, some, [], ◌∷◌, ◌++◌, Text, codes, text_eq,
  snprintf, hex_fixed, length, ltb, ◌==◌, if◌then◌else◌,
}
use dragon_bench.Run.{
  Workload, boot, Request, RunState, run_idle, running, aborting, complete, run_id_len, host_len,
  workload_parse, workload_name, request_validate, begin, abort, finish,
}
use dragon_bench.Json.{Number, str, object, Item, string_item, number_item, Body, Cjson}
use dragon_bench.Prog.{
  Prog, branch, on_option, call, ◌>>=◌, ◌>>◌, take_lock, give_lock, get_run, put_run,
  bump_run_counter, new_tree, create_workload_task, resp_send_err,
}
use dragon_bench.Stress.{uptime_ms}
use dragon_bench.Http.{
  HttpRequest, read_body, delete_body, send_json, respond, error_json, path_run_id,
}

-- valuedouble < 1
abbrev pub below_one : Number → Bool
below_one n = n.negative || n.whole == 0

-- valuedouble < 0
abbrev pub below_zero : Number → Bool
below_zero n = n.negative && (not (n.whole == 0) || n.fractional)

-- valuedouble > limit
abbrev pub above : ℕ → Number → Bool
above limit n = not n.negative && (ltb limit n.whole || n.whole == limit && n.fractional)

-- What runs_post has made of the body so far: `parsed`, and the request.
pub record Draft : Type 0 where
  pub parsed : Bool
  pub request : Request

abbrev pub default_request : Request
default_request = record { workload = boot; duration_ms = 30000; rate_bps = 0; port = 0; host = [] }

abbrev pub drafted : Option Workload → Draft
drafted none = record { parsed = false; request = default_request }
drafted (some w) = record { parsed = true; request = record default_request { workload = w } }

-- cJSON_IsString(w) && db_workload_parse(…)
unfoldable pub take_workload : Option Item → Draft
take_workload (some (string_item name)) = drafted (workload_parse (some name) true)
take_workload _ = record { parsed = false; request = default_request }

unfoldable pub take_duration : Option Item → Draft → Draft
take_duration (some (number_item n)) d =
    if below_one n || above 3600000 n || n.fractional
    then record d { parsed = false }
    else record d { request = record (d.request) { duration_ms = n.whole } }
take_duration _ d = d

unfoldable pub take_host : Option Item → Draft → Draft
take_host (some (string_item host)) d =
    if ltb (length host) host_len
    then record d { request = record (d.request) { host = snprintf host_len host } }
    else d
take_host _ d = d

unfoldable pub take_port : Option Item → Draft → Draft
take_port (some (number_item n)) d =
    if below_one n || above 65535 n || n.fractional
    then record d { parsed = false }
    else record d { request = record (d.request) { port = n.whole } }
take_port _ d = d

unfoldable pub take_rate : Option Item → Draft → Draft
take_rate (some (number_item n)) d =
    if below_zero n || above 4294967295 n || n.fractional
    then record d { parsed = false }
    else record d { request = record (d.request) { rate_bps = n.whole } }
take_rate _ d = d

-- body ? cJSON_GetObjectItemCaseSensitive(body, name) : NULL
abbrev pub item : Option Body → Text → Option Item
item none name = none
item (some body) name = body name

-- runs_post from the body to the request.
unfoldable pub draft_request : Option Body → Draft
unfolding take_workload take_duration take_host take_port take_rate
draft_request body = take_rate (item body (codes "rate_bps")) (
    take_port (item body (codes "port")) (
      take_host (item body (codes "host")) (
        take_duration (item body (codes "duration_ms"))
          (take_workload (item body (codes "workload"))))))

-- parsed && db_request_validate(…), and the text of `validation`.
unfoldable pub validate_draft : Draft → Bool × Text
validate_draft d =
    if d.parsed
    then request_validate (some (d.request)) (codes "invalid workload") 96
    else (false, codes "invalid workload")

-- "%08x-%08x" of the boot's nonce and the run's number.
unfoldable pub print_run_id : ℕ → ℕ → Text
print_run_id nonce number =
    snprintf run_id_len (hex_fixed b'a' 8 nonce ++ (b'-' ∷ hex_fixed b'a' 8 number))

abbrev pub is_active : RunState → Bool
is_active running = true
is_active aborting = true
is_active _ = false

-- run_state_name
unfoldable pub run_state_name : RunState → Text
run_state_name run_idle = codes "idle"
run_state_name running = codes "running"
run_state_name aborting = codes "aborting"
run_state_name complete = codes "complete"

-- What runs_post does when the task cannot be made.
unfoldable pub fail_run : Cjson → Prog Bool
unfolding uptime_ms
fail_run cjson = do
  call take_lock
  now ← uptime_ms
  run ← call get_run
  call (put_run (finish run (some (codes "fail")) now))
  call give_lock
  respond cjson (error_json (codes "task creation failed")) 409

-- The part of runs_post behind its validation.
unfoldable pub start_run : Cjson → ℕ → Request → Prog Bool
unfolding uptime_ms fail_run
start_run cjson nonce request = do
  call take_lock
  run ← call get_run
  branch (is_active run.state)
      (do call give_lock; respond cjson (error_json (codes "run already active")) 409)
      (do
        number ← call bump_run_counter
        let id : Text = print_run_id nonce number
        now ← uptime_ms
        call (put_run (begin request id now))
        call give_lock
        created ← call create_workload_task
        branch (not created) (fail_run cjson) (
            respond cjson
              (object ((codes "run_id", str id) ∷ (codes "state", str (codes "running")) ∷ []))
              201))

-- runs_post
unfoldable pub runs_post : Cjson → ℕ → HttpRequest → Prog Bool
unfolding draft_request validate_draft start_run
runs_post cjson nonce req = do
  body ← read_body cjson req
  delete_body body
  branch (not (validate_draft (draft_request body)).0)
      (respond cjson (error_json (validate_draft (draft_request body)).1) 400)
      (start_run cjson nonce (draft_request body).request)

-- run_get
unfoldable pub run_get : Cjson → HttpRequest → Prog Bool
run_get cjson req =
    on_option (path_run_id req.uri false run_id_len) (call (resp_send_err (codes "bad run id")))
      λ id. do
        call take_lock
        run ← call get_run
        call new_tree
        call give_lock
        branch (not (text_eq id run.run_id))
            (send_json cjson (error_json (codes "run not found")) 404)
            (send_json cjson
              (object (
                (codes "run_id", str id)
                ∷ (codes "workload", str (workload_name run.request.workload))
                ∷ (codes "state", str (run_state_name run.state))
                ∷ (codes "result", str run.result)
                ∷ []))
              200)

-- abort_post; db_run_abort writes only where it returns true.
unfoldable pub abort_post : Cjson → HttpRequest → Prog Bool
abort_post cjson req =
    on_option (path_run_id req.uri true run_id_len) (call (resp_send_err (codes "bad run id")))
      λ id. do
        call take_lock
        run ← call get_run
        branch (abort run (some id)).0
            (do
              call (put_run (abort run (some id)).1)
              call give_lock
              respond cjson
                  (object ((codes "run_id", str id) ∷ (codes "state", str (codes "aborting")) ∷ []))
                  200)
            (do call give_lock; respond cjson (error_json (codes "run not active")) 409)

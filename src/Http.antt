-- ===== src/Http.antt =====
-- The HTTP interface of firmware/targets/esp32s3/main/main.c: bodies, paths, responses and one
-- program for each handler. What app_main has set before the server starts is a parameter.
pub mod Runs
pub mod Pages
pub mod Station
pub mod Server
pub mod Statics
pub mod Locks
pub mod Slot
pub mod Duties
pub mod Paths
pub mod Routing
pub mod Drafts
pub mod Requests
pub mod Bodies
use dragon_bench.Common.{
  ℕ, zero, suc, ◌+◌, ◌-◌, Bool, true, false, ◌&&◌, ◌||◌, not, Option, none, some, List, [], ◌∷◌,
  ◌++◌, Text, codes, is_empty, length, drop, ltb, leb, ◌==◌, if◌then◌else◌,
}
use dragon_bench.Run.{run_id_len}
use dragon_bench.Json.{Json, str, Field, object, Body, Cjson}
use dragon_bench.Events.{text_or_empty}
use dragon_bench.Prog.{
  Prog, done, out_of_fuel, branch, call, ◌>>=◌, ◌>>◌, recv_body, resp_set_status, resp_set_type,
  resp_send, on_option, new_tree, delete_tree, new_text, free_text,
}

-- What the server hands to a handler of the request's head.
pub record HttpRequest : Type 0 where
  pub uri : Text
  pub content_len : ℕ

abbrev pub json_body_max : ℕ
json_body_max = 1024

-- The loop of read_body: how many bytes are still to come, and those that came. An empty reply is a
-- result that is not positive.
unfoldable pub read_loop : ℕ → ℕ → Text → Prog (Option Text)
read_loop zero remaining got = out_of_fuel
read_loop (suc fuel) remaining got = branch (remaining == 0) (done (some got)) (do
  bytes ← call (recv_body remaining)
  branch (is_empty bytes) (done none) (read_loop fuel (remaining - length bytes) (got ++ bytes)))

-- read_body up to its call of cJSON_Parse. Each round takes a byte at least.
unfoldable pub read_text : HttpRequest → Prog (Option Text)
unfolding read_loop
read_text req =
    branch (req.content_len == 0 || leb json_body_max req.content_len) (done none)
      (read_loop json_body_max req.content_len [])

abbrev pub parse_text : Cjson → Option Text → Option Body
parse_text cjson none = none
parse_text cjson (some text) = cjson.parse_body text

-- read_body; a body that was parsed is a tree to delete.
unfoldable pub read_body : Cjson → HttpRequest → Prog (Option Body)
unfolding read_text
read_body cjson req = do
  text ← read_text req
  on_option (parse_text cjson text) (done none) (λ body. do call new_tree; done (some body))

-- cJSON_Delete(body)
unfoldable pub delete_body : Option Body → Prog (Unit {0})
delete_body body = on_option body (done tt) (λ _. call delete_tree)

unfoldable pub status_text : ℕ → Text
status_text status =
    if status == 200
    then codes "200 OK"
    else if status == 201
    then codes "201 Created"
    else if status == 400
    then codes "400 Bad Request"
    else if status == 404
    then codes "404 Not Found"
    else codes "409 Conflict"

-- send_json
unfoldable pub send_json : Cjson → Json → ℕ → Prog Bool
unfolding status_text
send_json cjson root status = do
  call (resp_set_status (status_text status))
  call (resp_set_type (codes "application/json"))
  call new_text
  sent ← call (resp_send (text_or_empty (cjson.print root)))
  call free_text
  call delete_tree
  done sent

-- An object made by cJSON_CreateObject, filled, and sent by send_json.
unfoldable pub respond : Cjson → Json → ℕ → Prog Bool
unfolding send_json
respond cjson root status = do call new_tree; send_json cjson root status

-- { "error": message }
abbrev pub error_json : Text → Json
error_json message = object ((codes "error", str message) ∷ [])

-- Whether a text begins with another, and what stands before the first place where it occurs.
unfoldable pub starts_with : Text → Text → Bool
starts_with [] s = true
starts_with (c ∷ cs) [] = false
starts_with (c ∷ cs) (d ∷ s) = c == d && starts_with cs s

-- strstr, as the text before the occurrence.
unfoldable pub before : Text → Text → Option Text
unfolding starts_with
before needle [] = if starts_with needle [] then some [] else none
before needle (c ∷ s) =
    let rest = before needle s in
    if starts_with needle (c ∷ s)
    then some []
    else elim rest [ none ↦ none | some t ↦ some (c ∷ t) ]

-- The identifier, if it is not empty and fits the buffer.
unfoldable pub bounded_id : Option Text → ℕ → Option Text
bounded_id none size = none
bounded_id (some id) size = if is_empty id || leb size (length id) then none else some id

-- path_run_id; the server has matched the prefix "/api/v1/runs/".
unfoldable pub path_run_id : Text → Bool → ℕ → Option Text
unfolding before bounded_id
path_run_id uri true size = bounded_id (before (codes "/abort") (drop 13 uri)) size
path_run_id uri false size = bounded_id (some (drop 13 uri)) size

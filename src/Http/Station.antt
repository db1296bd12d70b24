-- ===== src/Http/Station.antt =====
-- network_sta_post: a request to join a network, handed to the configuration task.
use dragon_bench.Common.{
  ℕ, List, Bool, true, false, ◌&&◌, ◌||◌, not, Option, some, [], ◌∷◌, Text, codes, is_empty,
  snprintf, length, ltb, leb,
}
use dragon_bench.Json.{Field, str, num, object, Item, string_item, Body, Cjson}
use dragon_bench.Network.{request_id_next}
use dragon_bench.Prog.{
  Prog, Credentials, branch, call, ◌>>=◌, ◌>>◌, get_request_counter, put_request_counter,
  queue_overwrite,
}
use dragon_bench.Http.{HttpRequest, read_body, delete_body, respond, error_json}
use dragon_bench.Http.Runs.{item}

-- cJSON_IsString(password) ? password->valuestring : ""
abbrev pub string_or_empty : Option Item → Text
string_or_empty (some (string_item s)) = s
string_or_empty _ = []

-- cJSON_IsString(ssid)
abbrev pub is_string : Option Item → Bool
is_string (some (string_item s)) = true
is_string _ = false

unfoldable pub valid_credentials : Option Item → Text → Bool
valid_credentials ssid password =
    is_string ssid
    && not (is_empty (string_or_empty ssid))
    && ltb (length (string_or_empty ssid)) 32
    && (is_empty password || leb 8 (length password))
    && ltb (length password) 64

-- The request that goes to sta_config_task, with the counter's next number.
unfoldable pub credentials_of : ℕ → Text → Text → Credentials
credentials_of counter ssid password = record {
  request_id = request_id_next counter;
  ssid = snprintf 33 ssid;
  password = snprintf 65 password;
}

-- The answer to a request that was queued.
abbrev pub accepted_fields : Credentials → List Field
accepted_fields creds =
    (codes "state", str (codes "connecting"))
    ∷ (codes "request_id", num creds.request_id)
    ∷ (codes "ssid", str creds.ssid)
    ∷ []

-- The part behind the validation.
unfoldable pub queue_credentials : Cjson → Option Body → Text → Text → Prog Bool
unfolding credentials_of
queue_credentials cjson body ssid password = do
  counter ← call get_request_counter
  call (put_request_counter (request_id_next counter))
  let creds : Credentials = credentials_of counter ssid password
  delete_body body
  call (queue_overwrite creds)
  respond cjson (object (accepted_fields creds)) 200

-- network_sta_post
unfoldable pub network_sta_post : Cjson → HttpRequest → Prog Bool
unfolding valid_credentials queue_credentials
network_sta_post cjson req = do
  body ← read_body cjson req
  branch
      (not (
        valid_credentials (item body (codes "ssid"))
          (string_or_empty (item body (codes "password")))))
      (do
        delete_body body
        respond cjson
            (error_json (codes "ssid required (<32 chars); password must be empty or 8-63 chars"))
            400)
      (queue_credentials cjson body (string_or_empty (item body (codes "ssid")))
        (string_or_empty (item body (codes "password"))))

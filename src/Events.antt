-- ===== src/Events.antt =====
-- The event log of firmware/targets/esp32s3/main/main.c: emit_event, the ring of the last
-- DB_EVENT_CAPACITY events and its snapshot. `event_seq` and `event_head` are never wrapped: a
-- uint64_t does not overflow by increments, and the head stays below the capacity.
pub mod Ring
pub mod Snapshot
pub mod Numbering
pub mod View
use dragon_bench.Common.{
  ℕ, zero, suc, ◌+◌, ◌-◌, ◌%◌, Bool, true, false, ◌&&◌, not, Option, none, some, List, [], ◌∷◌,
  ◌++◌, Text, codes, is_empty, snprintf, length, take, get_or, set, ltb, if◌then◌else◌,
}
use dragon_bench.Json.{Json, str, num, parsed, Field, object, Cjson}

abbrev pub event_capacity : ℕ
event_capacity = 64

abbrev pub event_json_len : ℕ
event_json_len = 512

-- db_event_t
pub record Event : Type 0 where
  pub seq : ℕ
  pub json : Text

-- A slot of the static array before it is written.
abbrev pub blank : Event
blank = record { seq = 0; json = [] }

-- The statics events, event_head, event_count and event_seq.
pub record EventLog : Type 0 where
  pub events : List Event
  pub event_head : ℕ
  pub event_count : ℕ
  pub event_seq : ℕ

-- What a call of emit_event is given.
pub record Emission : Type 0 where
  pub event : Text
  pub phase : Option Text
  pub run_id : Option Text
  pub result : Option Text
  pub parameters_json : Option Text
  pub metrics_json : Option Text

-- The build's configuration.
pub record Config : Type 0 where
  pub target_name : Text
  pub firmware_version : Text

-- if (s) cJSON_AddStringToObject(root, name, s)
unfoldable pub string_field : Text → Option Text → List Field
string_field name none = []
string_field name (some s) = (name, str s) ∷ []

-- if (run_id && run_id[0]) cJSON_AddStringToObject(root, name, run_id)
unfoldable pub run_id_field : Text → Option Text → List Field
run_id_field name none = []
run_id_field name (some s) = if is_empty s then [] else (name, str s) ∷ []

-- A text that is parsed and added under a name, if it parses.
unfoldable pub parsed_field : Cjson → Text → Option Text → List Field
parsed_field cjson name none = []
parsed_field cjson name (some s) = if cjson.parses s then (name, parsed s) ∷ [] else []

-- The tree that emit_event builds for the event with number `seq`.
unfoldable pub event_tree : Cjson → Config → ℕ → ℕ → Emission → Json
unfolding string_field run_id_field parsed_field
event_tree cjson config seq uptime e = object (
    ((codes "schema", num 1)
      ∷ (codes "event", str e.event)
      ∷ (codes "seq", num seq)
      ∷ (codes "uptime_ms", num uptime)
      ∷ (codes "target", str config.target_name)
      ∷ (codes "firmware_version", str config.firmware_version)
      ∷ [])
    ++ (string_field (codes "phase") e.phase
        ++ (run_id_field (codes "run_id") e.run_id
            ++ (string_field (codes "result") e.result
                ++ (parsed_field cjson (codes "parameters") e.parameters_json
                    ++ parsed_field cjson (codes "metrics") e.metrics_json)))))

-- json ? json : "{}"
abbrev pub text_or_empty : Option Text → Text
text_or_empty none = codes "{}"
text_or_empty (some t) = t

-- ++event_seq, which emit_event does before it takes the lock.
unfoldable pub count_event : EventLog → EventLog
count_event l = record l { event_seq = l.event_seq + 1 }

-- What emit_event does under the lock: the slot gets the counter as it stands then.
unfoldable pub store_event : EventLog → Option Text → EventLog
store_event l json = record l {
  events =
      set l.events l.event_head
        (record { seq = l.event_seq; json = snprintf event_json_len (text_or_empty json) });
  event_head = (l.event_head + 1) % event_capacity;
  event_count = if ltb l.event_count event_capacity then l.event_count + 1 else l.event_count;
}

-- emit_event with no other emission in between, at a time `uptime`.
unfoldable pub emit_event : Cjson → Config → ℕ → Emission → EventLog → EventLog
unfolding count_event event_tree store_event
emit_event cjson config uptime e l =
    let counted = count_event l in
    store_event counted (cjson.print (event_tree cjson config counted.event_seq uptime e))

-- The length that snapshot_events_locked copies: up to the NUL if memchr finds it in the first
-- DB_EVENT_JSON_LEN - 1 bytes.
unfoldable pub copied_len : Text → ℕ
copied_len src = if ltb (length src) (event_json_len - 1) then length src else event_json_len - 1

-- The loop of snapshot_events_locked at index `i`, with `n` rounds left.
unfoldable pub snapshot_from : List Event → ℕ → ℕ → ℕ → List Text
unfolding copied_len
snapshot_from events start i zero = []
snapshot_from events start i (suc n) =
    let src = (get_or events ((start + i) % event_capacity) blank).json in
    take (copied_len src) src ∷ snapshot_from events start (i + 1) n

unfoldable pub snapshot_start : EventLog → ℕ
snapshot_start l = (l.event_head + event_capacity - l.event_count) % event_capacity

-- snapshot_events_locked: the texts of the snapshot, `count` of them.
unfoldable pub snapshot_events_locked : EventLog → List Text
unfolding snapshot_start snapshot_from
snapshot_events_locked l = snapshot_from l.events (snapshot_start l) 0 l.event_count

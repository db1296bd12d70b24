-- ===== src/Tests/EventsTests.antt =====
-- Runs of the model of the event log.
use dragon_bench.Common.{
  ◌≡◌, refl, true, none, some, List, [], ◌∷◌, ◌++◌, codes, replicate, arith, snprintf,
}
use dragon_bench.Json.{Cjson}
use dragon_bench.Events.{Event, EventLog, Emission, Config, emit_event, snapshot_events_locked}
use mathlib.Core.Quot.{Quot}
use dragon_bench.Events.Ring.{IsRing, contents}
use dragon_bench.Events.View.{LogView, seen, store_view, append_event, store_view_refines}
use dragon_bench.Events.Numbering.{
  IsNumbered, initial_log, initial_log-IsNumbered, emit_event-IsNumbered, emit_overlapping,
  emit_overlapping_repeats, slot_of,
}

-- A printer that prints nothing of interest and a parser that accepts every text.
abbrev tiny_cjson : Cjson
tiny_cjson = record { print = λ j. some (codes "{}"); parses = λ t. true; parse_body = λ t. none }

abbrev config : Config
config = record { target_name = codes "esp32s3-n8r8"; firmware_version = codes "0.1.0" }

abbrev ready : Emission
ready = record {
  event = codes "ready";
  phase = none;
  run_id = none;
  result = none;
  parameters_json = none;
  metrics_json = none;
}

-- A log that has been round its ring: 64 events and the next goes to slot 3.
abbrev first : EventLog
first = emit_event tiny_cjson config 5 ready initial_log

snapshot_of_first : snapshot_events_locked first ≡ codes "{}" ∷ []
unfolding snapshot_events_locked emit_event snprintf
snapshot_of_first = refl

-- Two empty rings with other slots.
abbrev blank_ring : LogView
blank_ring = Quot.mk (initial_log, initial_log-IsNumbered.ring)

abbrev used_slots : EventLog
used_slots = record initial_log { events = replicate 64 (record { seq = 9; json = codes "{}" }) }

used_slots-IsRing : IsRing used_slots
used_slots-IsRing = record {
  size = refl;
  head_in = omega arith;
  count_in = omega arith;
  filling = λ _. refl;
}

store_view_refines_example :
    (seen (store_view (some (codes "x")) blank_ring)
      ≡ append_event (some (codes "x")) (seen blank_ring))
    × (seen blank_ring ≡ seen (Quot.mk (used_slots, used_slots-IsRing))
        → blank_ring ≡ Quot.mk (used_slots, used_slots-IsRing))
store_view_refines_example =
    store_view_refines (some (codes "x")) blank_ring (Quot.mk (used_slots, used_slots-IsRing))

emit_event-IsNumbered_example : IsNumbered (emit_event tiny_cjson config 9 ready first)
emit_event-IsNumbered_example =
    emit_event-IsNumbered tiny_cjson config 9 ready first
      (emit_event-IsNumbered tiny_cjson config 5 ready initial_log initial_log-IsNumbered)

emit_overlapping_repeats_example :
    (before : List Event) × (contents
        (emit_overlapping tiny_cjson config 5 ready 6 ready initial_log)
      ≡ before ++ slot_of 2 (some (codes "{}")) ∷ slot_of 2 (some (codes "{}")) ∷ [])
emit_overlapping_repeats_example =
    emit_overlapping_repeats tiny_cjson config 5 6 ready ready initial_log
      initial_log-IsNumbered.ring

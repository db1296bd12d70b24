-- ===== src/Events/Snapshot.antt =====
-- What a snapshot of the ring hands to a client.
use dragon_bench.Common.{
  ℕ, zero, suc, ◌+◌, ◌%◌, ◌<◌, ◌≡◌, refl, ap, ap₂, ◌∙◌, Option, List, [], ◌∷◌, map, Text, arith,
  length, get_or, set, take, take_all, length-snprintf, Bool-cases, inl, inr, ltb, replicate,
}
use dragon_bench.Events.{
  Event, EventLog, blank, event_capacity, event_json_len, text_or_empty, store_event, copied_len,
  snapshot_from, snapshot_start, snapshot_events_locked,
}
use dragon_bench.Events.Ring.{IsRing, slots, contents, snapshot_start-oldest}

-- Every slot's text fits the slot.
abbrev pub AllFit : List Event → Type 0
AllFit [] = Unit {0}
AllFit (e ∷ es) = (length e.json < event_json_len) × AllFit es

get_or-AllFit :
    (es : List Event) (i : ℕ) → AllFit es → length (get_or es i blank).json < event_json_len
get_or-AllFit [] i f = omega arith
get_or-AllFit (e ∷ es) zero f = f.0
get_or-AllFit (e ∷ es) (suc i) f = get_or-AllFit es i f.1

set-AllFit :
    (es : List Event) (i : ℕ) (v : Event)
    → AllFit es
    → length v.json < event_json_len
    → AllFit (set es i v)
set-AllFit [] i v f h = tt
set-AllFit (e ∷ es) zero v f h = (h, f.1)
set-AllFit (e ∷ es) (suc i) v f h = (f.0, set-AllFit es i v f.1 h)

pub replicate-AllFit : (n : ℕ) → AllFit (replicate n blank)
replicate-AllFit zero = tt
replicate-AllFit (suc n) = (omega arith, replicate-AllFit n)

-- emit_event writes no text that does not fit.
pub store_event-AllFit :
    (l : EventLog) (json : Option Text) → AllFit l.events → AllFit (store_event l json).events
unfolding store_event
store_event-AllFit l json f =
    set-AllFit l.events l.event_head _ f
      (length-snprintf event_json_len (text_or_empty json) (omega arith))

copied : (src : Text) → length src < event_json_len → take (copied_len src) src ≡ src
unfolding copied_len
copied src h = elim (Bool-cases (ltb (length src) 511)) [
  | inl e ↦ rw e (take_all (length src) src (omega arith))
  | inr e ↦ rw e (take_all 511 src (omega arith))
]

snapshot_from-slots :
    (es : List Event) (s i n : ℕ)
    → AllFit es
    → snapshot_from es s i n ≡ map (λ (e : Event). e.json) (slots es s i n)
unfolding snapshot_from slots
snapshot_from-slots es s i zero f = refl
snapshot_from-slots es s i (suc n) f =
    ap₂ ◌∷◌ (copied _ (get_or-AllFit es ((s + i) % event_capacity) f))
      (snapshot_from-slots es s (i + 1) n f)

-- Where the ring is well formed and every text fits its slot, the snapshot is exactly the texts of the events that
-- the ring holds, oldest first, none cut.
pub snapshot-contents :
    (l : EventLog)
    → IsRing l
    → AllFit l.events
    → snapshot_events_locked l ≡ map (λ (e : Event). e.json) (contents l)
unfolding snapshot_events_locked contents
snapshot-contents l r f =
    snapshot_from-slots l.events (snapshot_start l) 0 l.event_count f
    ∙ ap (λ start. map (λ (e : Event). e.json) (slots l.events start 0 l.event_count))
        (snapshot_start-oldest l r)

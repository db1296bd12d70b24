-- ===== src/Events/Ring.antt =====
-- The ring refines the list of the last DB_EVENT_CAPACITY events.
use dragon_bench.Common.{
  ℕ, zero, suc, ◌+◌, ◌-◌, ◌%◌, ◌≤◌, ◌<◌, ◌≡◌, refl, sym, ap, ap₂, ◌∙◌, Option, List, [], ◌∷◌, ◌++◌,
  Text, arith, length, length-set, get_or, get_or-set_self, get_or-set_ne, set, drop, drop-append,
  dec_lt, snprintf, ltb, if◌then◌else◌,
}
use dragon_bench.Events.{
  Event, EventLog, blank, event_capacity, event_json_len, text_or_empty, store_event,
  snapshot_start,
}

-- The representation of the ring.
pub record IsRing (l : EventLog) : Type 0 where
  pub size : length l.events ≡ event_capacity
  pub head_in : l.event_head < event_capacity
  pub count_in : l.event_count ≤ event_capacity
  pub filling : l.event_count < event_capacity → l.event_head ≡ l.event_count

-- `n` slots from the index `start + i` on, round the array.
unfoldable pub slots : List Event → ℕ → ℕ → ℕ → List Event
slots events start i zero = []
slots events start i (suc n) =
    get_or events ((start + i) % event_capacity) blank ∷ slots events start (i + 1) n

-- The index of the oldest event, by the way in which the ring is filled: the first slot until it is
-- full, and then the one that the next event overwrites.
abbrev pub oldest : EventLog → ℕ
oldest l = if ltb l.event_count event_capacity then 0 else l.event_head

-- The events that the ring holds, oldest first.
unfoldable pub contents : EventLog → List Event
contents l = slots l.events (oldest l) 0 l.event_count

-- The snapshot starts at the oldest event.
pub snapshot_start-oldest : (l : EventLog) → IsRing l → snapshot_start l ≡ oldest l
unfolding snapshot_start
snapshot_start-oldest l r = ground (arith, r.head_in, r.count_in, r.filling)

slots-snoc :
    (es : List Event) (s i n : ℕ)
    → slots es s i (suc n) ≡ slots es s i n ++ get_or es ((s + (i + n)) % event_capacity) blank ∷ []
unfolding slots
slots-snoc es s i zero = ap (λ k. get_or es ((s + k) % event_capacity) blank ∷ []) (omega arith)
slots-snoc es s i (suc n) =
    ap (λ r. get_or es ((s + i) % event_capacity) blank ∷ r)
      (slots-snoc es s (i + 1) n
        ∙ ap (λ k. slots es s (i + 1) n ++ get_or es ((s + k) % event_capacity) blank ∷ [])
            (omega arith))

-- A write just past the slots, less than a round away, changes none of them.
slots-set :
    (es : List Event) (s i n h : ℕ) (v : Event)
    → n < event_capacity
    → h ≡ (s + (i + n)) % event_capacity
    → slots (set es h v) s i n ≡ slots es s i n
unfolding slots
slots-set es s i zero h v b e = refl
slots-set es s i (suc n) h v b e =
    ap₂ ◌∷◌ (get_or-set_ne es v blank (λ x. omega arith))
      (slots-set es s (i + 1) n h v (omega arith) (omega arith))

slots-shift :
    (es : List Event) (s t i n : ℕ)
    → t ≡ (s + 1) % event_capacity
    → slots es t i n ≡ slots es s (i + 1) n
unfolding slots
slots-shift es s t i zero e = refl
slots-shift es s t i (suc n) e =
    ap₂ ◌∷◌ (ap (λ k. get_or es k blank) (omega arith)) (slots-shift es s t (i + 1) n e)

length-slots : (es : List Event) (s i n : ℕ) → length (slots es s i n) ≡ n
unfolding slots
length-slots es s i zero = refl
length-slots es s i (suc n) = ap suc (length-slots es s (i + 1) n)

pub length-contents : (l : EventLog) → length (contents l) ≡ l.event_count
unfolding contents
length-contents l = length-slots l.events (oldest l) 0 l.event_count

-- The event that a call of store_event writes.
abbrev pub stored : EventLog → Option Text → Event
stored l json = record { seq = l.event_seq; json = snprintf event_json_len (text_or_empty json) }

-- The ring stays well formed.
pub store_event-IsRing :
    (l : EventLog) (json : Option Text) → IsRing l → IsRing (store_event l json)
unfolding store_event
store_event-IsRing l json r = ground (arith, length-set l.events l.event_head (stored l json))

grow :
    (es : List Event) (c : ℕ) (v : Event)
    → length es ≡ event_capacity
    → c < event_capacity
    → slots (set es c v) 0 0 (suc c) ≡ slots es 0 0 c ++ v ∷ []
grow es c v size h =
    slots-snoc (set es c v) 0 0 c
    ∙ ap₂ (λ xs x. xs ++ x ∷ []) (slots-set es 0 0 c c v h (omega arith))
        (ap (λ k. get_or (set es c v) k blank) (omega arith)
          ∙ get_or-set_self es c v blank (omega arith))

replace :
    (es : List Event) (h : ℕ) (v : Event)
    → length es ≡ event_capacity
    → h < event_capacity
    → slots (set es h v) ((h + 1) % event_capacity) 0 event_capacity
      ≡ drop 1 (slots es h 0 event_capacity) ++ v ∷ []
unfolding slots
replace es h v size b =
    slots-snoc (set es h v) ((h + 1) % event_capacity) 0 63
    ∙ ap₂ (λ xs x. xs ++ x ∷ [])
        (slots-shift (set es h v) h ((h + 1) % event_capacity) 0 63 refl
          ∙ slots-set es h 1 63 h v (omega arith) (omega arith))
        (ap (λ k. get_or (set es h v) k blank) (omega arith)
          ∙ get_or-set_self es h v blank (omega arith))

-- A ring that is not full gets the event at its end.
pub store_event_filling :
    (l : EventLog) (json : Option Text)
    → IsRing l
    → l.event_count < event_capacity
    → contents (store_event l json) ≡ contents l ++ stored l json ∷ []
unfolding contents store_event
store_event_filling l json r h =
    cc (head, count, start, after, grow l.events l.event_count (stored l json) r.size h)
  where
    head : l.event_head ≡ l.event_count
    head = r.filling h

    count :
        (if ltb l.event_count event_capacity then l.event_count + 1 else l.event_count)
        ≡ suc l.event_count
    count = ground arith

    start : (if ltb l.event_count event_capacity then 0 else l.event_head) ≡ 0
    start = ground arith

    after :
        (if ltb
            (if ltb l.event_count event_capacity then l.event_count + 1 else l.event_count)
            event_capacity
          then 0
          else (l.event_head + 1) % event_capacity)
        ≡ 0
    after = ground (arith, head)

-- A full one loses its oldest.
pub store_event_full :
    (l : EventLog) (json : Option Text)
    → IsRing l
    → l.event_count ≡ event_capacity
    → contents (store_event l json) ≡ drop 1 (contents l) ++ stored l json ∷ []
unfolding contents store_event
store_event_full l json r h =
    cc (h, count, start, after, replace l.events l.event_head (stored l json) r.size r.head_in)
  where
    count :
        (if ltb l.event_count event_capacity then l.event_count + 1 else l.event_count)
        ≡ event_capacity
    count = ground arith

    start : (if ltb l.event_count event_capacity then 0 else l.event_head) ≡ l.event_head
    start = ground arith

    after :
        (if ltb
            (if ltb l.event_count event_capacity then l.event_count + 1 else l.event_count)
            event_capacity
          then 0
          else (l.event_head + 1) % event_capacity)
        ≡ (l.event_head + 1) % event_capacity
    after = rw count refl

-- Storing an event in a well-formed ring appends it to what the ring holds and drops the oldest
-- events beyond the capacity of 64, and the ring stays well formed.
pub store_event_refines :
    (l : EventLog) (json : Option Text)
    → IsRing l
    → IsRing (store_event l json)
      × (contents (store_event l json)
          ≡ drop (length (contents l) + 1 - event_capacity) (contents l ++ stored l json ∷ []))
store_event_refines l json r = (
  store_event-IsRing l json r,
  elim (dec_lt l.event_count event_capacity) [
    | yes h ↦
        let none_dropped : length (contents l) + 1 - event_capacity ≡ 0 =
          omega (arith, length-contents l) in
        rw none_dropped (store_event_filling l json r h)
    | no h ↦
        let one_dropped : length (contents l) + 1 - event_capacity ≡ 1 =
          omega (arith, length-contents l, r.count_in) in
        rw one_dropped (
          store_event_full l json r (omega (arith, r.count_in))
          ∙ sym
              (drop-append 1 (contents l) (stored l json ∷ []) (omega (arith, length-contents l))))
  ],
)

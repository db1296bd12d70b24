-- ===== src/Events/Numbering.antt =====
-- The numbers of the events in the ring: consecutive where emissions do not overlap, and repeated
-- where two do.
use dragon_bench.Common.{
  ℕ, zero, suc, ◌+◌, ◌-◌, ◌≤◌, ◌<◌, ◌≡◌, refl, sym, ap, ap₂, ◌∙◌, Option, List, [], ◌∷◌, ◌++◌, map,
  Text, arith, length, length-drop, min, drop, drop-append, snprintf, dec_lt, append_assoc,
  replicate, map-append,
}
use dragon_bench.Json.{Cjson}
use dragon_bench.Events.{
  Event, EventLog, Emission, Config, blank, event_capacity, event_json_len, text_or_empty,
  event_tree, count_event, store_event, emit_event,
}
use dragon_bench.Events.Ring.{
  IsRing, slots, contents, length-contents, stored, store_event-IsRing, store_event_filling,
  store_event_full,
}
use dragon_bench.Events.Snapshot.{AllFit, replicate-AllFit, store_event-AllFit}

-- a, a + 1, …, `n` numbers.
pub consecutive : ℕ → ℕ → List ℕ
consecutive a zero = []
consecutive a (suc n) = a ∷ consecutive (a + 1) n

consecutive-snoc : (a n : ℕ) → consecutive a (suc n) ≡ consecutive a n ++ (a + n) ∷ []
unfolding consecutive
consecutive-snoc a zero = ap (λ k. k ∷ []) (omega arith)
consecutive-snoc a (suc n) =
    ap (λ r. a ∷ r)
      (consecutive-snoc (a + 1) n ∙ ap (λ k. consecutive (a + 1) n ++ k ∷ []) (omega arith))

abbrev pub seqs : List Event → List ℕ
seqs = map (λ e. e.seq)

-- What holds of the log between two emissions.
pub record IsNumbered (l : EventLog) : Type 0 where
  pub ring : IsRing l
  pub fits : AllFit l.events
  pub no_more : l.event_count ≤ l.event_seq
  pub numbers :
      map (λ (e : Event). e.seq) (contents l)
      ≡ consecutive (l.event_seq + 1 - l.event_count) l.event_count

-- The statics as the program starts.
abbrev pub initial_log : EventLog
initial_log = record { events = replicate 64 blank; event_head = 0; event_count = 0; event_seq = 0 }

pub initial_log-IsNumbered : IsNumbered initial_log
unfolding contents slots consecutive
initial_log-IsNumbered = record {
  ring = omega arith;
  fits = replicate-AllFit 64;
  no_more = omega arith;
  numbers = refl;
}

map-drop : (es : List Event) → seqs (drop 1 es) ≡ drop 1 (seqs es)
map-drop [] = refl
map-drop (e ∷ es) = refl

contents-count_event : (l : EventLog) → contents (count_event l) ≡ contents l
unfolding contents count_event
contents-count_event l = refl

count_event-IsRing : (l : EventLog) → IsRing l → IsRing (count_event l)
unfolding count_event
count_event-IsRing l r = omega arith

-- The numbers of what the ring holds after one emission, before and once it is full.
numbers_filling :
    (l : EventLog) (json : Option Text)
    → IsNumbered l
    → l.event_count < event_capacity
    → seqs (contents (store_event (count_event l) json))
      ≡ consecutive (l.event_seq + 1 - l.event_count) (suc l.event_count)
unfolding count_event
numbers_filling l json v h =
    ap seqs (store_event_filling (count_event l) json (count_event-IsRing l v.ring) h)
    ∙ map-append (λ (e : Event). e.seq) (contents (count_event l))
        (stored (count_event l) json ∷ [])
    ∙ ap₂ (λ xs k. xs ++ k ∷ []) (ap seqs (contents-count_event l) ∙ v.numbers)
        (omega (arith, v.no_more))
    ∙ sym (consecutive-snoc (l.event_seq + 1 - l.event_count) l.event_count)

numbers_full :
    (l : EventLog) (json : Option Text)
    → IsNumbered l
    → l.event_count ≡ event_capacity
    → seqs (contents (store_event (count_event l) json))
      ≡ consecutive (l.event_seq + 1 - 63) event_capacity
unfolding count_event consecutive
numbers_full l json v h =
    ap seqs (store_event_full (count_event l) json (count_event-IsRing l v.ring) h)
    ∙ map-append (λ (e : Event). e.seq) (drop 1 (contents (count_event l)))
        (stored (count_event l) json ∷ [])
    ∙ ap₂ (λ xs k. xs ++ k ∷ [])
        (map-drop (contents (count_event l))
          ∙ ap (λ xs. drop 1 xs)
              (ap seqs (contents-count_event l) ∙ v.numbers ∙ ap₂ consecutive low h)
          ∙ ap (λ a. consecutive a 63) (omega (arith, v.no_more)))
        (omega (arith, v.no_more))
    ∙ sym (consecutive-snoc (l.event_seq + 1 - 63) 63)
  where
    low : l.event_seq + 1 - l.event_count ≡ l.event_seq + 1 - 64
    low = omega (arith, h)

stored_numbers :
    (l : EventLog) (json : Option Text)
    → IsNumbered l
    → let l' = store_event (count_event l) json in
      seqs (contents l') ≡ consecutive (l'.event_seq + 1 - l'.event_count) l'.event_count
stored_numbers l json v = elim (dec_lt l.event_count event_capacity) [
  | yes h ↦
      numbers_filling l json v h
      ∙ ap₂ consecutive (unfold count_event store_event in ground (arith, v.no_more))
          (unfold count_event store_event in ground arith)
  | no h ↦
      numbers_full l json v (omega (arith, v.ring.count_in))
      ∙ ap₂ consecutive
          (unfold count_event store_event in ground (arith, v.no_more, v.ring.count_in))
          (unfold count_event store_event in ground (arith, v.ring.count_in))
]

-- Where emissions do not overlap, every one of them leaves the ring with the consecutive numbers
-- that end in the counter's value.
pub emit_event-IsNumbered :
    (cjson : Cjson) (config : Config) (uptime : ℕ) (e : Emission) (l : EventLog)
    → IsNumbered l
    → IsNumbered (emit_event cjson config uptime e l)
unfolding emit_event
emit_event-IsNumbered cjson config uptime e l v =
    let json = cjson.print (event_tree cjson config (count_event l).event_seq uptime e) in
    record {
      ring = store_event-IsRing (count_event l) json (count_event-IsRing l v.ring);
      fits = store_event-AllFit (count_event l) json (unfold count_event in v.fits);
      no_more = unfold count_event store_event in ground arith;
      numbers = stored_numbers l json v;
    }

-- Two overlapping emissions: both count before either stores, and the second stores first.
pub emit_overlapping : Cjson → Config → ℕ → Emission → ℕ → Emission → EventLog → EventLog
emit_overlapping cjson config uptime e uptime' e' l =
    let first = count_event l in
    let second = count_event first in
    let json = cjson.print (event_tree cjson config first.event_seq uptime e) in
    let json' = cjson.print (event_tree cjson config second.event_seq uptime' e') in
    store_event (store_event second json') json

-- A slot that holds the number `seq` and the text that was printed.
abbrev pub slot_of : ℕ → Option Text → Event
slot_of seq json = record { seq = seq; json = snprintf event_json_len (text_or_empty json) }

-- The event that is stored comes last, behind at most 63 others.
store_event_last :
    (l : EventLog) (json : Option Text)
    → IsRing l
    → (before : List Event) × (contents (store_event l json)
        ≡ before ++ slot_of l.event_seq json ∷ [])
      × (length before ≡ min l.event_count 63)
store_event_last l json r = elim (dec_lt l.event_count event_capacity) [
  | yes h ↦ (contents l, store_event_filling l json r h, omega (arith, length-contents l))
  | no h ↦ (
    drop 1 (contents l),
    store_event_full l json r (omega (arith, r.count_in)),
    omega (arith, length-drop 1 (contents l), length-contents l, r.count_in),
  )
]

-- The two events that are stored last, with no count in between.
store_event_twice :
    (l : EventLog) (json json' : Option Text)
    → IsRing l
    → (before : List Event) × (contents (store_event (store_event l json') json)
        ≡ before ++ slot_of l.event_seq json' ∷ slot_of l.event_seq json ∷ [])
store_event_twice l json json' r =
    let l' = store_event l json' in
    let r' : IsRing l' = store_event-IsRing l json' r in
    let (b, eq, len) = store_event_last l json' r in
    let y = slot_of l.event_seq json' in
    let x = slot_of l.event_seq json in
    elim (dec_lt l'.event_count event_capacity) [
      | yes h ↦ (
        b,
        unfold store_event in
            store_event_filling l' json r' h
            ∙ ap (λ c. c ++ x ∷ []) eq
            ∙ append_assoc b (y ∷ []) (x ∷ []),
      )
      | no h ↦ (
        drop 1 b,
        unfold store_event in
            store_event_full l' json r' (omega (arith, r'.count_in))
            ∙ ap (λ c. drop 1 c ++ x ∷ []) eq
            ∙ ap (λ c. c ++ x ∷ [])
                (drop-append 1 b (y ∷ []) (unfold store_event in ground (arith, len)))
            ∙ append_assoc (drop 1 b) (y ∷ []) (x ∷ []),
      )
    ]

-- On a well-formed ring, overlapping emissions are recorded with one number twice: the slots of
-- both carry the number of the second, and the text of the first, stored last, was printed with the
-- number before it.
pub emit_overlapping_repeats :
    (cjson : Cjson) (config : Config) (uptime uptime' : ℕ) (e e' : Emission) (l : EventLog)
    → IsRing l
    → let json = cjson.print (event_tree cjson config (l.event_seq + 1) uptime e) in
      let json' = cjson.print (event_tree cjson config (l.event_seq + 2) uptime' e') in
      (before : List Event) × (contents (emit_overlapping cjson config uptime e uptime' e' l)
        ≡ before ++ slot_of (l.event_seq + 2) json' ∷ slot_of (l.event_seq + 2) json ∷ [])
unfolding emit_overlapping count_event
emit_overlapping_repeats cjson config uptime uptime' e e' l r =
    let json = λ (n : ℕ). cjson.print (event_tree cjson config n uptime e) in
    let json' = λ (n : ℕ). cjson.print (event_tree cjson config n uptime' e') in
    let second = count_event (count_event l) in
    let r2 : IsRing second = count_event-IsRing (count_event l) (count_event-IsRing l r) in
    let two : l.event_seq + 1 + 1 ≡ l.event_seq + 2 = omega arith in
    let (b, eq) =
      store_event_twice second (json (l.event_seq + 1)) (json' (l.event_seq + 1 + 1)) r2 in
    (b, eq ∙ ap (λ n. b ++ slot_of n (json' n) ∷ slot_of n (json (l.event_seq + 1)) ∷ []) two)

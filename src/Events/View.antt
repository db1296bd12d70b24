-- ===== src/Events/View.antt =====
-- The log of events as its readers see it, which forgets where the ring begins and what its unused
-- slots hold.
use dragon_bench.Common.{
  ℕ, ◌+◌, ◌-◌, ◌≡◌, refl, sym, ap, ap₂, ◌∙◌, Option, List, [], ◌∷◌, ◌++◌, Text, length, drop,
  snprintf,
}
use mathlib.Core.Quot
use mathlib.Core.Quot.{Quot, Quot-set}
use dragon_bench.Events.{
  Event, EventLog, event_capacity, event_json_len, text_or_empty, store_event,
}
use dragon_bench.Events.Ring.{IsRing, contents, store_event-IsRing, store_event_refines}

-- A log with a well-formed ring.
abbrev pub GoodLog : Type 0
GoodLog = (l : EventLog) × IsRing l

-- Two logs hold the same events and would number the next one alike.
abbrev pub SameView : GoodLog → GoodLog → Type 0
SameView a b = (contents a.0 ≡ contents b.0) × (a.0.event_seq ≡ b.0.event_seq)

abbrev pub LogView : Type 0
LogView = Quot SameView

Seen-set : IsSet (List Event × ℕ)
Seen-set = hlevel

-- What a reader sees: the events, oldest first, and the counter.
pub seen : LogView → List Event × ℕ
seen =
    Quot.lift Seen-set (λ l. (contents l.0, l.0.event_seq)) (λ a b h. ap₂ (λ es n. (es, n)) h.0 h.1)

-- What storing a text does to that.
abbrev pub append_event : Option Text → List Event × ℕ → List Event × ℕ
append_event json (es, n) = (
  drop (length es + 1 - event_capacity)
      (es ++ record { seq = n; json = snprintf event_json_len (text_or_empty json) } ∷ []),
  n,
)

store_event-event_seq :
    (l : EventLog) (json : Option Text) → (store_event l json).event_seq ≡ l.event_seq
unfolding store_event
store_event-event_seq l json = refl

store_good : Option Text → GoodLog → GoodLog
store_good json l = (store_event l.0 json, store_event-IsRing l.0 json l.1)

store_good-seen :
    (json : Option Text) (l : GoodLog)
    → (contents (store_good json l).0, (store_good json l).0.event_seq)
      ≡ append_event json (contents l.0, l.0.event_seq)
unfolding store_good
store_good-seen json l =
    ap₂ (λ es n. (es, n)) (store_event_refines l.0 json l.1).1 (store_event-event_seq l.0 json)

store_good-SameView :
    (json : Option Text) (a b : GoodLog)
    → SameView a b
    → SameView (store_good json a) (store_good json b)
store_good-SameView json a b h =
    let same : (contents (store_good json a).0, (store_good json a).0.event_seq)
        ≡ (contents (store_good json b).0, (store_good json b).0.event_seq) =
      store_good-seen json a
      ∙ ap₂ (λ es n. append_event json (es, n)) h.0 h.1
      ∙ sym (store_good-seen json b) in
    (ap (λ s. s.0) same, ap (λ s. s.1) same)

-- store_event on what is seen: it does not depend on where the ring begins.
pub store_view : Option Text → LogView → LogView
store_view json =
    Quot.lift Quot-set (λ l. Quot.mk (store_good json l))
      (λ a b h. Quot.sound (store_good-SameView json a b h))

same_view-IsProp : (p q : LogView) → IsProp (seen p ≡ seen q → p ≡ q)
same_view-IsProp p q x y i h = Quot-set p q (x h) (y h) i

-- The log of events is the list of its events with the counter: well-formed rings that hold the same
-- events and have the same counter are one abstract log, on which store_event is a function whatever
-- the head, the array and the unused slots are; that log is determined by what is seen of it; and
-- storing a text appends the event with the counter's number and the text cut to its slot, and drops
-- the oldest beyond 64.
pub store_view_refines :
    (json : Option Text) (p q : LogView)
    → (seen (store_view json p) ≡ append_event json (seen p)) × (seen p ≡ seen q → p ≡ q)
unfolding seen store_view
store_view_refines json p q = (
  Quot.ind {β = λ p. seen (store_view json p) ≡ append_event json (seen p)} (λ p. Seen-set _ _)
      (λ l. store_good-seen json l) p,
  Quot.ind {β = λ p. seen p ≡ seen q → p ≡ q} (λ p. same_view-IsProp p q)
      (λ a.
        Quot.ind {β = λ q. seen (Quot.mk a) ≡ seen q → Quot.mk a ≡ q}
          (λ q. same_view-IsProp (Quot.mk a) q)
          (λ b h. Quot.sound (ap (λ s. s.0) h, ap (λ s. s.1) h)) q)
      p,
)

-- ===== src/System/Ring.antt =====
-- The ring of events under all tasks together.
use dragon_bench.Common.{ℕ, ◌≡◌, refl, subst, inl, inr, map}
use dragon_bench.Events.{Event, EventLog, store_event, snapshot_events_locked}
use dragon_bench.Events.Ring.{IsRing, store_event-IsRing, contents}
use dragon_bench.Events.Snapshot.{AllFit, store_event-AllFit, snapshot-contents}
use dragon_bench.Events.Numbering.{initial_log-IsNumbered}
use dragon_bench.Prog.Slot.{KeepsSlot}
use dragon_bench.System.{
  Device, Inputs, System, Step, acts, spawns, creates, start_system, here, onward,
}
use dragon_bench.System.Slot.{renumber, LogStep, Effect-LogStep, KeepsSlot-call}
use dragon_bench.System.Invariant.{Reached, Reached-Inv, Inv}

-- What holds of the ring whatever event_seq is.
pub record LogHolds (l : EventLog) : Type 0 where
  pub ring : IsRing l
  pub fits : AllFit l.events

renumber-LogHolds : (l : EventLog) (n : ℕ) → LogHolds l → LogHolds (renumber l n)
renumber-LogHolds l n v = record {
  ring = record {
    size = v.ring.size;
    head_in = v.ring.head_in;
    count_in = v.ring.count_in;
    filling = v.ring.filling;
  };
  fits = v.fits;
}

LogStep-LogHolds : (l l' : EventLog) → LogStep l l' → LogHolds l → LogHolds l'
LogStep-LogHolds l l' (inl (n, e)) v = rw e (renumber-LogHolds l n v)
LogStep-LogHolds l l' (inr (n, json, e)) v =
    let w : LogHolds (renumber l n) = renumber-LogHolds l n v in
    rw e (
      renumber-LogHolds (store_event (renumber l n) json) l.event_seq (record {
        ring = store_event-IsRing (renumber l n) json w.ring;
        fits = store_event-AllFit (renumber l n) json w.fits;
      }))

Step-LogStep :
    (dev : Device) (inputs : Inputs) (s u : System)
    → Step dev inputs s u
    → Inv s
    → LogStep s.shared.log u.shared.log
Step-LogStep dev inputs s u (acts i c k r t e effect q) v = rw q (
    Effect-LogStep i s.shared c r t (v.grips i).0 effect (v.grips i).2
      (KeepsSlot-call (v.grips i).0 c k (subst (λ m. KeepsSlot (v.grips i).0 m) e (v.grips i).1)).0)
Step-LogStep dev inputs s u (spawns i j k e d q) v = inl (s.shared.log.event_seq, rw q refl)
Step-LogStep dev inputs s u (creates i j step k m e f d q) v =
    inl (s.shared.log.event_seq, rw q refl)

module _ (dev : Device) (inputs : Inputs) where
  Reached-LogHolds : (s : System) → Reached dev inputs s → LogHolds s.shared.log
  unfolding start_system
  Reached-LogHolds s here = record {
    ring = initial_log-IsNumbered.ring;
    fits = initial_log-IsNumbered.fits;
  }
  Reached-LogHolds s (onward {t} before step) =
      LogStep-LogHolds t.shared.log s.shared.log
        (Step-LogStep dev inputs t s step (Reached-Inv dev inputs t before))
        (Reached-LogHolds t before)

  -- However the tasks interleave from the boot on, whatever requests come and whatever the platform
  -- replies: the ring of events stays well formed, and a snapshot of it at any moment is exactly the
  -- texts of the events that it holds, oldest first, none cut.
  pub log_stays_whole :
      (s : System)
      → Reached dev inputs s
      → IsRing s.shared.log
        × (snapshot_events_locked s.shared.log
            ≡ map (λ (e : Event). e.json) (contents s.shared.log))
  log_stays_whole s r =
      let v : LogHolds s.shared.log = Reached-LogHolds s r in
      (v.ring, snapshot-contents s.shared.log v.ring v.fits)

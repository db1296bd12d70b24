-- ===== src/Prog/Slot.antt =====
-- The protocol of current_run and the ring of events: a task writes one only after it has read it
-- since it took the lock, and every write is a legal transition from the value that was read.
use dragon_bench.Common.{
  ℕ, Bool, true, false, ◌≡◌, refl, ◌⊎◌, inl, inr, Option, none, some, Text, arith,
}
use dragon_bench.Events.{EventLog, store_event}
use dragon_bench.Run.Validate.{IsAcceptable, FitsFields}
use dragon_bench.Run.{Run, Request, running, aborting, begin, abort, finish}
use dragon_bench.Prog.{
  Call, Reply, Prog, done, out_of_fuel, ask, ◌>>=◌, branch, on_option, take_lock, give_lock,
  get_run, put_run, get_log, put_log,
}
use dragon_bench.Prog.Protocol.{Protocol, Follows, Follows-bind, Follows-weaken}

-- A run that is neither idle nor complete.
abbrev pub IsActive : Run → Type 0
IsActive r = (r.state ≡ running) ⊎ (r.state ≡ aborting)

-- One step in the life of the value in current_run. A run begins only with a request that
-- db_request_validate accepts.
pub data Transition (r : Run) : Run → Type 0 where
  begins :
      {r' : Run} (q : Request) (id : Text) (now : ℕ)
      → (IsActive r → ⊥)
      → IsAcceptable q
      → FitsFields q
      → r' ≡ begin q id now
      → Transition r r'
  aborts :
      {r' : Run}
      → r.state ≡ running
      → r' ≡ record r { state = aborting; abort_requested = true }
      → Transition r r'
  finishes :
      {r' : Run} (result : Option Text) (now : ℕ) → r' ≡ finish r result now → Transition r r'
  keeps : {r' : Run} → r' ≡ r → Transition r r'

pub begin-Transition :
    (r : Run) (q : Request) (id : Text) (now : ℕ)
    → (IsActive r → ⊥)
    → IsAcceptable q
    → FitsFields q
    → Transition r (begin q id now)
begin-Transition r q id now h a f = begins q id now h a f refl

abort_cases :
    (r : Run) (id : Text)
    → ((r.state ≡ running)
        × ((abort r (some id)).1 ≡ record r { state = aborting; abort_requested = true }))
      ⊎ ((abort r (some id)).1 ≡ r)
unfolding abort
abort_cases r id = ground arith

pub abort-Transition : (r : Run) (id : Text) → Transition r (abort r (some id)).1
abort-Transition r id = elim (abort_cases r id) [ inl h ↦ aborts h.0 h.1 | inr e ↦ keeps e ]

pub finish-Transition :
    (r : Run) (result : Option Text) (now : ℕ) → Transition r (finish r result now)
finish-Transition r result now = finishes result now refl

-- A new value of the ring's statics: one event is stored.
abbrev pub Stores : EventLog → EventLog → Type 0
Stores l l' = (json : Option Text) × (l' ≡ store_event l json)

pub store_event-Stores : (l : EventLog) (json : Option Text) → Stores l (store_event l json)
store_event-Stores l json = (json, refl)

-- What a program has read, or written, under this hold of the lock.
pub record Held : Type 0 where
  pub run : Option Run
  pub log : Option EventLog

abbrev pub nothing : Held
nothing = record { run = none; log = none }

abbrev pub RunAllowed : Option Run → Run → Type 0
RunAllowed none r' = ⊥
RunAllowed (some r) r' = Transition r r'

abbrev pub LogAllowed : Option EventLog → EventLog → Type 0
LogAllowed none l' = ⊥
LogAllowed (some l) l' = Stores l l'

abbrev pub SlotAllowed : Held → Call → Type 0
SlotAllowed s (put_run r') = RunAllowed s.run r'
SlotAllowed s (put_log l') = LogAllowed s.log l'
SlotAllowed s _ = Unit {0}

abbrev pub slot_next : Held → (c : Call) → Reply c → Held
slot_next s take_lock r = nothing
slot_next s give_lock r = nothing
slot_next s get_run r = record s { run = some r }
slot_next s (put_run r') r = record s { run = some r' }
slot_next s get_log r = record s { log = some r }
slot_next s (put_log l') r = record s { log = none }
slot_next s _ r = s

abbrev pub slot_protocol : Protocol
slot_protocol = record {
  State = Held;
  Allowed = SlotAllowed;
  Answers = λ s c r. Unit {0};
  next = slot_next;
  Exhausted = λ s. Unit {0};
}

-- A program all of whose writes of current_run are transitions and all of whose writes of the ring
-- store one event, and that ends outside a critical section.
unfoldable pub KeepsSlot : {A : Type 0} → Held → Prog A → Type 0
KeepsSlot s m = Follows slot_protocol m s (λ a t. t ≡ nothing)

pub KeepsSlot-done : {A : Type 0} (a : A) → KeepsSlot nothing (done a)
unfolding KeepsSlot
KeepsSlot-done a = refl

pub KeepsSlot-out_of_fuel : (A : Type 0) (s : Held) → KeepsSlot {A = A} s out_of_fuel
unfolding KeepsSlot
KeepsSlot-out_of_fuel A s = tt

pub KeepsSlot-ask :
    {A : Type 0} (s : Held) (c : Call) (k : Reply c → Prog A)
    → SlotAllowed s c
    → ((r : Reply c) → KeepsSlot (slot_next s c r) (k r))
    → KeepsSlot s (ask c k)
unfolding KeepsSlot
KeepsSlot-ask s c k m h = (m, λ r _. h r)

pub KeepsSlot-bind :
    {A B : Type 0} (m : Prog A) (f : A → Prog B)
    → KeepsSlot nothing m
    → ((a : A) → KeepsSlot nothing (f a))
    → KeepsSlot nothing (m >>= f)
unfolding KeepsSlot
KeepsSlot-bind m f h k =
    Follows-bind slot_protocol m f nothing (λ a t. t ≡ nothing)
      (Follows-weaken slot_protocol m nothing (λ a t. t ≡ nothing)
        (λ a t. Follows slot_protocol (f a) t (λ b u. u ≡ nothing)) (λ a t e. rw e (k a)) h)

pub KeepsSlot-branch :
    {A : Type 0} (s : Held) (t : Bool) (x y : Prog A)
    → KeepsSlot s x
    → KeepsSlot s y
    → KeepsSlot s (branch t x y)
unfolding branch
KeepsSlot-branch s true x y h k = h
KeepsSlot-branch s false x y h k = k

-- A test whose outcome the second side needs.
pub KeepsSlot-test :
    {A : Type 0} (s : Held) (t : Bool) (x y : Prog A)
    → KeepsSlot s x
    → (t ≡ false → KeepsSlot s y)
    → KeepsSlot s (branch t x y)
unfolding branch
KeepsSlot-test s true x y h k = h
KeepsSlot-test s false x y h k = k refl

pub KeepsSlot-on_option :
    {A B : Type 0} (s : Held) (o : Option A) (x : Prog B) (y : A → Prog B)
    → KeepsSlot s x
    → ((a : A) → KeepsSlot s (y a))
    → KeepsSlot s (on_option o x y)
unfolding on_option
KeepsSlot-on_option s none x y h k = h
KeepsSlot-on_option s (some a) x y h k = k a

pub ruleset slot_rules = (
  tt, KeepsSlot-done, KeepsSlot-out_of_fuel, KeepsSlot-ask, KeepsSlot-bind, KeepsSlot-branch,
  KeepsSlot-on_option, abort-Transition, finish-Transition, store_event-Stores,
)

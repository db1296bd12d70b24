-- ===== src/Prog/Clock.antt =====
-- The clock protocol: every reading of the timer is later than the one before. A program that
-- follows it ends for every such clock, since the model's fuel may not run out.
use dragon_bench.Common.{ℕ, ◌≤◌, ◌<◌, ◌≡◌, refl, Bool, true, false, Option, none, some, arith}
use dragon_bench.Run.{Run}
use dragon_bench.Prog.{Call, Reply, Prog, done, ask, ◌>>=◌, branch, on_option, timer, get_run}
use dragon_bench.Prog.Protocol.{Protocol, Follows, Follows-bind, Follows-weaken}

-- The last reading in microseconds, and whether the abort flag was set when current_run was last
-- read.
pub record Seen : Type 0 where
  pub now : ℕ
  pub abort_seen : Bool

-- The timer counts microseconds, and the request of a run has passed db_request_validate.
abbrev pub Plausible : Seen → (c : Call) → Reply c → Type 0
Plausible s timer r = s.now < r
Plausible s get_run r = r.request.duration_ms ≤ 3600000
Plausible s _ r = Unit {0}

abbrev pub observe : Seen → (c : Call) → Reply c → Seen
observe s timer r = record s { now = r }
observe s get_run r = record s { abort_seen = r.abort_requested }
observe s _ r = s

abbrev pub clock_protocol : Protocol
clock_protocol = record {
  State = Seen;
  Allowed = λ s c. Unit {0};
  Answers = Plausible;
  next = observe;
  Exhausted = λ s. ⊥;
}

-- A program that ends, after which the clock is not earlier.
unfoldable pub Ends : {A : Type 0} → Seen → Prog A → Type 0
Ends s m = Follows clock_protocol m s (λ a t. s.now ≤ t.now)

pub Ends-done : {A : Type 0} (s : Seen) (a : A) → Ends s (done a)
unfolding Ends
Ends-done s a = omega arith

observe_later : (s : Seen) (c : Call) (r : Reply c) → Plausible s c r → s.now ≤ (observe s c r).now
observe_later s timer r h = omega arith
observe_later s get_run r h = omega arith
observe_later s _ r h = omega arith

pub Ends-from :
    {A : Type 0} (s t : Seen) (m : Prog A)
    → s.now ≤ t.now
    → Ends t m
    → Follows clock_protocol m t (λ a u. s.now ≤ u.now)
unfolding Ends
Ends-from s t m h e =
    Follows-weaken clock_protocol m t (λ a u. t.now ≤ u.now) (λ a u. s.now ≤ u.now)
      (λ a u l. omega arith) e

pub Ends-ask :
    {A : Type 0} (s : Seen) (c : Call) (k : Reply c → Prog A)
    → ((r : Reply c) (t : Seen) → s.now ≤ t.now → Ends t (k r))
    → Ends s (ask c k)
unfolding Ends
Ends-ask s c k h = (
  tt,
  λ r p.
      let later : s.now ≤ (observe s c r).now = observe_later s c r p in
      Ends-from s (observe s c r) (k r) later (h r (observe s c r) later),
)

-- A reading of the timer, with what is known of it.
pub Ends-timer :
    {A : Type 0} (s : Seen) (k : ℕ → Prog A)
    → ((us : ℕ) (t : Seen) → s.now < us → us ≤ t.now → Ends t (k us))
    → Ends s (ask timer k)
unfolding Ends
Ends-timer s k h = (
  tt,
  λ us p.
      Ends-from s (record s { now = us }) (k us) (omega (arith, p))
        (h us (record s { now = us }) p (omega arith)),
)

-- A reading of the run, whose duration was validated.
pub Ends-run :
    {A : Type 0} (s : Seen) (k : Run → Prog A)
    → ((run : Run) (t : Seen) → s.now ≤ t.now → run.request.duration_ms ≤ 3600000 → Ends t (k run))
    → Ends s (ask get_run k)
unfolding Ends
Ends-run s k h = (
  tt,
  λ run p.
      let t : Seen = record s { abort_seen = run.abort_requested } in
      Ends-from s t (k run) (omega arith) (h run t (omega arith) p),
)

pub Ends-bind :
    {A B : Type 0} (s : Seen) (m : Prog A) (f : A → Prog B)
    → Ends s m
    → ((a : A) (t : Seen) → s.now ≤ t.now → Ends t (f a))
    → Ends s (m >>= f)
unfolding Ends
Ends-bind s m f h k =
    Follows-bind clock_protocol m f s (λ a t. s.now ≤ t.now)
      (Follows-weaken clock_protocol m s (λ a t. s.now ≤ t.now)
        (λ a t. Follows clock_protocol (f a) t (λ b u. s.now ≤ u.now))
        (λ a t l. Ends-from s t (f a) l (k a t l)) h)

pub Ends-branch :
    {A : Type 0} (s : Seen) (t : Bool) (x y : Prog A) → Ends s x → Ends s y → Ends s (branch t x y)
unfolding branch
Ends-branch s true x y h k = h
Ends-branch s false x y h k = k

-- A test whose outcome matters to its sides.
pub Ends-test :
    {A : Type 0} (s : Seen) (t : Bool) (x y : Prog A)
    → (t ≡ true → Ends s x)
    → Ends s y
    → Ends s (branch t x y)
unfolding branch
Ends-test s true x y h k = h refl
Ends-test s false x y h k = k

pub Ends-on_option :
    {A B : Type 0} (s : Seen) (o : Option A) (x : Prog B) (y : A → Prog B)
    → Ends s x
    → ((a : A) → Ends s (y a))
    → Ends s (on_option o x y)
unfolding on_option
Ends-on_option s none x y h k = h
Ends-on_option s (some a) x y h k = k a

pub ruleset clock_rules = (Ends-done, Ends-ask, Ends-bind, Ends-branch, Ends-on_option)

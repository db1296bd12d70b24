-- ===== src/Prog/Locks.antt =====
-- The lock protocol: state_lock is taken only by a task that does not hold it and given back only by
-- one that does; current_run and the ring of events are touched under the lock alone; and under the
-- lock a task calls nothing but the timer and cJSON_CreateObject, so that it never waits for a
-- network, a flash write or a delay while it holds it.
use dragon_bench.Common.{ℕ, Bool, true, false, ◌≡◌, refl, Option, none, some}
use dragon_bench.Prog.{
  Call, Reply, Prog, done, out_of_fuel, ask, ◌>>=◌, branch, on_option, timer, new_tree, take_lock,
  give_lock, get_run, put_run, get_log, put_log, bump_run_counter,
}
use dragon_bench.Prog.Protocol.{Protocol, Follows, Follows-bind, Follows-weaken}

-- What a call needs of the lock.
pub data Need : Type 0 where
  held free_lock any : Need

abbrev pub need : Call → Need
need timer = any
need new_tree = any
need give_lock = held
need get_run = held
need (put_run r) = held
need get_log = held
need (put_log l) = held
need bump_run_counter = held
need _ = free_lock

abbrev pub Meets : Need → Bool → Type 0
Meets held b = b ≡ true
Meets free_lock b = b ≡ false
Meets any b = Unit {0}

abbrev pub after_call : Bool → Call → Bool
after_call b take_lock = true
after_call b give_lock = false
after_call b _ = b

abbrev pub lock_protocol : Protocol
lock_protocol = record {
  State = Bool;
  Allowed = λ b c. Meets (need c) b;
  Answers = λ b c r. Unit {0};
  next = λ b c r. after_call b c;
  Exhausted = λ b. b ≡ false;
}

-- A program that keeps the lock protocol from a state that holds the lock or not, and ends without
-- it.
unfoldable pub KeepsLock : {A : Type 0} → Bool → Prog A → Type 0
KeepsLock b m = Follows lock_protocol m b (λ a h. h ≡ false)

pub KeepsLock-done : {A : Type 0} (a : A) → KeepsLock false (done a)
unfolding KeepsLock
KeepsLock-done a = refl

pub KeepsLock-out_of_fuel : (A : Type 0) → KeepsLock {A = A} false out_of_fuel
unfolding KeepsLock
KeepsLock-out_of_fuel A = refl

pub KeepsLock-ask :
    {A : Type 0} (b : Bool) (c : Call) (k : Reply c → Prog A)
    → Meets (need c) b
    → ((r : Reply c) → KeepsLock (after_call b c) (k r))
    → KeepsLock b (ask c k)
unfolding KeepsLock
KeepsLock-ask b c k m h = (m, λ r _. h r)

-- A part that takes and gives back the lock composes with what follows.
pub KeepsLock-bind :
    {A B : Type 0} (m : Prog A) (f : A → Prog B)
    → KeepsLock false m
    → ((a : A) → KeepsLock false (f a))
    → KeepsLock false (m >>= f)
unfolding KeepsLock
KeepsLock-bind m f h k =
    Follows-bind lock_protocol m f false (λ a b. b ≡ false)
      (Follows-weaken lock_protocol m false (λ a b. b ≡ false)
        (λ a t. Follows lock_protocol (f a) t (λ b u. u ≡ false)) (λ a t e. rw e (k a)) h)

pub KeepsLock-branch :
    {A : Type 0} (b t : Bool) (x y : Prog A)
    → KeepsLock b x
    → KeepsLock b y
    → KeepsLock b (branch t x y)
unfolding branch
KeepsLock-branch b true x y h k = h
KeepsLock-branch b false x y h k = k

pub KeepsLock-on_option :
    {A B : Type 0} (b : Bool) (o : Option A) (x : Prog B) (y : A → Prog B)
    → KeepsLock b x
    → ((a : A) → KeepsLock b (y a))
    → KeepsLock b (on_option o x y)
unfolding on_option
KeepsLock-on_option b none x y h k = h
KeepsLock-on_option b (some a) x y h k = k a

pub ruleset lock_rules = (
  refl, tt, KeepsLock-done, KeepsLock-out_of_fuel, KeepsLock-ask, KeepsLock-bind, KeepsLock-branch,
  KeepsLock-on_option,
)

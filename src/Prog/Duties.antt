-- ===== src/Prog/Duties.antt =====
-- What a thread still owes: to finish the run that it began or was started for, to free what it has
-- allocated, with cJSON's trees and texts, and to close what it has opened. It uses only what is open.
use dragon_bench.Common.{
  ℕ, ◌≡◌, refl, Bool, true, false, Option, none, some, List, [], ◌∷◌, drop, Text, not,
}
use dragon_bench.Run.{RunState, running, complete}
use dragon_bench.Prog.{
  Call, Reply, Prog, done, out_of_fuel, ask, ◌>>=◌, branch, on_option, put_run,
  create_workload_task, malloc, free, new_tree, delete_tree, new_text, free_text, nvs_open,
  nvs_get_str, nvs_set_str, nvs_set_blob, nvs_commit, nvs_erase_key, nvs_close, getaddrinfo,
  freeaddrinfo, open_socket, connect, send, recv, shutdown, close,
}
use dragon_bench.Prog.Protocol.{Protocol, Follows, Follows-then}

pub record Duties : Type 0 where
  pub unfinished : Bool
  pub memory : List ℕ
  pub trees : List (Unit {0})
  pub texts : List (Unit {0})
  pub handles : List ℕ
  pub sockets : List ℕ
  pub addresses : List (List ℕ)

abbrev pub no_duties : Duties
no_duties = record {
  unfinished = false;
  memory = [];
  trees = [];
  texts = [];
  handles = [];
  sockets = [];
  addresses = [];
}

-- The newest of the open ones.
abbrev pub Newest : ℕ → List ℕ → Type 0
Newest h [] = ⊥
Newest h (x ∷ xs) = h ≡ x

abbrev pub Some {ℓ} : {A : Type ℓ} → List A → Type 0
Some [] = ⊥
Some (x ∷ xs) = Unit {0}

abbrev pub MayUse : Duties → Call → Type 0
MayUse d free = Some d.memory
MayUse d delete_tree = Some d.trees
MayUse d free_text = Some d.texts
MayUse d (nvs_get_str h key n) = Newest h d.handles
MayUse d (nvs_set_str h key v) = Newest h d.handles
MayUse d (nvs_set_blob h key v) = Newest h d.handles
MayUse d (nvs_commit h) = Newest h d.handles
MayUse d (nvs_erase_key h key) = Newest h d.handles
MayUse d (nvs_close h) = Newest h d.handles
MayUse d freeaddrinfo = Some d.addresses
MayUse d (connect fd address) = Newest fd d.sockets
MayUse d (send fd block) = Newest fd d.sockets
MayUse d (recv fd n) = Newest fd d.sockets
MayUse d (shutdown fd) = Newest fd d.sockets
MayUse d (close fd) = Newest fd d.sockets
MayUse d _ = Unit {0}

-- A running run is to be finished, a complete one is, and no other write changes that.
abbrev pub unfinished_after : RunState → Bool → Bool
unfinished_after running u = true
unfinished_after complete u = false
unfinished_after _ u = u

abbrev pub opened {ℓ} : {A : Type ℓ} → Option A → List A → List A
opened none xs = xs
opened (some x) xs = x ∷ xs

abbrev pub allocated : Bool → ℕ → List ℕ → List ℕ
allocated false n xs = xs
allocated true n xs = n ∷ xs

-- The task that was made owes the end of the run instead.
abbrev pub handed_over : Bool → Bool → Bool
handed_over true u = false
handed_over false u = u

abbrev pub duty_next : Duties → (c : Call) → Reply c → Duties
duty_next d (put_run r') r = record d { unfinished = unfinished_after r'.state d.unfinished }
duty_next d create_workload_task r = record d { unfinished = handed_over r d.unfinished }
duty_next d (malloc n) r = record d { memory = allocated r n d.memory }
duty_next d free r = record d { memory = drop 1 d.memory }
duty_next d new_tree r = record d { trees = tt ∷ d.trees }
duty_next d delete_tree r = record d { trees = drop 1 d.trees }
duty_next d new_text r = record d { texts = tt ∷ d.texts }
duty_next d free_text r = record d { texts = drop 1 d.texts }
duty_next d (nvs_open name write) r = record d { handles = opened r d.handles }
duty_next d (nvs_close h) r = record d { handles = drop 1 d.handles }
duty_next d (getaddrinfo host service) r = record d { addresses = opened r d.addresses }
duty_next d freeaddrinfo r = record d { addresses = drop 1 d.addresses }
duty_next d (open_socket address) r = record d { sockets = opened r d.sockets }
duty_next d (close fd) r = record d { sockets = drop 1 d.sockets }
duty_next d _ r = d

abbrev pub duty_protocol : Protocol
duty_protocol = record {
  State = Duties;
  Allowed = MayUse;
  Answers = λ d c r. Unit {0};
  next = duty_next;
  Exhausted = λ d. Unit {0};
}

-- A program that takes the duties `d` to the duties `e`.
unfoldable pub Settles : {A : Type 0} → Duties → Duties → Prog A → Type 0
Settles d e m = Follows duty_protocol m d (λ a t. t ≡ e)

pub Settles-done : {A : Type 0} (d : Duties) (a : A) → Settles d d (done a)
unfolding Settles
Settles-done d a = refl

pub Settles-out_of_fuel : (A : Type 0) (d e : Duties) → Settles {A = A} d e out_of_fuel
unfolding Settles
Settles-out_of_fuel A d e = tt

pub Settles-ask :
    {A : Type 0} (d e : Duties) (c : Call) (k : Reply c → Prog A)
    → MayUse d c
    → ((r : Reply c) → Settles (duty_next d c r) e (k r))
    → Settles d e (ask c k)
unfolding Settles
Settles-ask d e c k m h = (m, λ r _. h r)

pub Settles-then :
    {A B : Type 0} (m : Prog A) (f : A → Prog B) (d e g : Duties)
    → Settles d e m
    → ((a : A) → Settles e g (f a))
    → Settles d g (m >>= f)
unfolding Settles
Settles-then m f d e g h k =
    Follows-then duty_protocol m f d (λ a t. t ≡ e) (λ b t. t ≡ g) h (λ a t q. rw q (k a))

-- A part that leaves the duties as they are.
pub Settles-bind :
    {A B : Type 0} (m : Prog A) (f : A → Prog B) (d g : Duties)
    → Settles d d m
    → ((a : A) → Settles d g (f a))
    → Settles d g (m >>= f)
Settles-bind m f d g h k = Settles-then m f d d g h k

pub Settles-branch :
    {A : Type 0} (d e : Duties) (t : Bool) (x y : Prog A)
    → Settles d e x
    → Settles d e y
    → Settles d e (branch t x y)
unfolding branch
Settles-branch d e true x y h k = h
Settles-branch d e false x y h k = k

pub Settles-on_option :
    {A B : Type 0} (d e : Duties) (o : Option A) (x : Prog B) (y : A → Prog B)
    → Settles d e x
    → ((a : A) → Settles d e (y a))
    → Settles d e (on_option o x y)
unfolding on_option
Settles-on_option d e none x y h k = h
Settles-on_option d e (some a) x y h k = k a

-- The rules of the calls whose outcome decides what is owed.
pub Settles-nvs_open :
    {B : Type 0} (d e : Duties) (name : Text) (write : Bool) (x : Prog B) (y : ℕ → Prog B)
    → Settles d e x
    → ((handle : ℕ) → Settles (record d { handles = handle ∷ d.handles }) e (y handle))
    → Settles d e (ask (nvs_open name write) (λ o. on_option o x y))
unfolding Settles on_option
Settles-nvs_open d e name write x y h k = (tt, given)
  where
    given :
        (o : Option ℕ)
        → Unit {0}
        → Settles (record d { handles = opened o d.handles }) e (on_option o x y)
    given none _ = h
    given (some handle) _ = k handle

pub Settles-getaddrinfo :
    {B : Type 0} (d e : Duties) (host service : Text) (x : Prog B) (y : List ℕ → Prog B)
    → Settles d e x
    → ((found : (List ℕ)) → Settles (record d { addresses = found ∷ d.addresses }) e (y found))
    → Settles d e (ask (getaddrinfo host service) (λ o. on_option o x y))
unfolding Settles on_option
Settles-getaddrinfo d e host service x y h k = (tt, given)
  where
    given :
        (o : Option (List ℕ))
        → Unit {0}
        → Settles (record d { addresses = opened o d.addresses }) e (on_option o x y)
    given none _ = h
    given (some found) _ = k found

pub Follows-getaddrinfo :
    {B : Type 0} (d : Duties) (Q : B → Duties → Type 0) (host service : Text) (x : Prog B)
    (y : List ℕ → Prog B)
    → Follows duty_protocol x d Q
    → ((found : (List ℕ))
        → Follows duty_protocol (y found) (record d { addresses = found ∷ d.addresses }) Q)
    → Follows duty_protocol (ask (getaddrinfo host service) (λ o. on_option o x y)) d Q
unfolding on_option
Follows-getaddrinfo d Q host service x y h k = (tt, given)
  where
    given :
        (o : Option (List ℕ))
        → Unit {0}
        → Follows duty_protocol (on_option o x y) (record d { addresses = opened o d.addresses }) Q
    given none _ = h
    given (some found) _ = k found

pub Settles-open_socket :
    {B : Type 0} (d e : Duties) (address : ℕ) (x : Prog B) (y : ℕ → Prog B)
    → Settles d e x
    → ((fd : ℕ) → Settles (record d { sockets = fd ∷ d.sockets }) e (y fd))
    → Settles d e (ask (open_socket address) (λ o. on_option o x y))
unfolding Settles on_option
Settles-open_socket d e address x y h k = (tt, given)
  where
    given :
        (o : Option ℕ)
        → Unit {0}
        → Settles (record d { sockets = opened o d.sockets }) e (on_option o x y)
    given none _ = h
    given (some fd) _ = k fd

pub Follows-open_socket :
    {B : Type 0} (d : Duties) (Q : B → Duties → Type 0) (address : ℕ) (x : Prog B) (y : ℕ → Prog B)
    → Follows duty_protocol x d Q
    → ((fd : ℕ) → Follows duty_protocol (y fd) (record d { sockets = fd ∷ d.sockets }) Q)
    → Follows duty_protocol (ask (open_socket address) (λ o. on_option o x y)) d Q
unfolding on_option
Follows-open_socket d Q address x y h k = (tt, given)
  where
    given :
        (o : Option ℕ)
        → Unit {0}
        → Follows duty_protocol (on_option o x y) (record d { sockets = opened o d.sockets }) Q
    given none _ = h
    given (some fd) _ = k fd

pub Settles-malloc :
    {B : Type 0} (d e : Duties) (n : ℕ) (x y : Prog B)
    → Settles d e x
    → Settles (record d { memory = n ∷ d.memory }) e y
    → Settles d e (ask (malloc n) (λ r. branch (not r) x y))
unfolding Settles branch
Settles-malloc d e n x y h k = (tt, given)
  where
    given :
        (r : Bool)
        → Unit {0}
        → Settles (record d { memory = allocated r n d.memory }) e (branch (not r) x y)
    given false _ = h
    given true _ = k

pub Settles-create :
    {B : Type 0} (d e : Duties) (x y : Prog B)
    → Settles d e x
    → Settles (record d { unfinished = false }) e y
    → Settles d e (ask create_workload_task (λ r. branch (not r) x y))
unfolding Settles branch
Settles-create d e x y h k = (tt, given)
  where
    given :
        (r : Bool)
        → Unit {0}
        → Settles (record d { unfinished = handed_over r d.unfinished }) e (branch (not r) x y)
    given false _ = h
    given true _ = k

pub ruleset duty_rules = (
  tt, refl, Settles-done, Settles-out_of_fuel, Settles-ask, Settles-bind, Settles-branch,
  Settles-on_option,
)

-- ===== src/Prog/Protocol.antt =====
-- Protocols: what a program may call in which state of a ghost automaton, whatever is replied.
use dragon_bench.Common.{Bool, true, false, Option, none, some, ◌≡◌, refl}
use dragon_bench.Prog.{Call, Reply, Prog, done, out_of_fuel, ask, ◌>>=◌, branch, on_option}

pub record Protocol : Type 1 where
  pub State : Type 0
  -- What a program owes before a call.
  pub Allowed : State → Call → Type 0
  -- What is assumed of a reply.
  pub Answers : State → (c : Call) → Reply c → Type 0
  pub next : State → (c : Call) → Reply c → State
  -- Where a program may run out of fuel: `⊥` where the fuel has to be enough.
  pub Exhausted : State → Type 0

module _ (p : Protocol) where
  open p use {State, Allowed, Answers, next, Exhausted}

  -- From the state `s` on the program makes allowed calls only, and ends in a value and a state that
  -- fulfil `Q`, for all replies that fulfil the assumption.
  abbrev pub Follows : {A : Type 0} → Prog A → State → (A → State → Type 0) → Type 0
  Follows (done a) s Q = Q a s
  Follows out_of_fuel s Q = Exhausted s
  Follows (ask c k) s Q =
      Allowed s c × ((r : Reply c) → Answers s c r → Follows (k r) (next s c r) Q)

  pub Follows-weaken :
      {A : Type 0} (m : Prog A) (s : State) (Q R : A → State → Type 0)
      → ((a : A) (t : State) → Q a t → R a t)
      → Follows m s Q
      → Follows m s R
  Follows-weaken (done a) s Q R h f = h a s f
  Follows-weaken out_of_fuel s Q R h f = f
  Follows-weaken (ask c k) s Q R h f =
      (f.0, λ r x. Follows-weaken (k r) (next s c r) Q R h (f.1 r x))

  -- The rule of composition.
  pub Follows-bind :
      {A B : Type 0} (m : Prog A) (f : A → Prog B) (s : State) (Q : B → State → Type 0)
      → Follows m s (λ a t. Follows (f a) t Q)
      → Follows (m >>= f) s Q
  Follows-bind (done a) f s Q h = h
  Follows-bind out_of_fuel f s Q h = h
  Follows-bind (ask c k) f s Q h = (h.0, λ r x. Follows-bind (k r) f (next s c r) Q (h.1 r x))

  -- Composition through what is known between the two programs.
  pub Follows-then :
      {A B : Type 0} (m : Prog A) (f : A → Prog B) (s : State) (Q : A → State → Type 0)
      (R : B → State → Type 0)
      → Follows m s Q
      → ((a : A) (t : State) → Q a t → Follows (f a) t R)
      → Follows (m >>= f) s R
  Follows-then m f s Q R h k =
      Follows-bind m f s R (Follows-weaken m s Q (λ a t. Follows (f a) t R) k h)

  -- The rules of a test and of an optional value, with what each side may use.
  pub Follows-branch :
      {A : Type 0} (t : Bool) (x y : Prog A) (s : State) (Q : A → State → Type 0)
      → (t ≡ true → Follows x s Q)
      → (t ≡ false → Follows y s Q)
      → Follows (branch t x y) s Q
  unfolding branch
  Follows-branch true x y s Q h k = h refl
  Follows-branch false x y s Q h k = k refl

  pub Follows-on_option :
      {A B : Type 0} (o : Option A) (x : Prog B) (y : A → Prog B) (s : State)
      (Q : B → State → Type 0)
      → (o ≡ none → Follows x s Q)
      → ((a : A) → o ≡ some a → Follows (y a) s Q)
      → Follows (on_option o x y) s Q
  unfolding on_option
  Follows-on_option none x y s Q h k = h refl
  Follows-on_option (some a) x y s Q h k = k a refl

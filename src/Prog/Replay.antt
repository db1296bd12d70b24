-- ===== src/Prog/Replay.antt =====
-- A program run against a given outside, and what it is worth there that the program keeps to a
-- protocol.
use dragon_bench.Common.{subst, ℕ, suc, ◌≡◌, refl, Option, none, some}
use dragon_bench.Prog.{Call, Reply, Prog, done, out_of_fuel, ask}
use dragon_bench.Prog.Protocol.{Protocol, Follows}

-- What is replied to the n-th call.
abbrev pub Outside : Type 0
Outside = (n : ℕ) (c : Call) → Reply c

-- The result and the number of the next call; `none` for a program that runs out of fuel.
abbrev pub replay : {A : Type 0} → Outside → ℕ → Prog A → Option (A × ℕ)
replay o n (done a) = some (a, n)
replay o n out_of_fuel = none
replay o n (ask c k) = replay o (suc n) (k (o n c))

-- A run that ends, in a result, a call's number and a state of the protocol that fulfil `R`.
abbrev pub Returns : {A S : Type 0} → Option (A × ℕ) → (A → ℕ → S → Type 0) → Type 0
Returns {A} {S} r R = (a : A) × (n : ℕ) × (t : S) × (r ≡ some (a, n)) × R a n t

-- A protocol whose programs may not run out of fuel, and an outside whose replies are as the protocol
-- assumes wherever the call's number and the protocol's state agree.
module _ (p : Protocol) (o : Outside) (Agrees : ℕ → p.State → Type 0)
    (endless : (s : p.State) → p.Exhausted s → ⊥)
    (answers : (n : ℕ) (s : p.State) (c : Call) → Agrees n s → p.Answers s c (o n c))
    (onwards : (n : ℕ) (s : p.State) (c : Call)
      → Agrees n s
      → Agrees (suc n) (p.next s c (o n c))) where
  pub Follows-replay :
      {A : Type 0} (m : Prog A) (s : p.State) (Q : A → p.State → Type 0) (n : ℕ)
      → Follows p m s Q
      → Agrees n s
      → Returns (replay o n m) (λ a k t. Q a t × Agrees k t)
  Follows-replay (done a) s Q n f h = (a, n, s, refl, (f, h))
  Follows-replay out_of_fuel s Q n f h = absurd (endless s f)
  Follows-replay (ask c k) s Q n f h =
      Follows-replay (k (o n c)) (p.next s c (o n c)) Q (suc n) (f.1 (o n c) (answers n s c h))
        (onwards n s c h)

-- The protocol's state after the calls that were made.
abbrev pub after_replay : {A : Type 0} (p : Protocol) → Outside → ℕ → p.State → Prog A → p.State
after_replay p o n s (done a) = s
after_replay p o n s out_of_fuel = s
after_replay p o n s (ask c k) = after_replay p o (suc n) (p.next s c (o n c)) (k (o n c))

-- A run that returned has kept a protocol that assumes nothing of the replies.
pub Follows-after_replay :
    {A : Type 0} (p : Protocol) (o : Outside)
    → ((s : p.State) (c : Call) (r : Reply c) → p.Answers s c r)
    → (m : Prog A) (s : p.State) (Q : A → p.State → Type 0) (n : ℕ) (a : A) (k : ℕ)
    → Follows p m s Q
    → replay o n m ≡ some (a, k)
    → Q a (after_replay p o n s m)
Follows-after_replay p o answers (done x) s Q n a k f e =
    let same : x ≡ a = cc in subst (λ y. Q y s) same f
Follows-after_replay p o answers out_of_fuel s Q n a k f e = cc
Follows-after_replay p o answers (ask c g) s Q n a k f e =
    Follows-after_replay p o answers (g (o n c)) (p.next s c (o n c)) Q (suc n) a k
      (f.1 (o n c) (answers s c (o n c))) e

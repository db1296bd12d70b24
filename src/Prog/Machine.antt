-- ===== src/Prog/Machine.antt =====
-- A platform with a state: each call has one reply and one next state.
use dragon_bench.Common.{◌≡◌, refl, Option, none, some}
use dragon_bench.Prog.{Call, Reply, Prog, done, out_of_fuel, ask}
use dragon_bench.Prog.Protocol.{Protocol, Follows}

abbrev pub Machine : Type 0 → Type 0
Machine S = S → (c : Call) → Reply c × S

-- The result and the state after it; `none` for a program that runs out of fuel.
abbrev pub run_on : {A S : Type 0} → Machine S → S → Prog A → Option (A × S)
run_on p s (done a) = some (a, s)
run_on p s out_of_fuel = none
run_on p s (ask c k) = run_on p (p s c).1 (k (p s c).0)

-- The protocol of the programs that run on it.
abbrev pub machine_protocol : {S : Type 0} → Machine S → Protocol
machine_protocol {S} p = record {
  State = S;
  Allowed = λ s c. Unit {0};
  Answers = λ s c r. r ≡ (p s c).0;
  next = λ s c r. (p s c).1;
  Exhausted = λ s. ⊥;
}

pub Follows-run_on :
    {A S : Type 0} (p : Machine S) (m : Prog A) (s : S) (Q : A → S → Type 0)
    → Follows (machine_protocol p) m s Q
    → (a : A) × (t : S) × (run_on p s m ≡ some (a, t)) × Q a t
Follows-run_on p (done a) s Q f = (a, s, refl, f)
Follows-run_on p out_of_fuel s Q f = absurd f
Follows-run_on p (ask c k) s Q f = Follows-run_on p (k (p s c).0) (p s c).1 Q (f.1 (p s c).0 refl)

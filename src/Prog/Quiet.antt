-- ===== src/Prog/Quiet.antt =====
-- Programs that leave current_run, the reboot's marker and the restart alone.
use dragon_bench.Common.{Bool, true, false, Option, none, some}
use dragon_bench.Prog.{
  Call, Reply, Prog, done, out_of_fuel, ask, ◌>>=◌, branch, on_option, put_run, put_marker, restart,
}

abbrev pub LeavesRun : Call → Type 0
LeavesRun (put_run r) = ⊥
LeavesRun (put_marker m) = ⊥
LeavesRun restart = ⊥
LeavesRun _ = Unit {0}

unfoldable pub IsQuiet : {A : Type 0} → Prog A → Type 0
IsQuiet (done a) = Unit {0}
IsQuiet out_of_fuel = Unit {0}
IsQuiet (ask c k) = LeavesRun c × ((r : Reply c) → IsQuiet (k r))

pub IsQuiet-done : {A : Type 0} (a : A) → IsQuiet (done a)
unfolding IsQuiet
IsQuiet-done a = tt

pub IsQuiet-out_of_fuel : (A : Type 0) → IsQuiet {A = A} out_of_fuel
unfolding IsQuiet
IsQuiet-out_of_fuel A = tt

pub IsQuiet-ask :
    {A : Type 0} (c : Call) (k : Reply c → Prog A)
    → LeavesRun c
    → ((r : Reply c) → IsQuiet (k r))
    → IsQuiet (ask c k)
unfolding IsQuiet
IsQuiet-ask c k h q = (h, q)

pub IsQuiet-bind :
    {A B : Type 0} (m : Prog A) (f : A → Prog B)
    → IsQuiet m
    → ((a : A) → IsQuiet (f a))
    → IsQuiet (m >>= f)
unfolding IsQuiet
IsQuiet-bind (done a) f h k = k a
IsQuiet-bind out_of_fuel f h k = tt
IsQuiet-bind (ask c g) f h k = (h.0, λ r. IsQuiet-bind (g r) f (h.1 r) k)

pub IsQuiet-branch :
    {A : Type 0} (t : Bool) (x y : Prog A) → IsQuiet x → IsQuiet y → IsQuiet (branch t x y)
unfolding branch
IsQuiet-branch true x y h k = h
IsQuiet-branch false x y h k = k

pub IsQuiet-on_option :
    {A B : Type 0} (o : Option A) (x : Prog B) (y : A → Prog B)
    → IsQuiet x
    → ((a : A) → IsQuiet (y a))
    → IsQuiet (on_option o x y)
unfolding on_option
IsQuiet-on_option none x y h k = h
IsQuiet-on_option (some a) x y h k = k a

pub ruleset quiet_rules = (
  tt, IsQuiet-done, IsQuiet-out_of_fuel, IsQuiet-ask, IsQuiet-bind, IsQuiet-branch,
  IsQuiet-on_option,
)

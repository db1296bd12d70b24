-- ===== src/Stress/Quiet.antt =====
-- The load loops leave current_run, the reboot's marker and the restart alone.
use dragon_bench.Common.{ℕ, zero, suc, Option, none, some, List, [], ◌∷◌, Text}
use dragon_bench.Run.{Request}
use dragon_bench.Prog.{Prog, Partition}
use dragon_bench.Prog.Quiet.{IsQuiet, quiet_rules}
use dragon_bench.Stress.{
  should_abort, wait_loop, wait_abortable, deadline_after, Round, go_on, break_off, on_round,
  timed_loop, Cpu, cpu_body, run_cpu, nvs_body, run_nvs, flash_body, partition_cycle, try_addresses,
  connect_peer, network_body, run_network, Cycle, Traffic,
}

pub should_abort-IsQuiet : IsQuiet should_abort
unfolding should_abort
should_abort-IsQuiet = search quiet_rules depth 20

on_round-IsQuiet :
    {S B : Type 0} (r : Round S) (x y : S → Prog B)
    → ((v : S) → IsQuiet (x v))
    → ((v : S) → IsQuiet (y v))
    → IsQuiet (on_round r x y)
unfolding on_round
on_round-IsQuiet (go_on v) x y h k = h v
on_round-IsQuiet (break_off v) x y h k = k v

timed_loop-IsQuiet :
    {S : Type 0} (fuel deadline : ℕ) (body : S → Prog (Round S)) (v : S)
    → ((w : S) → IsQuiet (body w))
    → IsQuiet (timed_loop fuel deadline body v)
unfolding timed_loop
timed_loop-IsQuiet zero deadline body v e = search quiet_rules
timed_loop-IsQuiet {S} (suc fuel) deadline body v e =
    search
      (
        quiet_rules,
        should_abort-IsQuiet,
        on_round-IsQuiet,
        e,
        λ (w : S). timed_loop-IsQuiet fuel deadline body w e,
      )
      depth 30

deadline_after-IsQuiet : (duration : ℕ) → IsQuiet (deadline_after duration)
unfolding deadline_after
deadline_after-IsQuiet duration = search quiet_rules depth 10

wait_loop-IsQuiet : (fuel deadline : ℕ) → IsQuiet (wait_loop fuel deadline)
unfolding wait_loop
wait_loop-IsQuiet zero deadline = search quiet_rules
wait_loop-IsQuiet (suc fuel) deadline =
    search (quiet_rules, should_abort-IsQuiet, wait_loop-IsQuiet fuel) depth 30

pub wait_abortable-IsQuiet : (fuel duration : ℕ) → IsQuiet (wait_abortable fuel duration)
unfolding wait_abortable
wait_abortable-IsQuiet fuel duration = search (quiet_rules, wait_loop-IsQuiet) depth 20

ruleset loop_rules = (quiet_rules, should_abort-IsQuiet, timed_loop-IsQuiet, deadline_after-IsQuiet)

cpu_body-IsQuiet : (w : Cpu) → IsQuiet (cpu_body w)
unfolding cpu_body
cpu_body-IsQuiet w = search quiet_rules depth 10

pub run_cpu-IsQuiet : (fuel duration : ℕ) → IsQuiet (run_cpu fuel duration)
unfolding run_cpu
run_cpu-IsQuiet fuel duration = search (loop_rules, cpu_body-IsQuiet) depth 20

nvs_body-IsQuiet : (handle : ℕ) (w : Cycle) → IsQuiet (nvs_body handle w)
unfolding nvs_body
nvs_body-IsQuiet handle w = search quiet_rules depth 30

pub run_nvs-IsQuiet : (fuel duration bytes : ℕ) → IsQuiet (run_nvs fuel duration bytes)
unfolding run_nvs
run_nvs-IsQuiet fuel duration bytes = search (loop_rules, nvs_body-IsQuiet) depth 40

flash_body-IsQuiet : (p : Partition) (w : Cycle) → IsQuiet (flash_body p w)
unfolding flash_body
flash_body-IsQuiet p w = search quiet_rules depth 40

pub partition_cycle-IsQuiet :
    (fuel : ℕ) (p : Option Partition) (duration bytes : ℕ)
    → IsQuiet (partition_cycle fuel p duration bytes)
unfolding partition_cycle
partition_cycle-IsQuiet fuel none duration bytes = search quiet_rules depth 10
partition_cycle-IsQuiet fuel (some p) duration bytes =
    search (loop_rules, flash_body-IsQuiet) depth 40

try_addresses-IsQuiet : (addresses : List ℕ) → IsQuiet (try_addresses addresses)
unfolding try_addresses
try_addresses-IsQuiet [] = search quiet_rules
try_addresses-IsQuiet (a ∷ rest) = search (quiet_rules, try_addresses-IsQuiet rest) depth 20

connect_peer-IsQuiet : (host : Text) (port : ℕ) → IsQuiet (connect_peer host port)
unfolding connect_peer
connect_peer-IsQuiet host port = search (quiet_rules, try_addresses-IsQuiet) depth 20

network_body-IsQuiet : (q : Request) (fd : ℕ) (w : Traffic) → IsQuiet (network_body q fd w)
unfolding network_body
network_body-IsQuiet q fd w = search quiet_rules depth 40

pub run_network-IsQuiet : (fuel : ℕ) (q : Request) (tx rx : ℕ) → IsQuiet (run_network fuel q tx rx)
unfolding run_network
run_network-IsQuiet fuel q tx rx =
    search (loop_rules, connect_peer-IsQuiet, network_body-IsQuiet) depth 40

-- ===== src/Task/Locks.antt =====
-- The loops and the task keep the lock protocol.
use dragon_bench.Common.{ℕ, zero, suc, Bool, true, false, Option, none, some, List, [], ◌∷◌, Text}
use dragon_bench.Run.{
  Workload, boot, idle, wifi_associated_idle, net_tx, net_rx, net_bidirectional, cpu_stress,
  flash_write, nvs_write, ota_partition_write, controlled_reboot, workload_count, Request, Run,
}
use dragon_bench.Json.{Cjson}
use dragon_bench.Events.{Config, Emission}
use dragon_bench.Prog.{Prog, Partition}
use dragon_bench.Prog.Locks.{KeepsLock, lock_rules}
use dragon_bench.Stress.{
  should_abort, wait_loop, wait_abortable, Round, go_on, break_off, on_round, timed_loop, Cpu,
  cpu_body, run_cpu, nvs_body, run_nvs, flash_body, partition_cycle, try_addresses, connect_peer,
  network_body, run_network, Cycle, Traffic,
}
use dragon_bench.Task.{
  emit, run_workload, copy_run, emit_fault, finish_run, end_task, workload_task,
}

should_abort-KeepsLock : KeepsLock false should_abort
unfolding should_abort
should_abort-KeepsLock = search lock_rules depth 20

wait_loop-KeepsLock : (fuel deadline : ℕ) → KeepsLock false (wait_loop fuel deadline)
unfolding wait_loop
wait_loop-KeepsLock zero deadline = search lock_rules
wait_loop-KeepsLock (suc fuel) deadline =
    search (lock_rules, wait_loop-KeepsLock fuel deadline) depth 30

wait_abortable-KeepsLock : (fuel duration : ℕ) → KeepsLock false (wait_abortable fuel duration)
unfolding wait_abortable
wait_abortable-KeepsLock fuel duration = search (lock_rules, wait_loop-KeepsLock) depth 30

on_round-KeepsLock :
    {S B : Type 0} (r : Round S) (x y : S → Prog B)
    → ((s : S) → KeepsLock false (x s))
    → ((s : S) → KeepsLock false (y s))
    → KeepsLock false (on_round r x y)
unfolding on_round
on_round-KeepsLock (go_on s) x y h k = h s
on_round-KeepsLock (break_off s) x y h k = k s

timed_loop-KeepsLock :
    {S : Type 0} (fuel deadline : ℕ) (body : S → Prog (Round S)) (s : S)
    → ((t : S) → KeepsLock false (body t))
    → KeepsLock false (timed_loop fuel deadline body s)
unfolding timed_loop
timed_loop-KeepsLock zero deadline body s h = search lock_rules
timed_loop-KeepsLock {S} (suc fuel) deadline body s h =
    search
      (
        lock_rules,
        should_abort-KeepsLock,
        on_round-KeepsLock,
        λ (s' : S). timed_loop-KeepsLock fuel deadline body s' h,
      )
      depth 30

cpu_body-KeepsLock : (s : Cpu) → KeepsLock false (cpu_body s)
unfolding cpu_body
cpu_body-KeepsLock s = search lock_rules depth 10

run_cpu-KeepsLock : (fuel duration : ℕ) → KeepsLock false (run_cpu fuel duration)
unfolding run_cpu
run_cpu-KeepsLock fuel duration =
    search (lock_rules, timed_loop-KeepsLock, cpu_body-KeepsLock) depth 30

nvs_body-KeepsLock : (handle : ℕ) (s : Cycle) → KeepsLock false (nvs_body handle s)
unfolding nvs_body
nvs_body-KeepsLock handle s = search lock_rules depth 30

run_nvs-KeepsLock : (fuel duration bytes : ℕ) → KeepsLock false (run_nvs fuel duration bytes)
unfolding run_nvs
run_nvs-KeepsLock fuel duration bytes =
    search (lock_rules, timed_loop-KeepsLock, nvs_body-KeepsLock) depth 40

flash_body-KeepsLock : (p : Partition) (s : Cycle) → KeepsLock false (flash_body p s)
unfolding flash_body
flash_body-KeepsLock p s = search lock_rules depth 40

partition_cycle-KeepsLock :
    (fuel : ℕ) (p : Option Partition) (duration bytes : ℕ)
    → KeepsLock false (partition_cycle fuel p duration bytes)
unfolding partition_cycle
partition_cycle-KeepsLock fuel none duration bytes = search lock_rules
partition_cycle-KeepsLock fuel (some p) duration bytes =
    search (lock_rules, timed_loop-KeepsLock, flash_body-KeepsLock) depth 40

try_addresses-KeepsLock : (addresses : List ℕ) → KeepsLock false (try_addresses addresses)
unfolding try_addresses
try_addresses-KeepsLock [] = search lock_rules
try_addresses-KeepsLock (a ∷ rest) = search (lock_rules, try_addresses-KeepsLock rest) depth 20

connect_peer-KeepsLock : (host : Text) (port : ℕ) → KeepsLock false (connect_peer host port)
unfolding connect_peer
connect_peer-KeepsLock host port = search (lock_rules, try_addresses-KeepsLock) depth 20

network_body-KeepsLock :
    (q : Request) (fd : ℕ) (s : Traffic) → KeepsLock false (network_body q fd s)
unfolding network_body
network_body-KeepsLock q fd s = search lock_rules depth 40

run_network-KeepsLock :
    (fuel : ℕ) (q : Request) (tx rx : ℕ) → KeepsLock false (run_network fuel q tx rx)
unfolding run_network
run_network-KeepsLock fuel q tx rx =
    search (lock_rules, connect_peer-KeepsLock, timed_loop-KeepsLock, network_body-KeepsLock) depth
      40

pub emit-KeepsLock :
    (cjson : Cjson) (config : Config) (e : Emission) → KeepsLock false (emit cjson config e)
unfolding emit
emit-KeepsLock cjson config e = search lock_rules depth 20 fits 40000

run_workload-KeepsLock :
    (fuel : ℕ) (q : Request) (w : Workload) → KeepsLock false (run_workload fuel q w)
unfolding run_workload
run_workload-KeepsLock fuel q boot = search (lock_rules, wait_abortable-KeepsLock) depth 20
run_workload-KeepsLock fuel q idle = search (lock_rules, wait_abortable-KeepsLock) depth 20
run_workload-KeepsLock fuel q wifi_associated_idle =
    search (lock_rules, wait_abortable-KeepsLock) depth 20
run_workload-KeepsLock fuel q net_tx = run_network-KeepsLock fuel q 0 0
run_workload-KeepsLock fuel q net_rx = run_network-KeepsLock fuel q 0 0
run_workload-KeepsLock fuel q net_bidirectional = run_network-KeepsLock fuel q 0 0
run_workload-KeepsLock fuel q cpu_stress = search (lock_rules, run_cpu-KeepsLock) depth 20
run_workload-KeepsLock fuel q flash_write = search (lock_rules, partition_cycle-KeepsLock) depth 20
run_workload-KeepsLock fuel q nvs_write = search (lock_rules, run_nvs-KeepsLock) depth 20
run_workload-KeepsLock fuel q ota_partition_write =
    search (lock_rules, partition_cycle-KeepsLock) depth 20
run_workload-KeepsLock fuel q controlled_reboot =
    search (lock_rules, wait_abortable-KeepsLock) depth 20
run_workload-KeepsLock fuel q workload_count = search lock_rules

copy_run-KeepsLock : KeepsLock false copy_run
unfolding copy_run
copy_run-KeepsLock = search lock_rules depth 20

emit_fault-KeepsLock :
    (cjson : Cjson) (config : Config) (ok : Bool) (e : Emission)
    → KeepsLock false (emit_fault cjson config ok e)
unfolding emit_fault
emit_fault-KeepsLock cjson config true e = search lock_rules
emit_fault-KeepsLock cjson config false e = search (lock_rules, emit-KeepsLock) depth 40 fits 40000

finish_run-KeepsLock : (result : Text) → KeepsLock false (finish_run result)
unfolding finish_run
finish_run-KeepsLock result = search lock_rules depth 20

end_task-KeepsLock : (run : Run) (ok : Bool) → KeepsLock false (end_task run ok)
unfolding end_task
end_task-KeepsLock run ok = search lock_rules depth 20

-- A workload's task, whatever the platform replies and however long its loops run, takes and gives
-- back state_lock in turn, touches current_run and the event ring under it alone, and under it calls
-- nothing but the timer and the creation of a cJSON object: no send, receive, flash or storage access,
-- delay or restart, and no print or release of what cJSON allocated.
pub workload_task-KeepsLock :
    (fuel : ℕ) (cjson : Cjson) (config : Config) → KeepsLock false (workload_task fuel cjson config)
unfolding workload_task
workload_task-KeepsLock fuel cjson config =
    search
      (
        lock_rules, copy_run-KeepsLock, emit-KeepsLock, run_workload-KeepsLock,
        should_abort-KeepsLock, emit_fault-KeepsLock, finish_run-KeepsLock, end_task-KeepsLock,
      )
      depth 40

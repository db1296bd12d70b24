-- ===== src/Task/Slot.antt =====
-- The task's writes of current_run are transitions of its life, and what follows from the transitions.
use dragon_bench.Common.{
  ℕ, zero, suc, Bool, true, false, Option, none, some, List, [], ◌∷◌, Text, ◌≡◌, refl, ◌∙◌, ◌⊎◌,
  inl, inr,
}
use dragon_bench.Run.{
  Workload, boot, idle, wifi_associated_idle, net_tx, net_rx, net_bidirectional, cpu_stress,
  flash_write, nvs_write, ota_partition_write, controlled_reboot, workload_count, Request, Run,
  complete, finish,
}
use dragon_bench.Json.{Cjson}
use dragon_bench.Events.{Config, Emission}
use dragon_bench.Prog.{Prog, Partition}
use dragon_bench.Prog.Slot.{
  KeepsSlot, nothing, Transition, begins, aborts, finishes, keeps, IsActive, slot_rules,
}
use dragon_bench.Stress.{
  should_abort, wait_loop, wait_abortable, Round, go_on, break_off, on_round, timed_loop, Cpu,
  cpu_body, run_cpu, nvs_body, run_nvs, flash_body, partition_cycle, try_addresses, connect_peer,
  network_body, run_network, Cycle, Traffic,
}
use dragon_bench.Task.{
  emit, run_workload, copy_run, emit_fault, finish_run, end_task, workload_task,
}

should_abort-KeepsSlot : KeepsSlot nothing should_abort
unfolding should_abort
should_abort-KeepsSlot = search slot_rules depth 20

wait_loop-KeepsSlot : (fuel deadline : ℕ) → KeepsSlot nothing (wait_loop fuel deadline)
unfolding wait_loop
wait_loop-KeepsSlot zero deadline = search slot_rules
wait_loop-KeepsSlot (suc fuel) deadline =
    search (slot_rules, wait_loop-KeepsSlot fuel deadline) depth 30

wait_abortable-KeepsSlot : (fuel duration : ℕ) → KeepsSlot nothing (wait_abortable fuel duration)
unfolding wait_abortable
wait_abortable-KeepsSlot fuel duration = search (slot_rules, wait_loop-KeepsSlot) depth 30

on_round-KeepsSlot :
    {S B : Type 0} (r : Round S) (x y : S → Prog B)
    → ((s : S) → KeepsSlot nothing (x s))
    → ((s : S) → KeepsSlot nothing (y s))
    → KeepsSlot nothing (on_round r x y)
unfolding on_round
on_round-KeepsSlot (go_on s) x y h k = h s
on_round-KeepsSlot (break_off s) x y h k = k s

timed_loop-KeepsSlot :
    {S : Type 0} (fuel deadline : ℕ) (body : S → Prog (Round S)) (s : S)
    → ((t : S) → KeepsSlot nothing (body t))
    → KeepsSlot nothing (timed_loop fuel deadline body s)
unfolding timed_loop
timed_loop-KeepsSlot zero deadline body s h = search slot_rules
timed_loop-KeepsSlot {S} (suc fuel) deadline body s h =
    search
      (
        slot_rules,
        should_abort-KeepsSlot,
        on_round-KeepsSlot,
        λ (s' : S). timed_loop-KeepsSlot fuel deadline body s' h,
      )
      depth 30

cpu_body-KeepsSlot : (s : Cpu) → KeepsSlot nothing (cpu_body s)
unfolding cpu_body
cpu_body-KeepsSlot s = search slot_rules depth 10

run_cpu-KeepsSlot : (fuel duration : ℕ) → KeepsSlot nothing (run_cpu fuel duration)
unfolding run_cpu
run_cpu-KeepsSlot fuel duration =
    search (slot_rules, timed_loop-KeepsSlot, cpu_body-KeepsSlot) depth 30

nvs_body-KeepsSlot : (handle : ℕ) (s : Cycle) → KeepsSlot nothing (nvs_body handle s)
unfolding nvs_body
nvs_body-KeepsSlot handle s = search slot_rules depth 30

run_nvs-KeepsSlot : (fuel duration bytes : ℕ) → KeepsSlot nothing (run_nvs fuel duration bytes)
unfolding run_nvs
run_nvs-KeepsSlot fuel duration bytes =
    search (slot_rules, timed_loop-KeepsSlot, nvs_body-KeepsSlot) depth 40

flash_body-KeepsSlot : (p : Partition) (s : Cycle) → KeepsSlot nothing (flash_body p s)
unfolding flash_body
flash_body-KeepsSlot p s = search slot_rules depth 40

partition_cycle-KeepsSlot :
    (fuel : ℕ) (p : Option Partition) (duration bytes : ℕ)
    → KeepsSlot nothing (partition_cycle fuel p duration bytes)
unfolding partition_cycle
partition_cycle-KeepsSlot fuel none duration bytes = search slot_rules
partition_cycle-KeepsSlot fuel (some p) duration bytes =
    search (slot_rules, timed_loop-KeepsSlot, flash_body-KeepsSlot) depth 40

try_addresses-KeepsSlot : (addresses : List ℕ) → KeepsSlot nothing (try_addresses addresses)
unfolding try_addresses
try_addresses-KeepsSlot [] = search slot_rules
try_addresses-KeepsSlot (a ∷ rest) = search (slot_rules, try_addresses-KeepsSlot rest) depth 20

connect_peer-KeepsSlot : (host : Text) (port : ℕ) → KeepsSlot nothing (connect_peer host port)
unfolding connect_peer
connect_peer-KeepsSlot host port = search (slot_rules, try_addresses-KeepsSlot) depth 20

network_body-KeepsSlot :
    (q : Request) (fd : ℕ) (s : Traffic) → KeepsSlot nothing (network_body q fd s)
unfolding network_body
network_body-KeepsSlot q fd s = search slot_rules depth 40

run_network-KeepsSlot :
    (fuel : ℕ) (q : Request) (tx rx : ℕ) → KeepsSlot nothing (run_network fuel q tx rx)
unfolding run_network
run_network-KeepsSlot fuel q tx rx =
    search (slot_rules, connect_peer-KeepsSlot, timed_loop-KeepsSlot, network_body-KeepsSlot) depth
      40

pub emit-KeepsSlot :
    (cjson : Cjson) (config : Config) (e : Emission) → KeepsSlot nothing (emit cjson config e)
unfolding emit
emit-KeepsSlot cjson config e = search slot_rules depth 20 fits 40000

run_workload-KeepsSlot :
    (fuel : ℕ) (q : Request) (w : Workload) → KeepsSlot nothing (run_workload fuel q w)
unfolding run_workload
run_workload-KeepsSlot fuel q boot = search (slot_rules, wait_abortable-KeepsSlot) depth 20
run_workload-KeepsSlot fuel q idle = search (slot_rules, wait_abortable-KeepsSlot) depth 20
run_workload-KeepsSlot fuel q wifi_associated_idle =
    search (slot_rules, wait_abortable-KeepsSlot) depth 20
run_workload-KeepsSlot fuel q net_tx = run_network-KeepsSlot fuel q 0 0
run_workload-KeepsSlot fuel q net_rx = run_network-KeepsSlot fuel q 0 0
run_workload-KeepsSlot fuel q net_bidirectional = run_network-KeepsSlot fuel q 0 0
run_workload-KeepsSlot fuel q cpu_stress = search (slot_rules, run_cpu-KeepsSlot) depth 20
run_workload-KeepsSlot fuel q flash_write = search (slot_rules, partition_cycle-KeepsSlot) depth 20
run_workload-KeepsSlot fuel q nvs_write = search (slot_rules, run_nvs-KeepsSlot) depth 20
run_workload-KeepsSlot fuel q ota_partition_write =
    search (slot_rules, partition_cycle-KeepsSlot) depth 20
run_workload-KeepsSlot fuel q controlled_reboot =
    search (slot_rules, wait_abortable-KeepsSlot) depth 20
run_workload-KeepsSlot fuel q workload_count = search slot_rules

copy_run-KeepsSlot : KeepsSlot nothing copy_run
unfolding copy_run
copy_run-KeepsSlot = search slot_rules depth 20

emit_fault-KeepsSlot :
    (cjson : Cjson) (config : Config) (ok : Bool) (e : Emission)
    → KeepsSlot nothing (emit_fault cjson config ok e)
unfolding emit_fault
emit_fault-KeepsSlot cjson config true e = search slot_rules
emit_fault-KeepsSlot cjson config false e = search (slot_rules, emit-KeepsSlot) depth 40 fits 40000

finish_run-KeepsSlot : (result : Text) → KeepsSlot nothing (finish_run result)
unfolding finish_run
finish_run-KeepsSlot result = search slot_rules depth 20

end_task-KeepsSlot : (run : Run) (ok : Bool) → KeepsSlot nothing (end_task run ok)
unfolding end_task
end_task-KeepsSlot run ok = search slot_rules depth 20

-- Whatever a workload's task writes to current_run, for all replies, is a transition of the run's life
-- from the value that it read under the same hold of the lock: a begin of an accepted request where no
-- run is active, an abort of a running one, a finish that keeps identifier, request and abort flag, or
-- no change. Whatever it writes to the ring is one event stored in the ring that it read under the
-- same hold.
pub workload_task-KeepsSlot :
    (fuel : ℕ) (cjson : Cjson) (config : Config)
    → KeepsSlot nothing (workload_task fuel cjson config)
unfolding workload_task
workload_task-KeepsSlot fuel cjson config =
    search
      (
        slot_rules, copy_run-KeepsSlot, emit-KeepsSlot, run_workload-KeepsSlot,
        should_abort-KeepsSlot, emit_fault-KeepsSlot, finish_run-KeepsSlot, end_task-KeepsSlot,
      )
      depth 40

-- A value of current_run that transitions lead to.
pub data Reach (r : Run) : Run → Type 0 where
  here : Reach r r
  then : {s t : Run} → Reach r s → Transition s t → Reach r t

-- A completed value on the way.
abbrev pub CompletedSince : Run → Run → Type 0
CompletedSince r t = (m : Run) × Reach r m × (m.state ≡ complete) × Reach m t

-- What a transition keeps of an active run.
IsActive-step :
    {s t : Run}
    → Transition s t
    → IsActive s
    → (t.state ≡ complete) ⊎ (IsActive t × (t.run_id ≡ s.run_id) × (t.request ≡ s.request))
unfolding finish
IsActive-step {s} {t} (begins q id now h v f e) a = absurd (h a)
IsActive-step {s} {t} (aborts h e) a = inr (rw e (inr refl), rw e refl, rw e refl)
IsActive-step {s} {t} (finishes result now e) a = inl (rw e refl)
IsActive-step {s} {t} (keeps e) a = inr (rw e a, rw e refl, rw e refl)

-- Under transitions alone an active run stays active with its identifier and its request until a
-- value is complete: no other run takes its place before.
pub IsActive-until_complete :
    {r t : Run}
    → Reach r t
    → IsActive r
    → (IsActive t × (t.run_id ≡ r.run_id) × (t.request ≡ r.request)) ⊎ CompletedSince r t
IsActive-until_complete here a = inl (a, refl, refl)
IsActive-until_complete {r} (then {s} {t} before step) a = elim (IsActive-until_complete before a) [
  | inl now ↦ elim (IsActive-step step now.0) [
    | inl c ↦ inr (t, then before step, c, here)
    | inr k ↦ inl (k.0, k.1 ∙ now.1, k.2 ∙ now.2)
  ]
  | inr past ↦ inr (past.0, past.1, past.2, then past.3 step)
]

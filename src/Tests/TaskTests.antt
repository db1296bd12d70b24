-- ===== src/Tests/TaskTests.antt =====
-- Runs of the model of the workloads, the task and the HTTP handlers.
use dragon_bench.Common.{
  ℕ, Bool, ◌<◌, ◌+◌, ◌/◌, ◌≤◌, ◌≡◌, refl, ◌⊎◌, inl, true, false, none, some, codes, arith,
}
use dragon_bench.Run.{Run, begin, finish}
use dragon_bench.Json.{Cjson}
use dragon_bench.Events.{Config}
use dragon_bench.Prog.{Partition}
use dragon_bench.Prog.Protocol.{Follows}
use dragon_bench.Prog.Locks.{KeepsLock}
use dragon_bench.Prog.Slot.{KeepsSlot, nothing, IsActive}
use dragon_bench.Stress.{wait_abortable, partition_cycle}
use dragon_bench.Stress.Clock.{wait_abortable_returns}
use dragon_bench.Prog.{timer, get_run}
use dragon_bench.Prog.Replay.{replay}
use dragon_bench.Prog.Time.{Advances}
use dragon_bench.Tests.Platform.{net_request, first_run, platform}
use dragon_bench.Stress.Flash.{Chip, flash_protocol, partition_cycle-flash}
use dragon_bench.Task.{workload_task}
use dragon_bench.Task.Reboot.{restart_protocol, at_start, workload_task-restarts}
use dragon_bench.Task.Locks.{workload_task-KeepsLock}
use dragon_bench.Task.Slot.{workload_task-KeepsSlot}
use dragon_bench.Run.Validate.{FitsFields}

abbrev tiny_cjson : Cjson
tiny_cjson = record { print = λ j. some (codes "{}"); parses = λ t. true; parse_body = λ t. none }

abbrev config : Config
config = record { target_name = codes "esp32s3-n8r8"; firmware_version = codes "0.1.0" }

abbrev scratch : Partition
scratch = record { id = 7; size = 65536 }

abbrev fresh : Chip
fresh = record { running = none; erased = none; failed = false }

partition_cycle-flash_example :
    Follows flash_protocol
      (partition_cycle 10 (some scratch) 1000 0)
      fresh
      (λ r t. r.0 ≡ true → t.failed ≡ false)
partition_cycle-flash_example =
    partition_cycle-flash scratch (omega arith) (omega arith) 10 1000 0 fresh refl

workload_task-KeepsLock_example : KeepsLock false (workload_task 30 tiny_cjson config)
workload_task-KeepsLock_example = workload_task-KeepsLock 30 tiny_cjson config

workload_task-KeepsSlot_example : KeepsSlot nothing (workload_task 30 tiny_cjson config)
workload_task-KeepsSlot_example = workload_task-KeepsSlot 30 tiny_cjson config

first_run-IsActive : IsActive first_run
unfolding begin
first_run-IsActive = inl refl

abbrev finished_run : Run
finished_run = finish first_run (some (codes "pass")) 1100

net_request-FitsFields : FitsFields net_request
net_request-FitsFields = record {
  duration_fits = omega arith;
  rate_fits = omega arith;
  port_fits = omega arith;
  host_fits = omega arith;
}

platform-Advances : Advances platform
unfolding begin
platform-Advances = record {
  later = λ m n l. omega arith;
  positive = λ n. omega arith;
  validated = λ n. omega arith;
}

wait_abortable_returns_example :
    (ok : Bool) × (k : ℕ) × (replay platform 5 (wait_abortable 20001 20) ≡ some (ok, k))
    × (((ok ≡ true)
          × ((j : ℕ) × (j < k) × (platform 5 timer / 1000 + 20 ≤ platform j timer / 1000)))
        ⊎ ((ok ≡ false) × ((j : ℕ) × (j < k) × ((platform j get_run).abort_requested ≡ true))))
wait_abortable_returns_example =
    wait_abortable_returns platform platform-Advances 20001 20 5 (omega arith) (omega arith)
      (omega arith) (omega arith)

workload_task-restarts_example :
    Follows restart_protocol (workload_task 30 tiny_cjson config) at_start (λ _ _. Unit {0})
workload_task-restarts_example = workload_task-restarts 30 tiny_cjson config

-- ===== src/Task/Ends.antt =====
-- A workload's task ends.
use dragon_bench.Common.{◌≡◌, some, ℕ, ◌*◌, ◌<◌, Bool, true, false, Text, arith}
use dragon_bench.Run.{
  Workload, boot, idle, wifi_associated_idle, net_tx, net_rx, net_bidirectional, cpu_stress,
  flash_write, nvs_write, ota_partition_write, controlled_reboot, workload_count, Request, Run,
}
use dragon_bench.Json.{Cjson}
use dragon_bench.Events.{Config, Emission}
use dragon_bench.Prog.Replay.{Outside, replay}
use dragon_bench.Prog.Time.{Advances, Ends-replay}
use dragon_bench.Prog.Clock.{
  Seen, Ends, Ends-ask, Ends-run, Ends-bind, Ends-branch, Ends-done, clock_rules,
}
use dragon_bench.Stress.Ends.{
  should_abort-Ends, wait_abortable-Ends, run_cpu-Ends, run_nvs-Ends, partition_cycle-Ends,
  run_network-Ends,
}
use dragon_bench.Task.{
  emit, run_workload, copy_run, emit_fault, finish_run, end_task, workload_task,
}

module _ (fuel : ℕ) (q : Request) (f : 1000 * q.duration_ms < fuel) where
  -- Waiting, and then giving a triple.
  waited : (s : Seen) → Ends s (run_workload fuel q boot)
  unfolding run_workload
  waited s = Ends-bind s _ _ (wait_abortable-Ends fuel q.duration_ms s f) (λ ok t l. Ends-done t _)

  run_workload-Ends : (w : Workload) (s : Seen) → Ends s (run_workload fuel q w)
  unfolding run_workload
  run_workload-Ends boot s = waited s
  run_workload-Ends idle s = waited s
  run_workload-Ends wifi_associated_idle s =
      Ends-ask s _ _ (λ wifi t l. Ends-branch t _ _ _ (waited t) (Ends-done t _))
  run_workload-Ends net_tx s = run_network-Ends fuel q 0 0 s f
  run_workload-Ends net_rx s = run_network-Ends fuel q 0 0 s f
  run_workload-Ends net_bidirectional s = run_network-Ends fuel q 0 0 s f
  run_workload-Ends cpu_stress s =
      Ends-bind s _ _ (run_cpu-Ends fuel q.duration_ms s f) (λ r t l. Ends-done t _)
  run_workload-Ends flash_write s = Ends-ask s _ _ λ p t l.
      Ends-bind t _ _ (partition_cycle-Ends fuel p q.duration_ms 0 t f) (λ r u m. Ends-done u _)
  run_workload-Ends nvs_write s =
      Ends-bind s _ _ (run_nvs-Ends fuel q.duration_ms 0 s f) (λ r t l. Ends-done t _)
  run_workload-Ends ota_partition_write s = Ends-ask s _ _ λ p t l.
      Ends-bind t _ _ (partition_cycle-Ends fuel p q.duration_ms 0 t f) (λ r u m. Ends-done u _)
  run_workload-Ends controlled_reboot s = waited s
  run_workload-Ends workload_count s = Ends-done s _

emit-Ends :
    (cjson : Cjson) (config : Config) (e : Emission) (s : Seen) → Ends s (emit cjson config e)
unfolding emit
emit-Ends cjson config e s = search clock_rules depth 20 fits 40000

emit_fault-Ends :
    (cjson : Cjson) (config : Config) (ok : Bool) (e : Emission) (s : Seen)
    → Ends s (emit_fault cjson config ok e)
unfolding emit_fault
emit_fault-Ends cjson config true e s = search clock_rules
emit_fault-Ends cjson config false e s = search (clock_rules, emit-Ends) depth 30 fits 40000

finish_run-Ends : (result : Text) (s : Seen) → Ends s (finish_run result)
unfolding finish_run
finish_run-Ends result s = search clock_rules depth 20

end_task-Ends : (run : Run) (ok : Bool) (s : Seen) → Ends s (end_task run ok)
unfolding end_task
end_task-Ends run ok s = search clock_rules depth 20

ruleset task_rules =
    (clock_rules, emit-Ends, emit_fault-Ends, finish_run-Ends, end_task-Ends, should_abort-Ends)

-- A workload's task ends, for every clock that advances, every request that was validated and every
-- other reply, on fuel of one round for each microsecond of the longest duration, and one more.
pub workload_task-Ends :
    (fuel : ℕ) (cjson : Cjson) (config : Config) (s : Seen)
    → 3600000000 < fuel
    → Ends s (workload_task fuel cjson config)
unfolding workload_task copy_run
workload_task-Ends fuel cjson config s f = Ends-ask s _ _ λ _ t l. Ends-run t _ λ run u m d.
    Ends-ask u _ _ λ _ v n. Ends-bind v _ _ (emit-Ends cjson config _ v) λ _ w o.
      Ends-bind w _ _ (run_workload-Ends fuel run.request (omega arith) run.request.workload w)
        (λ r x p. search task_rules depth 20)

-- Against any outside whose clock advances and where every run that is read was validated, a
-- workload's task returns, on fuel of one round for each microsecond of the longest duration and one
-- more.
pub workload_task_returns :
    (o : Outside)
    → Advances o
    → (fuel : ℕ) (cjson : Cjson) (config : Config) (n : ℕ) → 3600000000 < fuel
    → (k : ℕ) × (replay o n (workload_task fuel cjson config) ≡ some (tt, k))
workload_task_returns o a fuel cjson config n f =
    let r =
      Ends-replay o a (workload_task fuel cjson config) n
        (workload_task-Ends fuel cjson config (record { now = 0; abort_seen = false }) f) in
    (r.1, r.2)

-- ===== src/Task/Duties.antt =====
-- A workload's task settles what it owes.
use dragon_bench.Common.{ℕ, refl, Bool, true, false, Text}
use dragon_bench.Run.{
  Workload, boot, idle, wifi_associated_idle, net_tx, net_rx, net_bidirectional, cpu_stress,
  flash_write, nvs_write, ota_partition_write, controlled_reboot, workload_count, Request, Run,
  finish,
}
use dragon_bench.Json.{Cjson}
use dragon_bench.Events.{Config, Emission}
use dragon_bench.Prog.Duties.{Duties, no_duties, Settles, Settles-then, Settles-bind, duty_rules}
use dragon_bench.Stress.Duties.{
  should_abort-Settles, wait_abortable-Settles, run_cpu-Settles, run_nvs-Settles,
  partition_cycle-Settles, run_network-Settles,
}
use dragon_bench.Task.{
  emit, run_workload, copy_run, emit_fault, finish_run, end_task, workload_task,
}

pub emit-Settles :
    (cjson : Cjson) (config : Config) (e : Emission) (d : Duties)
    → Settles d d (emit cjson config e)
unfolding emit
emit-Settles cjson config e d = search duty_rules depth 20 fits 40000

run_workload-Settles :
    (fuel : ℕ) (q : Request) (w : Workload) (d : Duties) → Settles d d (run_workload fuel q w)
unfolding run_workload
run_workload-Settles fuel q boot d = search (duty_rules, wait_abortable-Settles) depth 20
run_workload-Settles fuel q idle d = search (duty_rules, wait_abortable-Settles) depth 20
run_workload-Settles fuel q wifi_associated_idle d =
    search (duty_rules, wait_abortable-Settles) depth 20
run_workload-Settles fuel q net_tx d = run_network-Settles fuel q 0 0 d
run_workload-Settles fuel q net_rx d = run_network-Settles fuel q 0 0 d
run_workload-Settles fuel q net_bidirectional d = run_network-Settles fuel q 0 0 d
run_workload-Settles fuel q cpu_stress d = search (duty_rules, run_cpu-Settles) depth 20
run_workload-Settles fuel q flash_write d = search (duty_rules, partition_cycle-Settles) depth 20
run_workload-Settles fuel q nvs_write d = search (duty_rules, run_nvs-Settles) depth 20
run_workload-Settles fuel q ota_partition_write d =
    search (duty_rules, partition_cycle-Settles) depth 20
run_workload-Settles fuel q controlled_reboot d =
    search (duty_rules, wait_abortable-Settles) depth 20
run_workload-Settles fuel q workload_count d = search duty_rules

copy_run-Settles : (d : Duties) → Settles d d copy_run
unfolding copy_run
copy_run-Settles d = search duty_rules depth 20

emit_fault-Settles :
    (cjson : Cjson) (config : Config) (ok : Bool) (e : Emission) (d : Duties)
    → Settles d d (emit_fault cjson config ok e)
unfolding emit_fault
emit_fault-Settles cjson config true e d = search duty_rules
emit_fault-Settles cjson config false e d =
    search (duty_rules, should_abort-Settles, emit-Settles) depth 40

-- db_run_finish settles the run.
finish_run-Settles :
    (result : Text) (d : Duties) → Settles d (record d { unfinished = false }) (finish_run result)
unfolding finish_run finish Settles
finish_run-Settles result d = (tt, λ _ _. (tt, λ _ _. (tt, λ _ _. (tt, λ _ _. (tt, λ _ _. refl)))))

end_task-Settles : (run : Run) (ok : Bool) (d : Duties) → Settles d d (end_task run ok)
unfolding end_task
end_task-Settles run ok d = search (duty_rules, should_abort-Settles) depth 20

-- What a workload's task is started with.
abbrev pub owing : Duties
owing = record no_duties { unfinished = true }

pub workload_task-Settles :
    (fuel : ℕ) (cjson : Cjson) (config : Config)
    → Settles owing no_duties (workload_task fuel cjson config)
unfolding workload_task
workload_task-Settles fuel cjson config =
    Settles-bind copy_run _ owing no_duties (copy_run-Settles owing) λ run.
      Settles-bind _ _ owing no_duties (emit-Settles cjson config _ owing) λ _.
        Settles-bind _ _ owing no_duties
          (run_workload-Settles fuel run.request run.request.workload owing)
          λ r. Settles-bind _ _ owing no_duties (should_abort-Settles owing) λ stop.
            Settles-bind _ _ owing no_duties (emit_fault-Settles cjson config r.0 _ owing) λ _.
              Settles-bind _ _ owing no_duties (emit-Settles cjson config _ owing) λ _.
                Settles-then (finish_run _) _ owing no_duties no_duties (finish_run-Settles _ owing)
                  λ _.
                    Settles-bind _ _ no_duties no_duties (emit-Settles cjson config _ no_duties)
                      λ _. end_task-Settles run r.0 no_duties

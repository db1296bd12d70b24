-- ===== src/Task.antt =====
-- emit_event as a program and workload_task of firmware/targets/esp32s3/main/main.c: the life of one
-- run from its task's start to its last event and, for a controlled reboot, the restart.
pub mod Locks
pub mod Slot
pub mod Duties
pub mod Reboot
pub mod Ends
pub mod Completion
pub mod Outcome
use dragon_bench.Common.{
  ℕ, ◌+◌, ◌*◌, ◌^◌, Bool, true, false, ◌&&◌, ◌||◌, not, Option, none, some, List, [], ◌∷◌, ◌++◌,
  Text, codes, snprintf, decimal, print_u64, ltb, ◌==◌, if◌then◌else◌,
}
use dragon_bench.Run.{
  Workload, boot, idle, wifi_associated_idle, net_tx, net_rx, net_bidirectional, cpu_stress,
  flash_write, nvs_write, ota_partition_write, controlled_reboot, workload_count, Request, Run,
  run_id_len, workload_name, finish,
}
use dragon_bench.Network.{StaState, sta_connected}
use dragon_bench.Json.{Cjson}
use dragon_bench.Events.{Config, Emission, event_tree, store_event}
use dragon_bench.Prog.{
  Prog, done, branch, call, ◌>>=◌, ◌>>◌, take_lock, give_lock, get_run, put_run, get_log, put_log,
  get_seq, put_seq, get_wifi, new_tree, delete_tree, new_text, free_text, delay, restart,
  delete_task, put_marker, find_scratch, next_update,
}
use dragon_bench.Stress.{
  uptime_ms, should_abort, wait_abortable, run_cpu, run_nvs, partition_cycle, run_network,
}

abbrev pub reboot_marker_magic : ℕ
reboot_marker_magic = 0x4452_4254

-- emit_event, as the calls that it makes one after another. Its log line is left out; the
-- trees of `parameters` and `metrics` become part of the event's, which is deleted with them.
unfoldable pub emit : Cjson → Config → Emission → Prog (Unit {0})
unfolding uptime_ms
emit cjson config e = do
  call new_tree
  n ← call get_seq
  call (put_seq (n + 1))
  let seq : ℕ = n + 1
  uptime ← uptime_ms
  let json : Option Text = cjson.print (event_tree cjson config seq uptime e)
  call new_text
  call take_lock
  log ← call get_log
  call (put_log (store_event log json))
  call give_lock
  call free_text
  call delete_tree

-- The text of `parameters`, before it is cut to the buffer's 384 bytes.
unfoldable pub parameters_text : Request → Text
parameters_text q =
    codes "{\"duration_ms\":"
    ++ (decimal 10 q.duration_ms
        ++ (codes ",\"rate_bps\":"
            ++ (decimal 10 q.rate_bps
                ++ (codes ",\"host\":\""
                    ++ (q.host ++ (codes "\",\"port\":" ++ (decimal 5 q.port ++ codes "}")))))))

-- The text of `metrics`, before it is cut to 128 bytes.
unfoldable pub metrics_text : ℕ → ℕ → Text
metrics_text a b =
    codes "{\"operations_or_bytes\":"
    ++ (print_u64 a ++ (codes ",\"bytes_rx\":" ++ (print_u64 b ++ codes "}")))

abbrev pub is_connected : StaState → Bool
is_connected sta_connected = true
is_connected _ = false

-- The `switch` of workload_task: `ok`, and the counts `a` and `b`, which start at 0.
unfoldable pub run_workload : ℕ → Request → Workload → Prog (Bool × ℕ × ℕ)
run_workload fuel q boot = do ok ← wait_abortable fuel q.duration_ms; done (ok, 0, 0)
run_workload fuel q idle = do ok ← wait_abortable fuel q.duration_ms; done (ok, 0, 0)
run_workload fuel q wifi_associated_idle = do
  wifi ← call get_wifi
  branch (is_connected wifi.sta_state || ltb 0 wifi.ap_client_count)
      (do ok ← wait_abortable fuel q.duration_ms; done (ok, 0, 0)) (done (false, 0, 0))
run_workload fuel q net_tx = run_network fuel q 0 0
run_workload fuel q net_rx = run_network fuel q 0 0
run_workload fuel q net_bidirectional = run_network fuel q 0 0
run_workload fuel q cpu_stress = do (ok, a) ← run_cpu fuel q.duration_ms; done (ok, a, 0)
run_workload fuel q flash_write = do
  p ← call find_scratch
  (ok, a) ← partition_cycle fuel p q.duration_ms 0
  done (ok, a, 0)
run_workload fuel q nvs_write = do (ok, a) ← run_nvs fuel q.duration_ms 0; done (ok, a, 0)
run_workload fuel q ota_partition_write = do
  p ← call next_update
  (ok, a) ← partition_cycle fuel p q.duration_ms 0
  done (ok, a, 0)
run_workload fuel q controlled_reboot = do ok ← wait_abortable fuel q.duration_ms; done (ok, 0, 0)
run_workload fuel q workload_count = done (false, 0, 0)

-- An event of the run `run`.
unfoldable pub run_event : Text → Run → Option Text → Text → Option Text → Emission
run_event event run result parameters metrics = record {
  event = event;
  phase = some (workload_name run.request.workload);
  run_id = some run.run_id;
  result = result;
  parameters_json = some parameters;
  metrics_json = metrics;
}

-- should_abort() ? "aborted" : (ok ? "pass" : "fail")
unfoldable pub result_text : Bool → Bool → Text
result_text true ok = codes "aborted"
result_text false true = codes "pass"
result_text false false = codes "fail"

abbrev pub is_reboot : Workload → Bool
is_reboot controlled_reboot = true
is_reboot _ = false

-- The copy of current_run that the task works on.
unfoldable pub copy_run : Prog Run
copy_run = do call take_lock; run ← call get_run; call give_lock; done run

-- if (!ok && !should_abort()) emit_event("fault", …)
unfoldable pub emit_fault : Cjson → Config → Bool → Emission → Prog (Unit {0})
unfolding should_abort emit
emit_fault cjson config true e = done tt
emit_fault cjson config false e = do
  stop ← should_abort
  branch stop (done tt) (emit cjson config e)

-- db_run_finish under the lock.
unfoldable pub finish_run : Text → Prog (Unit {0})
unfolding uptime_ms
finish_run result = do
  call take_lock
  now ← uptime_ms
  run ← call get_run
  call (put_run (finish run (some result) now))
  call give_lock

-- The end of a controlled reboot; esp_restart does not return.
unfoldable pub reboot : Run → Prog (Unit {0})
reboot run = do
  call
      (put_marker (record { magic = reboot_marker_magic; run_id = snprintf run_id_len run.run_id }))
  call (delay 250)
  call restart

-- if (run.request.workload == DB_CONTROLLED_REBOOT && ok && !should_abort()) …, then vTaskDelete.
unfoldable pub end_task : Run → Bool → Prog (Unit {0})
unfolding should_abort reboot
end_task run ok =
    branch (is_reboot run.request.workload && ok)
      (do stop ← should_abort; branch stop (call delete_task) (reboot run)) (call delete_task)

-- workload_task
unfoldable pub workload_task : ℕ → Cjson → Config → Prog (Unit {0})
workload_task fuel cjson config = do
  run ← copy_run
  let parameters : Text = snprintf 384 (parameters_text run.request)
  emit cjson config (run_event (codes "phase_start") run none parameters none)
  (ok, a, b) ← run_workload fuel run.request run.request.workload
  stop ← should_abort
  let result : Text = result_text stop ok
  let metrics : Text = snprintf 128 (metrics_text a b)
  emit_fault cjson config ok
      (run_event (codes "fault") run (some (codes "fail")) parameters (some metrics))
  emit cjson config (run_event (codes "phase_end") run (some result) parameters (some metrics))
  finish_run result
  emit cjson config (run_event (codes "run_complete") run (some result) parameters (some metrics))
  end_task run ok

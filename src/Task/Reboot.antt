-- ===== src/Task/Reboot.antt =====
-- When a workload's task restarts the device.
use dragon_bench.Common.{
  ℕ, ◌≡◌, refl, Bool, true, false, ◌&&◌, Option, none, some, Text, arith, snprintf,
}
use dragon_bench.Run.{
  Workload, boot, idle, wifi_associated_idle, net_tx, net_rx, net_bidirectional, cpu_stress,
  flash_write, nvs_write, ota_partition_write, controlled_reboot, workload_count, Request, Run,
  RunState, complete, run_id_len, finish,
}
use dragon_bench.Json.{Cjson}
use dragon_bench.Events.{Config, Emission}
use dragon_bench.Prog.{
  Call, Reply, Prog, Marker, done, out_of_fuel, ask, ◌>>=◌, get_run, put_run, put_marker, restart,
}
use dragon_bench.Prog.Protocol.{Protocol, Follows, Follows-then, Follows-branch}
use dragon_bench.Prog.Quiet.{LeavesRun, IsQuiet, quiet_rules}
use dragon_bench.Stress.Quiet.{
  should_abort-IsQuiet, wait_abortable-IsQuiet, run_cpu-IsQuiet, run_nvs-IsQuiet,
  partition_cycle-IsQuiet, run_network-IsQuiet,
}
use dragon_bench.Stress.{should_abort}
use dragon_bench.Task.{
  reboot_marker_magic, emit, run_workload, copy_run, emit_fault, finish_run, is_reboot, end_task,
  reboot, workload_task,
}

-- The run that the task copied first, the last value that it read of current_run, whether it has
-- written a completed run, and the marker.
pub record Progress : Type 0 where
  pub copied : Option Run
  pub last : Option Run
  pub ended : Bool
  pub marker : Option Marker

abbrev is_complete : RunState → Bool
is_complete complete = true
is_complete _ = false

abbrev first_copy : Option Run → Run → Run
first_copy none r = r
first_copy (some c) r = c

abbrev progress : Progress → (c : Call) → Reply c → Progress
progress s get_run r = record s { copied = some (first_copy s.copied r); last = some r }
progress s (put_run run) r = record s { ended = is_complete run.state }
progress s (put_marker m) r = record s { marker = some m }
progress s _ r = s

-- A restart is a controlled reboot's: its run is over and was not aborted when the task last looked,
-- and the marker in RTC memory holds the run's identifier.
abbrev MayRestart : Progress → Call → Type 0
MayRestart s restart =
    (run : Run) × (last : Run) × (s.copied ≡ some run)
    × (run.request.workload ≡ controlled_reboot)
    × (s.ended ≡ true)
    × (s.last ≡ some last)
    × (last.abort_requested ≡ false)
    × (s.marker
        ≡ some (record { magic = reboot_marker_magic; run_id = snprintf run_id_len run.run_id }))
MayRestart s _ = Unit {0}

abbrev pub restart_protocol : Protocol
restart_protocol = record {
  State = Progress;
  Allowed = MayRestart;
  Answers = λ s c r. Unit {0};
  next = progress;
  Exhausted = λ s. Unit {0};
}

abbrev pub at_start : Progress
at_start = record { copied = none; last = none; ended = false; marker = none }

-- The task has copied `run`, and has or has not ended it.
abbrev Working : Run → Bool → Progress → Type 0
Working run ended t = (t.copied ≡ some run) × (t.ended ≡ ended)

LeavesRun-MayRestart : (s : Progress) (c : Call) → LeavesRun c → MayRestart s c
LeavesRun-MayRestart s restart q = absurd q
LeavesRun-MayRestart s _ q = tt

LeavesRun-Working :
    (run : Run) (ended : Bool) (s : Progress) (c : Call) (r : Reply c)
    → LeavesRun c
    → Working run ended s
    → Working run ended (progress s c r)
LeavesRun-Working run ended s get_run r q w = (rw w.0 refl, w.1)
LeavesRun-Working run ended s (put_run r') r q w = absurd q
LeavesRun-Working run ended s _ r q w = w

IsQuiet-Working :
    {A : Type 0} (m : Prog A) (run : Run) (ended : Bool) (s : Progress)
    → IsQuiet m
    → Working run ended s
    → Follows restart_protocol m s (λ _ t. Working run ended t)
unfolding IsQuiet
IsQuiet-Working (done a) run ended s q w = w
IsQuiet-Working out_of_fuel run ended s q w = tt
IsQuiet-Working (ask c k) run ended s q w = (
  LeavesRun-MayRestart s c q.0,
  λ r _.
      IsQuiet-Working (k r) run ended (progress s c r) (q.1 r)
        (LeavesRun-Working run ended s c r q.0 w),
)

run_workload-IsQuiet : (fuel : ℕ) (q : Request) (w : Workload) → IsQuiet (run_workload fuel q w)
unfolding run_workload
run_workload-IsQuiet fuel q boot = search (quiet_rules, wait_abortable-IsQuiet) depth 20
run_workload-IsQuiet fuel q idle = search (quiet_rules, wait_abortable-IsQuiet) depth 20
run_workload-IsQuiet fuel q wifi_associated_idle =
    search (quiet_rules, wait_abortable-IsQuiet) depth 20
run_workload-IsQuiet fuel q net_tx = run_network-IsQuiet fuel q 0 0
run_workload-IsQuiet fuel q net_rx = run_network-IsQuiet fuel q 0 0
run_workload-IsQuiet fuel q net_bidirectional = run_network-IsQuiet fuel q 0 0
run_workload-IsQuiet fuel q cpu_stress = search (quiet_rules, run_cpu-IsQuiet) depth 20
run_workload-IsQuiet fuel q flash_write = search (quiet_rules, partition_cycle-IsQuiet) depth 20
run_workload-IsQuiet fuel q nvs_write = search (quiet_rules, run_nvs-IsQuiet) depth 20
run_workload-IsQuiet fuel q ota_partition_write =
    search (quiet_rules, partition_cycle-IsQuiet) depth 20
run_workload-IsQuiet fuel q controlled_reboot =
    search (quiet_rules, wait_abortable-IsQuiet) depth 20
run_workload-IsQuiet fuel q workload_count = search quiet_rules

emit-IsQuiet : (cjson : Cjson) (config : Config) (e : Emission) → IsQuiet (emit cjson config e)
unfolding emit
emit-IsQuiet cjson config e = search quiet_rules depth 20 fits 40000

emit_fault-IsQuiet :
    (cjson : Cjson) (config : Config) (ok : Bool) (e : Emission)
    → IsQuiet (emit_fault cjson config ok e)
unfolding emit_fault
emit_fault-IsQuiet cjson config true e = search quiet_rules
emit_fault-IsQuiet cjson config false e =
    search (quiet_rules, should_abort-IsQuiet, emit-IsQuiet) depth 40

is_reboot_workload : (w : Workload) (ok : Bool) → (is_reboot w && ok) ≡ true → w ≡ controlled_reboot
is_reboot_workload w ok h = ground arith

module _ (run : Run) where
  finish_run-Working :
      (result : Text) (s : Progress)
      → Working run false s
      → Follows restart_protocol (finish_run result) s (λ _ t. Working run true t)
  unfolding finish_run finish
  finish_run-Working result s w =
      (tt, λ _ _. (tt, λ _ _. (tt, λ _ _. (tt, λ _ _. (tt, λ _ _. (rw w.0 refl, refl))))))

  end_task-restarts :
      (ok : Bool) (s : Progress)
      → Working run true s
      → Follows restart_protocol (end_task run ok) s (λ _ _. Unit {0})
  unfolding end_task should_abort reboot
  end_task-restarts ok s w =
      Follows-branch restart_protocol (is_reboot run.request.workload && ok) _ _ s (λ _ _. Unit {0})
        (λ asked. (
          tt,
          λ _ _. (
            tt,
            λ last _. (
              tt,
              λ _ _.
                  Follows-branch restart_protocol last.abort_requested _ _ _ (λ _ _. Unit {0})
                    (λ _. (tt, λ _ _. tt))
                    (λ go_on. (
                      tt,
                      λ _ _. (
                        tt,
                        λ _ _. (
                          (
                            run,
                            last,
                            rw w.0 refl,
                            is_reboot_workload run.request.workload ok asked,
                            w.1,
                            refl,
                            go_on,
                            refl,
                          ),
                          λ _ _. tt,
                        ),
                      ),
                    )),
            ),
          ),
        ))
        (λ _. (tt, λ _ _. tt))

quietly :
    {A : Type 0} (run : Run) (ended : Bool) (m : Prog A) (k : A → Prog (Unit {0})) (s : Progress)
    → IsQuiet m
    → Working run ended s
    → ((a : A) (t : Progress)
        → Working run ended t
        → Follows restart_protocol (k a) t (λ _ _. Unit {0}))
    → Follows restart_protocol (m >>= k) s (λ _ _. Unit {0})
quietly run ended m k s q w h =
    Follows-then restart_protocol m k s (λ _ t. Working run ended t) (λ _ _. Unit {0})
      (IsQuiet-Working m run ended s q w) h

-- Whatever is replied, a workload's task restarts the device only where the run that it copied at its
-- start is a controlled reboot, it has written a completed run, the run that it read last has its
-- abort flag not set, and it has written the marker with that run's identifier.
pub workload_task-restarts :
    (fuel : ℕ) (cjson : Cjson) (config : Config)
    → Follows restart_protocol (workload_task fuel cjson config) at_start (λ _ _. Unit {0})
unfolding workload_task copy_run
workload_task-restarts fuel cjson config = (
  tt,
  λ _ _. (
    tt,
    λ run _. (
      tt,
      λ _ _.
          quietly run false _ _ _ (emit-IsQuiet cjson config _) (refl, refl)
            λ _ s a.
              quietly run false _ _ _ (run_workload-IsQuiet fuel run.request run.request.workload) a
                λ r t b. quietly run false _ _ _ should_abort-IsQuiet b λ stop u c.
                  quietly run false _ _ _ (emit_fault-IsQuiet cjson config r.0 _) c λ _ v d.
                    quietly run false _ _ _ (emit-IsQuiet cjson config _) d λ _ w e.
                      Follows-then restart_protocol (finish_run _) _ w (λ _ x. Working run true x)
                        (λ _ _. Unit {0}) (finish_run-Working run _ w e)
                        λ _ x f.
                          quietly run true _ _ _ (emit-IsQuiet cjson config _) f
                            λ _ y g. end_task-restarts run r.0 y g,
    ),
  ),
)

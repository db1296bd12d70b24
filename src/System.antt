-- ===== src/System.antt =====
-- The tasks of firmware/targets/esp32s3/main/main.c together: app_main's task from the temperature
-- sensor on, the HTTP server's task, which runs the handlers one after another, sta_config_task, the
-- event loop's task with wifi_event, the timer's task with sta_retry_fire, and one task for each run
-- that was started, over the statics that state_lock protects. app_main starts the first of them, and
-- they interleave at every call, in any order.
pub mod Threads
pub mod Locks
pub mod Slot
pub mod Invariant
pub mod Exclusion
pub mod Life
pub mod Ring
pub mod Duties
pub mod Schedule
pub mod Progress
use dragon_bench.Common.{
  ℕ, zero, suc, ◌+◌, ◌≡◌, ◌≢◌, Bool, true, false, Option, none, some, List, [], ◌∷◌, Text, ◌==◌,
  if◌then◌else◌, codes,
}
use dragon_bench.Run.{Run}
use dragon_bench.Json.{Cjson}
use dragon_bench.Events.{EventLog}
use dragon_bench.Prog.{
  Call, Reply, Prog, done, ask, ◌>>=◌, take_lock, give_lock, get_run, put_run, get_log, put_log,
  get_seq, put_seq, bump_run_counter, create_workload_task, boot_step,
}
use dragon_bench.Task.{workload_task}
use dragon_bench.Http.{HttpRequest}
use dragon_bench.Http.Pages.{Booted}
use dragon_bench.Http.Server.{Route, handle}
use dragon_bench.Wifi.{WifiEvent, wifi_event, sta_retry_fire, sta_config_task}
use dragon_bench.Boot.{Settings, initial_run, start_device}
use dragon_bench.Events.Numbering.{initial_log}
use dragon_bench.Prog

-- The statics that the tasks share: who holds state_lock, current_run, the ring of events with
-- event_seq, and run_counter.
pub record Shared : Type 0 where
  pub owner : Option ℕ
  pub run : Run
  pub log : EventLog
  pub run_counter : ℕ

-- What a call of the thread `i` does to them, and what it replies: a mutex, statics, and an outside
-- that replies anything to every other call. A thread waits at take_lock until the lock is free. A
-- task that was not made is a reply `false`; for one that was made see `Step`.
abbrev pub Effect : ℕ → Shared → (c : Call) → Reply c → Shared → Type 0
Effect i s take_lock r t = (s.owner ≡ none) × (t ≡ record s { owner = some i })
Effect i s give_lock r t = t ≡ record s { owner = none }
Effect i s get_run r t = (r ≡ s.run) × (t ≡ s)
Effect i s (put_run run) r t = t ≡ record s { run = run }
Effect i s get_log r t = (r ≡ s.log) × (t ≡ s)
Effect i s (put_log l) r t = t ≡ record s { log = record l { event_seq = s.log.event_seq } }
Effect i s get_seq r t = (r ≡ s.log.event_seq) × (t ≡ s)
Effect i s (put_seq n) r t = t ≡ record s { log = record (s.log) { event_seq = n } }
Effect i s bump_run_counter r t =
    (r ≡ s.run_counter + 1) × (t ≡ record s { run_counter = s.run_counter + 1 })
Effect i s create_workload_task r t = (r ≡ false) × (t ≡ s)
Effect i s _ r t = t ≡ s

abbrev pub Thread : Type 0
Thread = Prog (Unit {0})

abbrev pub update : {A : Type 0} → (ℕ → A) → ℕ → A → ℕ → A
update f i a j = if i == j then a else f j

-- A thread that is `done` does not run; a new task may take its place.
pub record System : Type 0 where
  pub shared : Shared
  pub threads : ℕ → Thread

-- The device: the fuel of its loops, cJSON, the configuration, what
-- app_main knew when it came to the temperature sensor, and the statics that the handlers read.
pub record Device : Type 0 where
  pub fuel : ℕ
  pub cjson : Cjson
  pub settings : Settings
  pub nonce : ℕ
  pub reason_text : Text
  pub previous : Text
  pub booted : Booted

-- What comes from outside: the requests, the events of the network stack with the number of ESP-IDF's
-- WIFI_REASON_ASSOC_LEAVE, and how often the retry timer fires.
pub record Inputs : Type 0 where
  pub requests : List (Route × HttpRequest)
  pub reason_assoc_leave : ℕ
  pub events : List WifiEvent
  pub retries : ℕ

-- The server's task at the requests that it will get.
unfoldable pub serve_requests : Device → List (Route × HttpRequest) → Thread
serve_requests dev [] = done tt
serve_requests dev ((route, req) ∷ rest) =
    handle dev.cjson dev.booted route req >>= λ _. serve_requests dev rest

-- The event loop's task at the events that it will get.
unfoldable pub serve_events : ℕ → List WifiEvent → Thread
serve_events reason_assoc_leave [] = done tt
serve_events reason_assoc_leave (e ∷ rest) =
    wifi_event reason_assoc_leave e >>= λ _. serve_events reason_assoc_leave rest

-- The timer's task, which will fire the retry timer so many times.
unfoldable pub fire_retries : ℕ → Thread
fire_retries zero = done tt
fire_retries (suc n) = sta_retry_fire >>= λ _. fire_retries n

-- app_main's task from the temperature sensor on; before that it is the only one.
unfoldable pub main_task : Device → Thread
main_task dev =
    start_device dev.cjson dev.settings dev.nonce dev.reason_text dev.previous >>= λ _. done tt

module _ (dev : Device) (inputs : Inputs) where
  -- The task that a step of the boot starts where it succeeds.
  abbrev pub started : Prog.Step → Option Thread
  started Prog.start_server = some (serve_requests dev inputs.requests)
  started Prog.create_config_task = some (sta_config_task dev.fuel)
  started Prog.register_wifi_events = some (serve_events inputs.reason_assoc_leave inputs.events)
  started Prog.create_retry_timer = some (fire_retries inputs.retries)
  started _ = none

  -- One call of one thread, the start of a workload's task by the server's, or a step of the boot
  -- that starts a task. A new task takes the place of a thread that has ended or never began.
  pub data Step (s u : System) : Type 0 where
    acts :
        (i : ℕ) (c : Call) (k : Reply c → Thread) (r : Reply c) (shared : Shared)
        → s.threads i ≡ ask c k
        → Effect i s.shared c r shared
        → u ≡ record { shared = shared; threads = update s.threads i (k r) }
        → Step s u
    spawns :
        (i j : ℕ) (k : Bool → Thread)
        → s.threads i ≡ ask create_workload_task k
        → s.threads j ≡ done tt
        → u ≡ record {
          shared = s.shared;
          threads =
              update
                (update s.threads i (k true))
                j
                (workload_task dev.fuel dev.cjson dev.settings.config);
        }
        → Step s u
    creates :
        (i j : ℕ) (step : Prog.Step) (k : Bool → Thread) (m : Thread)
        → s.threads i ≡ ask (boot_step step) k
        → started step ≡ some m
        → s.threads j ≡ done tt
        → u ≡ record { shared = s.shared; threads = update (update s.threads i (k true)) j m }
        → Step s u

  -- app_main alone, with the statics as it leaves them: no run, and an empty ring.
  unfoldable pub start_system : System
  unfolding main_task
  start_system = record {
    shared = record { owner = none; run = initial_run; log = initial_log; run_counter = 0 };
    threads = λ i. if i == 1 then main_task dev else done tt;
  }

  pub data Reach (s : System) : System → Type 0 where
    here : Reach s s
    onward : {t u : System} → Reach s t → Step t u → Reach s u

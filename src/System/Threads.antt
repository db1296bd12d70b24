-- ===== src/System/Threads.antt =====
-- The threads of the system, and what holds of each of them when it starts.
use dragon_bench.Common.{
  ℕ, zero, suc, ◌≡◌, subst, inl, inr, Bool, false, Option, none, some, List, [], ◌∷◌, Text, ◌==◌,
  if◌then◌else◌, Bool-cases,
}
use dragon_bench.Json.{Cjson}
use dragon_bench.Events.{Config, Emission}
use dragon_bench.Prog
use dragon_bench.Prog.{Prog, done, ◌>>=◌}
use dragon_bench.Prog.Locks.{KeepsLock}
use dragon_bench.Prog.Slot.{nothing, KeepsSlot}
use dragon_bench.Prog.Duties.{no_duties, Settles}
use dragon_bench.Prog.Apart.{Rules, KeepsLock-Rules, KeepsSlot-Rules, Settles-Rules}
use dragon_bench.Task.{emit}
use dragon_bench.Task.Locks.{emit-KeepsLock}
use dragon_bench.Task.Slot.{emit-KeepsSlot}
use dragon_bench.Task.Duties.{emit-Settles}
use dragon_bench.Http.{HttpRequest}
use dragon_bench.Http.Pages.{Booted}
use dragon_bench.Http.Server.{Route, handle}
use dragon_bench.Http.Locks.{handle-KeepsLock}
use dragon_bench.Http.Slot.{handle-KeepsSlot}
use dragon_bench.Http.Duties.{handle-Settles}
use dragon_bench.Wifi.{nvs_save_sta, nvs_load_sta, WifiEvent}
use dragon_bench.Wifi.Rules.{
  sta_retry_fire-rule, sta_config_task-rule, wifi_event-rule, nvs_save_sta-KeepsLock,
  nvs_load_sta-KeepsLock, nvs_save_sta-KeepsSlot, nvs_load_sta-KeepsSlot, nvs_save_sta-Settles,
  nvs_load_sta-Settles,
}
use dragon_bench.Boot.Rules.{start_device-rule}
use dragon_bench.System.{
  Thread, Device, Inputs, serve_requests, serve_events, fire_retries, main_task, started,
}

-- A property of programs that holds of the parts that the threads are made of.
pub record Parts (P : (A : Type 0) → Prog A → Type 0) : Type 1 where
  pub rules : Rules P
  pub saves : (ssid password : Text) → P Bool (nvs_save_sta ssid password)
  pub loads : (n m : ℕ) → P (Option (Text × Text)) (nvs_load_sta n m)
  pub emits : (cjson : Cjson) (config : Config) (e : Emission) → P (Unit {0}) (emit cjson config e)
  pub handles :
      (cjson : Cjson) (b : Booted) (route : Route) (req : HttpRequest)
      → P Bool (handle cjson b route req)

pub KeepsLock-Parts : Parts (λ A m. KeepsLock false m)
KeepsLock-Parts = record {
  rules = KeepsLock-Rules;
  saves = nvs_save_sta-KeepsLock;
  loads = nvs_load_sta-KeepsLock;
  emits = emit-KeepsLock;
  handles = handle-KeepsLock;
}

pub KeepsSlot-Parts : Parts (λ A m. KeepsSlot nothing m)
KeepsSlot-Parts = record {
  rules = KeepsSlot-Rules;
  saves = nvs_save_sta-KeepsSlot;
  loads = nvs_load_sta-KeepsSlot;
  emits = emit-KeepsSlot;
  handles = handle-KeepsSlot;
}

pub Settles-Parts : Parts (λ A m. Settles no_duties no_duties m)
Settles-Parts = record {
  rules = Settles-Rules no_duties;
  saves = nvs_save_sta-Settles;
  loads = nvs_load_sta-Settles;
  emits = λ cjson config e. emit-Settles cjson config e no_duties;
  handles = handle-Settles;
}

-- Such a property holds of every thread that the boot starts.
module _ (P : (A : Type 0) → Prog A → Type 0) (parts : Parts P) (dev : Device)
    (inputs : Inputs) where
  open parts use {rules, saves, loads, emits, handles}
  open rules use {at_done, at_bind}

  serve_requests-rule :
      (requests : List (Route × HttpRequest)) → P (Unit {0}) (serve_requests dev requests)
  unfolding serve_requests
  serve_requests-rule [] = at_done _ tt
  serve_requests-rule ((route, req) ∷ rest) =
      at_bind _ _ _ _ (handles dev.cjson dev.booted route req) (λ _. serve_requests-rule rest)

  serve_events-rule :
      (reason : ℕ) (events : List WifiEvent) → P (Unit {0}) (serve_events reason events)
  unfolding serve_events
  serve_events-rule reason [] = at_done _ tt
  serve_events-rule reason (e ∷ rest) =
      at_bind _ _ _ _ (wifi_event-rule P rules saves reason e) (λ _. serve_events-rule reason rest)

  fire_retries-rule : (n : ℕ) → P (Unit {0}) (fire_retries n)
  unfolding fire_retries
  fire_retries-rule zero = at_done _ tt
  fire_retries-rule (suc n) =
      at_bind _ _ _ _ (sta_retry_fire-rule P rules saves) (λ _. fire_retries-rule n)

  abbrev IfSome : Option Thread → Type 0
  IfSome none = Unit {0}
  IfSome (some m) = P (Unit {0}) m

  started_if : (step : Prog.Step) → IfSome (started dev inputs step)
  started_if Prog.start_server = serve_requests-rule inputs.requests
  started_if Prog.create_config_task = sta_config_task-rule P rules saves dev.fuel
  started_if Prog.register_wifi_events = serve_events-rule inputs.reason_assoc_leave inputs.events
  started_if Prog.create_retry_timer = fire_retries-rule inputs.retries
  started_if _ = tt

  pub started-rule :
      (step : Prog.Step) (m : Thread) → started dev inputs step ≡ some m → P (Unit {0}) m
  started-rule step m e = subst IfSome e (started_if step)

  main_task-rule : P (Unit {0}) (main_task dev)
  unfolding main_task
  main_task-rule =
      at_bind _ _ _ _
        (start_device-rule P rules saves loads emits dev.cjson dev.settings dev.nonce
          dev.reason_text dev.previous)
        (λ _. at_done _ tt)

  pub first_threads-rule : (i : ℕ) → P (Unit {0}) (if i == 1 then main_task dev else done tt)
  first_threads-rule i = elim (Bool-cases (i == 1)) [
    | inl e ↦ rw e main_task-rule
    | inr e ↦ rw e (at_done _ tt)
  ]

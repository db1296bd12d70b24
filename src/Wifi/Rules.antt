-- ===== src/Wifi/Rules.antt =====
-- What holds of the station's use of the storage, and of calls apart, holds of its tasks.
use dragon_bench.Common.{ℕ, zero, suc, refl, Bool, true, false, [], ◌∷◌, Text}
use dragon_bench.Prog.{Prog, Credentials}
use dragon_bench.Prog.Locks.{KeepsLock, lock_rules}
use dragon_bench.Prog.Slot.{nothing, KeepsSlot, slot_rules}
use dragon_bench.Prog.Duties.{
  Settles, Duties, no_duties, duty_rules, Settles-nvs_open, Settles-ask, Settles-bind,
}
use dragon_bench.Prog.Apart.{Rules}
use dragon_bench.Wifi.{
  save_strings, nvs_save_sta, nvs_load_sta, configure_sta, sta_retry_fire, sta_schedule_retry,
  apply_credentials, keep_credentials, publish_outcome, apply_request, sta_config_task, WifiEvent,
  ap_start, ap_sta_connected, ap_sta_disconnected, sta_associated, sta_lost, got_ip, other_event,
  wifi_event,
}

module _ (P : (A : Type 0) → Prog A → Type 0) (rules : Rules P)
    (saves : (ssid password : Text) → P Bool (nvs_save_sta ssid password)) where
  open rules use {at_done, at_out_of_fuel, at_call, at_bind, at_branch, at_option}

  pub configure_sta-rule : (ssid password : Text) → P Bool (configure_sta ssid password)
  unfolding configure_sta
  configure_sta-rule ssid password = search (tt, at_done, at_call, at_bind, at_branch) depth 20

  pub sta_retry_fire-rule : P (Unit {0}) sta_retry_fire
  unfolding sta_retry_fire
  sta_retry_fire-rule = search (tt, at_done, at_call, at_bind, at_branch) depth 20

  sta_schedule_retry-rule : P (Unit {0}) sta_schedule_retry
  unfolding sta_schedule_retry
  sta_schedule_retry-rule = search (tt, at_done, at_call, at_bind, at_branch) depth 20

  apply_credentials-rule :
      (attempts : ℕ) (creds : Credentials) → P Bool (apply_credentials attempts creds)
  unfolding apply_credentials
  apply_credentials-rule zero creds = at_done Bool false
  apply_credentials-rule (suc attempts) creds =
      search
        (
          tt,
          at_done,
          at_call,
          at_bind,
          at_branch,
          configure_sta-rule,
          apply_credentials-rule attempts,
        )
        depth 20

  keep_credentials-rule :
      (applied : Bool) (creds : Credentials) → P (Unit {0}) (keep_credentials applied creds)
  unfolding keep_credentials
  keep_credentials-rule true creds = search (tt, at_done, at_call, at_bind, saves) depth 20
  keep_credentials-rule false creds = at_done (Unit {0}) tt

  publish_outcome-rule :
      (applied : Bool) (creds : Credentials) → P (Unit {0}) (publish_outcome applied creds)
  unfolding publish_outcome
  publish_outcome-rule applied creds = at_call _ _ _ tt λ _. at_call _ _ _ tt λ w.
      at_call _ _ _ tt λ _. at_call _ _ _ tt λ _. at_call _ _ _ tt λ _. at_call _ _ _ tt λ _.
        at_call _ _ _ tt
          λ _. at_call _ _ _ tt λ w'. at_branch _ _ _ _ sta_schedule_retry-rule (at_done _ tt)

  apply_request-rule : (creds : Credentials) → P (Unit {0}) (apply_request creds)
  unfolding apply_request
  apply_request-rule creds =
      search
        (
          tt, at_done, at_call, at_bind, apply_credentials-rule, keep_credentials-rule,
          publish_outcome-rule,
        )
        depth 30

  pub sta_config_task-rule : (fuel : ℕ) → P (Unit {0}) (sta_config_task fuel)
  unfolding sta_config_task
  sta_config_task-rule zero = at_out_of_fuel (Unit {0})
  sta_config_task-rule (suc fuel) =
      search (tt, at_call, at_bind, at_option, apply_request-rule, sta_config_task-rule fuel) depth
        20

  pub wifi_event-rule : (reason : ℕ) (e : WifiEvent) → P (Unit {0}) (wifi_event reason e)
  unfolding wifi_event
  wifi_event-rule reason ap_start = search (tt, at_done, at_call, at_bind, at_option) depth 20
  wifi_event-rule reason ap_sta_connected = search (tt, at_done, at_call, at_bind) depth 20
  wifi_event-rule reason ap_sta_disconnected =
      search (tt, at_done, at_call, at_bind, at_branch) depth 20
  wifi_event-rule reason sta_associated = at_done (Unit {0}) tt
  wifi_event-rule reason (sta_lost r) =
      search (tt, at_done, at_call, at_bind, at_branch, sta_schedule_retry-rule) depth 20
  wifi_event-rule reason (got_ip ip) = search (tt, at_done, at_call, at_bind, at_option) depth 20
  wifi_event-rule reason other_event = at_done (Unit {0}) tt

-- The two uses of the storage under the three protocols.
pub nvs_save_sta-KeepsLock : (ssid password : Text) → KeepsLock false (nvs_save_sta ssid password)
unfolding nvs_save_sta save_strings
nvs_save_sta-KeepsLock ssid password = search lock_rules depth 30

pub nvs_load_sta-KeepsLock : (n m : ℕ) → KeepsLock false (nvs_load_sta n m)
unfolding nvs_load_sta
nvs_load_sta-KeepsLock n m = search lock_rules depth 30

pub nvs_save_sta-KeepsSlot : (ssid password : Text) → KeepsSlot nothing (nvs_save_sta ssid password)
unfolding nvs_save_sta save_strings
nvs_save_sta-KeepsSlot ssid password = search slot_rules depth 30

pub nvs_load_sta-KeepsSlot : (n m : ℕ) → KeepsSlot nothing (nvs_load_sta n m)
unfolding nvs_load_sta
nvs_load_sta-KeepsSlot n m = search slot_rules depth 30

abbrev one_open : ℕ → Duties
one_open handle = record no_duties { handles = handle ∷ [] }

save_strings-Settles :
    (handle : ℕ) (ssid password : Text)
    → Settles (one_open handle) (one_open handle) (save_strings handle ssid password)
unfolding save_strings
save_strings-Settles handle ssid password = search duty_rules depth 20

pub nvs_save_sta-Settles :
    (ssid password : Text) → Settles no_duties no_duties (nvs_save_sta ssid password)
unfolding nvs_save_sta
nvs_save_sta-Settles ssid password =
    Settles-nvs_open no_duties no_duties _ true _ _ (search duty_rules) λ handle.
      Settles-bind (save_strings handle ssid password) _ (one_open handle) no_duties
        (save_strings-Settles handle ssid password)
        λ ok. Settles-ask (one_open handle) no_duties _ _ refl λ _. search duty_rules

pub nvs_load_sta-Settles : (n m : ℕ) → Settles no_duties no_duties (nvs_load_sta n m)
unfolding nvs_load_sta
nvs_load_sta-Settles n m =
    Settles-nvs_open no_duties no_duties _ false _ _ (search duty_rules) λ handle.
      Settles-ask (one_open handle) no_duties _ _ refl λ ssid.
        Settles-ask (one_open handle) no_duties _ _ refl
          λ password. Settles-ask (one_open handle) no_duties _ _ refl λ _. search duty_rules

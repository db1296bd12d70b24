-- ===== src/Boot/Rules.antt =====
-- What holds of calls apart, of the events and of the stored credentials holds of app_main from the
-- temperature sensor on.
use dragon_bench.Common.{ℕ, Bool, true, Option, List, [], ◌∷◌, Text}
use dragon_bench.Json.{Cjson}
use dragon_bench.Events.{Config, Emission}
use dragon_bench.Network.{Identity}
use dragon_bench.Prog.{Prog, Step, Wifi}
use dragon_bench.Prog.Apart.{Rules}
use dragon_bench.Task.{emit}
use dragon_bench.Wifi.{nvs_load_sta, nvs_save_sta}
use dragon_bench.Wifi.Rules.{configure_sta-rule}
use dragon_bench.Http.Pages.{Booted}
use dragon_bench.Http.Server.{Entry}
use dragon_bench.Boot.{
  Settings, all_steps, check_step, start_radio, start_ap, start_station, start_wifi,
  register_routes, start_http, start_mdns, serve, start_network, start_device,
}

module _ (P : (A : Type 0) → Prog A → Type 0) (rules : Rules P)
    (saves : (ssid password : Text) → P Bool (nvs_save_sta ssid password))
    (loads : (n m : ℕ) → P (Option (Text × Text)) (nvs_load_sta n m))
    (emits : (cjson : Cjson) (config : Config) (e : Emission)
      → P (Unit {0}) (emit cjson config e)) where
  open rules use {at_done, at_call, at_bind, at_branch, at_option}

  all_steps-rule : (steps : List Step) → P Bool (all_steps steps)
  unfolding all_steps
  all_steps-rule [] = at_done Bool true
  all_steps-rule (step ∷ steps) =
      search (tt, at_done, at_call, at_bind, at_branch, all_steps-rule steps) depth 20

  check_step-rule : (step : Step) → P (Unit {0}) (check_step step)
  unfolding check_step
  check_step-rule step = search (tt, at_done, at_call, at_bind, at_branch) depth 20

  start_radio-rule : P Bool start_radio
  unfolding start_radio
  start_radio-rule = search (tt, at_done, at_call, at_bind, at_branch, all_steps-rule) depth 20

  start_ap-rule :
      (settings : Settings) (identity : Identity) (sta : Text × Text)
      → P Bool (start_ap settings identity sta)
  unfolding start_ap
  start_ap-rule settings identity sta =
      search
        (
          tt,
          at_done,
          at_call,
          at_bind,
          at_branch,
          all_steps-rule,
          configure_sta-rule P rules saves,
          start_radio-rule,
        )
        depth 20

  start_station-rule :
      (settings : Settings) (identity : Identity) → P Bool (start_station settings identity)
  unfolding start_station
  start_station-rule settings identity =
      search (tt, at_done, at_call, at_bind, at_branch, loads, all_steps-rule, start_ap-rule) depth
        30

  start_wifi-rule : (settings : Settings) → P (Option Identity) (start_wifi settings)
  unfolding start_wifi
  start_wifi-rule settings =
      search (tt, at_done, at_call, at_bind, at_branch, at_option, start_station-rule) depth 20

  register_routes-rule : (es : List Entry) → P (Unit {0}) (register_routes es)
  unfolding register_routes
  register_routes-rule [] = at_done (Unit {0}) tt
  register_routes-rule (e ∷ es) =
      search (at_bind, check_step-rule, register_routes-rule es) depth 10

  start_http-rule : P (Unit {0}) start_http
  unfolding start_http
  start_http-rule = search (at_bind, check_step-rule, register_routes-rule) depth 10

  start_mdns-rule :
      (settings : Settings) (device_id : Text) → P (Bool × Text) (start_mdns settings device_id)
  unfolding start_mdns
  start_mdns-rule settings device_id =
      search (tt, at_done, at_call, at_bind, at_branch, at_option, all_steps-rule) depth 20

  serve-rule :
      (cjson : Cjson) (settings : Settings) (nonce : ℕ) (reason previous : Text)
      (temperature : Bool) (identity : Identity) (w : Wifi)
      → P (Option Booted) (serve cjson settings nonce reason previous temperature identity w)
  unfolding serve
  serve-rule cjson settings nonce reason previous temperature identity w =
      search (tt, at_done, at_call, at_bind, at_branch, start_mdns-rule, start_http-rule, emits)
        depth 30

  start_network-rule :
      (cjson : Cjson) (settings : Settings) (nonce : ℕ) (reason previous : Text)
      (temperature : Bool)
      → P (Option Booted) (start_network cjson settings nonce reason previous temperature)
  unfolding start_network
  start_network-rule cjson settings nonce reason previous temperature =
      search (tt, at_done, at_call, at_bind, at_option, start_wifi-rule, serve-rule) depth 20

  pub start_device-rule :
      (cjson : Cjson) (settings : Settings) (nonce : ℕ) (reason previous : Text)
      → P (Option Booted) (start_device cjson settings nonce reason previous)
  unfolding start_device
  start_device-rule cjson settings nonce reason previous =
      search (at_bind, all_steps-rule, emits, start_network-rule) depth 20

-- ===== src/Boot.antt =====
-- The boot in firmware/targets/esp32s3/main/main.c: reset_name, start_wifi, start_http and app_main.
-- The statics that only the boot writes are results. antenna_init and the log lines are left out.
pub mod Rules
pub mod Reset
pub mod Start
pub mod Order
use dragon_bench.Common.{
  ℕ, ◌+◌, Bool, true, false, ◌&&◌, ◌||◌, not, Option, none, some, List, [], ◌∷◌, ◌++◌, Text, codes,
  is_empty, snprintf, length, ltb, leb, ◌==◌, if◌then◌else◌, map,
}
use dragon_bench.Run.{Request, Run, run_idle, idle, run_id_len, result_len}
use dragon_bench.Network.{
  Mac, Identity, ap_failed, sta_connecting, sta_unconfigured, device_suffix_len, device_id_len,
  ap_ssid_len, network_identity, sta_is_configured, mdns_hostname,
}
use dragon_bench.Json.{Cjson}
use dragon_bench.Events.{Config, Emission}
use dragon_bench.Prog.{
  Prog, Wifi, Marker, ResetReason, rst_unknown, rst_poweron, rst_ext, rst_sw, rst_panic,
  rst_int_wdt, rst_task_wdt, rst_wdt, rst_deepsleep, rst_brownout, rst_sdio, rst_usb, rst_jtag,
  rst_efuse, rst_pwr_glitch, rst_cpu_lockup, rst_other, Step, flash_init, temperature_install,
  temperature_enable, create_event_group, create_config_queue, create_retry_timer,
  create_config_task, netif_init, create_event_loop, create_ap_netif, create_sta_netif, wifi_init,
  register_wifi_events, register_got_ip, set_apsta_mode, wifi_start, wait_ap_started, get_ap_config,
  get_channel, get_protocol, get_tx_power, set_ap_config, mdns_init, set_instance_name,
  add_http_service, start_server, set_hostname, register_route, done, branch, on_option, call,
  ◌>>=◌, ◌>>◌, get_wifi, set_static, to_ap_state, to_sta_state, to_sta_configured, wifi_connect,
  put_run, get_marker, put_marker, random, reset_reason, read_mac, boot_step, panic,
}
use dragon_bench.Task.{reboot_marker_magic, emit}
use dragon_bench.Wifi.{nvs_load_sta, configure_sta}
use dragon_bench.Http.Pages.{Booted, is_ap_active}
use dragon_bench.Http.Server.{Entry, routes}

-- The build's configuration: CONFIG_DB_…, and the mDNS component's MDNS_NAME_BUF_LEN.
pub record Settings : Type 0 where
  pub config : Config
  pub wifi_ssid : Text
  pub wifi_password : Text
  pub ap_password : Text
  pub hostname : Text
  pub mdns_name_buf_len : ℕ

-- reset_name
unfoldable pub reset_name : ResetReason → Text
reset_name rst_unknown = codes "unknown"
reset_name rst_poweron = codes "power_on"
reset_name rst_ext = codes "external_pin"
reset_name rst_sw = codes "software"
reset_name rst_panic = codes "panic"
reset_name rst_int_wdt = codes "interrupt_watchdog"
reset_name rst_task_wdt = codes "task_watchdog"
reset_name rst_wdt = codes "watchdog"
reset_name rst_deepsleep = codes "deep_sleep"
reset_name rst_brownout = codes "brownout"
reset_name rst_sdio = codes "sdio"
reset_name rst_usb = codes "usb"
reset_name rst_jtag = codes "jtag"
reset_name rst_efuse = codes "efuse_error"
reset_name rst_pwr_glitch = codes "power_glitch"
reset_name rst_cpu_lockup = codes "cpu_lockup"
reset_name rst_other = codes "unknown"

abbrev pub is_software : ResetReason → Bool
is_software rst_sw = true
is_software _ = false

-- The tests of app_main on the marker in RTC memory, which a reset does not clear: what it leaves
-- there, and previous_reboot_run_id.
unfoldable pub recover_marker : ResetReason → Marker → Marker × Text
recover_marker reason m =
    let kept : Marker = if is_software reason then m else record m { magic = 0 } in
    if kept.magic == reboot_marker_magic
    then (record kept { magic = 0 }, snprintf run_id_len kept.run_id)
    else (kept, [])

-- Steps joined by && or by || on their errors: the first that fails is the last that is made.
unfoldable pub all_steps : List Step → Prog Bool
all_steps [] = done true
all_steps (step ∷ steps) = do ok ← call (boot_step step); branch ok (all_steps steps) (done false)

-- ESP_ERROR_CHECK
unfoldable pub check_step : Step → Prog (Unit {0})
check_step step = do ok ← call (boot_step step); branch ok (done tt) (call panic)

-- The stored credentials, or those of the build.
unfoldable pub initial_credentials : Settings → Option (Text × Text) → Text × Text
initial_credentials settings none =
    (snprintf 33 settings.wifi_ssid, snprintf 65 settings.wifi_password)
initial_credentials settings (some stored) = stored

-- The part of start_wifi from the start of the radio on.
unfoldable pub start_radio : Prog Bool
unfolding all_steps
start_radio = do
  started ← all_steps (wifi_start ∷ wait_ap_started ∷ [])
  branch started
      (do
        w ← call get_wifi
        branch (is_ap_active w.ap_state)
            (all_steps (get_ap_config ∷ get_channel ∷ get_protocol ∷ get_tx_power ∷ []))
            (done false))
      (done false)

-- The part from the access point's configuration on; its fields hold 32 and 64 bytes.
unfoldable pub start_ap : Settings → Identity → Text × Text → Prog Bool
unfolding all_steps start_radio
start_ap settings identity sta =
    branch
      (is_empty identity.ssid
        || leb 32 (length identity.ssid)
        || ltb (length settings.ap_password) 8
        || leb 64 (length settings.ap_password))
      (done false)
      (do
        set ← all_steps (
            set_apsta_mode
            ∷ set_ap_config (snprintf 32 identity.ssid) (snprintf 64 settings.ap_password)
            ∷ [])
        branch set
            (branch (sta_is_configured (some sta.0))
              (do
                configured ← configure_sta sta.0 sta.1
                branch configured start_radio (done false))
              start_radio)
            (done false))

abbrev pub wifi_steps : List Step
wifi_steps =
    create_retry_timer ∷ create_config_task ∷ netif_init ∷ create_event_loop ∷ create_ap_netif
    ∷ create_sta_netif ∷ wifi_init ∷ register_wifi_events ∷ register_got_ip ∷ []

-- The part of start_wifi behind the device's names.
unfoldable pub start_station : Settings → Identity → Prog Bool
unfolding all_steps initial_credentials start_ap
start_station settings identity = do
  stored ← nvs_load_sta 33 65
  let sta : Text × Text = initial_credentials settings stored
  call (set_static (to_sta_configured (sta_is_configured (some sta.0))))
  call (
      set_static (
        to_sta_state (if sta_is_configured (some sta.0) then sta_connecting else sta_unconfigured)))
  group ← call (boot_step create_event_group)
  queue ← call (boot_step create_config_queue)
  branch (group && queue)
      (do ready ← all_steps wifi_steps; branch ready (start_ap settings identity sta) (done false))
      (done false)

-- start_wifi, with device_id and ap_ssid; `none` is false.
unfoldable pub start_wifi : Settings → Prog (Option Identity)
unfolding start_station
start_wifi settings = do
  mac ← call read_mac
  on_option mac (done none) λ m.
      on_option
        (network_identity (some m) (some device_suffix_len) (some device_id_len)
          (some ap_ssid_len)).1
        (done none)
        λ identity.
          branch
            (network_identity (some m) (some device_suffix_len) (some device_id_len)
              (some ap_ssid_len)).0
            (do ok ← start_station settings identity; branch ok (done (some identity)) (done none))
            (done none)

-- start_http, which registers the routes in order.
unfoldable pub register_routes : List Entry → Prog (Unit {0})
unfolding check_step
register_routes [] = done tt
register_routes (e ∷ es) = do check_step (register_route e.uri); register_routes es

unfoldable pub start_http : Prog (Unit {0})
unfolding check_step register_routes
start_http = do check_step start_server; register_routes routes

-- The part of app_main on mDNS: mdns_ready, and mdns_hostname, which is empty until it is written.
unfoldable pub start_mdns : Settings → Text → Prog (Bool × Text)
unfolding all_steps
start_mdns settings device_id = do
  ready ← call (boot_step mdns_init)
  branch ready
      (do
        let named : Bool × Option Text =
            mdns_hostname (some settings.hostname) (some device_id)
              (some settings.mdns_name_buf_len)
        on_option named.1 (done (false, [])) λ name.
            branch named.0
              (do
                ok ← all_steps (set_hostname name ∷ set_instance_name ∷ add_http_service ∷ [])
                done (ok, name))
              (done (false, name)))
      (done (false, []))

-- An event of the boot.
abbrev pub boot_event : Text → Text → Option Text → Emission
boot_event event previous metrics = record {
  event = event;
  phase = none;
  run_id = if is_empty previous then none else some previous;
  result = none;
  parameters_json = none;
  metrics_json = metrics;
}

-- current_run as app_main leaves it.
abbrev pub initial_run : Run
initial_run = record {
  run_id = [];
  request = record { workload = idle; duration_ms = 0; rate_bps = 0; port = 0; host = [] };
  state = run_idle;
  abort_requested = false;
  result = snprintf result_len (codes "none");
  started_ms = 0;
  ended_ms = 0;
}

unfoldable pub reset_metrics_text : Text → Text
reset_metrics_text reason = codes "{\"reason\":\"" ++ (reason ++ codes "\"}")

-- app_main from the first connection of the station on.
unfoldable pub serve :
    Cjson → Settings → ℕ → Text → Text → Bool → Identity → Wifi → Prog (Option Booted)
unfolding start_mdns start_http
serve cjson settings nonce reason previous temperature identity w = do
  branch w.sta_configured (call (set_static (to_sta_state sta_connecting)) >> call wifi_connect)
      (done tt)
  mdns ← start_mdns settings identity.device_id
  start_http
  emit cjson settings.config (boot_event (codes "ready") previous none)
  done (
      some (record {
        config = settings.config;
        device_id = identity.device_id;
        ap_ssid = identity.ssid;
        reset_reason_text = reason;
        previous_reboot_run_id = previous;
        boot_nonce = nonce;
        temp_available = temperature;
        mdns_ready = mdns.0;
        mdns_hostname = mdns.1;
      }))

-- app_main from start_wifi on.
unfoldable pub start_network : Cjson → Settings → ℕ → Text → Text → Bool → Prog (Option Booted)
unfolding start_wifi serve
start_network cjson settings nonce reason previous temperature = do
  started ← start_wifi settings
  on_option started (call (set_static (to_ap_state ap_failed)) >> done none) λ identity. do
    w ← call get_wifi
    serve cjson settings nonce reason previous temperature identity w

-- app_main from the temperature sensor on.
unfoldable pub start_device : Cjson → Settings → ℕ → Text → Text → Prog (Option Booted)
unfolding all_steps reset_metrics_text start_network
start_device cjson settings nonce reason_text previous = do
  temperature ← all_steps (temperature_install ∷ temperature_enable ∷ [])
  emit cjson settings.config (boot_event (codes "boot") previous none)
  emit cjson settings.config (
      boot_event (codes "reset_reason") previous
        (some (snprintf 64 (reset_metrics_text reason_text))))
  start_network cjson settings nonce reason_text previous temperature

-- app_main; `none` where it returns without a server.
unfoldable pub app_main : Cjson → Settings → Prog (Option Booted)
unfolding check_step recover_marker start_device
app_main cjson settings = do
  check_step flash_init
  nonce ← call random
  reason ← call reset_reason
  m ← call get_marker
  call (put_marker (recover_marker reason m).0)
  let previous : Text = (recover_marker reason m).1
  let reason_text : Text = snprintf 32 (reset_name reason)
  call (put_run initial_run)
  start_device cjson settings nonce reason_text previous

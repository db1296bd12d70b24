-- ===== src/Wifi.antt =====
-- The station and the access point in firmware/targets/esp32s3/main/main.c: nvs_load_sta,
-- nvs_save_sta, configure_sta, sta_retry_fire, sta_schedule_retry, sta_config_task and wifi_event.
-- These functions share statics that no lock protects: each read and each write is a call.
pub mod Requests
pub mod Events
pub mod Rules
pub mod Storage
use dragon_bench.Common.{
  ℕ, zero, suc, ◌+◌, ◌-◌, ◌*◌, ◌%◌, ◌^◌, Bool, true, false, ◌&&◌, ◌||◌, not, Option, none, some,
  List, Text, [], codes, is_empty, snprintf, length, ltb, leb, ◌==◌, if◌then◌else◌,
}
use dragon_bench.Json.{Number}
use dragon_bench.Network.{
  ap_active, ap_failed, sta_unconfigured, sta_connecting, sta_connected, sta_disconnected, StaState,
  sta_retry_delay_ms,
}
use dragon_bench.Prog.{
  Prog, Credentials, done, out_of_fuel, branch, on_option, call, ◌>>=◌, ◌>>◌, delay, nvs_open,
  nvs_get_str, nvs_set_str, nvs_commit, nvs_close, get_wifi, set_static, wifi_connect,
  wifi_disconnect, wifi_set_sta_config, retry_timer_stop, retry_timer_start, queue_receive,
  ap_ip_info, set_started_bit, sta_ap_rssi, to_ap_state, to_sta_state, to_sta_configured,
  to_wifi_rssi, to_ap_client_count, to_sta_retry_count, to_sta_last_reason,
  to_sta_config_request_id, to_sta_config_result, to_sta_reconfiguring, to_sta_ssid, to_ap_ip,
  to_sta_ip,
}

abbrev pub wifi_nvs_namespace : Text
wifi_nvs_namespace = codes "db_wifi"

-- What nvs_load_sta leaves in the buffers: `none` where it returns false; a password that cannot be
-- read is empty.
abbrev pub loaded : Option Text → Option Text → Option (Text × Text)
loaded none password = none
loaded (some ssid) none = if is_empty ssid then none else some (ssid, [])
loaded (some ssid) (some password) = if is_empty ssid then none else some (ssid, password)

-- nvs_load_sta
unfoldable pub nvs_load_sta : ℕ → ℕ → Prog (Option (Text × Text))
nvs_load_sta ssid_size password_size = do
  opened ← call (nvs_open wifi_nvs_namespace false)
  on_option opened (done none) λ handle. do
    ssid ← call (nvs_get_str handle (codes "ssid") ssid_size)
    password ← call (nvs_get_str handle (codes "password") password_size)
    call (nvs_close handle)
    done (loaded ssid password)

-- The chain of && in nvs_save_sta.
unfoldable pub save_strings : ℕ → Text → Text → Prog Bool
save_strings handle ssid password = do
  first ← call (nvs_set_str handle (codes "ssid") ssid)
  branch first
      (do
        second ← call (nvs_set_str handle (codes "password") password)
        branch second (call (nvs_commit handle)) (done false))
      (done false)

-- nvs_save_sta; its caller passes the address of an array as the password.
unfoldable pub nvs_save_sta : Text → Text → Prog Bool
unfolding save_strings
nvs_save_sta ssid password = do
  opened ← call (nvs_open wifi_nvs_namespace true)
  on_option opened (done false)
      λ handle. do ok ← save_strings handle ssid password; call (nvs_close handle); done ok

-- configure_sta: the fields of wifi_config_t hold 32 and 64 bytes, and what snprintf would cut is
-- refused. The last argument of wifi_set_sta_config asks for WPA2.
unfoldable pub configure_sta : Text → Text → Prog Bool
configure_sta ssid password =
    branch (is_empty ssid || leb 32 (length ssid) || leb 64 (length password)) (done false) (do
      set ←
          call (
            wifi_set_sta_config (snprintf 32 ssid) (snprintf 64 password) (not (is_empty password)))
      branch set (do call (set_static (to_sta_ssid (snprintf 33 ssid))); done true) (done false))

-- sta_retry_fire
unfoldable pub sta_retry_fire : Prog (Unit {0})
sta_retry_fire = do
  w ← call get_wifi
  branch (w.sta_reconfiguring || not w.sta_configured) (done tt)
      (do call (set_static (to_sta_state sta_connecting)); call wifi_connect)

-- sta_schedule_retry; the timer's time is in microseconds.
unfoldable pub sta_schedule_retry : Prog (Unit {0})
sta_schedule_retry = do
  w ← call get_wifi
  call (set_static (to_sta_retry_count ((w.sta_retry_count + 1) % 2 ^ 32)))
  branch (sta_retry_delay_ms w.sta_retry_count == 0)
      (do call (set_static (to_sta_state sta_connecting)); call wifi_connect)
      (do
        call retry_timer_stop
        call (retry_timer_start (sta_retry_delay_ms w.sta_retry_count * 1000)))

-- The loop of sta_config_task over configure_sta, with `attempts` left.
unfoldable pub apply_credentials : ℕ → Credentials → Prog Bool
unfolding configure_sta
apply_credentials zero creds = done false
apply_credentials (suc attempts) creds = do
  applied ← configure_sta creds.ssid creds.password
  branch applied (done true) (do call (delay 100); apply_credentials attempts creds)

-- if (applied) …; whether the credentials were persisted is only logged.
unfoldable pub keep_credentials : Bool → Credentials → Prog (Unit {0})
unfolding nvs_save_sta
keep_credentials false creds = done tt
keep_credentials true creds = do
  persisted ← nvs_save_sta creds.ssid creds.password
  call (set_static (to_sta_configured true))

abbrev pub applied_text : Bool → Text
applied_text true = codes "applied"
applied_text false = codes "failed"

abbrev pub state_after : Bool → StaState
state_after true = sta_connecting
state_after false = sta_unconfigured

-- The end of a round of sta_config_task, from the reset of sta_retry_count on.
unfoldable pub publish_outcome : Bool → Credentials → Prog (Unit {0})
unfolding sta_schedule_retry
publish_outcome applied creds = do
  call (set_static (to_sta_retry_count 0))
  w ← call get_wifi
  call (set_static (to_sta_state (state_after w.sta_configured)))
  call (set_static (to_sta_last_reason 0))
  call (set_static (to_sta_config_result (applied_text applied)))
  call (set_static (to_sta_config_request_id creds.request_id))
  call (set_static (to_sta_reconfiguring false))
  w' ← call get_wifi
  branch w'.sta_configured sta_schedule_retry (done tt)

-- A round of sta_config_task that has received credentials.
unfoldable pub apply_request : Credentials → Prog (Unit {0})
unfolding apply_credentials keep_credentials publish_outcome
apply_request creds = do
  call (delay 300)
  call (set_static (to_sta_reconfiguring true))
  call retry_timer_stop
  call wifi_disconnect
  call (delay 100)
  applied ← apply_credentials 20 creds
  keep_credentials applied creds
  publish_outcome applied creds

-- sta_config_task, which never returns: as many rounds as there is fuel.
unfoldable pub sta_config_task : ℕ → Prog (Unit {0})
unfolding apply_request
sta_config_task zero = out_of_fuel
sta_config_task (suc fuel) = do
  received ← call queue_receive
  on_option received (sta_config_task fuel) λ creds. do apply_request creds; sta_config_task fuel

-- The events that wifi_event looks at; an address is the text that snprintf makes of it.
pub data WifiEvent : Type 0 where
  ap_start ap_sta_connected ap_sta_disconnected sta_associated : WifiEvent
  sta_lost : ℕ → WifiEvent
  got_ip : Text → WifiEvent
  other_event : WifiEvent

-- WIFI_REASON_ASSOC_LEAVE is ESP-IDF's and a parameter.
module _ (reason_assoc_leave : ℕ) where
  -- wifi_event; a missing ap_netif is a failure of ap_ip_info.
  unfoldable pub wifi_event : WifiEvent → Prog (Unit {0})
  unfolding sta_schedule_retry
  wifi_event ap_start = do
    info ← call ap_ip_info
    on_option info (call (set_static (to_ap_state ap_failed))) λ ip. do
      call (set_static (to_ap_ip (snprintf 16 ip)))
      call (set_static (to_ap_state ap_active))
      call set_started_bit
  wifi_event ap_sta_connected = do
    w ← call get_wifi
    call (set_static (to_ap_client_count ((w.ap_client_count + 1) % 2 ^ 32)))
  wifi_event ap_sta_disconnected = do
    w ← call get_wifi
    branch (ltb 0 w.ap_client_count)
        (call (set_static (to_ap_client_count (w.ap_client_count - 1)))) (done tt)
  wifi_event sta_associated = done tt
  wifi_event (sta_lost reason) = do
    call (set_static (to_sta_last_reason reason))
    call (set_static (to_sta_state sta_disconnected))
    w ← call get_wifi
    branch (reason == reason_assoc_leave || w.sta_reconfiguring || not w.sta_configured) (done tt)
        sta_schedule_retry
  wifi_event (got_ip ip) = do
    call (set_static (to_sta_ip (snprintf 16 ip)))
    call (set_static (to_sta_state sta_connected))
    call retry_timer_stop
    call (set_static (to_sta_retry_count 0))
    rssi ← call sta_ap_rssi
    on_option rssi (done tt) λ r. call (set_static (to_wifi_rssi r))
  wifi_event other_event = done tt

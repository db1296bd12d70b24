-- ===== src/Http/Pages.antt =====
-- The handlers that only show something: device, status, sensors, workloads, events and the pages.
use dragon_bench.Common.{
  ℕ, zero, suc, ◌+◌, ◌*◌, Bool, true, false, not, Option, none, some, List, [], ◌∷◌, ◌++◌, map,
  Text, codes, is_empty, if◌then◌else◌,
}
use dragon_bench.Run.{Run, workload_name, workload_supported, workload_of}
use dragon_bench.Network.{
  ApState, StaState, ap_active, ap_state_name, ap_ordinal, sta_state_name, sta_ordinal,
}
use dragon_bench.Json.{Number, Json, str, num, real, bool, Field, object, array, Cjson}
use dragon_bench.Events.{Config, snapshot_events_locked, event_capacity, event_json_len}
use dragon_bench.Prog.{
  Prog, done, branch, on_option, call, ◌>>=◌, ◌>>◌, take_lock, give_lock, get_run, get_log,
  get_wifi, malloc, free, new_tree, live_hostname, read_temperature, resp_set_status, resp_set_type,
  resp_set_hdr, resp_send, resp_send_chunk, resp_end_chunks,
}
use dragon_bench.Stress.{uptime_ms}
use dragon_bench.Task.{is_connected}
use dragon_bench.Http.{send_json, respond}
use dragon_bench.Http.Runs.{run_state_name}

-- What app_main leaves in the statics before it starts the server.
pub record Booted : Type 0 where
  pub config : Config
  pub device_id : Text
  pub ap_ssid : Text
  pub reset_reason_text : Text
  pub previous_reboot_run_id : Text
  pub boot_nonce : ℕ
  pub temp_available : Bool
  pub mdns_ready : Bool
  pub mdns_hostname : Text

-- identity_json
unfoldable pub identity_fields : Booted → List Field
identity_fields b =
    (codes "product", str (codes "DragonBench"))
    ∷ (codes "target", str b.config.target_name)
    ∷ (codes "firmware_version", str b.config.firmware_version)
    ∷ (codes "device_id", str b.device_id)
    ∷ (codes "image_class", str (codes "characterization"))
    ∷ (codes "heater_capability", bool false)
    ∷ (codes "fan_control_capability", bool false)
    ∷ (codes "measurement_authority", str (codes "external_bench_equipment"))
    ∷ []

-- device_get
unfoldable pub device_get : Cjson → Booted → Prog Bool
unfolding identity_fields
device_get cjson b = respond cjson (object (identity_fields b)) 200

abbrev pub when : Bool → List Field → List Field
when true fs = fs
when false fs = []

abbrev pub is_ap_active : ApState → Bool
is_ap_active ap_active = true
is_ap_active _ = false

-- What status_get reads of the statics of the network, one after another: another task may write
-- between two reads, and sta_configured, ap_state and sta_state are read more than once.
pub record Reading : Type 0 where
  pub mode_configured : Bool
  pub ap_state : ApState
  pub active_state : ApState
  pub ap_ip : Text
  pub ap_client_count : ℕ
  pub sta_state : StaState
  pub sta_ssid : Text
  pub sta_last_reason : ℕ
  pub sta_config_request_id : ℕ
  pub sta_config_result : Text
  pub sta_configured : Bool
  pub connected_state : StaState
  pub address : Option Text

unfoldable pub read_statics : Prog Reading
read_statics = do
  mode_configured ← call get_wifi
  ap_state ← call get_wifi
  active_state ← call get_wifi
  ap_ip ← call get_wifi
  ap_client_count ← call get_wifi
  sta_state ← call get_wifi
  sta_ssid ← call get_wifi
  sta_last_reason ← call get_wifi
  sta_config_request_id ← call get_wifi
  sta_config_result ← call get_wifi
  sta_configured ← call get_wifi
  connected_state ← call get_wifi
  address_state ← call get_wifi
  address ←
      branch (is_connected address_state.sta_state)
        (do sta_ip ← call get_wifi; done (some sta_ip.sta_ip)) (done none)
  done (record {
    mode_configured = mode_configured.sta_configured;
    ap_state = ap_state.ap_state;
    active_state = active_state.ap_state;
    ap_ip = ap_ip.ap_ip;
    ap_client_count = ap_client_count.ap_client_count;
    sta_state = sta_state.sta_state;
    sta_ssid = sta_ssid.sta_ssid;
    sta_last_reason = sta_last_reason.sta_last_reason;
    sta_config_request_id = sta_config_request_id.sta_config_request_id;
    sta_config_result = sta_config_result.sta_config_result;
    sta_configured = sta_configured.sta_configured;
    connected_state = connected_state.sta_state;
    address = address;
  })

abbrev pub address_field : Option Text → List Field
address_field none = []
address_field (some ip) = (codes "sta_ip", str ip) ∷ []

-- The object under "network" of the status.
unfoldable pub network_fields : Booted → Reading → Text → List Field
network_fields b w hostname =
    ((codes "mode", str (if w.mode_configured then codes "apsta" else codes "ap"))
      ∷ (codes "ap_state", str (ap_state_name (ap_ordinal w.ap_state)))
      ∷ (codes "ap_active", bool (is_ap_active w.active_state))
      ∷ (codes "ap_ssid", str b.ap_ssid)
      ∷ (codes "ap_ip", str w.ap_ip)
      ∷ (codes "ap_client_count", num w.ap_client_count)
      ∷ (codes "sta_state", str (sta_state_name (sta_ordinal w.sta_state)))
      ∷ (codes "sta_ssid", str w.sta_ssid)
      ∷ (codes "sta_last_disconnect_reason", num w.sta_last_reason)
      ∷ (codes "sta_config_request_id", num w.sta_config_request_id)
      ∷ (codes "sta_config_result", str w.sta_config_result)
      ∷ (codes "sta_configured", bool w.sta_configured)
      ∷ (codes "sta_connected", bool (is_connected w.connected_state))
      ∷ [])
    ++ (address_field w.address
        ++ ((codes "mdns_hostname", str hostname) ∷ (codes "mdns_ready", bool b.mdns_ready) ∷ []))

-- The name in live_hostname: what mdns_hostname_get gives, if mDNS is up and it succeeds.
unfoldable pub shown_hostname : Booted → Prog Text
shown_hostname b =
    branch (not b.mdns_ready) (done b.mdns_hostname)
      (do live ← call live_hostname; on_option live (done b.mdns_hostname) (λ name. done name))

-- The object of the status; `connected` is the last read of sta_state.
unfoldable pub status_fields : Booted → Run → ℕ → Reading → Text → Bool → List Field
unfolding identity_fields network_fields
status_fields b run uptime w hostname connected =
    identity_fields b
    ++ (((codes "run_id", str run.run_id)
          ∷ (codes "last_run_id", str run.run_id)
          ∷ (codes "run_state", str (run_state_name run.state))
          ∷ (codes "workload", str (workload_name run.request.workload))
          ∷ (codes "result", str run.result)
          ∷ (codes "uptime_ms", num uptime)
          ∷ (codes "reset_reason", str b.reset_reason_text)
          ∷ [])
        ++ (when (not (is_empty b.previous_reboot_run_id))
              ((codes "previous_reboot_run_id", str b.previous_reboot_run_id) ∷ [])
            ++ ((codes "network", object (network_fields b w hostname))
                ∷ (codes "network_connected", bool connected)
                ∷ [])))

-- status_get
unfoldable pub status_get : Cjson → Booted → Prog Bool
unfolding read_statics status_fields shown_hostname uptime_ms
status_get cjson b = do
  call new_tree
  call take_lock
  run ← call get_run
  call give_lock
  uptime ← uptime_ms
  w ← read_statics
  hostname ← shown_hostname b
  last ← call get_wifi
  send_json cjson (object (status_fields b run uptime w hostname (is_connected last.sta_state))) 200

-- add_sensor
unfoldable pub sensor : Text → Text → Text → Text → Text → Option Number → Json
sensor id name unit source status value = object (
    ((codes "id", str id)
      ∷ (codes "name", str name)
      ∷ (codes "unit", str unit)
      ∷ (codes "source", str source)
      ∷ (codes "status", str status)
      ∷ [])
    ++ elim value [ none ↦ [] | some v ↦ (codes "value", real v) ∷ [] ])

abbrev pub available : Option Number → Text
available none = codes "unavailable"
available (some v) = codes "available"

-- The reading of the on-die sensor, if it was installed and can be read.
unfoldable pub soc_temperature : Booted → Prog (Option Number)
soc_temperature b = branch (not b.temp_available) (done none) (call read_temperature)

-- The sensors that sensors_get adds, by the temperature, whether the first read of sta_state found
-- the station connected, and the strength of its signal if the last one did.
unfoldable pub sensor_list : Option Number → Bool → Option Number → List Json
unfolding sensor
sensor_list temperature connected rssi =
    sensor (codes "soc_temperature") (codes "SoC temperature") (codes "degC") (codes "on_die")
      (available temperature) temperature
    ∷ sensor (codes "wifi_rssi") (codes "Station Wi-Fi RSSI") (codes "dBm") (codes "wifi")
        (if connected then codes "available" else codes "unavailable") rssi
    ∷ sensor (codes "supply_voltage") (codes "MCU supply voltage") (codes "V") (codes "none")
        (codes "unsupported") none
    ∷ sensor (codes "supply_current") (codes "MCU supply current") (codes "A") (codes "none")
        (codes "unsupported") none
    ∷ []

-- sensors_get
unfoldable pub sensors_get : Cjson → Booted → Prog Bool
unfolding soc_temperature sensor_list
sensors_get cjson b = do
  call new_tree
  temperature ← soc_temperature b
  status_state ← call get_wifi
  rssi ← call get_wifi
  value_state ← call get_wifi
  let value : Option Number =
      if is_connected value_state.sta_state then some rssi.wifi_rssi else none
  send_json cjson
      (object (
        (
          codes "sensors",
          array (sensor_list temperature (is_connected status_state.sta_state) value),
        )
        ∷ []))
      200

unfoldable pub workload_entry : Text → Bool → Json
workload_entry name supported = object (
    (codes "id", str name)
    ∷ (codes "status", str (if supported then codes "available" else codes "unsupported"))
    ∷ [])

-- The first loop of workloads_get from the number `i`, with `n` rounds left.
unfoldable pub workload_entries : ℕ → ℕ → List Json
unfolding workload_entry
workload_entries i zero = []
workload_entries i (suc n) =
    workload_entry (workload_name (workload_of i)) (workload_supported (workload_of i))
    ∷ workload_entries (i + 1) n

-- The table `unsupported`.
abbrev pub unsupported : List Text
unsupported =
    codes "BLE_STRESS"
    ∷ codes "GENERIC_PERIPHERAL_LOAD"
    ∷ codes "CRYPTO_BENCHMARK"
    ∷ codes "FILESYSTEM_BENCHMARK"
    ∷ codes "REBOOT_LOOP"
    ∷ []

-- The workloads that workloads_get adds.
unfoldable pub workload_list : List Json
unfolding workload_entries
workload_list = workload_entries 0 11 ++ map (λ name. workload_entry name false) unsupported

-- workloads_get
unfoldable pub workloads_get : Cjson → Prog Bool
unfolding workload_list
workloads_get cjson = respond cjson (object ((codes "workloads", array workload_list) ∷ [])) 200

-- The loop of events_get over the texts that are left; each is followed by a newline, and the first
-- failure ends it. The result is err == ESP_OK.
unfoldable pub send_events : List Text → Prog Bool
send_events [] = done true
send_events (json ∷ rest) = do
  sent ← call (resp_send_chunk json)
  branch sent
      (do ended ← call (resp_send_chunk (b'\n' ∷ [])); branch ended (send_events rest) (done false))
      (done false)

-- events_get; the snapshot is a size_t of four bytes and 64 texts of 512.
unfoldable pub events_get : Prog Bool
unfolding send_events
events_get = do
  given ← call (malloc (4 + event_capacity * event_json_len))
  branch (not given)
      (do
        call (resp_set_status (codes "503 Service Unavailable"))
        call (resp_set_type (codes "application/json"))
        call (resp_send (codes "{\"error\":\"event snapshot unavailable\"}")))
      (do
        call take_lock
        log ← call get_log
        call give_lock
        call (resp_set_type (codes "application/x-ndjson"))
        ok ← send_events (snapshot_events_locked log)
        call free
        branch (not ok) (done false) (call resp_end_chunks))

-- send_page; landing_get and setup_get call it with their page.
unfoldable pub send_page : Text → Prog Bool
send_page html = do
  call (resp_set_type (codes "text/html"))
  call (resp_set_hdr (codes "Cache-Control") (codes "no-store"))
  call (resp_send html)

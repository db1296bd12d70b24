-- ===== src/Prog.antt =====
-- Programs that talk to the platform. The tasks and handlers of
-- firmware/targets/esp32s3/main/main.c are trees: at each node a call of ESP-IDF, FreeRTOS or the C
-- library, or a read or write of a static that tasks share, and one branch for each reply. So what
-- is proved of a tree holds for every reply, whatever the other tasks and the outside do in between.
pub mod Protocol
pub mod Locks
pub mod Slot
pub mod Clock
pub mod Replay
pub mod Machine
pub mod Quiet
pub mod Apart
pub mod Time
pub mod Duties
use dragon_bench.Common.{ℕ, Bool, true, false, Option, none, some, List, Text}
use dragon_bench.Run.{Run}
use dragon_bench.Events.{EventLog}
use dragon_bench.Json.{Number}
use dragon_bench.Network.{ApState, StaState, Mac}

-- esp_partition_t: which partition, and its size.
pub record Partition : Type 0 where
  pub id : ℕ
  pub size : ℕ

-- reboot_marker_t
pub record Marker : Type 0 where
  pub magic : ℕ
  pub run_id : Text

-- sta_credentials_t
pub record Credentials : Type 0 where
  pub request_id : ℕ
  pub ssid : Text
  pub password : Text

-- The statics of the network, which no lock protects. `sta_config_result` is one of three constants.
pub record Wifi : Type 0 where
  pub ap_state : ApState
  pub sta_state : StaState
  pub sta_configured : Bool
  pub wifi_rssi : Number
  pub ap_client_count : ℕ
  pub sta_retry_count : ℕ
  pub sta_last_reason : ℕ
  pub sta_config_request_id : ℕ
  pub sta_config_result : Text
  pub sta_reconfiguring : Bool
  pub sta_ssid : Text
  pub ap_ip : Text
  pub sta_ip : Text

-- A write of one of them.
pub data Static : Type 0 where
  to_ap_state : ApState → Static
  to_sta_state : StaState → Static
  to_sta_configured : Bool → Static
  to_wifi_rssi : Number → Static
  to_ap_client_count : ℕ → Static
  to_sta_retry_count : ℕ → Static
  to_sta_last_reason : ℕ → Static
  to_sta_config_request_id : ℕ → Static
  to_sta_config_result : Text → Static
  to_sta_reconfiguring : Bool → Static
  to_sta_ssid : Text → Static
  to_ap_ip : Text → Static
  to_sta_ip : Text → Static

-- esp_reset_reason_t, where `rst_other` is any value that the source does not name.
pub data ResetReason : Type 0 where
  rst_unknown rst_poweron rst_ext rst_sw rst_panic rst_int_wdt rst_task_wdt rst_wdt : ResetReason
  rst_deepsleep rst_brownout rst_sdio rst_usb rst_jtag rst_efuse rst_pwr_glitch : ResetReason
  rst_cpu_lockup rst_other : ResetReason

-- A step of the boot that succeeds or fails.
pub data Step : Type 0 where
  flash_init temperature_install temperature_enable : Step
  create_event_group create_config_queue create_retry_timer create_config_task : Step
  netif_init create_event_loop create_ap_netif create_sta_netif wifi_init : Step
  register_wifi_events register_got_ip set_apsta_mode wifi_start wait_ap_started : Step
  get_ap_config get_channel get_protocol get_tx_power : Step
  set_ap_config : Text → Text → Step
  mdns_init set_instance_name add_http_service start_server : Step
  set_hostname : Text → Step
  register_route : Text → Step

pub data Call : Type 0 where
  -- esp_timer_get_time, in microseconds; vTaskDelay of a number of milliseconds; taskYIELD.
  timer : Call
  delay : ℕ → Call
  task_yield : Call
  -- state_lock.
  take_lock : Call
  give_lock : Call
  -- current_run; the statics of the ring but event_seq; event_seq, which is read and
  -- written in two steps.
  get_run : Call
  put_run : Run → Call
  get_log : Call
  put_log : EventLog → Call
  get_seq : Call
  put_seq : ℕ → Call
  -- esp_fill_random, malloc and free.
  fill_random : ℕ → Call
  malloc : ℕ → Call
  free : Call
  -- The memory of cJSON: a tree that cJSON_CreateObject or a successful cJSON_Parse gives, and
  -- cJSON_Delete; the text that cJSON_PrintUnformatted gives, and cJSON_free. Both frees take NULL,
  -- so the source calls them whether or not the memory was given.
  new_tree : Call
  delete_tree : Call
  new_text : Call
  free_text : Call
  -- Non-volatile storage: a namespace opened for reading or writing, strings and blobs by key.
  nvs_open : Text → Bool → Call
  nvs_get_str : ℕ → Text → ℕ → Call
  nvs_set_str : ℕ → Text → Text → Call
  nvs_set_blob : ℕ → Text → Text → Call
  nvs_commit : ℕ → Call
  nvs_erase_key : ℕ → Text → Call
  nvs_close : ℕ → Call
  -- Flash: the scratch partition, the next and the running application; offsets and lengths,
  -- where a write takes so many bytes of a buffer.
  find_scratch : Call
  next_update : Call
  running_partition : Call
  erase_range : Partition → ℕ → ℕ → Call
  flash_write : Partition → ℕ → Text → ℕ → Call
  flash_read : Partition → ℕ → ℕ → Call
  -- Sockets. The count of a send is 0, and the bytes of a receive are none, for every result that is
  -- not positive.
  getaddrinfo : Text → Text → Call
  freeaddrinfo : Call
  open_socket : ℕ → Call
  connect : ℕ → ℕ → Call
  send : ℕ → Text → Call
  recv : ℕ → ℕ → Call
  shutdown : ℕ → Call
  close : ℕ → Call
  -- ++run_counter with the new value; the on-die temperature; mdns_hostname_get.
  bump_run_counter : Call
  read_temperature : Call
  live_hostname : Call
  -- Tasks and restarts, and the marker in RTC memory.
  create_workload_task : Call
  delete_task : Call
  restart : Call
  get_marker : Call
  put_marker : Marker → Call
  -- The HTTP server: the length of a request's body and its bytes, and the response.
  recv_body : ℕ → Call
  resp_set_status : Text → Call
  resp_set_type : Text → Call
  resp_set_hdr : Text → Text → Call
  resp_send : Text → Call
  resp_send_err : Text → Call
  resp_send_chunk : Text → Call
  resp_end_chunks : Call
  -- The network's statics, ESP-IDF's station calls, the retry timer and the queue of one
  -- configuration.
  get_wifi : Call
  set_static : Static → Call
  wifi_connect : Call
  wifi_disconnect : Call
  wifi_set_sta_config : Text → Text → Bool → Call
  retry_timer_stop : Call
  retry_timer_start : ℕ → Call
  queue_overwrite : Credentials → Call
  queue_receive : Call
  get_request_counter : Call
  put_request_counter : ℕ → Call
  ap_ip_info : Call
  set_started_bit : Call
  sta_ap_rssi : Call
  -- The boot: esp_random, esp_reset_reason, esp_read_mac, and what ESP_ERROR_CHECK does on an error.
  random : Call
  reset_reason : Call
  read_mac : Call
  boot_step : Step → Call
  panic : Call

-- The type of a call's reply: `Bool` says that it succeeded, an `Option` holds what it gave if so.
abbrev pub Reply : Call → Type 0
Reply timer = ℕ
Reply get_run = Run
Reply get_log = EventLog
Reply get_seq = ℕ
Reply (fill_random n) = Text
Reply (malloc n) = Bool
Reply (nvs_open name write) = Option ℕ
Reply (nvs_get_str h key n) = Option Text
Reply (nvs_set_str h key v) = Bool
Reply (nvs_set_blob h key v) = Bool
Reply (nvs_commit h) = Bool
Reply find_scratch = Option Partition
Reply next_update = Option Partition
Reply running_partition = Partition
Reply (erase_range p off n) = Bool
Reply (flash_write p off block n) = Bool
Reply (flash_read p off n) = Option Text
Reply (getaddrinfo host service) = Option (List ℕ)
Reply (open_socket address) = Option ℕ
Reply (connect fd address) = Bool
Reply (send fd block) = ℕ
Reply (recv fd n) = Text
Reply create_workload_task = Bool
Reply get_marker = Marker
Reply (recv_body n) = Text
Reply (resp_send t) = Bool
Reply (resp_send_err t) = Bool
Reply (resp_send_chunk t) = Bool
Reply resp_end_chunks = Bool
Reply get_wifi = Wifi
Reply (wifi_set_sta_config ssid password secured) = Bool
Reply queue_receive = Option Credentials
Reply get_request_counter = ℕ
Reply bump_run_counter = ℕ
Reply read_temperature = Option Number
Reply live_hostname = Option Text
Reply ap_ip_info = Option Text
Reply sta_ap_rssi = Option Number
Reply random = ℕ
Reply reset_reason = ResetReason
Reply read_mac = Option Mac
Reply (boot_step step) = Bool
Reply _ = Unit {0}

-- A program that gives an `A`, or stops because a loop of the model ran out of fuel.
pub data Prog (A : Type 0) : Type 0 where
  done : A → Prog A
  out_of_fuel : Prog A
  ask : (c : Call) → (Reply c → Prog A) → Prog A

infixl 5 ◌>>=◌ ◌>>◌
abbrev pub ◌>>=◌ : {A B : Type 0} → Prog A → (A → Prog B) → Prog B
done a >>= f = f a
out_of_fuel >>= f = out_of_fuel
ask c k >>= f = ask c (λ r. k r >>= f)

abbrev pub ◌>>◌ : {B : Type 0} → Prog (Unit {0}) → Prog B → Prog B
m >> k = m >>= λ _. k

abbrev pub call : (c : Call) → Prog (Reply c)
call c = ask c done

-- `if` and a test for NULL or an error, between programs.
unfoldable pub branch : {A : Type 0} → Bool → Prog A → Prog A → Prog A
branch true x y = x
branch false x y = y

unfoldable pub on_option : {A B : Type 0} → Option A → Prog B → (A → Prog B) → Prog B
on_option none x y = x
on_option (some a) x y = y a

-- ===== src/Tests/Platform.antt =====
-- A platform of the tests: its timer counts the calls, requests have two bytes, every call succeeds.
use dragon_bench.Common.{ℕ, ◌+◌, true, false, none, some, [], ◌∷◌, codes, leb, if◌then◌else◌}
use dragon_bench.Run.{Run, Request, net_tx, begin}
use dragon_bench.Network.{ap_active, sta_connected}
use dragon_bench.Prog
use dragon_bench.Prog.{Call, Reply, Partition, Wifi}
use dragon_bench.Events.Numbering.{initial_log}

abbrev pub net_request : Request
net_request = record {
  workload = net_tx;
  duration_ms = 1000;
  rate_bps = 8000;
  port = 5001;
  host = codes "bench-host.local";
}

abbrev pub first_run : Run
first_run = begin net_request (codes "0000beef-00000001") 100

abbrev flash : Partition
flash = record { id = 7; size = 65536 }

abbrev pub network : Wifi
network = record {
  ap_state = ap_active;
  sta_state = sta_connected;
  sta_configured = true;
  wifi_rssi = record { negative = true; whole = 60; fractional = false };
  ap_client_count = 1;
  sta_retry_count = 0;
  sta_last_reason = 0;
  sta_config_request_id = 0;
  sta_config_result = codes "none";
  sta_reconfiguring = false;
  sta_ssid = codes "lab";
  ap_ip = codes "192.168.4.1";
  sta_ip = codes "10.0.0.9";
}

abbrev pub platform : (n : ℕ) (c : Call) → Reply c
platform n Prog.timer = n + 1
platform n Prog.get_run = first_run
platform n Prog.get_log = initial_log
platform n Prog.get_seq = 0
platform n (Prog.fill_random x) = []
platform n (Prog.malloc x) = true
platform n (Prog.nvs_open x y) = some 1
platform n (Prog.nvs_get_str x y z) = none
platform n (Prog.nvs_set_str x y z) = true
platform n (Prog.nvs_set_blob x y z) = true
platform n (Prog.nvs_commit x) = true
platform n Prog.find_scratch = some flash
platform n Prog.next_update = some flash
platform n Prog.running_partition = flash
platform n (Prog.erase_range x y z) = true
platform n (Prog.flash_write x y z w) = true
platform n (Prog.flash_read x y z) = none
platform n (Prog.getaddrinfo x y) = some (1 ∷ [])
platform n (Prog.open_socket x) = some 1
platform n (Prog.connect x y) = true
platform n (Prog.send x y) = 0
platform n (Prog.recv x y) = []
platform n Prog.bump_run_counter = 0
platform n Prog.read_temperature = none
platform n Prog.live_hostname = none
platform n Prog.create_workload_task = true
platform n Prog.get_marker = record { magic = 0; run_id = [] }
platform n (Prog.recv_body m) = if leb 2 m then codes "{}" else []
platform n (Prog.resp_send x) = true
platform n (Prog.resp_send_err x) = true
platform n (Prog.resp_send_chunk x) = true
platform n Prog.resp_end_chunks = true
platform n Prog.get_wifi = network
platform n (Prog.wifi_set_sta_config x y z) = true
platform n Prog.queue_receive = none
platform n Prog.get_request_counter = 0
platform n Prog.ap_ip_info = none
platform n Prog.sta_ap_rssi = none
platform n Prog.random = 0
platform n Prog.reset_reason = Prog.rst_poweron
platform n Prog.read_mac =
    some (record { m0 = 0x24; m1 = 0x6f; m2 = 0x28; m3 = 0xe2; m4 = 0xa1; m5 = 0x2c })
platform n (Prog.boot_step x) = true
platform n _ = tt

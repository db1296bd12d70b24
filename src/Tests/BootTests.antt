-- ===== src/Tests/BootTests.antt =====
-- Runs of the model of the boot.
use dragon_bench.Common.{◌≡◌, true, false, none, some, [], codes, arith}
use dragon_bench.Json.{Cjson}
use dragon_bench.Prog.{rst_sw}
use dragon_bench.Prog.Protocol.{Follows}
use dragon_bench.Boot.{Settings, recover_marker, app_main}
use dragon_bench.Boot.Reset.{marker_of, recover_marker-marker_of}
use dragon_bench.Boot.Start.{Started, start_protocol}
use dragon_bench.Boot.Order.{ServingIfBooted, app_main-order}

abbrev tiny_cjson : Cjson
tiny_cjson = record { print = λ j. some (codes "{}"); parses = λ t. true; parse_body = λ t. none }

abbrev pub settings : Settings
settings = record {
  config = record { target_name = codes "esp32s3-n8r8"; firmware_version = codes "0.1.0" };
  wifi_ssid = [];
  wifi_password = [];
  ap_password = codes "dragonbench";
  hostname = [];
  mdns_name_buf_len = 64;
}

abbrev off : Started
off = record {
  events_on = false;
  addresses_on = false;
  ap_set = false;
  ap_up = false;
  ap_seen = false;
  serving = false;
}

recover_marker-marker_of_example :
    ((recover_marker rst_sw (marker_of (codes "0000beef-00000001"))).1 ≡ codes "0000beef-00000001")
    × ((recover_marker rst_sw (recover_marker rst_sw (marker_of (codes "0000beef-00000001"))).0).1
        ≡ [])
recover_marker-marker_of_example =
    recover_marker-marker_of (codes "0000beef-00000001") rst_sw (omega arith)

app_main-order_example : Follows start_protocol (app_main tiny_cjson settings) off ServingIfBooted
app_main-order_example = app_main-order tiny_cjson settings off

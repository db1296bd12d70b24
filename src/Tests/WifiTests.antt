-- ===== src/Tests/WifiTests.antt =====
-- Runs of the model of the station and the access point.
use dragon_bench.Tests.Flash.{Store, empty_store, flash, flash-Strings}
use dragon_bench.Prog.Machine.{run_on}
use dragon_bench.Wifi.{nvs_save_sta, nvs_load_sta}
use dragon_bench.Wifi.Storage.{nvs_save_sta-load}
use dragon_bench.Common.{Bool, arith, ◌≡◌, refl, true, false, none, some, codes}
use dragon_bench.Json.{string_item}
use dragon_bench.Prog.{Credentials}
use dragon_bench.Http.Station.{valid_credentials}
use dragon_bench.Wifi.{sta_lost, wifi_event}
use dragon_bench.Wifi.Events.{Notices, wifi_event-Notices}

abbrev bench : Credentials
bench = record { request_id = 4; ssid = codes "bench"; password = codes "eight888" }

bench_valid : valid_credentials (some (string_item (codes "bench"))) (codes "eight888") ≡ true
unfolding valid_credentials
bench_valid = refl

-- A beacon timeout.
wifi_event-Notices_example :
    Notices (record { clients = none; free_to_connect = false }) (wifi_event 8 (sta_lost 200))
wifi_event-Notices_example = wifi_event-Notices 8 (sta_lost 200) none

nvs_save_sta-load_example :
    (ok : Bool) × (t : Store) × (run_on flash empty_store
        (nvs_save_sta (codes "lab") (codes "dragonbench"))
      ≡ some (ok, t))
    × (ok ≡ true
        → ((u : Store) × (run_on flash t (nvs_load_sta 33 65)
              ≡ some (some (codes "lab", codes "dragonbench"), u)))
          × ((u : Store) × (run_on flash (flash-Strings.restarted t) (nvs_load_sta 33 65)
                ≡ some (some (codes "lab", codes "dragonbench"), u))))
nvs_save_sta-load_example =
    nvs_save_sta-load flash flash-Strings (codes "lab") (codes "dragonbench") empty_store refl
      (omega arith) (omega arith)

-- ===== src/Pages/Lists.antt =====
-- What the dashboard of firmware/targets/esp32s3/main/main.c shows of the answers on sensors and
-- workloads.
use dragon_bench.Common.{
  Bool, true, false, Option, none, some, [], ◌∷◌, ◌++◌, map, Text, codes, if◌then◌else◌, text_eq,
  refl, ◌≡◌,
}
use dragon_bench.Run.{workload_name, workload_supported, workload_of}
use dragon_bench.Json.{Number, members_of, array}
use dragon_bench.Http.Pages.{
  available, sensor_list, workload_entry, workload_entries, workload_list, unsupported, sensor,
}
use dragon_bench.Pages.Watch.{lookup}
use dragon_bench.Pages.Rows.{
  Row, sensor_rows, sensor_row, value_with, chip, workload_chips, workload_chip,
}

abbrev row : Text → Text → Option (Number × Text) → Text → Row
row id name value status = record { sensor_id = id; name = name; value = value; status = status }

-- The dashboard has one row for each sensor that sensors_get sends, in that order, under its name,
-- with the value and unit that were read or a dash, and its own status.
pub sensor_rows-sensor_list :
    (temperature : Option Number) (connected : Bool) (rssi : Option Number)
    → sensor_rows
        (members_of ((codes "sensors", array (sensor_list temperature connected rssi)) ∷ []))
      ≡ row
          (codes "soc_temperature")
          (codes "SoC temperature")
          (value_with temperature (codes " degC"))
          (available temperature)
        ∷ row
            (codes "wifi_rssi")
            (codes "Station Wi-Fi RSSI")
            (value_with rssi (codes " dBm"))
            (if connected then codes "available" else codes "unavailable")
        ∷ row (codes "supply_voltage") (codes "MCU supply voltage") none (codes "unsupported")
        ∷ row (codes "supply_current") (codes "MCU supply current") none (codes "unsupported")
        ∷ []
unfolding sensor_rows sensor_row lookup sensor_list sensor text_eq
sensor_rows-sensor_list none true none = refl
sensor_rows-sensor_list none true (some r) = refl
sensor_rows-sensor_list none false none = refl
sensor_rows-sensor_list none false (some r) = refl
sensor_rows-sensor_list (some t) true none = refl
sensor_rows-sensor_list (some t) true (some r) = refl
sensor_rows-sensor_list (some t) false none = refl
sensor_rows-sensor_list (some t) false (some r) = refl

-- The dashboard has one chip for each workload that workloads_get sends: those of the firmware in
-- their order, available if db_workload_supported says so, and then the five of the table
-- `unsupported`.
pub workload_chips-workload_list :
    workload_chips (members_of ((codes "workloads", array workload_list) ∷ []))
    ≡ map
        (λ i.
          chip
            (workload_name (workload_of i))
            (if workload_supported (workload_of i) then codes "available" else codes "unsupported"))
        (0 ∷ 1 ∷ 2 ∷ 3 ∷ 4 ∷ 5 ∷ 6 ∷ 7 ∷ 8 ∷ 9 ∷ 10 ∷ [])
      ++ map (λ name. chip name (codes "unsupported")) unsupported
unfolding workload_chips workload_chip lookup workload_list workload_entries workload_entry text_eq
    workload_name workload_supported
workload_chips-workload_list = refl

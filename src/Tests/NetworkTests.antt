-- ===== src/Tests/NetworkTests.antt =====
-- Runs of the model of db_network.c, most at the inputs of tests/native/test_db_run.c.
use dragon_bench.Common.{
  ◌-◌, ◌*◌, ◌^◌, ◌≤◌, ◌<◌, ◌≡◌, ◌≢◌, refl, ◌⊎◌, true, false, none, some, [], Text, codes, length,
  min, ltb, if◌then◌else◌, hex_fixed, hex_digit, snprintf, arith,
}
use dragon_bench.Network.{Mac, network_identity, mdns_hostname, sta_retry_delay_ms}
use dragon_bench.Network.Naming.{identity_of, network_identity_lem}
use dragon_bench.Network.Hostname.{NoCapitals, IsLowered, mdns_hostname_written}
use dragon_bench.Network.Backoff.{sta_retry_delay_ms_lem}

abbrev mac : Mac
mac = record { m0 = 0x3c; m1 = 0x0f; m2 = 0x02; m3 = 0xe2; m4 = 0xa1; m5 = 0x2c }

prints : network_identity (some mac) (some 7) (some 19) (some 33) ≡ (
  true,
  some (record {
    suffix = codes "E2A12C";
    device_id = codes "dragonbench-E2A12C";
    ssid = codes "DragonBench-E2A12C";
  }),
)
unfolding network_identity hex_fixed hex_digit snprintf
prints = refl

network_identity_lem_example :
    ((7 ≤ 7)
      × (19 ≤ 19)
      × (33 ≤ 33)
      × (network_identity (some mac) (some 7) (some 19) (some 33) ≡ (true, some (identity_of mac))))
    ⊎ (((7 < 7) ⊎ (19 < 19) ⊎ (33 < 33))
        × (network_identity (some mac) (some 7) (some 19) (some 33) ≡ (false, none)))
network_identity_lem_example =
    network_identity_lem mac 7 19 33 (omega arith, omega arith, omega arith)

hostname :
    mdns_hostname (some (codes "Bench-A")) (some (codes "dragonbench-E2A12C")) (some 32)
    ≡ (true, some (codes "bench-a"))
unfolding mdns_hostname
hostname = refl

mdns_hostname_written_example :
    (length (codes "bench-a") < 32)
    × NoCapitals (codes "bench-a")
    × ((true ≡ true)
        → (((some (codes "Bench-A") ≡ none) ⊎ (some (codes "Bench-A") ≡ some []))
            × (IsLowered (codes "dragonbench-E2A12C") (codes "bench-a")))
          ⊎ ((name : Text) × (some (codes "Bench-A") ≡ some name)
              × (name ≢ [])
              × IsLowered name (codes "bench-a")))
mdns_hostname_written_example =
    mdns_hostname_written (some (codes "Bench-A")) (codes "dragonbench-E2A12C") 32 hostname

sta_retry_delay_ms_lem_example :
    sta_retry_delay_ms 6 ≡ (if ltb 6 3 then 0 else min 60000 (5000 * 2 ^ (6 - 3)))
sta_retry_delay_ms_lem_example = sta_retry_delay_ms_lem 6

forty_seconds : sta_retry_delay_ms 6 ≡ 40000
unfolding sta_retry_delay_ms
forty_seconds = refl

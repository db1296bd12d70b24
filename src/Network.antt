-- ===== src/Network.antt =====
-- firmware/common/db_network.c and include/db_network.h: the device's names, the station's retry
-- delays and the serial numbers of configuration requests. An output buffer is the `Option` of its
-- size (`none` is a NULL pointer); the text that is written to it is returned.
pub mod Naming
pub mod Hostname
pub mod Backoff
pub mod RequestId
use dragon_bench.Common.{
  ℕ, zero, suc, ◌+◌, ◌-◌, ◌*◌, ◌%◌, ◌^◌, Bool, true, false, ◌&&◌, ◌||◌, not, Option, none, some,
  List, [], ◌∷◌, ◌++◌, Text, codes, is_empty, snprintf, length, get_or, ltb, leb, ◌==◌,
  if◌then◌else◌, hex_fixed,
}

abbrev pub device_suffix_len : ℕ
device_suffix_len = 7

abbrev pub device_id_len : ℕ
device_id_len = 19

abbrev pub ap_ssid_len : ℕ
ap_ssid_len = 33

-- db_ap_state_t
pub data ApState : Type 0 where
  ap_starting ap_active ap_failed : ApState

-- db_sta_state_t
pub data StaState : Type 0 where
  sta_unconfigured sta_connecting sta_connected sta_disconnected : StaState

-- A hardware address: six bytes.
pub record Mac : Type 0 where
  pub m0 : ℕ
  pub m1 : ℕ
  pub m2 : ℕ
  pub m3 : ℕ
  pub m4 : ℕ
  pub m5 : ℕ

-- The three texts that db_network_identity writes.
pub record Identity : Type 0 where
  pub suffix : Text
  pub device_id : Text
  pub ssid : Text

-- "%02X%02X%02X"
unfoldable pub print_suffix : Mac → Text
print_suffix mac = hex_fixed b'A' 2 mac.m3 ++ (hex_fixed b'A' 2 mac.m4 ++ hex_fixed b'A' 2 mac.m5)

-- The calls of snprintf in db_network_identity, and the test of their results. The second and the
-- third print the suffix as the first left it in its buffer.
unfoldable pub print_identity : Mac → ℕ → ℕ → ℕ → Bool × Option Identity
unfolding print_suffix
print_identity mac suffix_size device_id_size ssid_size =
    let suffix_text = print_suffix mac in
    let suffix = snprintf suffix_size suffix_text in
    let device_id_text = codes "dragonbench-" ++ suffix in
    let ssid_text = codes "DragonBench-" ++ suffix in
    (
      length suffix_text == device_suffix_len - 1
          && (ltb 0 (length device_id_text) && ltb (length device_id_text) device_id_size)
          && (ltb 0 (length ssid_text) && ltb (length ssid_text) ssid_size),
      some (record {
        suffix = suffix;
        device_id = snprintf device_id_size device_id_text;
        ssid = snprintf ssid_size ssid_text;
      }),
    )

-- db_network_identity; the second part is `none` where it returns before it writes anything.
unfoldable pub network_identity :
    Option Mac → Option ℕ → Option ℕ → Option ℕ → Bool × Option Identity
unfolding print_identity
network_identity (some mac) (some suffix_size) (some device_id_size) (some ssid_size) =
    if ltb suffix_size device_suffix_len
      || ltb device_id_size device_id_len
      || ltb ssid_size ap_ssid_len
    then (false, none)
    else print_identity mac suffix_size device_id_size ssid_size
network_identity _ _ _ _ = (false, none)

-- db_sta_is_configured
unfoldable pub sta_is_configured : Option Text → Bool
sta_is_configured none = false
sta_is_configured (some ssid) = not (is_empty ssid)

unfoldable pub lower : ℕ → ℕ
lower c = if leb b'A' c && leb c b'Z' then c - b'A' + b'a' else c

-- The loop of db_mdns_hostname at index `i`, over the bytes of `source` that are left: what it
-- writes, and what it leaves of `source`.
unfoldable pub copy_lower : Text → ℕ → ℕ → Text × Text
unfolding lower
copy_lower [] i out_size = ([], [])
copy_lower (c ∷ s) i out_size =
    let rest = copy_lower s (i + 1) out_size in
    if ltb (i + 1) out_size then (lower c ∷ rest.0, rest.1) else ([], c ∷ s)

-- (configured && configured[0]) ? configured : device_id
unfoldable pub choose_source : Option Text → Option Text → Option Text
choose_source none device_id = device_id
choose_source (some configured) device_id =
    if is_empty configured then device_id else some configured

unfoldable pub hostname_from : Option Text → Option ℕ → Bool × Option Text
unfolding copy_lower
hostname_from none out = (false, none)
hostname_from (some source) none = (false, none)
hostname_from (some source) (some out_size) =
    if is_empty source || out_size == 0
    then (false, none)
    else (is_empty (copy_lower source 0 out_size).1, some (copy_lower source 0 out_size).0)

-- db_mdns_hostname
unfoldable pub mdns_hostname : Option Text → Option Text → Option ℕ → Bool × Option Text
unfolding choose_source hostname_from
mdns_hostname configured device_id out = hostname_from (choose_source configured device_id) out

abbrev pub sta_fast_retries : ℕ
sta_fast_retries = 3

abbrev pub sta_backoff_min_ms : ℕ
sta_backoff_min_ms = 5000

abbrev pub sta_backoff_max_ms : ℕ
sta_backoff_max_ms = 60000

-- The loop of db_sta_retry_delay_ms, by `step`: its test leaves when `step` is 0 or the delay has
-- reached the maximum. The product is a uint32_t.
unfoldable pub backoff_loop : ℕ → ℕ → ℕ
backoff_loop zero delay = delay
backoff_loop (suc step) delay =
    let rest = backoff_loop step (delay * 2 % 2 ^ 32) in
    if ltb delay sta_backoff_max_ms then rest else delay

-- db_sta_retry_delay_ms; the subtraction is made at attempts from `sta_fast_retries` on alone.
unfoldable pub sta_retry_delay_ms : ℕ → ℕ
unfolding backoff_loop
sta_retry_delay_ms attempt =
    if ltb attempt sta_fast_retries
    then 0
    else let delay = backoff_loop (attempt - sta_fast_retries) sta_backoff_min_ms in
      if ltb delay sta_backoff_max_ms then delay else sta_backoff_max_ms

-- db_request_id_next, over uint32_t
unfoldable pub request_id_next : ℕ → ℕ
request_id_next current = let next = (current + 1) % 2 ^ 32 in if next == 0 then 1 else next

-- db_request_id_is_newer, over uint32_t
unfoldable pub request_id_is_newer : ℕ → ℕ → Bool
request_id_is_newer candidate reference =
    let distance = (candidate + 2 ^ 32 - reference) % 2 ^ 32 in
    not (distance == 0) && ltb distance 0x8000_0000

-- The number of an enumerator, and the tables of names, which a number out of range leaves.
abbrev pub ap_ordinal : ApState → ℕ
ap_ordinal ap_starting = 0
ap_ordinal ap_active = 1
ap_ordinal ap_failed = 2

abbrev pub sta_ordinal : StaState → ℕ
sta_ordinal sta_unconfigured = 0
sta_ordinal sta_connecting = 1
sta_ordinal sta_connected = 2
sta_ordinal sta_disconnected = 3

-- db_ap_state_name
unfoldable pub ap_state_name : ℕ → Text
ap_state_name state =
    if leb state 2
    then get_or (codes "starting" ∷ codes "active" ∷ codes "failed" ∷ []) state []
    else codes "unknown"

-- db_sta_state_name
unfoldable pub sta_state_name : ℕ → Text
sta_state_name state =
    if leb state 3
    then get_or
        (codes "unconfigured" ∷ codes "connecting" ∷ codes "connected" ∷ codes "disconnected" ∷ [])
        state []
    else codes "unknown"

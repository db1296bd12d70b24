-- ===== src/Wifi/Requests.antt =====
-- What sta_config_task does with a request to join a network.
use dragon_bench.Common.{
  ℕ, ◌<◌, ◌≡◌, refl, Bool, true, false, not, Option, none, some, Text, arith, is_empty, length,
  snprintf, snprintf_fits, leb,
}
use dragon_bench.Json.{string_item}
use dragon_bench.Prog.{
  Call, Reply, Prog, done, branch, call, ◌>>=◌, ◌>>◌, nvs_set_str, set_static, wifi_connect,
  wifi_disconnect, wifi_set_sta_config, retry_timer_start, to_sta_configured,
  to_sta_config_request_id, to_sta_config_result, to_sta_reconfiguring, to_sta_ssid,
}
use dragon_bench.Prog.Protocol.{Protocol}
use dragon_bench.Http.Station.{valid_credentials}
use dragon_bench.Wifi.{configure_sta, applied_text}

-- A configuration of the station with whole texts.
abbrev pub configure_whole : Text → Text → Prog Bool
configure_whole ssid password = do
  set ← call (wifi_set_sta_config ssid password (not (is_empty password)))
  branch set (do call (set_static (to_sta_ssid ssid)); done true) (done false)

accepted_lengths :
    (ssid password : Text)
    → valid_credentials (some (string_item ssid)) password ≡ true
    → (length ssid < 32) × (length password < 64)
unfolding valid_credentials
accepted_lengths ssid password h = ground arith

accepted_nonempty :
    (ssid password : Text)
    → valid_credentials (some (string_item ssid)) password ≡ true
    → is_empty ssid ≡ false
unfolding valid_credentials
accepted_nonempty ssid password h = ground arith

configure_sta_whole :
    (ssid password : Text)
    → is_empty ssid ≡ false
    → length ssid < 32
    → length password < 64
    → configure_sta ssid password ≡ configure_whole ssid password
unfolding configure_sta branch
configure_sta_whole ssid password e s p =
    let short : (leb 32 (length ssid) ≡ false) × (leb 64 (length password) ≡ false) =
      (ground arith, ground arith) in
    rw
      (
        snprintf_fits 32 ssid s,
        snprintf_fits 64 password p,
        snprintf_fits 33 ssid (omega (arith, s)),
        e,
        short.0,
        short.1,
      )
      refl

-- Credentials that network_sta_post accepts pass the length tests of configure_sta, and no copy on
-- the way from the request to the platform, or into sta_ssid, cuts them.
pub configure_sta-accepted :
    (ssid password : Text)
    → valid_credentials (some (string_item ssid)) password ≡ true
    → configure_sta (snprintf 33 ssid) (snprintf 65 password) ≡ configure_whole ssid password
configure_sta-accepted ssid password h =
    let fits : (length ssid < 32) × (length password < 64) = accepted_lengths ssid password h in
    rw
      (
        snprintf_fits 33 ssid (omega (arith, fits.0)),
        snprintf_fits 65 password (omega (arith, fits.1)),
      )
      (configure_sta_whole ssid password (accepted_nonempty ssid password h) fits.0 fits.1)

-- How far a round has come: whether the events and the retry timer are held off, whose credentials
-- it works on, whether the platform has taken them, the published result, and whether the request's
-- number was published.
pub record Progress : Type 0 where
  pub held : Bool
  pub request : ℕ
  pub taken : Bool
  pub result : Option Text
  pub published : Bool

abbrev pub StationAllowed : Progress → Call → Type 0
StationAllowed s wifi_disconnect = s.held ≡ true
StationAllowed s (wifi_set_sta_config ssid password secured) = (s.held ≡ true) × (s.taken ≡ false)
StationAllowed s (nvs_set_str h key v) = s.taken ≡ true
StationAllowed s (set_static (to_sta_configured b)) = (b ≡ true) × (s.taken ≡ true)
StationAllowed s (set_static (to_sta_config_request_id n)) =
    (n ≡ s.request) × (s.result ≡ some (applied_text s.taken)) × (s.held ≡ true)
StationAllowed s (set_static (to_sta_reconfiguring false)) = s.published ≡ true
StationAllowed s wifi_connect = (s.held ≡ false) × (s.published ≡ true)
StationAllowed s (retry_timer_start us) = (s.held ≡ false) × (s.published ≡ true)
StationAllowed s _ = Unit {0}

abbrev pub progress : Progress → (c : Call) → Reply c → Progress
progress s (wifi_set_sta_config ssid password secured) r = record s { taken = r }
progress s (set_static (to_sta_reconfiguring b)) r = record s { held = b }
progress s (set_static (to_sta_config_result t)) r = record s { result = some t }
progress s (set_static (to_sta_config_request_id n)) r = record s { published = true }
progress s _ r = s

abbrev pub station_protocol : Protocol
station_protocol = record {
  State = Progress;
  Allowed = StationAllowed;
  Answers = λ s c r. Unit {0};
  next = progress;
  Exhausted = λ s. Unit {0};
}

-- A round before it has published anything.
abbrev pub Working : Progress → ℕ → Bool → Bool → Type 0
Working s n held taken = (s.held ≡ held) × (s.request ≡ n) × (s.taken ≡ taken)

-- Nothing of a round is left: the events and the timer are no longer held off, and the number of the
-- request was published.
abbrev pub Settled : Progress → Type 0
Settled s = (s.held ≡ false) × (s.published ≡ true)

-- The progress when credentials have come.
abbrev pub received : ℕ → Progress
received n = record { held = false; request = n; taken = false; result = none; published = false }

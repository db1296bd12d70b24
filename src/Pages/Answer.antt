-- ===== src/Pages/Answer.antt =====
-- The answers of network_sta_post in firmware/targets/esp32s3/main/main.c, as the setup page reads
-- them.
use dragon_bench.Common.{
  ℕ, ◌<◌, ◌≡◌, refl, ap, true, false, some, [], ◌∷◌, Text, codes, arith, text_eq, length, snprintf,
  snprintf_fits,
}
use dragon_bench.Json.{str, members_of, string_item}
use dragon_bench.Prog.{Credentials}
use dragon_bench.Network.{request_id_next}
use dragon_bench.Http.Station.{valid_credentials, credentials_of, accepted_fields}
use dragon_bench.Pages.Watch.{accepted, rejected, lookup, read_answer}

valid_credentials-length :
    (ssid password : Text)
    → valid_credentials (some (string_item ssid)) password ≡ true
    → (length ssid < 32) × (length password < 64)
unfolding valid_credentials
valid_credentials-length ssid password h = ground arith

-- The setup page waits for what was queued: for a name and a password that network_sta_post accepts,
-- the request that it queues has both uncut, and the page reads from its answer that request's number
-- and the whole name; from an answer with an error it reads the text of the error.
pub read_answer-accepted_fields :
    (counter : ℕ) (ssid password message : Text)
    → valid_credentials (some (string_item ssid)) password ≡ true
    → let creds : Credentials = credentials_of counter ssid password in
      (creds.ssid ≡ ssid)
      × (creds.password ≡ password)
      × (read_answer true (members_of (accepted_fields creds))
          ≡ some (accepted creds.request_id ssid))
      × (read_answer false (members_of ((codes "error", str message) ∷ []))
          ≡ some (rejected (some message)))
unfolding credentials_of read_answer lookup text_eq
read_answer-accepted_fields counter ssid password message h =
    let fits = valid_credentials-length ssid password h in
    let whole : snprintf 33 ssid ≡ ssid = snprintf_fits 33 ssid (omega (arith, fits.0)) in
    (
      whole,
      snprintf_fits 65 password (omega (arith, fits.1)),
      ap (λ s. some (accepted (request_id_next counter) s)) whole,
      refl,
    )

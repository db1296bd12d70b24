-- ===== src/Pages/Outcome.antt =====
-- What the setup page of firmware/targets/esp32s3/main/main.c tells of a submission, and what the
-- device's statics said, which status_get sends.
use dragon_bench.Common.{
  ℕ, ◌^◌, ◌<◌, ◌≡◌, refl, sym, ◌∙◌, ◌⊎◌, inl, inr, Bool, true, false, Option, none, some, Text,
  codes, arith, Bool-cases, text_eq, eq_of_text_eq, if◌then◌else◌, ◌==◌,
}
use dragon_bench.Network.{
  StaState, sta_unconfigured, sta_connecting, sta_connected, sta_disconnected, sta_state_name,
  sta_ordinal, request_id_is_newer,
}
use dragon_bench.Json.{members_of}
use dragon_bench.Http.Pages.{Booted, Reading, network_fields}
use dragon_bench.Pages.Watch.{
  Network, read_network, lookup, Pending, Page, request_id_newer, replaced_message, failed_message,
  connected_message, settle,
}

-- What the page sees of what status_get read.
unfoldable pub status_of : Reading → Network
status_of w = record {
  sta_state = some (sta_state_name (sta_ordinal w.sta_state));
  sta_ssid = some w.sta_ssid;
  sta_ip = w.address;
  sta_last_disconnect_reason = some w.sta_last_reason;
  sta_config_request_id = some w.sta_config_request_id;
  sta_config_result = some w.sta_config_result;
}

read_address :
    (b : Booted) (w : Reading) (address : Option Text) (hostname : Text)
    → let read : Reading = record w { address = address } in
      read_network (members_of (network_fields b read hostname)) ≡ status_of read
unfolding read_network lookup network_fields status_of text_eq
read_address b w none hostname = refl
read_address b w (some ip) hostname = refl

-- The page finds in the object under "network" of the status every value that it looks for, as
-- status_get read it, and the station's address exactly if status_get read one.
pub read_network-network_fields :
    (b : Booted) (w : Reading) (hostname : Text)
    → read_network (members_of (network_fields b w hostname)) ≡ status_of w
read_network-network_fields b w hostname = read_address b w w.address hostname

-- The page and db_request_id_is_newer agree on numbers of 32 bits.
pub request_id_newer_agrees :
    (a b : ℕ) → a < 2 ^ 32 → b < 2 ^ 32 → request_id_newer a b ≡ request_id_is_newer a b
unfolding request_id_newer request_id_is_newer
request_id_newer_agrees a b x y = ground arith

-- What the page tells of a submission that it no longer waits for.
abbrev pub Told : Reading → Pending → Page → Type 0
Told w p page =
    ((request_id_is_newer w.sta_config_request_id p.id ≡ true) × (page.message ≡ replaced_message))
    ⊎ ((w.sta_config_request_id ≡ p.id)
        × (w.sta_config_result ≡ codes "failed")
        × (page.message ≡ failed_message))
    ⊎ ((w.sta_config_request_id ≡ p.id)
        × (w.sta_state ≡ sta_connected)
        × (w.sta_ssid ≡ p.ssid)
        × (page.message ≡ connected_message p.ssid w.address))

connected_name :
    (s : StaState)
    → text_eq (sta_state_name (sta_ordinal s)) (codes "connected") ≡ true
    → s ≡ sta_connected
unfolding text_eq sta_state_name
connected_name sta_unconfigured e = cc
connected_name sta_connecting e = cc
connected_name sta_connected e = refl
connected_name sta_disconnected e = cc

-- The page waits as it did, or tells what the statics say.
abbrev pub Sound : Reading → Pending → Page → Type 0
Sound w p page = (page.pending ≡ some p) ⊎ ((page.pending ≡ none) × Told w p page)

-- A message leaves what the page waits for.
if-pending :
    (b : Bool) (page : Page) (m : Text) (o : Option Pending)
    → page.pending ≡ o
    → (if b then record page { message = m } else page).pending ≡ o
if-pending true page m o e = e
if-pending false page m o e = e

settle_same :
    (w : Reading) (p : Pending) (page : Page)
    → (w.sta_config_request_id == p.id) ≡ true
    → page.pending ≡ some p
    → Sound w p (settle (status_of w) p page)
unfolding settle status_of
settle_same w p page q e =
    let same : w.sta_config_request_id ≡ p.id = ground arith in
    elim (Bool-cases (text_eq w.sta_config_result (codes "failed"))) [
      | inl f ↦
          rw (q, f)
            (inr
              (refl, inr (inl (same, eq_of_text_eq w.sta_config_result (codes "failed") f, refl))))
      | inr f ↦
          elim (Bool-cases
            (text_eq (sta_state_name (sta_ordinal w.sta_state)) (codes "connected"))) [
              | inl c ↦ elim (Bool-cases (text_eq w.sta_ssid p.ssid)) [
                | inl s ↦
                    rw (q, f, c, s)
                      (inr (
                        refl,
                        inr (
                            inr (
                              same,
                              connected_name w.sta_state c,
                              eq_of_text_eq w.sta_ssid p.ssid s,
                              refl,
                            )),
                      ))
                | inr s ↦ rw (q, f, c, s) (inl (if-pending _ page _ (some p) e))
              ]
              | inr c ↦ rw (q, f, c) (inl (if-pending _ page _ (some p) e))
            ]
    ]

pub settle-status_of :
    (w : Reading) (p : Pending) (page : Page)
    → w.sta_config_request_id < 2 ^ 32
    → p.id < 2 ^ 32
    → page.pending ≡ some p
    → Sound w p (settle (status_of w) p page)
unfolding settle status_of
settle-status_of w p page x y e = elim (Bool-cases (w.sta_config_request_id == p.id)) [
  | inl q ↦ settle_same w p page q e
  | inr n ↦ elim (Bool-cases (request_id_newer w.sta_config_request_id p.id)) [
    | inl m ↦
        rw (n, m)
          (inr
            (refl, inl (sym (request_id_newer_agrees w.sta_config_request_id p.id x y) ∙ m, refl)))
    | inr m ↦ rw (n, m) (inl e)
  ]
]

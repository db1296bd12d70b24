-- ===== src/Pages/Order.antt =====
-- The setup page of firmware/targets/esp32s3/main/main.c and the order of the device's requests.
use dragon_bench.Common.{
  ℕ, ◌-◌, ◌^◌, ◌<◌, ◌≡◌, refl, sym, ◌∙◌, ap, true, false, Option, none, some, List, [], ◌∷◌, ◌++◌,
  append-nil, Text, arith, ◌==◌,
}
use dragon_bench.Network.{request_id_is_newer}
use dragon_bench.Network.RequestId.{after, after-is_newer}
use dragon_bench.Json.{members_of}
use dragon_bench.Http.Pages.{Booted, Reading, network_fields}
use dragon_bench.Pages.Watch.{
  Network, read_network, Pending, Page, replaced_message, settle, settle_waiting, show_station,
  render, submitted, accepted, watch,
}
use dragon_bench.Pages.Outcome.{status_of, read_network-network_fields, request_id_newer_agrees}
use dragon_bench.Pages.Submission.{answers, watch-idle}

-- The number `later` is that of a request after `earlier`, by fewer than 2^31 - 1 requests.
pub record Precedes (earlier later : ℕ) : Type 0 where
  pub distance : ℕ
  pub positive : 0 < distance
  pub near : distance < 2 ^ 31 - 1
  pub reserved : 0 < earlier
  pub fits : earlier < 2 ^ 32
  pub follows : later ≡ after distance earlier

-- Each poll was answered while an earlier request was published.
abbrev pub AllPrecede : List (Reading × Text) → ℕ → Type 0
AllPrecede [] id = Unit {0}
AllPrecede (p ∷ ps) id = Precedes p.0.sta_config_request_id id × AllPrecede ps id

Precedes-newer :
    (a b : ℕ) → Precedes a b → (request_id_is_newer b a ≡ true) × (request_id_is_newer a b ≡ false)
Precedes-newer a b v =
    rw v.follows (after-is_newer v.distance a v.reserved v.fits v.positive v.near)

newer-distinct : (a b : ℕ) → request_id_is_newer b a ≡ true → (a == b) ≡ false
unfolding request_id_is_newer
newer-distinct a b h = ground arith

settle_earlier :
    (w : Reading) (p : Pending) (page : Page)
    → p.id < 2 ^ 32
    → Precedes w.sta_config_request_id p.id
    → settle (status_of w) p page ≡ page
unfolding settle status_of
settle_earlier w p page y v =
    let order = Precedes-newer w.sta_config_request_id p.id v in
    rw
      (
        newer-distinct w.sta_config_request_id p.id order.0,
        request_id_newer_agrees w.sta_config_request_id p.id v.fits y,
        order.1,
      )
      refl

settle_later :
    (w : Reading) (p : Pending) (page : Page)
    → w.sta_config_request_id < 2 ^ 32
    → Precedes p.id w.sta_config_request_id
    → settle (status_of w) p page ≡ record page { message = replaced_message; pending = none }
unfolding settle status_of
settle_later w p page y v =
    let order = Precedes-newer p.id w.sta_config_request_id v in
    let distinct : (w.sta_config_request_id == p.id) ≡ false =
      ground (arith, newer-distinct p.id w.sta_config_request_id order.0) in
    rw (distinct, request_id_newer_agrees w.sta_config_request_id p.id y v.fits, order.0) refl

settle_waiting-some :
    (n : Network) (o : Option Pending) (p : Pending) (page : Page)
    → o ≡ some p
    → settle_waiting n o page ≡ settle n p page
settle_waiting-some n o p page e = rw e refl

-- A poll while the page waits.
render-waiting :
    (b : Booted) (w : Reading) (hostname : Text) (p : Pending) (page : Page)
    → page.pending ≡ some p
    → render (read_network (members_of (network_fields b w hostname))) page
      ≡ settle (status_of w) p (show_station (status_of w) page)
unfolding render
render-waiting b w hostname p page e =
    ap (λ n. settle_waiting n page.pending (show_station n page))
      (read_network-network_fields b w hostname)
    ∙ settle_waiting-some (status_of w) page.pending p (show_station (status_of w) page) e

watch_earlier :
    (b : Booted) (polls : List (Reading × Text)) (rest : List Network) (p : Pending) (page : Page)
    → AllPrecede polls p.id
    → p.id < 2 ^ 32
    → page.pending ≡ some p
    → (q : Page) × (watch (answers b polls ++ rest) page ≡ watch rest q)
      × (q.pending ≡ some p)
      × (q.message ≡ page.message)
unfolding show_station
watch_earlier b [] rest p page v y e = (page, refl, e, refl)
watch_earlier b ((w, hostname) ∷ polls) rest p page v y e =
    let shown : Page = render (read_network (members_of (network_fields b w hostname))) page in
    let same : shown ≡ show_station (status_of w) page =
      render-waiting b w hostname p page e
      ∙ settle_earlier w p (show_station (status_of w) page) y v.0 in
    let later = watch_earlier b polls rest p shown v.1 y (ap (λ (q : Page). q.pending) same ∙ e) in
    (later.0, later.1, later.2, later.3 ∙ ap (λ (q : Page). q.message) same)

-- The setup page follows the order of the device's requests, across the wrap of their numbers too:
-- after a submission was accepted under a number of 32 bits, polls that are answered while earlier
-- requests are published leave it waiting with its message, and then one that is answered while a
-- later request of 32 bits is published ends it as replaced, whatever the polls behind that say;
-- earlier and later are by fewer than 2^31 - 1 requests.
pub submission_replaced :
    (b : Booted) (polls : List (Reading × Text)) (w : Reading) (hostname : Text)
    (rest : List Network) (id : ℕ) (ssid : Text) (page : Page)
    → AllPrecede polls id
    → Precedes id w.sta_config_request_id
    → w.sta_config_request_id < 2 ^ 32
    → let start : Page = submitted (accepted id ssid) page in
      let waiting : Page = watch (answers b polls) start in
      let last : Page = watch (answers b polls ++ (answers b ((w, hostname) ∷ []) ++ rest)) start in
      (waiting.pending ≡ start.pending)
      × (waiting.message ≡ start.message)
      × (last.pending ≡ none)
      × (last.message ≡ replaced_message)
unfolding submitted
submission_replaced b polls w hostname rest id ssid page v later x =
    let p : Pending = record { id = id; ssid = ssid } in
    let start : Page = submitted (accepted id ssid) page in
    let n : Network = read_network (members_of (network_fields b w hostname)) in
    let waits = watch_earlier b polls [] p start v later.fits refl in
    let waited : watch (answers b polls) start ≡ waits.0 =
      ap (λ ns. watch ns start) (sym (append-nil (answers b polls))) ∙ waits.1 in
    let until = watch_earlier b polls (n ∷ rest) p start v later.fits refl in
    let ended : render n until.0 ≡ record (show_station (status_of w) until.0) {
      message = replaced_message;
      pending = none;
    } =
      render-waiting b w hostname p until.0 until.2
      ∙ settle_later w p (show_station (status_of w) until.0) x later in
    let idle = watch-idle rest (render n until.0) (ap (λ (q : Page). q.pending) ended) in
    (
      ap (λ (q : Page). q.pending) waited ∙ waits.2,
      ap (λ (q : Page). q.message) waited ∙ waits.3,
      ap (λ (q : Page). q.pending) until.1 ∙ idle.0,
      ap (λ (q : Page). q.message) until.1 ∙ idle.1 ∙ ap (λ (q : Page). q.message) ended,
    )

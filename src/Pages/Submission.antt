-- ===== src/Pages/Submission.antt =====
-- The setup page of firmware/targets/esp32s3/main/main.c from a submission on, over the answers to
-- its polls.
use dragon_bench.Common.{
  ℕ, ◌^◌, ◌<◌, ◌≡◌, refl, sym, ◌∙◌, ap, subst, ◌⊎◌, inl, inr, Option, none, some, List, [], ◌∷◌,
  map, Text,
}
use dragon_bench.Json.{members_of}
use dragon_bench.Http.Pages.{Booted, Reading, network_fields}
use dragon_bench.Pages.Watch.{
  Network, read_network, Pending, Page, settle_waiting, show_station, render, submitted, accepted,
  watch,
}
use dragon_bench.Pages.Outcome.{
  status_of, read_network-network_fields, Told, Sound, settle-status_of,
}

-- The answers to polls, by what status_get read and the host name at each.
abbrev pub answers : Booted → List (Reading × Text) → List Network
answers b polls = map (λ p. read_network (members_of (network_fields b p.0 p.1))) polls

-- The published numbers that were read are of 32 bits.
abbrev pub AllPublished : List (Reading × Text) → Type 0
AllPublished [] = Unit {0}
AllPublished (p ∷ ps) = (p.0.sta_config_request_id < 2 ^ 32) × AllPublished ps

-- One of the polls was answered from what has the property.
abbrev pub Once : (Reading → Type 0) → List (Reading × Text) → Type 0
Once P [] = ⊥
Once P (p ∷ ps) = P p.0 ⊎ Once P ps

settle_waiting-idle :
    (n : Network) (o : Option Pending) (page : Page) → o ≡ none → settle_waiting n o page ≡ page
settle_waiting-idle n o page e = rw e refl

-- render leaves the outcome where nothing waits.
render-idle :
    (n : Network) (page : Page)
    → page.pending ≡ none
    → ((render n page).pending ≡ none) × ((render n page).message ≡ page.message)
unfolding render show_station
render-idle n page e =
    let same : render n page ≡ show_station n page =
      settle_waiting-idle n page.pending (show_station n page) e in
    (ap (λ (q : Page). q.pending) same ∙ e, ap (λ (q : Page). q.message) same)

pub watch-idle :
    (ns : List Network) (page : Page)
    → page.pending ≡ none
    → ((watch ns page).pending ≡ none) × ((watch ns page).message ≡ page.message)
watch-idle [] page e = (e, refl)
watch-idle (n ∷ ns) page e =
    let one = render-idle n page e in
    let rest = watch-idle ns (render n page) one.0 in (rest.0, rest.1 ∙ one.1)

waiting-Sound :
    (w : Reading) (p : Pending) (o : Option Pending) (page : Page)
    → w.sta_config_request_id < 2 ^ 32
    → p.id < 2 ^ 32
    → o ≡ some p
    → page.pending ≡ some p
    → Sound w p (settle_waiting (status_of w) o page)
waiting-Sound w p o page x y e f =
    subst (λ o. Sound w p (settle_waiting (status_of w) o page)) (sym e)
      (settle-status_of w p page x y f)

render-Sound :
    (b : Booted) (w : Reading) (hostname : Text) (p : Pending) (page : Page)
    → w.sta_config_request_id < 2 ^ 32
    → p.id < 2 ^ 32
    → page.pending ≡ some p
    → Sound w p (render (read_network (members_of (network_fields b w hostname))) page)
unfolding render show_station
render-Sound b w hostname p page x y e =
    subst (λ n. Sound w p (render n page)) (sym (read_network-network_fields b w hostname))
      (waiting-Sound w p page.pending (show_station (status_of w) page) x y e e)

Told-message :
    (w : Reading) (p : Pending) (page page' : Page)
    → page'.message ≡ page.message
    → Told w p page
    → Told w p page'
Told-message w p page page' e (inl (h, m)) = inl (h, e ∙ m)
Told-message w p page page' e (inr (inl (h, f, m))) = inr (inl (h, f, e ∙ m))
Told-message w p page page' e (inr (inr (h, s, t, m))) = inr (inr (h, s, t, e ∙ m))

watch-Sound :
    (b : Booted) (polls : List (Reading × Text)) (p : Pending) (page : Page)
    → AllPublished polls
    → p.id < 2 ^ 32
    → page.pending ≡ some p
    → ((watch (answers b polls) page).pending ≡ some p)
      ⊎ (((watch (answers b polls) page).pending ≡ none)
          × Once (λ w. Told w p (watch (answers b polls) page)) polls)
watch-Sound b [] p page x y e = inl e
watch-Sound b ((w, hostname) ∷ polls) p page x y e =
    let shown : Page = render (read_network (members_of (network_fields b w hostname))) page in
    elim (render-Sound b w hostname p page x.0 y e) [
      | inl waits ↦ elim (watch-Sound b polls p shown x.1 y waits) [
        | inl h ↦ inl h
        | inr h ↦ inr (h.0, inr h.1)
      ]
      | inr told ↦
          let rest = watch-idle (answers b polls) shown told.0 in
          inr (rest.0, inl (Told-message w p shown (watch (answers b polls) shown) rest.1 told.1))
    ]

-- What the setup page tells is what the device said: after the device accepted a submission under a
-- number of 32 bits, and whatever status_get read of the statics at each poll, numbers of 32 bits
-- among them, the page either still waits for that submission, or it tells one of three things that
-- one of the answers said: that a number newer by db_request_id_is_newer was published, that the
-- submission's number was published with the result "failed", or that it was published with the
-- station connected to the submitted name, at the address that was read after that, if one was.
pub submission_outcome :
    (b : Booted) (polls : List (Reading × Text)) (id : ℕ) (ssid : Text) (page : Page)
    → AllPublished polls
    → id < 2 ^ 32
    → let p : Pending = record { id = id; ssid = ssid } in
      let q : Page = watch (answers b polls) (submitted (accepted id ssid) page) in
      (q.pending ≡ some p) ⊎ ((q.pending ≡ none) × Once (λ w. Told w p q) polls)
unfolding submitted
submission_outcome b polls id ssid page x y =
    watch-Sound b polls (record { id = id; ssid = ssid }) _ x y refl

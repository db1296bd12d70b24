-- ===== src/Boot/Start.antt =====
-- The steps of start_wifi and the protocol of the boot.
use dragon_bench.Common.{
  ℕ, ◌≡◌, refl, Bool, ◌&&◌, true, false, ◌||◌, Option, none, some, List, [], ◌∷◌, Text, arith,
  snprintf,
}
use dragon_bench.Json.{Cjson}
use dragon_bench.Events.{Emission, Config}
use dragon_bench.Network.{Identity}
use dragon_bench.Prog.{
  get_ap_config, get_channel, get_protocol, get_tx_power, set_apsta_mode, create_retry_timer,
  create_config_task, netif_init, create_event_loop, create_ap_netif, create_sta_netif, wifi_init,
  Call, Reply, Prog, Step, wifi_start, wait_ap_started, register_wifi_events, register_got_ip,
  set_ap_config, start_server, register_route, get_wifi, boot_step, panic,
}
use dragon_bench.Prog.Protocol.{Protocol, Follows, Follows-then, Follows-branch, Follows-on_option}
use dragon_bench.Task.{emit}
use dragon_bench.Wifi.{nvs_load_sta, configure_sta}
use dragon_bench.Http.Pages.{is_ap_active}
use dragon_bench.Boot.{
  Settings, all_steps, start_radio, start_ap, wifi_steps, start_station, start_wifi,
}

-- What has succeeded so far: the two registrations, the access point's configuration, the wait for
-- its start, a read that showed it active, and the server.
pub record Started : Type 0 where
  pub events_on : Bool
  pub addresses_on : Bool
  pub ap_set : Bool
  pub ap_up : Bool
  pub ap_seen : Bool
  pub serving : Bool

abbrev pub StartAllowed : Started → Call → Type 0
StartAllowed s (boot_step wifi_start) =
    (s.events_on ≡ true) × (s.addresses_on ≡ true) × (s.ap_set ≡ true)
StartAllowed s (boot_step start_server) = (s.ap_up ≡ true) × (s.ap_seen ≡ true)
StartAllowed s (boot_step (register_route uri)) = s.serving ≡ true
StartAllowed s _ = Unit {0}

-- ESP_ERROR_CHECK does not return from an error.
abbrev pub StartAnswers : Started → (c : Call) → Reply c → Type 0
StartAnswers s panic r = ⊥
StartAnswers s _ r = Unit {0}

abbrev pub start_next : Started → (c : Call) → Reply c → Started
start_next s (boot_step register_wifi_events) r = record s { events_on = r }
start_next s (boot_step register_got_ip) r = record s { addresses_on = r }
start_next s (boot_step (set_ap_config ssid password)) r = record s { ap_set = r }
start_next s (boot_step wait_ap_started) r = record s { ap_up = r }
start_next s (boot_step start_server) r = record s { serving = r }
start_next s get_wifi w = record s { ap_seen = s.ap_seen || is_ap_active w.ap_state }
start_next s _ r = s

abbrev pub start_protocol : Protocol
start_protocol = record {
  State = Started;
  Allowed = StartAllowed;
  Answers = StartAnswers;
  next = start_next;
  Exhausted = λ s. ⊥;
}

-- A program that starts nothing.
unfoldable pub Inert : {A : Type 0} → Prog A → Started → Type 0
Inert m s = Follows start_protocol m s (λ _ t. t ≡ s)

pub emit-Inert :
    (cjson : Cjson) (config : Config) (e : Emission) (s : Started) → Inert (emit cjson config e) s
unfolding emit Inert
emit-Inert cjson config e s = (
  tt,
  λ _ _. (
    tt,
    λ _ _. (
      tt,
      λ _ _. (
        tt,
        λ _ _. (
          tt,
          λ _ _. (tt, λ _ _. (tt, λ _ _. (tt, λ _ _. (tt, λ _ _. (tt, λ _ _. (tt, λ _ _. refl)))))),
        ),
      ),
    ),
  ),
)

nvs_load_sta-Inert : (n m : ℕ) (s : Started) → Inert (nvs_load_sta n m) s
unfolding nvs_load_sta Inert
nvs_load_sta-Inert n m s = (
  tt,
  λ opened _.
      Follows-on_option start_protocol opened _ _ s _ (λ _. refl)
        (λ h _. (tt, λ _ _. (tt, λ _ _. (tt, λ _ _. refl)))),
)

configure_sta-Inert : (ssid password : Text) (s : Started) → Inert (configure_sta ssid password) s
unfolding configure_sta Inert
configure_sta-Inert ssid password s =
    Follows-branch start_protocol _ _ _ s _ (λ _. refl)
      (λ _. (
        tt,
        λ set _. Follows-branch start_protocol set _ _ s _ (λ _. (tt, λ _ _. refl)) (λ _. refl),
      ))

-- Everything is ready for the radio.
abbrev Ready : Started → Type 0
Ready s = (s.events_on ≡ true) × (s.addresses_on ≡ true) × (s.ap_set ≡ true)

abbrev pub Up : Started → Type 0
Up s = (s.ap_up ≡ true) × (s.ap_seen ≡ true)

-- What a success promises.
abbrev IfUp : Bool → Started → Type 0
IfUp ok t = ok ≡ true → Up t

-- The rule of a step that the next one needs.
pub step_rule :
    (step : Step) (rest : List Step) (s : Started) (Q : Bool → Started → Type 0)
    → StartAllowed s (boot_step step)
    → ((r : Bool) → Q false (start_next s (boot_step step) r))
    → ((r : Bool)
        → r ≡ true
        → Follows start_protocol (all_steps rest) (start_next s (boot_step step) r) Q)
    → Follows start_protocol (all_steps (step ∷ rest)) s Q
unfolding all_steps
step_rule step rest s Q allowed off on = (
  allowed,
  λ r _.
      Follows-branch start_protocol r _ _ (start_next s (boot_step step) r) Q (on r) (λ _. off r),
)

pub steps_end :
    (s : Started) (Q : Bool → Started → Type 0)
    → Q true s
    → Follows start_protocol (all_steps []) s Q
unfolding all_steps
steps_end s Q h = h

abbrev IfWaited : Bool → Started → Type 0
IfWaited ok t = ok ≡ true → t.ap_up ≡ true

abbrev IfReady : Bool → Started → Type 0
IfReady ok t = ok ≡ true → Ready t

start_radio_lem : (s : Started) → Ready s → Follows start_protocol start_radio s IfUp
unfolding start_radio
start_radio_lem s ready =
    Follows-then start_protocol (all_steps (wifi_start ∷ wait_ap_started ∷ [])) _ s IfWaited IfUp
      (step_rule wifi_start (wait_ap_started ∷ []) s IfWaited ready (λ _ e. cc)
        (λ _ _.
          step_rule wait_ap_started [] s IfWaited tt (λ _ e. cc)
            (λ r e. steps_end (record s { ap_up = r }) IfWaited (λ _. e))))
      λ started t up.
        Follows-branch start_protocol started _ _ t IfUp
          (λ e. (
            tt,
            λ w _.
                let seen : Started = record t { ap_seen = t.ap_seen || is_ap_active w.ap_state } in
                Follows-branch start_protocol (is_ap_active w.ap_state) _ _ seen IfUp
                  (λ active.
                    step_rule get_ap_config (get_channel ∷ get_protocol ∷ get_tx_power ∷ []) seen
                      IfUp tt (λ _ x. cc)
                      λ _ _.
                        step_rule get_channel (get_protocol ∷ get_tx_power ∷ []) seen IfUp tt
                          (λ _ x. cc)
                          λ _ _.
                            step_rule get_protocol (get_tx_power ∷ []) seen IfUp tt (λ _ x. cc)
                              λ _ _.
                                step_rule get_tx_power [] seen IfUp tt (λ _ x. cc)
                                  λ _ _. steps_end seen IfUp (λ _. (up e, ground arith)))
                  (λ _ x. cc),
          ))
          (λ _ x. cc)

start_ap_lem :
    (settings : Settings) (identity : Identity) (sta : Text × Text) (s : Started)
    → s.events_on ≡ true
    → s.addresses_on ≡ true
    → Follows start_protocol (start_ap settings identity sta) s IfUp
unfolding start_ap
start_ap_lem settings identity sta s events addresses =
    let set_ap : Step =
      set_ap_config (snprintf 32 identity.ssid) (snprintf 64 settings.ap_password) in
    Follows-branch start_protocol _ _ _ s IfUp (λ _ x. cc)
      (λ _.
        Follows-then start_protocol (all_steps (set_apsta_mode ∷ set_ap ∷ [])) _ s IfReady IfUp
          (step_rule set_apsta_mode (set_ap ∷ []) s IfReady tt (λ _ e. cc)
            (λ _ _.
              step_rule set_ap [] s IfReady tt (λ _ e. cc)
                (λ r e. steps_end (record s { ap_set = r }) IfReady (λ _. (events, addresses, e)))))
          (λ set t ready.
            Follows-branch start_protocol set _ _ t IfUp
              (λ e.
                Follows-branch start_protocol _ _ _ t IfUp
                  (λ _.
                    Follows-then start_protocol (configure_sta sta.0 sta.1) _ t (λ _ u. u ≡ t) IfUp
                      (unfold Inert in configure_sta-Inert sta.0 sta.1 t)
                      (λ ok u same.
                        Follows-branch start_protocol ok _ _ u IfUp
                          (λ _. start_radio_lem u (rw same (ready e))) (λ _ x. cc)))
                  (λ _. start_radio_lem t (ready e)))
              (λ _ x. cc)))

wifi_steps_lem :
    (s : Started)
    → Follows start_protocol
        (all_steps wifi_steps)
        s
        (λ ok t. ok ≡ true → (t.events_on ≡ true) × (t.addresses_on ≡ true))
wifi_steps_lem s =
    step_rule create_retry_timer _ s _ tt (λ _ x. cc)
      λ _ _.
        step_rule create_config_task _ s _ tt (λ _ x. cc)
          λ _ _.
            step_rule netif_init _ s _ tt (λ _ x. cc)
              λ _ _.
                step_rule create_event_loop _ s _ tt (λ _ x. cc)
                  λ _ _.
                    step_rule create_ap_netif _ s _ tt (λ _ x. cc)
                      λ _ _.
                        step_rule create_sta_netif _ s _ tt (λ _ x. cc)
                          λ _ _.
                            step_rule wifi_init _ s _ tt (λ _ x. cc)
                              λ _ _.
                                step_rule register_wifi_events _ s _ tt (λ _ x. cc)
                                  λ a e.
                                    step_rule register_got_ip [] (record s { events_on = a }) _ tt
                                      (λ _ x. cc)
                                      λ b f.
                                        steps_end (record s { events_on = a; addresses_on = b }) _
                                          (λ _. (e, f))

start_station_lem :
    (settings : Settings) (identity : Identity) (s : Started)
    → Follows start_protocol (start_station settings identity) s IfUp
unfolding start_station
start_station_lem settings identity s =
    Follows-then start_protocol (nvs_load_sta 33 65) _ s (λ _ t. t ≡ s) IfUp
      (unfold Inert in nvs_load_sta-Inert 33 65 s)
      λ stored t _. (
        tt,
        λ _ _. (
          tt,
          λ _ _. (
            tt,
            λ group _. (
              tt,
              λ queue _.
                  Follows-branch start_protocol (group && queue) _ _ t IfUp
                    (λ _.
                      Follows-then start_protocol (all_steps wifi_steps) _ t
                        (λ ok u. ok ≡ true → (u.events_on ≡ true) × (u.addresses_on ≡ true)) IfUp
                        (wifi_steps_lem t)
                        (λ ready u on.
                          Follows-branch start_protocol ready _ _ u IfUp
                            (λ e. start_ap_lem settings identity _ u (on e).0 (on e).1)
                            (λ _ x. cc)))
                    (λ _ x. cc),
            ),
          ),
        ),
      )

-- A start of the network that gives names has the access point up.
abbrev pub UpIfNamed : Option Identity → Started → Type 0
UpIfNamed none t = Unit {0}
UpIfNamed (some i) t = Up t

pub start_wifi_lem :
    (settings : Settings) (s : Started) → Follows start_protocol (start_wifi settings) s UpIfNamed
unfolding start_wifi
start_wifi_lem settings s = (
  tt,
  λ mac _.
      Follows-on_option start_protocol mac _ _ s UpIfNamed (λ _. tt)
        (λ m _.
          Follows-on_option start_protocol _ _ _ s UpIfNamed (λ _. tt)
            (λ identity _.
              Follows-branch start_protocol _ _ _ s UpIfNamed
                (λ _.
                  Follows-then start_protocol (start_station settings identity) _ s IfUp UpIfNamed
                    (start_station_lem settings identity s)
                    (λ ok t up.
                      Follows-branch start_protocol ok _ _ t UpIfNamed (λ e. up e) (λ _. tt)))
                (λ _. tt))),
)

-- ===== src/Boot/Order.antt =====
-- The order of the boot: what app_main starts when.
use dragon_bench.Common.{
  ℕ, ◌≡◌, refl, Bool, true, Option, none, some, List, [], ◌∷◌, Text, codes, subst, arith, snprintf,
}
use dragon_bench.Json.{Cjson}
use dragon_bench.Events.{Emission}
use dragon_bench.Network.{Identity}
use dragon_bench.Prog.{
  set_hostname, set_instance_name, add_http_service, temperature_install, temperature_enable, done,
  branch, call, get_wifi, Wifi, panic,
}
use dragon_bench.Prog.Protocol.{
  Follows, Follows-then, Follows-bind, Follows-branch, Follows-on_option,
}
use dragon_bench.Task.{emit}
use dragon_bench.Http.Pages.{Booted}
use dragon_bench.Http.Server.{Entry, routes}
use dragon_bench.Boot.{
  recover_marker, reset_metrics_text, reset_name, Settings, all_steps, check_step, start_wifi,
  register_routes, start_http, start_mdns, start_network, serve, boot_event, app_main,
}
use dragon_bench.Boot.Start.{
  Started, start_next, start_protocol, Inert, emit-Inert, Up, step_rule, steps_end, UpIfNamed,
  start_wifi_lem,
}

-- A program that checks its steps comes to its end only with the server running.
register_routes_lem :
    (es : List Entry) (s : Started)
    → s.serving ≡ true
    → Follows start_protocol (register_routes es) s (λ _ t. t.serving ≡ true)
unfolding register_routes check_step
register_routes_lem [] s h = h
register_routes_lem (e ∷ es) s h = (
  h,
  λ ok _. Follows-bind start_protocol (branch ok (done tt) (call panic)) _ s _ (
      Follows-branch start_protocol ok _ _ s _ (λ _. register_routes_lem es s h)
        (λ _. (tt, λ _ impossible. absurd impossible))),
)

start_http_lem :
    (s : Started) → Up s → Follows start_protocol start_http s (λ _ t. t.serving ≡ true)
unfolding start_http check_step
start_http_lem s up = (
  up,
  λ ok _.
      let t : Started = record s { serving = ok } in
      Follows-bind start_protocol (branch ok (done tt) (call panic)) _ t _ (
        Follows-branch start_protocol ok _ _ t _ (λ e. register_routes_lem routes t e)
          (λ _. (tt, λ _ impossible. absurd impossible))),
)

abbrev Same : Started → Bool → Started → Type 0
Same s ok t = t ≡ s

mdns_steps_lem :
    (name : Text) (s : Started)
    → Follows start_protocol
        (all_steps (set_hostname name ∷ set_instance_name ∷ add_http_service ∷ []))
        s
        (Same s)
mdns_steps_lem name s =
    step_rule (set_hostname name) (set_instance_name ∷ add_http_service ∷ []) s (Same s) tt
      (λ _. refl)
      λ _ _.
        step_rule set_instance_name (add_http_service ∷ []) s (Same s) tt (λ _. refl)
          λ _ _.
            step_rule add_http_service [] s (Same s) tt (λ _. refl) λ _ _. steps_end s (Same s) refl

start_mdns-Inert :
    (settings : Settings) (device_id : Text) (s : Started) → Inert (start_mdns settings device_id) s
unfolding start_mdns Inert
start_mdns-Inert settings device_id s = (
  tt,
  λ ready _.
      Follows-branch start_protocol ready _ _ s _
        (λ _.
          Follows-on_option start_protocol _ _ _ s _ (λ _. refl)
            (λ name _.
              Follows-branch start_protocol _ _ _ s _
                (λ _.
                  Follows-then start_protocol
                    (all_steps (set_hostname name ∷ set_instance_name ∷ add_http_service ∷ [])) _ s
                    (Same s) (λ _ t. t ≡ s) (mdns_steps_lem name s) (λ _ t same. same))
                (λ _. refl)))
        (λ _. refl),
)

-- What app_main gives: with a server, the access point was up and the server runs.
abbrev pub ServingIfBooted : Option Booted → Started → Type 0
ServingIfBooted none t = Unit {0}
ServingIfBooted (some b) t = t.serving ≡ true

serve_lem :
    (cjson : Cjson) (settings : Settings) (nonce : ℕ) (reason previous : Text) (temperature : Bool)
    (identity : Identity) (w : Wifi) (s : Started)
    → Up s
    → Follows start_protocol
        (serve cjson settings nonce reason previous temperature identity w)
        s
        ServingIfBooted
unfolding serve
serve_lem cjson settings nonce reason previous temperature identity w s up =
    Follows-then start_protocol _ _ s (λ _ t. t ≡ s) ServingIfBooted
      (Follows-branch start_protocol w.sta_configured _ _ s _ (λ _. (tt, λ _ _. (tt, λ _ _. refl)))
        (λ _. refl))
      λ _ t same.
        Follows-then start_protocol (start_mdns settings identity.device_id) _ t (λ _ u. u ≡ t)
          ServingIfBooted (unfold Inert in start_mdns-Inert settings identity.device_id t)
          λ mdns u same_again.
            Follows-then start_protocol start_http _ u (λ _ v. v.serving ≡ true) ServingIfBooted
              (start_http_lem u (rw (same_again, same) up))
              λ _ v serving.
                Follows-then start_protocol
                  (emit cjson settings.config (boot_event (codes "ready") previous none)) _ v
                  (λ _ x. x ≡ v) ServingIfBooted
                  (unfold Inert in emit-Inert cjson settings.config _ v)
                  (λ _ x last. rw last serving)

-- The access point is still up after a read.
named :
    (identity : Identity) (t : Started)
    → UpIfNamed (some identity) t
    → (w : Wifi) → Up (start_next t get_wifi w)
named identity t up w = (up.0, ground arith)

start_network_lem :
    (cjson : Cjson) (settings : Settings) (nonce : ℕ) (reason previous : Text) (temperature : Bool)
    (s : Started)
    → Follows start_protocol
        (start_network cjson settings nonce reason previous temperature)
        s
        ServingIfBooted
unfolding start_network
start_network_lem cjson settings nonce reason previous temperature s =
    Follows-then start_protocol (start_wifi settings) _ s UpIfNamed ServingIfBooted
      (start_wifi_lem settings s)
      λ started t up.
        Follows-on_option start_protocol started _ _ t ServingIfBooted (λ _. (tt, λ _ _. tt))
          (λ identity e. (
            tt,
            λ w _.
                serve_lem cjson settings nonce reason previous temperature identity w
                  (start_next t get_wifi w) (named identity t (subst (λ o. UpIfNamed o t) e up) w),
          ))

temperature_steps_lem :
    (s : Started)
    → Follows start_protocol (all_steps (temperature_install ∷ temperature_enable ∷ [])) s (Same s)
temperature_steps_lem s =
    step_rule temperature_install (temperature_enable ∷ []) s (Same s) tt (λ _. refl)
      λ _ _.
        step_rule temperature_enable [] s (Same s) tt (λ _. refl) λ _ _. steps_end s (Same s) refl

-- For all replies, a boot starts the radio only after both event handlers are registered and the
-- access point is configured, starts the server only after the access point came up within its
-- time limit and was seen active, registers routes only on a running server, and returns with a
-- server only if that runs. A failure of ESP_ERROR_CHECK does not return.
pub app_main-order :
    (cjson : Cjson) (settings : Settings) (s : Started)
    → Follows start_protocol (app_main cjson settings) s ServingIfBooted
unfolding app_main
app_main-order cjson settings s = (
  tt,
  λ ok _. Follows-bind start_protocol (branch ok (done tt) (call panic)) _ s _ (
      Follows-branch start_protocol ok _ _ s _
        (λ _. (
          tt,
          λ nonce _. (
            tt,
            λ reason _. (
              tt,
              λ m _. (
                tt,
                λ _ _. (
                  tt,
                  λ _ _.
                      let first : Emission =
                        boot_event (codes "boot") (recover_marker reason m).1 none in
                      let second : Emission =
                        boot_event (codes "reset_reason") (recover_marker reason m).1 (
                          some
                            (snprintf 64 (reset_metrics_text (snprintf 32 (reset_name reason))))) in
                      Follows-then start_protocol
                        (all_steps (temperature_install ∷ temperature_enable ∷ [])) _ s (Same s)
                        ServingIfBooted (temperature_steps_lem s)
                        (λ temperature t _.
                          Follows-then start_protocol (emit cjson settings.config first) _ t
                            (λ _ u. u ≡ t) ServingIfBooted
                            (unfold Inert in emit-Inert cjson settings.config first t)
                            (λ _ u _.
                              Follows-then start_protocol (emit cjson settings.config second) _ u
                                (λ _ v. v ≡ u) ServingIfBooted
                                (unfold Inert in emit-Inert cjson settings.config second u)
                                (λ _ v _.
                                  start_network_lem cjson settings nonce _ _ temperature v))),
                ),
              ),
            ),
          ),
        ))
        (λ _. (tt, λ _ impossible. absurd impossible))),
)

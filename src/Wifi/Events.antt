-- ===== src/Wifi/Events.antt =====
-- What wifi_event and the retry timer do with the station and the count of clients.
use dragon_bench.Common.{
  ℕ, ◌+◌, ◌%◌, ◌^◌, ◌<◌, ◌≡◌, refl, ◌⊎◌, inl, inr, Bool, true, false, not, ◌&&◌, ◌||◌, Option, some,
  arith, ltb, ◌==◌,
}
use dragon_bench.Prog.{
  Call, Reply, Prog, get_wifi, set_static, wifi_connect, retry_timer_start, to_ap_client_count,
}
use dragon_bench.Prog.Protocol.{Protocol, Follows, Follows-branch, Follows-on_option}
use dragon_bench.Wifi.{
  sta_retry_fire, sta_schedule_retry, WifiEvent, ap_start, ap_sta_connected, ap_sta_disconnected,
  sta_associated, sta_lost, got_ip, other_event, wifi_event,
}

-- What a handler has read: the last count of clients, and whether a read has shown a configured
-- station that is not being reconfigured.
pub record Noticed : Type 0 where
  pub clients : Option ℕ
  pub free_to_connect : Bool

-- A count goes up by one, as an unsigned int, or down by one.
abbrev pub Counts : ℕ → ℕ → Type 0
Counts c n = (n ≡ (c + 1) % 2 ^ 32) ⊎ (n + 1 ≡ c)

abbrev pub EventAllowed : Noticed → Call → Type 0
EventAllowed s (set_static (to_ap_client_count n)) = (c : ℕ) × (s.clients ≡ some c) × Counts c n
EventAllowed s wifi_connect = s.free_to_connect ≡ true
EventAllowed s (retry_timer_start us) = (s.free_to_connect ≡ true) × (0 < us)
EventAllowed s _ = Unit {0}

abbrev pub notice : Noticed → (c : Call) → Reply c → Noticed
notice s get_wifi w = record {
  clients = some w.ap_client_count;
  free_to_connect = s.free_to_connect || (w.sta_configured && not w.sta_reconfiguring);
}
notice s _ r = s

abbrev pub event_protocol : Protocol
event_protocol = record {
  State = Noticed;
  Allowed = EventAllowed;
  Answers = λ s c r. Unit {0};
  next = notice;
  Exhausted = λ s. Unit {0};
}

-- A program whose connects, retries and counts are as the protocol allows.
pub Notices : {A : Type 0} → Noticed → Prog A → Type 0
Notices s m = Follows event_protocol m s (λ a t. Unit {0})

sta_schedule_retry-Notices : (s : Noticed) → s.free_to_connect ≡ true → Notices s sta_schedule_retry
unfolding sta_schedule_retry Notices
sta_schedule_retry-Notices s h = (
  tt,
  λ w _. (
    tt,
    λ _ _.
        Follows-branch event_protocol _ _ _ _ _ (λ _. (tt, λ _ _. (ground arith, λ _ _. tt)))
          (λ ne. (tt, λ _ _. ((ground arith, ground arith), λ _ _. tt))),
  ),
)

-- The retry timer connects only where it has read that the station is configured and is not being
-- reconfigured.
pub sta_retry_fire-Notices :
    (clients : Option ℕ)
    → Notices (record { clients = clients; free_to_connect = false }) sta_retry_fire
unfolding sta_retry_fire Notices
sta_retry_fire-Notices clients = (
  tt,
  λ w _.
      Follows-branch event_protocol (w.sta_reconfiguring || not w.sta_configured) _ _ _ _ (λ _. tt)
        (λ e. (tt, λ _ _. (ground arith, λ _ _. tt))),
)

-- On every event and for all replies, wifi_event connects or starts the retry timer, and then with a
-- delay that is not 0, only where it has read that the station is configured and is not being
-- reconfigured, and changes the count of clients only by one from the value that it has read, which
-- it never takes below 0.
pub wifi_event-Notices :
    (reason_assoc_leave : ℕ) (e : WifiEvent) (clients : Option ℕ)
    → Notices
        (record { clients = clients; free_to_connect = false })
        (wifi_event reason_assoc_leave e)
unfolding wifi_event Notices
wifi_event-Notices leave ap_start clients = (
  tt,
  λ info _.
      Follows-on_option event_protocol info _ _ _ _ (λ _. (tt, λ _ _. tt))
        (λ ip _. (tt, λ _ _. (tt, λ _ _. (tt, λ _ _. tt)))),
)
wifi_event-Notices leave ap_sta_connected clients =
    (tt, λ w _. ((w.ap_client_count, refl, inl refl), λ _ _. tt))
wifi_event-Notices leave ap_sta_disconnected clients = (
  tt,
  λ w _.
      Follows-branch event_protocol (ltb 0 w.ap_client_count) _ _ _ _
        (λ e. ((w.ap_client_count, refl, inr (ground arith)), λ _ _. tt)) (λ _. tt),
)
wifi_event-Notices leave sta_associated clients = tt
wifi_event-Notices leave (sta_lost reason) clients = (
  tt,
  λ _ _. (
    tt,
    λ _ _. (
      tt,
      λ w _.
          Follows-branch event_protocol
            (reason == leave || w.sta_reconfiguring || not w.sta_configured) _ _ _ _ (λ _. tt)
            (λ e.
              sta_schedule_retry-Notices
                (notice (record { clients = clients; free_to_connect = false }) get_wifi w)
                (ground arith)),
    ),
  ),
)
wifi_event-Notices leave (got_ip ip) clients = (
  tt,
  λ _ _. (
    tt,
    λ _ _. (
      tt,
      λ _ _. (
        tt,
        λ _ _. (
          tt,
          λ rssi _.
              Follows-on_option event_protocol rssi _ _ _ _ (λ _. tt) (λ r _. (tt, λ _ _. tt)),
        ),
      ),
    ),
  ),
)
wifi_event-Notices leave other_event clients = tt

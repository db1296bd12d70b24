-- ===== src/Run/Validate.antt =====
-- What db_request_validate accepts, against a description that does not follow its tests.
use dragon_bench.Common.{
  ◌^◌, ◌<◌, length, ℕ, ◌≤◌, ◌<◌, ◌≡◌, ◌≢◌, refl, ◌↔◌, ◌⊎◌, inl, inr, true, false, Option, none,
  some, [], ◌∷◌, Text, arith, Bool-cases, length, take, length-take, min, ◌-◌, snprintf, is_empty,
  codes,
}
use dragon_bench.Run.{
  Workload, boot, idle, wifi_associated_idle, net_tx, net_rx, net_bidirectional, workload_count,
  host_len, Request, workload_supported, is_network, host_char, host_chars, request_validate,
}

-- A byte that a host may hold: a digit, a letter or one of the four signs.
abbrev pub HostChar : ℕ → Type 0
HostChar c =
    ((b'0' ≤ c) × (c ≤ b'9'))
    ⊎ ((b'A' ≤ c) × (c ≤ b'Z'))
    ⊎ ((b'a' ≤ c) × (c ≤ b'z'))
    ⊎ (c ≡ b'.')
    ⊎ (c ≡ b'-')
    ⊎ (c ≡ b'_')
    ⊎ (c ≡ b':')

abbrev pub HostChars : Text → Type 0
HostChars [] = Unit {0}
HostChars (c ∷ s) = HostChar c × HostChars s

-- The values fit the fields of db_run_request_t.
pub record FitsFields (q : Request) : Type 0 where
  pub duration_fits : q.duration_ms < 2 ^ 32
  pub rate_fits : q.rate_bps < 2 ^ 32
  pub port_fits : q.port < 2 ^ 16
  pub host_fits : length q.host < host_len

-- The workloads that talk to a peer.
abbrev pub IsNetwork : Workload → Type 0
IsNetwork w = (w ≡ net_tx) ⊎ (w ≡ net_rx) ⊎ (w ≡ net_bidirectional)

-- The eleven workloads, which the number of workloads in the same enumeration is not.
abbrev pub IsWorkload : Workload → Type 0
IsWorkload w = w ≢ workload_count

-- A request that may be run.
pub record IsAcceptable (r : Request) : Type 0 where
  pub supported : IsWorkload r.workload
  pub positive : 1 ≤ r.duration_ms
  pub within_hour : r.duration_ms ≤ 3600000
  pub host_given : IsNetwork r.workload → r.host ≢ []
  pub port_given : IsNetwork r.workload → r.port ≢ 0
  pub host_clean : IsNetwork r.workload → HostChars r.host

is_network_iff : (w : Workload) → (is_network w ≡ true) ↔ IsNetwork w
unfolding is_network
is_network_iff boot = (λ e. cc, λ h. ground arith)
is_network_iff idle = (λ e. cc, λ h. ground arith)
is_network_iff wifi_associated_idle = (λ e. cc, λ h. ground arith)
is_network_iff net_tx = (λ e. inl refl, λ h. refl)
is_network_iff net_rx = (λ e. inr (inl refl), λ h. refl)
is_network_iff net_bidirectional = (λ e. inr (inr refl), λ h. refl)
is_network_iff _ = (λ e. cc, λ h. ground arith)

workload_supported_iff : (w : Workload) → (workload_supported w ≡ true) ↔ IsWorkload w
unfolding workload_supported
workload_supported_iff workload_count = (λ e. cc, λ h. absurd (h refl))
workload_supported_iff _ = (λ e x. cc, λ h. refl)

is_empty_iff : (t : Text) → (is_empty t ≡ false) ↔ (t ≢ [])
is_empty_iff [] = (λ e. cc, λ h. absurd (h refl))
is_empty_iff (c ∷ t) = (λ e x. cc, λ h. refl)

host_char_sound : (c : ℕ) → host_char c ≡ true → HostChar c
unfolding host_char
host_char_sound c h = ground arith

host_char_complete : (c : ℕ) → HostChar c → host_char c ≡ true
unfolding host_char
host_char_complete c h = ground arith

pub host_chars_sound : (s : Text) → host_chars s ≡ true → HostChars s
unfolding host_chars
host_chars_sound [] h = tt
host_chars_sound (c ∷ s) h = elim (Bool-cases (host_char c)) [
  | inl e ↦ (host_char_sound c e, host_chars_sound s (ground arith))
  | inr e ↦ absurd (ground arith)
]

host_chars_complete : (s : Text) → HostChars s → host_chars s ≡ true
unfolding host_chars
host_chars_complete [] h = refl
host_chars_complete (c ∷ s) h = ground (arith, host_char_complete c h.0, host_chars_complete s h.1)

-- db_request_validate returns true exactly for the requests with one of the eleven workloads, a
-- duration of 1 to 3600000 ms and, where the workload is NET_TX, NET_RX or NET_BIDIRECTIONAL, a port
-- other than 0 and a non-empty host of letters, digits and `.-_:`.
pub request_validate_iff :
    (r : Request) (error : Text) (n : ℕ)
    → ((request_validate (some r) error n).0 ≡ true) ↔ IsAcceptable r
request_validate_iff r error n = (sound, complete)
  where
    network : IsNetwork r.workload → is_network r.workload ≡ true
    network = (is_network_iff r.workload).1

    sound : (request_validate (some r) error n).0 ≡ true → IsAcceptable r
    sound h =
        unfold request_validate in
        record {
          supported = (workload_supported_iff r.workload).0 (ground arith);
          positive = ground arith;
          within_hour = ground arith;
          host_given = λ w. (is_empty_iff r.host).0 (ground (arith, network w));
          port_given = λ w. ground (arith, network w);
          host_clean = λ w. host_chars_sound r.host (ground (arith, network w));
        }

    complete : IsAcceptable r → (request_validate (some r) error n).0 ≡ true
    complete a =
        unfold request_validate in
        elim (Bool-cases (is_network r.workload)) [
          | inl w ↦
              let n : IsNetwork r.workload = (is_network_iff r.workload).0 w in
              ground (
                arith,
                (workload_supported_iff r.workload).1 a.supported,
                (is_empty_iff r.host).1 (a.host_given n),
                a.port_given n,
                host_chars_complete r.host (a.host_clean n),
              )
          | inr w ↦ ground (arith, (workload_supported_iff r.workload).1 a.supported)
        ]

-- What snprintf leaves of a message.
printed :
    (n : ℕ) (message : Text)
    → 0 < n
    → 0 < length message
    → (length (snprintf n message) < n) × (1 < n → 0 < length (snprintf n message))
unfolding snprintf
printed n message h m = (omega (arith, len), λ k. omega (arith, len))
  where
    len : length (take (n - 1) message) ≡ min (n - 1) (length message)
    len = length-take (n - 1) message

-- An accepted request leaves the caller's error buffer alone; a refused one, or a NULL, leaves a
-- text in it that fits the buffer's size and, from two bytes on, is not empty.
pub request_validate_error :
    (r : Option Request) (error : Text) (n : ℕ)
    → 0 < n
    → let (valid, text) = request_validate r error n in
      ((valid ≡ true) × (text ≡ error))
      ⊎ ((valid ≡ false) × (length text < n) × (1 < n → 0 < length text))
unfolding request_validate
request_validate_error none error n h =
    ground (arith, printed n (codes "unsupported workload") h (omega arith))
request_validate_error (some r) error n h = ground (
  arith,
  printed n (codes "unsupported workload") h (omega arith),
  printed n (codes "duration_ms must be 1..3600000") h (omega arith),
  printed n (codes "network workloads require host and port") h (omega arith),
  printed n (codes "host contains unsupported characters") h (omega arith),
)

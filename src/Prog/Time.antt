-- ===== src/Prog/Time.antt =====
-- An outside whose clock advances, and programs of the clock protocol against it.
use dragon_bench.Common.{ℕ, suc, ◌≤◌, ◌<◌, ◌≡◌, refl, ◌⊎◌, inl, inr, true, false, some, arith}
use dragon_bench.Prog.{Call, Prog, timer, get_run}
use dragon_bench.Prog.Protocol.{Follows}
use dragon_bench.Prog.Clock.{Seen, Plausible, observe, clock_protocol, Ends}
use dragon_bench.Prog.Replay.{Outside, replay, Returns, Follows-replay}

-- The timer counts microseconds since the start, and a later call reads more. Where current_run is read its request has passed db_request_validate.
pub record Advances (o : Outside) : Type 0 where
  pub later : (m n : ℕ) → m < n → o m timer < o n timer
  pub positive : (n : ℕ) → 0 < o n timer
  pub validated : (n : ℕ) → (o n get_run).request.duration_ms ≤ 3600000

-- What the state of the protocol says of the calls so far.
pub record Tracks (o : Outside) (n : ℕ) (s : Seen) : Type 0 where
  pub ahead : (m : ℕ) → n ≤ m → s.now < o m timer
  pub time_seen : (s.now ≡ 0) ⊎ ((j : ℕ) × (j < n) × (s.now ≡ o j timer))
  pub flag_seen : s.abort_seen ≡ true → (j : ℕ) × (j < n) × ((o j get_run).abort_requested ≡ true)

module _ (o : Outside) (a : Advances o) where
  Tracks-answers : (n : ℕ) (s : Seen) (c : Call) → Tracks o n s → Plausible s c (o n c)
  Tracks-answers n s timer t = t.ahead n (omega arith)
  Tracks-answers n s get_run t = a.validated n
  Tracks-answers n s _ t = tt

  longer :
      (n : ℕ) (x : ℕ)
      → (x ≡ 0) ⊎ ((j : ℕ) × (j < n) × (x ≡ o j timer))
      → (x ≡ 0) ⊎ ((j : ℕ) × (j < suc n) × (x ≡ o j timer))
  longer n x (inl e) = inl e
  longer n x (inr (j, l, e)) = inr (j, omega arith, e)

  pub Tracks-onwards :
      (n : ℕ) (s : Seen) (c : Call) → Tracks o n s → Tracks o (suc n) (observe s c (o n c))
  Tracks-onwards n s timer t = record {
    ahead = λ m l. a.later n m l;
    time_seen = inr (n, omega arith, refl);
    flag_seen = λ e. let f = t.flag_seen e in (f.0, omega (arith, f.1), f.2);
  }
  Tracks-onwards n s get_run t = record {
    ahead = λ m l. t.ahead m (omega arith);
    time_seen = longer n s.now t.time_seen;
    flag_seen = λ e. (n, omega arith, e);
  }
  Tracks-onwards n s _ t = record {
    ahead = λ m l. t.ahead m (omega arith);
    time_seen = longer n s.now t.time_seen;
    flag_seen = λ e. let f = t.flag_seen e in (f.0, omega (arith, f.1), f.2);
  }

  -- A program's protocol tells what it returns against this outside.
  pub clock-replay :
      {A : Type 0} (m : Prog A) (s : Seen) (Q : A → Seen → Type 0) (n : ℕ)
      → Follows clock_protocol m s Q
      → Tracks o n s
      → Returns (replay o n m) (λ x k t. Q x t × Tracks o k t)
  clock-replay =
      Follows-replay clock_protocol o (λ n s. Tracks o n s) (λ s e. e) Tracks-answers Tracks-onwards

  -- Before anything was read.
  pub Tracks-start : (n : ℕ) → Tracks o n (record { now = 0; abort_seen = false })
  Tracks-start n = record { ahead = λ m l. a.positive m; time_seen = inl refl; flag_seen = λ e. cc }

  pub Ends-replay :
      {A : Type 0} (m : Prog A) (n : ℕ)
      → Ends (record { now = 0; abort_seen = false }) m
      → (x : A) × (k : ℕ) × (replay o n m ≡ some (x, k))
  unfolding Ends
  Ends-replay m n f =
      let r =
        clock-replay m (record { now = 0; abort_seen = false }) (λ x t. 0 ≤ t.now) n f
          (Tracks-start n) in
      (r.0, r.1, r.3)

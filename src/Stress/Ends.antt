-- ===== src/Stress/Ends.antt =====
-- Every load ends for every clock that advances, and so does its task.
use dragon_bench.Common.{
  ℕ, zero, suc, ◌+◌, ◌*◌, ◌/◌, ◌%◌, ◌≤◌, ◌<◌, ◌^◌, Option, none, some, List, [], ◌∷◌, Text, arith,
  ltb, ltb→lt,
}
use dragon_bench.Run.{Request}
use dragon_bench.Prog.{Prog, Partition, ◌>>=◌}
use dragon_bench.Prog.Clock.{
  Seen, Ends, Ends-ask, Ends-timer, Ends-test, Ends-bind, Ends-branch, Ends-done, Ends-on_option,
  clock_rules,
}
use dragon_bench.Stress.{
  should_abort, wait_loop, wait_abortable, deadline_after, Round, go_on, break_off, on_round,
  timed_loop, Cpu, cpu_body, run_cpu, nvs_body, run_nvs, flash_body, partition_cycle, try_addresses,
  connect_peer, network_body, run_network, Cycle, Traffic,
}

pub should_abort-Ends : (s : Seen) → Ends s should_abort
unfolding should_abort
should_abort-Ends s = search clock_rules depth 20

on_round-Ends :
    {S B : Type 0} (s : Seen) (r : Round S) (x y : S → Prog B)
    → ((v : S) → Ends s (x v))
    → ((v : S) → Ends s (y v))
    → Ends s (on_round r x y)
unfolding on_round
on_round-Ends s (go_on v) x y h k = h v
on_round-Ends s (break_off v) x y h k = k v

-- A loop that has one round of fuel more than there are microseconds up to its deadline.
timed_loop-Ends :
    {S : Type 0} (fuel deadline : ℕ) (body : S → Prog (Round S)) (v : S) (s : Seen)
    → deadline * 1000 < s.now + fuel
    → 0 < fuel
    → ((w : S) (t : Seen) → Ends t (body w))
    → Ends s (timed_loop fuel deadline body v)
unfolding timed_loop
timed_loop-Ends zero deadline body v s h p e = absurd (omega arith)
timed_loop-Ends {S} (suc fuel) deadline body v s h p e = Ends-timer s _ λ us t later known.
    Ends-test t (ltb (us / 1000) deadline) _ _
      (λ early.
        let before : us / 1000 < deadline = ltb→lt (us / 1000) deadline early in
        Ends-bind t should_abort _ (should_abort-Ends t) λ stop u l.
          Ends-branch u stop _ _ (Ends-done u v) (
            Ends-bind u (body v) _ (e v u) λ round w m.
              on_round-Ends w round _ _
                (λ v'.
                  timed_loop-Ends fuel deadline body v' w (omega (arith, before))
                    (omega (arith, before)) e)
                (Ends-done w)))
      (Ends-done t v)

-- What follows the computation of a deadline may use how far off it is.
deadline_after-Ends :
    {A : Type 0} (duration : ℕ) (k : ℕ → Prog A) (s : Seen)
    → ((deadline : ℕ) (t : Seen) → deadline * 1000 ≤ t.now + 1000 * duration → Ends t (k deadline))
    → Ends s (deadline_after duration >>= k)
unfolding deadline_after
deadline_after-Ends duration k s h =
    Ends-timer s _ λ us t later known. h ((us / 1000 + duration) % 2 ^ 64) t (omega arith)

-- A loop behind the computation of its deadline.
timed_run-Ends :
    {S B : Type 0} (fuel duration : ℕ) (body : S → Prog (Round S)) (v : S) (k : S → Prog B)
    (s : Seen)
    → 1000 * duration < fuel
    → ((w : S) (t : Seen) → Ends t (body w))
    → ((w : S) (t : Seen) → Ends t (k w))
    → Ends s (deadline_after duration >>= λ deadline. timed_loop fuel deadline body v >>= k)
timed_run-Ends fuel duration body v k s f e g =
    deadline_after-Ends duration (λ deadline. timed_loop fuel deadline body v >>= k) s
      λ deadline t h.
        Ends-bind t (timed_loop fuel deadline body v) k
          (timed_loop-Ends fuel deadline body v t (omega arith) (omega arith) e) (λ w u l. g w u)

cpu_body-Ends : (w : Cpu) (s : Seen) → Ends s (cpu_body w)
unfolding cpu_body
cpu_body-Ends w s = search clock_rules depth 10

pub run_cpu-Ends :
    (fuel duration : ℕ) (s : Seen) → 1000 * duration < fuel → Ends s (run_cpu fuel duration)
unfolding run_cpu
run_cpu-Ends fuel duration s f =
    timed_run-Ends fuel duration cpu_body _ _ s f cpu_body-Ends (λ w t. search clock_rules depth 20)

nvs_body-Ends : (handle : ℕ) (w : Cycle) (s : Seen) → Ends s (nvs_body handle w)
unfolding nvs_body
nvs_body-Ends handle w s = search clock_rules depth 30

pub run_nvs-Ends :
    (fuel duration bytes : ℕ) (s : Seen)
    → 1000 * duration < fuel
    → Ends s (run_nvs fuel duration bytes)
unfolding run_nvs
run_nvs-Ends fuel duration bytes s f = Ends-ask s _ _ λ opened t l.
    Ends-on_option t opened _ _ (Ends-done t _) λ handle.
      timed_run-Ends fuel duration (nvs_body handle) _ _ t f (nvs_body-Ends handle)
        (λ w u. search clock_rules depth 30)

flash_body-Ends : (p : Partition) (w : Cycle) (s : Seen) → Ends s (flash_body p w)
unfolding flash_body
flash_body-Ends p w s = search clock_rules depth 40

pub partition_cycle-Ends :
    (fuel : ℕ) (p : Option Partition) (duration bytes : ℕ) (s : Seen)
    → 1000 * duration < fuel
    → Ends s (partition_cycle fuel p duration bytes)
unfolding partition_cycle
partition_cycle-Ends fuel none duration bytes s f = Ends-done s _
partition_cycle-Ends fuel (some p) duration bytes s f = Ends-ask s _ _ λ running t l.
    Ends-branch t _ _ _ (Ends-done t _) (
      Ends-ask t _ _ λ buffers u m. Ends-branch u _ _ _ (Ends-done u _) (
        timed_run-Ends fuel duration (flash_body p) _ _ u f (flash_body-Ends p)
          (λ w v. search clock_rules depth 30)))

try_addresses-Ends : (addresses : List ℕ) (s : Seen) → Ends s (try_addresses addresses)
unfolding try_addresses
try_addresses-Ends [] s = search clock_rules
try_addresses-Ends (a ∷ rest) s =
    search (clock_rules, λ (t : Seen). try_addresses-Ends rest t) depth 20

connect_peer-Ends : (host : Text) (port : ℕ) (s : Seen) → Ends s (connect_peer host port)
unfolding connect_peer
connect_peer-Ends host port s = search (clock_rules, try_addresses-Ends) depth 20

network_body-Ends : (q : Request) (fd : ℕ) (w : Traffic) (s : Seen) → Ends s (network_body q fd w)
unfolding network_body
network_body-Ends q fd w s = search clock_rules depth 40

pub run_network-Ends :
    (fuel : ℕ) (q : Request) (tx rx : ℕ) (s : Seen)
    → 1000 * q.duration_ms < fuel
    → Ends s (run_network fuel q tx rx)
unfolding run_network
run_network-Ends fuel q tx rx s f =
    Ends-bind s (connect_peer q.host q.port) _ (connect_peer-Ends q.host q.port s) λ peer t l.
      Ends-on_option t peer _ _ (Ends-done t _) λ fd. Ends-ask t _ _ λ block u m.
        timed_run-Ends fuel q.duration_ms (network_body q fd) _ _ u f (network_body-Ends q fd)
          (λ w v. search clock_rules depth 30)

wait_loop-Ends :
    (fuel deadline : ℕ) (s : Seen)
    → deadline * 1000 < s.now + fuel
    → 0 < fuel
    → Ends s (wait_loop fuel deadline)
unfolding wait_loop
wait_loop-Ends zero deadline s h p = absurd (omega arith)
wait_loop-Ends (suc fuel) deadline s h p = Ends-timer s _ λ us t later known.
    Ends-test t (ltb (us / 1000) deadline) _ _
      (λ early.
        let before : us / 1000 < deadline = ltb→lt (us / 1000) deadline early in
        Ends-bind t should_abort _ (should_abort-Ends t) λ stop u l.
          Ends-branch u stop _ _ (Ends-done u _) (
            Ends-ask u _ _ λ _ w m.
              wait_loop-Ends fuel deadline w (omega (arith, before)) (omega (arith, before))))
      (Ends-done t _)

pub wait_abortable-Ends :
    (fuel duration : ℕ) (s : Seen) → 1000 * duration < fuel → Ends s (wait_abortable fuel duration)
unfolding wait_abortable
wait_abortable-Ends fuel duration s f =
    deadline_after-Ends duration (λ deadline. wait_loop fuel deadline) s
      (λ deadline t h. wait_loop-Ends fuel deadline t (omega arith) (omega arith))

-- ===== src/Stress/Duties.antt =====
-- The load loops give back what they take, on every path.
use dragon_bench.Common.{
  ℕ, zero, suc, ◌≡◌, refl, false, Option, none, some, List, [], ◌∷◌, Text, snprintf, decimal,
}
use dragon_bench.Run.{Request}
use dragon_bench.Prog.{timer, free, Prog, Partition, on_option}
use dragon_bench.Prog.Protocol.{Follows, Follows-then, Follows-branch}
use dragon_bench.Prog.Duties.{
  duty_protocol, Settles-nvs_open, Follows-getaddrinfo, Follows-open_socket, Settles-malloc, Duties,
  opened, Newest, Settles, Settles-done, Settles-ask, Settles-bind, Settles-branch, duty_rules,
}
use dragon_bench.Stress.{
  should_abort, wait_loop, wait_abortable, Round, go_on, break_off, on_round, timed_loop, Cpu,
  cpu_body, run_cpu, nvs_body, run_nvs, flash_body, partition_cycle, try_addresses, connect_peer,
  network_body, run_network, Cycle, Traffic,
}

pub should_abort-Settles : (d : Duties) → Settles d d should_abort
unfolding should_abort
should_abort-Settles d = search duty_rules depth 20

wait_loop-Settles : (fuel deadline : ℕ) (d : Duties) → Settles d d (wait_loop fuel deadline)
unfolding wait_loop
wait_loop-Settles zero deadline d = search duty_rules
wait_loop-Settles (suc fuel) deadline d =
    search (duty_rules, wait_loop-Settles fuel deadline) depth 30

pub wait_abortable-Settles :
    (fuel duration : ℕ) (d : Duties) → Settles d d (wait_abortable fuel duration)
unfolding wait_abortable
wait_abortable-Settles fuel duration d = search (duty_rules, wait_loop-Settles) depth 30

on_round-Settles :
    {S B : Type 0} (d : Duties) (r : Round S) (x y : S → Prog B)
    → ((s : S) → Settles d d (x s))
    → ((s : S) → Settles d d (y s))
    → Settles d d (on_round r x y)
unfolding on_round
on_round-Settles d (go_on s) x y h k = h s
on_round-Settles d (break_off s) x y h k = k s

timed_loop-Settles :
    {S : Type 0} (d : Duties) (fuel deadline : ℕ) (body : S → Prog (Round S)) (s : S)
    → ((t : S) → Settles d d (body t))
    → Settles d d (timed_loop fuel deadline body s)
unfolding timed_loop
timed_loop-Settles d zero deadline body s h = search duty_rules
timed_loop-Settles {S} d (suc fuel) deadline body s h =
    search
      (
        duty_rules,
        should_abort-Settles,
        on_round-Settles,
        λ (s' : S). timed_loop-Settles d fuel deadline body s' h,
      )
      depth 30

cpu_body-Settles : (d : Duties) (s : Cpu) → Settles d d (cpu_body s)
unfolding cpu_body
cpu_body-Settles d s = search duty_rules depth 10

pub run_cpu-Settles : (fuel duration : ℕ) (d : Duties) → Settles d d (run_cpu fuel duration)
unfolding run_cpu
run_cpu-Settles fuel duration d =
    search (duty_rules, timed_loop-Settles, cpu_body-Settles, should_abort-Settles) depth 30

nvs_body-Settles :
    (handle : ℕ) (d : Duties) (s : Cycle)
    → Newest handle d.handles
    → Settles d d (nvs_body handle s)
unfolding nvs_body
nvs_body-Settles handle d s h = search (duty_rules, h) depth 30

pub run_nvs-Settles :
    (fuel duration bytes : ℕ) (d : Duties) → Settles d d (run_nvs fuel duration bytes)
unfolding run_nvs
run_nvs-Settles fuel duration bytes d =
    Settles-nvs_open d d _ _ _ _ (Settles-done d (false, bytes)) λ handle.
      let inner : Duties = record d { handles = handle ∷ d.handles } in
      Settles-ask inner d timer _ tt λ us.
        Settles-bind _ _ inner d
          (timed_loop-Settles inner fuel _ (nvs_body handle) _
            (λ s. nvs_body-Settles handle inner s refl))
          λ s. Settles-ask inner d _ _ refl λ _. Settles-ask inner d _ _ refl λ _.
            Settles-ask inner d _ _ refl λ _. search (duty_rules, should_abort-Settles) depth 20

flash_body-Settles : (p : Partition) (d : Duties) (s : Cycle) → Settles d d (flash_body p s)
unfolding flash_body
flash_body-Settles p d s = search duty_rules depth 40

pub partition_cycle-Settles :
    (fuel : ℕ) (p : Option Partition) (duration bytes : ℕ) (d : Duties)
    → Settles d d (partition_cycle fuel p duration bytes)
unfolding partition_cycle
partition_cycle-Settles fuel none duration bytes d = Settles-done d (false, bytes)
partition_cycle-Settles fuel (some p) duration bytes d = Settles-ask d d _ _ tt λ running.
    Settles-branch d d _ _ _ (Settles-done d (false, bytes)) (
      Settles-malloc d d _ _ _ (Settles-done d (false, bytes)) (
        let inner : Duties = record d { memory = 8192 ∷ d.memory } in
        Settles-ask inner d timer _ tt λ us.
          Settles-bind _ _ inner d
            (timed_loop-Settles inner fuel _ (flash_body p) _ (λ s. flash_body-Settles p inner s))
            λ s.
              Settles-bind should_abort _ inner d (should_abort-Settles inner)
                λ stop. Settles-ask inner d free _ tt λ _. Settles-done d _))

-- What a connection leaves open.
abbrev with_socket : Duties → Option ℕ → Duties
with_socket d fd = record d { sockets = opened fd d.sockets }

try_addresses-duties :
    (addresses : List ℕ) (d : Duties)
    → Follows duty_protocol (try_addresses addresses) d (λ fd t. t ≡ with_socket d fd)
unfolding try_addresses
try_addresses-duties [] d = refl
try_addresses-duties (address ∷ rest) d =
    Follows-open_socket d _ address _ _ (try_addresses-duties rest d) λ fd. (
      refl,
      λ connected _.
          Follows-branch duty_protocol connected _ _ _ _ (λ _. refl)
            (λ _. (refl, λ _ _. try_addresses-duties rest d)),
    )

connect_peer-duties :
    (host : Text) (port : ℕ) (d : Duties)
    → Follows duty_protocol (connect_peer host port) d (λ fd t. t ≡ with_socket d fd)
unfolding connect_peer
connect_peer-duties host port d =
    Follows-getaddrinfo d _ host (snprintf 6 (decimal 5 port)) _ _ refl λ found.
      let inner : Duties = record d { addresses = found ∷ d.addresses } in
      Follows-then duty_protocol (try_addresses found) _ inner (λ fd t. t ≡ with_socket inner fd)
        (λ fd t. t ≡ with_socket d fd) (try_addresses-duties found inner)
        (λ fd t e. rw e (tt, λ _ _. refl))

-- The two outcomes of a connection.
Follows-peer :
    {B : Type 0} (o : Option ℕ) (x : Prog B) (y : ℕ → Prog B) (d : Duties) (Q : B → Duties → Type 0)
    → Follows duty_protocol x d Q
    → ((fd : ℕ) → Follows duty_protocol (y fd) (with_socket d (some fd)) Q)
    → Follows duty_protocol (on_option o x y) (with_socket d o) Q
unfolding on_option
Follows-peer none x y d Q h k = h
Follows-peer (some fd) x y d Q h k = k fd

network_body-Settles :
    (q : Request) (fd : ℕ) (d : Duties) (s : Traffic)
    → Newest fd d.sockets
    → Settles d d (network_body q fd s)
unfolding network_body
network_body-Settles q fd d s h = search (duty_rules, h) depth 40

pub run_network-Settles :
    (fuel : ℕ) (q : Request) (tx rx : ℕ) (d : Duties) → Settles d d (run_network fuel q tx rx)
unfolding run_network Settles
run_network-Settles fuel q tx rx d =
    Follows-then duty_protocol (connect_peer q.host q.port) _ d (λ fd t. t ≡ with_socket d fd)
      (λ _ t. t ≡ d) (connect_peer-duties q.host q.port d)
      (λ peer t e. rw e (
        Follows-peer peer _ _ d (λ _ u. u ≡ d) refl
          λ fd.
            let inner : Duties = with_socket d (some fd) in
            (
              tt,
              λ block _. (
                tt,
                λ us _.
                    Follows-then duty_protocol (timed_loop fuel _ (network_body q fd) _) _ inner
                      (λ _ u. u ≡ inner) (λ _ u. u ≡ d)
                      (timed_loop-Settles inner fuel _ (network_body q fd) _
                        (λ s. network_body-Settles q fd inner s refl))
                      (λ s u same.
                        rw same (
                          refl,
                          λ _ _. (refl, λ _ _. (tt, λ _ _. (tt, λ _ _. (tt, λ _ _. refl)))),
                        )),
              ),
            )))

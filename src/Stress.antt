-- ===== src/Stress.antt =====
-- The loops that put a load on the device, in firmware/targets/esp32s3/main/main.c: uptime_ms,
-- should_abort, wait_abortable, run_cpu, run_nvs, partition_cycle, connect_peer and run_network.
-- Each takes the fuel of its loop. A function that writes through a pointer takes the old value and
-- returns the new one.
pub mod Clock
pub mod Duties
pub mod Quiet
pub mod Ends
pub mod Flash
use Prim.Native.Nat.{bit_xor}
use dragon_bench.Common.{
  ℕ, zero, suc, ◌+◌, ◌*◌, ◌/◌, ◌%◌, ◌^◌, Bool, true, false, ◌&&◌, not, Option, none, some, List, [],
  ◌∷◌, ◌++◌, length, drop, Text, codes, text_eq, snprintf, decimal, ltb, ◌==◌, if◌then◌else◌,
}
use dragon_bench.Run.{Workload, net_tx, net_rx, Request}
use dragon_bench.Prog.{
  Partition, Prog, branch, on_option, done, out_of_fuel, call, ◌>>=◌, ◌>>◌, timer, delay,
  task_yield, take_lock, give_lock, get_run, fill_random, malloc, free, nvs_open, nvs_set_blob,
  nvs_commit, nvs_erase_key, nvs_close, running_partition, erase_range, flash_write, flash_read,
  getaddrinfo, freeaddrinfo, open_socket, connect, send, recv, shutdown, close,
}

abbrev pub io_block : ℕ
io_block = 4096

abbrev pub flash_erase_block : ℕ
flash_erase_block = 4096

-- uptime_ms
unfoldable pub uptime_ms : Prog ℕ
uptime_ms = do us ← call timer; done (us / 1000)

-- should_abort
unfoldable pub should_abort : Prog Bool
should_abort = do call take_lock; run ← call get_run; call give_lock; done run.abort_requested

-- uptime_ms() + duration_ms, a uint64_t.
unfoldable pub deadline_after : ℕ → Prog ℕ
unfolding uptime_ms
deadline_after duration_ms = do now ← uptime_ms; done ((now + duration_ms) % 2 ^ 64)

-- The loop of wait_abortable.
unfoldable pub wait_loop : ℕ → ℕ → Prog Bool
unfolding uptime_ms should_abort
wait_loop zero deadline = out_of_fuel
wait_loop (suc fuel) deadline = do
  now ← uptime_ms
  branch (ltb now deadline)
      (do
        stop ← should_abort
        branch stop (done false) (do call (delay 20); wait_loop fuel deadline))
      (done true)

unfoldable pub wait_abortable : ℕ → ℕ → Prog Bool
unfolding deadline_after wait_loop
wait_abortable fuel duration_ms = do deadline ← deadline_after duration_ms; wait_loop fuel deadline

-- How a round of a loop ends: the loop goes on, or it breaks.
pub data Round (S : Type 0) : Type 0 where
  go_on : S → Round S
  break_off : S → Round S

unfoldable pub on_round : {S B : Type 0} → Round S → (S → Prog B) → (S → Prog B) → Prog B
on_round (go_on s) again out = again s
on_round (break_off s) again out = out s

-- while (uptime_ms() < deadline && !should_abort()) body
unfoldable pub timed_loop : {S : Type 0} → ℕ → ℕ → (S → Prog (Round S)) → S → Prog S
unfolding uptime_ms should_abort
timed_loop zero deadline body s = out_of_fuel
timed_loop (suc fuel) deadline body s = do
  now ← uptime_ms
  branch (ltb now deadline)
      (do
        stop ← should_abort
        branch stop (done s)
            (do round ← body s; on_round round (λ s'. timed_loop fuel deadline body s') done))
      (done s)

-- The inner loop of run_cpu with `n` rounds left, from the round `i`.
unfoldable pub cpu_rounds : ℕ → ℕ → ℕ → ℕ
cpu_rounds zero i x = x
cpu_rounds (suc n) i x = cpu_rounds n (i + 1) (bit_xor (bit_xor (x * 2 ^ 5 % 2 ^ 32) (x / 2 ^ 3)) i)

-- What run_cpu keeps: the word `x` and `*operations`.
pub record Cpu : Type 0 where
  pub x : ℕ
  pub operations : ℕ

unfoldable pub cpu_body : Cpu → Prog (Round Cpu)
unfolding cpu_rounds
cpu_body s = do
  let s' : Cpu = record { x = cpu_rounds 4096 0 s.x; operations = (s.operations + 4096) % 2 ^ 64 }
  call task_yield
  done (go_on s')

unfoldable pub run_cpu : ℕ → ℕ → Prog (Bool × ℕ)
unfolding deadline_after timed_loop cpu_body should_abort
run_cpu fuel duration_ms = do
  deadline ← deadline_after duration_ms
  s ← timed_loop fuel deadline cpu_body (record { x = 0x1234_5678; operations = 0 })
  stop ← should_abort
  done (not stop && not (s.x == 0), s.operations)

-- What run_nvs and partition_cycle keep: `*bytes`, `ok`, and the latter's offset.
pub record Cycle : Type 0 where
  pub offset : ℕ
  pub bytes : ℕ
  pub good : Bool

unfoldable pub nvs_body : ℕ → Cycle → Prog (Round Cycle)
nvs_body handle s = do
  block ← call (fill_random 512)
  written ← call (nvs_set_blob handle (codes "payload") block)
  branch written
      (do
        kept ← call (nvs_commit handle)
        branch kept (done (go_on (record s { bytes = (s.bytes + 512) % 2 ^ 64; good = true })))
            (done (break_off (record s { good = false }))))
      (done (break_off (record s { good = false })))

-- run_nvs; the bytes are left as they were if the storage cannot be opened.
unfoldable pub run_nvs : ℕ → ℕ → ℕ → Prog (Bool × ℕ)
unfolding deadline_after timed_loop nvs_body should_abort
run_nvs fuel duration_ms bytes = do
  opened ← call (nvs_open (codes "db_stress") true)
  on_option opened (done (false, bytes)) λ handle. do
    deadline ← deadline_after duration_ms
    s ← timed_loop fuel deadline (nvs_body handle) (record { offset = 0; bytes = 0; good = true })
    call (nvs_erase_key handle (codes "payload"))
    call (nvs_commit handle) >>= λ _. call (nvs_close handle)
    stop ← should_abort
    done (s.good && not stop, s.bytes)

-- offset + IO_BLOCK > partition->size, over a 32-bit size_t.
unfoldable pub wrap_offset : Partition → ℕ → ℕ
wrap_offset p offset = if ltb p.size ((offset + io_block) % 2 ^ 32) then 0 else offset

-- The end of a round that wrote and read its block back.
unfoldable pub flash_advance : Cycle → Prog (Round Cycle)
flash_advance s = do
  let s' : Cycle = record s {
    offset = (s.offset + io_block) % 2 ^ 32;
    bytes = (s.bytes + io_block) % 2 ^ 64;
  }
  call task_yield
  done (go_on s')

-- The part of a round from the write on.
unfoldable pub flash_check : Partition → Cycle → Prog (Round Cycle)
unfolding flash_advance
flash_check p s = do
  block ← call (fill_random io_block)
  written ← call (flash_write p s.offset block io_block)
  branch written
      (do
        found ← call (flash_read p s.offset io_block)
        on_option found (done (break_off (record s { good = false }))) λ back.
            branch (text_eq block back) (flash_advance s)
              (done (break_off (record s { good = false }))))
      (done (break_off (record s { good = false })))

unfoldable pub flash_body : Partition → Cycle → Prog (Round Cycle)
unfolding wrap_offset flash_check
flash_body p s = do
  let s' : Cycle = record s { offset = wrap_offset p s.offset }
  branch (s'.offset % flash_erase_block == 0)
      (do
        erased ← call (erase_range p s'.offset flash_erase_block)
        branch erased (flash_check p s') (done (break_off (record s' { good = false }))))
      (flash_check p s')

unfoldable pub partition_cycle : ℕ → Option Partition → ℕ → ℕ → Prog (Bool × ℕ)
unfolding deadline_after timed_loop flash_body should_abort
partition_cycle fuel none duration_ms bytes = done (false, bytes)
partition_cycle fuel (some p) duration_ms bytes = do
  running ← call running_partition
  branch (p.id == running.id) (done (false, bytes)) (do
    buffers ← call (malloc (io_block * 2))
    branch (not buffers) (done (false, bytes)) (do
      deadline ← deadline_after duration_ms
      s ← timed_loop fuel deadline (flash_body p) (record { offset = 0; bytes = 0; good = true })
      stop ← should_abort
      call free
      done (s.good && not stop, s.bytes)))

-- The loop of connect_peer over the addresses that are left.
unfoldable pub try_addresses : List ℕ → Prog (Option ℕ)
try_addresses [] = done none
try_addresses (address ∷ rest) = do
  socket ← call (open_socket address)
  on_option socket (try_addresses rest) λ fd. do
    connected ← call (connect fd address)
    branch connected (done (some fd)) (do call (close fd); try_addresses rest)

-- connect_peer; `none` is -1.
unfoldable pub connect_peer : Text → ℕ → Prog (Option ℕ)
unfolding try_addresses
connect_peer host port = do
  found ← call (getaddrinfo host (snprintf 6 (decimal 5 port)))
  on_option found (done none)
      λ addresses. do fd ← try_addresses addresses; call freeaddrinfo; done fd

-- What run_network keeps: `*tx`, `*rx`, the block that it sends and receives into, and `ok`.
pub record Traffic : Type 0 where
  pub tx : ℕ
  pub rx : ℕ
  pub block : Text
  pub good : Bool

abbrev pub sends : Workload → Bool
sends net_rx = false
sends _ = true

abbrev pub receives : Workload → Bool
receives net_tx = false
receives _ = true

-- (uint32_t)((IO_BLOCK * 8ULL * 1000ULL) / rate_bps)
unfoldable pub pacing_ms : ℕ → ℕ
pacing_ms rate_bps = io_block * 8 * 1000 / rate_bps % 2 ^ 32

unfoldable pub pace : Request → Traffic → Prog (Round Traffic)
unfolding pacing_ms
pace q s = branch (q.rate_bps == 0) (done (go_on s)) (
    branch (pacing_ms q.rate_bps == 0) (done (go_on s))
      (call (delay (pacing_ms q.rate_bps)) >> done (go_on s)))

unfoldable pub receive_part : Request → ℕ → Traffic → Prog (Round Traffic)
unfolding pace
receive_part q fd s =
    branch (receives q.workload)
      (do
        bytes ← call (recv fd io_block)
        let n : ℕ = length bytes
        let s' : Traffic = record s { block = bytes ++ drop n s.block }
        branch (n == 0) (done (break_off (record s' { good = false })))
            (pace q (record s' { rx = (s'.rx + n) % 2 ^ 64 })))
      (pace q s)

unfoldable pub network_body : Request → ℕ → Traffic → Prog (Round Traffic)
unfolding receive_part
network_body q fd s =
    branch (sends q.workload)
      (do
        n ← call (send fd s.block)
        branch (n == 0) (done (break_off (record s { good = false })))
            (receive_part q fd (record s { tx = (s.tx + n) % 2 ^ 64 })))
      (receive_part q fd s)

-- run_network; the counts are left as they were if there is no connection.
unfoldable pub run_network : ℕ → Request → ℕ → ℕ → Prog (Bool × ℕ × ℕ)
unfolding connect_peer deadline_after timed_loop network_body should_abort
run_network fuel q tx rx = do
  peer ← connect_peer q.host q.port
  on_option peer (done (false, tx, rx)) λ fd. do
    block ← call (fill_random io_block)
    deadline ← deadline_after q.duration_ms
    s ←
        timed_loop fuel deadline (network_body q fd)
          (record { tx = 0; rx = 0; block = block; good = true })
    call (shutdown fd)
    call (close fd)
    stop ← should_abort
    done (s.good && not stop, s.tx, s.rx)

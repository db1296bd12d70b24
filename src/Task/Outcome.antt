-- ===== src/Task/Outcome.antt =====
-- The texts of workload_task's events.
use dragon_bench.Common.{
  ℕ, ◌<◌, ◌≤◌, ◌^◌, ◌≡◌, ◌++◌, Text, codes, arith, length, length-append, decimal, print_u64,
  length-decimal, snprintf, snprintf_fits,
}
use dragon_bench.Run.{Request}
use dragon_bench.Run.Validate.{FitsFields}
use dragon_bench.Task.{parameters_text, metrics_text}

length-print_u64 : (n : ℕ) → n < 2 ^ 64 → length (print_u64 n) ≤ 20
unfolding print_u64
length-print_u64 n h = length-decimal 20 19 n (omega arith)

length-parameters_text : (q : Request) → FitsFields q → length (parameters_text q) < 384
unfolding parameters_text
length-parameters_text q f =
    let host_end : Text = codes "\",\"port\":" ++ (decimal 5 q.port ++ codes "}") in
    let host_part : Text = codes ",\"host\":\"" ++ (q.host ++ host_end) in
    let rate_part : Text = codes ",\"rate_bps\":" ++ (decimal 10 q.rate_bps ++ host_part) in
    omega (
      arith,
      f.host_fits,
      length-decimal 10 9 q.duration_ms (omega (arith, f.duration_fits)),
      length-decimal 10 9 q.rate_bps (omega (arith, f.rate_fits)),
      length-decimal 5 4 q.port (omega (arith, f.port_fits)),
      length-append {0} (codes "{\"duration_ms\":") (decimal 10 q.duration_ms ++ rate_part),
      length-append {0} (decimal 10 q.duration_ms) rate_part,
      length-append {0} (codes ",\"rate_bps\":") (decimal 10 q.rate_bps ++ host_part),
      length-append {0} (decimal 10 q.rate_bps) host_part,
      length-append {0} (codes ",\"host\":\"") (q.host ++ host_end),
      length-append {0} (q.host) host_end,
      length-append {0} (codes "\",\"port\":") (decimal 5 q.port ++ codes "}"),
      length-append {0} (decimal 5 q.port) (codes "}"),
    )

-- Numbers and a host that fit their fields leave the buffer of 384 bytes room to spare, so
-- snprintf cuts nothing of an event's parameters.
pub parameters_text_whole :
    (q : Request) → FitsFields q → snprintf 384 (parameters_text q) ≡ parameters_text q
parameters_text_whole q f = snprintf_fits 384 (parameters_text q) (length-parameters_text q f)

length-metrics_text : (a b : ℕ) → a < 2 ^ 64 → b < 2 ^ 64 → length (metrics_text a b) < 128
unfolding metrics_text
length-metrics_text a b ha hb =
    let rest : Text = codes ",\"bytes_rx\":" ++ (print_u64 b ++ codes "}") in
    omega (
      arith,
      length-print_u64 a ha,
      length-print_u64 b hb,
      length-append {0} (codes "{\"operations_or_bytes\":") (print_u64 a ++ rest),
      length-append {0} (print_u64 a) rest,
      length-append {0} (codes ",\"bytes_rx\":") (print_u64 b ++ codes "}"),
      length-append {0} (print_u64 b) (codes "}"),
    )

-- Two counts of 64 bits leave room in the buffer of 128 bytes, so snprintf cuts nothing of an
-- event's metrics.
pub metrics_text_whole :
    (a b : ℕ) → a < 2 ^ 64 → b < 2 ^ 64 → snprintf 128 (metrics_text a b) ≡ metrics_text a b
metrics_text_whole a b ha hb = snprintf_fits 128 (metrics_text a b) (length-metrics_text a b ha hb)

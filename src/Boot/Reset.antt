-- ===== src/Boot/Reset.antt =====
-- The marker of a controlled reboot from workload_task to app_main, and the texts of the reset.
use dragon_bench.Common.{
  ◌<◌, ◌≡◌, ◌≢◌, refl, true, [], ◌++◌, Text, codes, arith, length, length-append, snprintf,
  snprintf_fits,
}
use dragon_bench.Run.{run_id_len}
use dragon_bench.Prog.{Marker, ResetReason, rst_sw}
use dragon_bench.Task.{reboot_marker_magic}
use dragon_bench.Boot.{reset_name, recover_marker, reset_metrics_text, is_software}

-- The marker that `reboot` writes for a run.
abbrev pub marker_of : Text → Marker
marker_of run_id = record { magic = reboot_marker_magic; run_id = snprintf run_id_len run_id }

-- A boot after the software reset of a controlled reboot finds the identifier of the run that asked
-- for it, and the boot after that, whatever reset led to it, finds none.
pub recover_marker-marker_of :
    (run_id : Text) (next : ResetReason)
    → length run_id < run_id_len
    → ((recover_marker rst_sw (marker_of run_id)).1 ≡ run_id)
      × ((recover_marker next (recover_marker rst_sw (marker_of run_id)).0).1 ≡ [])
unfolding recover_marker
recover_marker-marker_of run_id next short = (
  rw (snprintf_fits run_id_len run_id short, snprintf_fits run_id_len run_id short) refl,
  ground arith,
)

-- Whatever the memory holds after a reset, the boot leaves no valid marker behind, and it reports a
-- run only after a software reset with a valid marker.
pub recover_marker_clears :
    (reason : ResetReason) (m : Marker)
    → ((recover_marker reason m).0.magic ≢ reboot_marker_magic)
      × ((recover_marker reason m).1 ≢ []
          → (is_software reason ≡ true) × (m.magic ≡ reboot_marker_magic))
unfolding recover_marker
recover_marker_clears reason m = (λ e. ground arith, λ h. ground arith)

reset_name_short : (reason : ResetReason) → length (reset_name reason) < 32
unfolding reset_name
reset_name_short reason = grind arith

-- For every reset the reason fits reset_reason_text and its event's metrics fit their buffer of 64
-- bytes, so snprintf cuts neither.
pub reset_texts_whole :
    (reason : ResetReason)
    → (snprintf 32 (reset_name reason) ≡ reset_name reason)
      × (snprintf 64 (reset_metrics_text (reset_name reason))
          ≡ reset_metrics_text (reset_name reason))
unfolding reset_metrics_text
reset_texts_whole reason = (
  snprintf_fits 32 (reset_name reason) (reset_name_short reason),
  snprintf_fits 64 (reset_metrics_text (reset_name reason)) (
      omega (
        arith,
        reset_name_short reason,
        length-append {0} (codes "{\"reason\":\"") (reset_name reason ++ codes "\"}"),
        length-append {0} (reset_name reason) (codes "\"}"),
      )),
)

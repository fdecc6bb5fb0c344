-- ===== src/Perf/Calls.antt =====
-- xpdk_perf.c: the calls for statistics, trim and write-zeros. None asks whether the library is
-- initialised.
use libxpdk.Prelude.{ℕ, Option, some, ◌==◌, if◌then◌else◌, length, ℤ}
use libxpdk.Api.{error_invalid}
use libxpdk.State.{
  MsgType, get_perf_stats_msg, reset_perf_stats_msg, trim_msg, write_zeros_msg, Sys,
}
use libxpdk.Spdk.{Spdk}
use libxpdk.Core.Sync.{sync_call}

module _ {R P W : Type 0} (spdk : Spdk R P W) (fuel : ℕ) where
  -- `xpdk_get_perf_stats`
  unfoldable pub get_perf_stats : ℤ → ℕ → Sys R P W → Option ℤ × Sys R P W
  get_perf_stats fd stats s =
      if stats == 0
      then (some error_invalid, s)
      else sync_call spdk fuel get_perf_stats_msg (λ msg. record msg { fd = fd; stats = stats })
          (λ rc _. rc) s

  -- `xpdk_reset_perf_stats`
  unfoldable pub reset_perf_stats : ℤ → Sys R P W → Option ℤ × Sys R P W
  reset_perf_stats fd s =
      sync_call spdk fuel reset_perf_stats_msg (λ msg. record msg { fd = fd; stats = 0 })
        (λ rc _. rc) s

  -- What `xpdk_trim` and `xpdk_write_zeros` share
  unfoldable pub range_call : MsgType → ℤ → ℕ → ℕ → Sys R P W → Option ℤ × Sys R P W
  range_call type fd offset length s =
      sync_call spdk fuel type (λ msg. record msg { fd = fd; offset = offset; length = length })
        (λ rc _. rc) s

  -- `xpdk_trim`
  unfoldable pub trim : ℤ → ℕ → ℕ → Sys R P W → Option ℤ × Sys R P W
  unfolding range_call
  trim fd offset length s = range_call trim_msg fd offset length s

  -- `xpdk_write_zeros`
  unfoldable pub write_zeros : ℤ → ℕ → ℕ → Sys R P W → Option ℤ × Sys R P W
  unfolding range_call
  write_zeros fd offset length s = range_call write_zeros_msg fd offset length s

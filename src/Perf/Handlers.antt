-- ===== src/Perf/Handlers.antt =====
-- xpdk_perf.c: the handlers of statistics, trim and write-zeros.
use libxpdk.Prelude.{ℕ, Bool, none, some, if◌then◌else◌, get_elem?, set, update}
use libxpdk.Api.{success, error_invalid, error_io}
use libxpdk.State.{Sys}
use libxpdk.Spdk.{Spdk}
use libxpdk.Core.Devices.{get_device, modify_device}
use libxpdk.Core.Messages.{finish}
use libxpdk.BlockMath.{block_offset, block_count}
use libxpdk.Perf.Stats.{overall_rates, perf_stats_reset}

module _ {R P W : Type 0} (spdk : Spdk R P W) where
  -- `xpdk_spdk_handle_get_perf_stats`
  unfoldable pub handle_get_perf_stats : ℕ → Sys R P W → Sys R P W
  handle_get_perf_stats m s = elim (get_device s.devices (s.msgs m).fd) [
    | none ↦ finish m error_invalid s
    | some i ↦ elim (get_elem? s.devices i) [
      | none ↦ s
      | some d ↦
          let d' = overall_rates (spdk.time_us s.world) d in
          finish m success (record s {
            devices = set s.devices i d';
            stats_out = update s.stats_out (s.msgs m).stats d'.perf_stats;
          })
    ]
  ]

  -- `xpdk_spdk_handle_reset_perf_stats`
  unfoldable pub handle_reset_perf_stats : ℕ → Sys R P W → Sys R P W
  handle_reset_perf_stats m s = elim (get_device s.devices (s.msgs m).fd) [
    | none ↦ finish m error_invalid s
    | some i ↦
        finish m success (record s {
          devices = modify_device s.devices i (perf_stats_reset (spdk.time_us s.world));
        })
  ]

  -- The two handlers that pass a range of blocks on to SPDK, which is not waited for. A slot in use
  -- with no handle would make SPDK dereference NULL; here it is left as it is.
  unfoldable pub handle_range : (W → ℕ → ℕ → ℕ → Bool × W) → ℕ → Sys R P W → Sys R P W
  handle_range operation m s = elim (get_device s.devices (s.msgs m).fd) [
    | none ↦ finish m error_invalid s
    | some i ↦ elim (get_elem? s.devices i) [
      | none ↦ s
      | some d ↦ elim d.bdev [
        | none ↦ s
        | some b ↦ elim d.desc [
          | none ↦ s
          | some desc ↦
              let msg = s.msgs m in
              let bs = spdk.bdev_get_block_size b in
              let (ok, w) =
                operation s.world desc (block_offset msg.offset bs) (block_count msg.length bs) in
              finish m (if ok then success else error_io) (record s { world = w })
        ]
      ]
    ]
  ]

  -- `xpdk_spdk_handle_trim`
  unfoldable pub handle_trim : ℕ → Sys R P W → Sys R P W
  unfolding handle_range
  handle_trim m s = handle_range spdk.bdev_unmap_blocks m s

  -- `xpdk_spdk_handle_write_zeros`
  unfoldable pub handle_write_zeros : ℕ → Sys R P W → Sys R P W
  unfolding handle_range
  handle_write_zeros m s = handle_range spdk.bdev_write_zeroes_blocks m s

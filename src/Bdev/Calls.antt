-- ===== src/Bdev/Calls.antt =====
-- xpdk_bdev.c: the calls that list, open, close and describe devices.
use libxpdk.Prelude.{
  ℕ, ◌||◌, not, Option, none, some, ◌==◌, if◌then◌else◌, ℤ, pos, is_pos, pos_part,
}
use libxpdk.Api.{Name, error_invalid}
use libxpdk.State.{open_msg, close_msg, list_bdevs_msg, get_info_msg, Sys}
use libxpdk.Spdk.{Spdk}
use libxpdk.Core.Sync.{sync_call, on_success}

module _ {R P W : Type 0} (spdk : Spdk R P W) (fuel : ℕ) where
  -- `xpdk_list_bdevs`
  unfoldable pub list_bdevs : ℕ → ℤ → Sys R P W → Option ℤ × Sys R P W
  list_bdevs devices max_devices s =
      if not s.initialized || devices == 0 || not (is_pos max_devices)
      then (some error_invalid, s)
      else sync_call spdk fuel list_bdevs_msg
          (λ msg. record msg { devices = devices; max_devices = pos_part max_devices })
          (on_success (λ msg. pos msg.list_count)) s

  -- `xpdk_open`; `none` is a NULL name.
  unfoldable pub open_bdev : Option Name → ℕ → Sys R P W → Option ℤ × Sys R P W
  open_bdev name flags s = if not s.initialized then (some error_invalid, s) else elim name [
    | none ↦ (some error_invalid, s)
    | some n ↦
        sync_call spdk fuel open_msg (λ msg. record msg { bdev_name = n; flags = flags })
          (on_success (λ msg. pos msg.result_fd)) s
  ]

  -- `xpdk_close`
  unfoldable pub close : ℤ → Sys R P W → Option ℤ × Sys R P W
  close fd s =
      if not s.initialized
      then (some error_invalid, s)
      else sync_call spdk fuel close_msg (λ msg. record msg { fd = fd }) (λ rc _. rc) s

  -- `xpdk_get_info`
  unfoldable pub get_info : ℤ → ℕ → Sys R P W → Option ℤ × Sys R P W
  get_info fd info s =
      if not s.initialized || info == 0
      then (some error_invalid, s)
      else sync_call spdk fuel get_info_msg (λ msg. record msg { fd = fd; info = info })
          (λ rc _. rc) s

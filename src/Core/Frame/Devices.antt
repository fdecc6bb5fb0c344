-- ===== src/Core/Frame/Devices.antt =====
-- What the handlers of devices, statistics and rate limits leave alone.
use libxpdk.Prelude.{ℕ, ◌≡◌, refl, inl, inr, Bool, false, some, arith, Option-cases}
use libxpdk.State.{Device, Sys}
use libxpdk.Spdk.{Spdk}
use libxpdk.Bdev.{
  closed_slot, handle_close, handle_get_info, open_claimed, handle_list_bdevs, handle_open,
}
use libxpdk.Qos.{handle_qos_set_limits, handle_qos_get_limits}
use libxpdk.Perf.Handlers.{handle_get_perf_stats, handle_reset_perf_stats, handle_range}
use libxpdk.Perf.Stats.{overall_rates, perf_stats_reset}
use libxpdk.Core.Devices.{IsTable, modify_device, get_device, find_free_fd, put_device}
use libxpdk.Events.Frame.{IsTable-modify_device, Keeps}
use libxpdk.Core.Devices.Table.{IsTable-set, find_free_fd-Opens, get_device-some}

module _ {R P W : Type 0} (spdk : Spdk R P W) where
  pub Keeps-handle_list_bdevs : (m : ℕ) (s : Sys R P W) → Keeps s (handle_list_bdevs spdk m s)
  unfolding handle_list_bdevs
  Keeps-handle_list_bdevs m s = record { same = ground arith; table = λ t. ground arith }

  pub Keeps-handle_get_info : (m : ℕ) (s : Sys R P W) → Keeps s (handle_get_info spdk m s)
  unfolding handle_get_info
  Keeps-handle_get_info m s = record { same = ground arith; table = λ t. ground arith }

  pub Keeps-handle_close : (m : ℕ) (s : Sys R P W) → Keeps s (handle_close spdk m s)
  unfolding handle_close
  Keeps-handle_close m s = elim (Option-cases (get_device s.devices (s.msgs m).fd)) [
    | inl e ↦ record { same = ground arith; table = λ t. ground arith }
    | inr (i, e) ↦
        let (d, _, _, g, _) = get_device-some s.devices (s.msgs m).fd i e in
        record {
          same = ground arith;
          table = λ t. ground (arith, IsTable-set s.devices i d (closed_slot spdk d) g refl t);
        }
  ]

  Keeps-open_claimed : (m b fd : ℕ) (s : Sys R P W) → Keeps s (open_claimed spdk m b fd s)
  unfolding open_claimed put_device
  Keeps-open_claimed m b fd s =
      let flags = (s.msgs m).flags in
      let f : Device → Device = λ d. record d { bdev = some b; flags = flags } in
      let ds = modify_device s.devices fd f in
      let stored : IsTable s.devices → IsTable ds =
        IsTable-modify_device s.devices fd f (λ d. refl) in
      let shut : IsTable s.devices → IsTable (put_device ds fd) = λ t.
        IsTable-modify_device ds fd (λ d. record d { in_use = false }) (λ d. refl) (stored t) in
      record { same = ground arith; table = λ t. ground (arith, stored t, shut t) }

  pub Keeps-handle_open : (m : ℕ) (s : Sys R P W) → Keeps s (handle_open spdk m s)
  unfolding handle_open
  Keeps-handle_open m s = elim (Option-cases (spdk.bdev_get_by_name s.world (s.msgs m).bdev_name)) [
    | inl e ↦ record { same = ground arith; table = λ t. ground arith }
    | inr (b, e) ↦ elim (Option-cases (find_free_fd s.devices)) [
      | inl e₁ ↦ record { same = ground arith; table = λ t. ground arith }
      | inr ((fd, ds), e₁) ↦
          let k = Keeps-open_claimed m b fd (record s { devices = ds }) in
          record {
            same = ground (arith, k.same);
            table = λ t. ground (arith, k.table (find_free_fd-Opens fd s.devices ds t e₁).table);
          }
    ]
  ]

  pub Keeps-handle_qos_set_limits :
      (m : ℕ) (s : Sys R P W) → Keeps s (handle_qos_set_limits spdk m s)
  unfolding handle_qos_set_limits
  Keeps-handle_qos_set_limits m s = record { same = ground arith; table = λ t. ground arith }

  pub Keeps-handle_qos_get_limits :
      (m : ℕ) (s : Sys R P W) → Keeps s (handle_qos_get_limits spdk m s)
  unfolding handle_qos_get_limits
  Keeps-handle_qos_get_limits m s = record { same = ground arith; table = λ t. ground arith }

  pub Keeps-handle_get_perf_stats :
      (m : ℕ) (s : Sys R P W) → Keeps s (handle_get_perf_stats spdk m s)
  unfolding handle_get_perf_stats overall_rates
  Keeps-handle_get_perf_stats m s = elim (Option-cases (get_device s.devices (s.msgs m).fd)) [
    | inl e ↦ record { same = ground arith; table = λ t. ground arith }
    | inr (i, e) ↦
        let (d, _, _, g, _) = get_device-some s.devices (s.msgs m).fd i e in
        let same : (overall_rates (spdk.time_us s.world) d).fd ≡ d.fd = ground arith in
        record {
          same = ground arith;
          table = λ t.
              ground (
                arith,
                IsTable-set s.devices i d (overall_rates (spdk.time_us s.world) d) g same t,
              );
        }
  ]

  pub Keeps-handle_reset_perf_stats :
      (m : ℕ) (s : Sys R P W) → Keeps s (handle_reset_perf_stats spdk m s)
  unfolding handle_reset_perf_stats perf_stats_reset
  Keeps-handle_reset_perf_stats m s = elim (Option-cases (get_device s.devices (s.msgs m).fd)) [
    | inl e ↦ record { same = ground arith; table = λ t. ground arith }
    | inr (i, e) ↦ record {
      same = ground arith;
      table = λ t. ground (
        arith,
        IsTable-modify_device s.devices i (perf_stats_reset (spdk.time_us s.world))
            (λ d. ground arith) t,
      );
    }
  ]

  pub Keeps-handle_range :
      (operation : W → ℕ → ℕ → ℕ → Bool × W) (m : ℕ) (s : Sys R P W)
      → Keeps s (handle_range spdk operation m s)
  unfolding handle_range
  Keeps-handle_range operation m s = record { same = ground arith; table = λ t. ground arith }

-- ===== src/Qos/Calls.antt =====
-- xpdk_qos.c: the calls that set and read rate limits. None asks whether the library is initialised.
use libxpdk.Prelude.{ℕ, Option, some, ◌==◌, if◌then◌else◌, ℤ, update}
use libxpdk.Api.{error_invalid}
use libxpdk.State.{qos_set_limits_msg, qos_get_limits_msg, Sys}
use libxpdk.Spdk.{Spdk}
use libxpdk.Core.Sync.{sync_call}
use libxpdk.Qos.{simple_limits, no_limits}

module _ {R P W : Type 0} (spdk : Spdk R P W) (fuel : ℕ) where
  -- `xpdk_qos_set_rate_limits`, at the address of an array of limits
  unfoldable pub set_rate_limits : ℤ → ℕ → Sys R P W → Option ℤ × Sys R P W
  set_rate_limits fd limits s =
      if limits == 0
      then (some error_invalid, s)
      else sync_call spdk fuel qos_set_limits_msg (λ msg. record msg { fd = fd; limits = limits })
          (λ rc _. rc) s

  -- `xpdk_qos_get_rate_limits`
  unfoldable pub get_rate_limits : ℤ → ℕ → Sys R P W → Option ℤ × Sys R P W
  get_rate_limits fd limits s =
      if limits == 0
      then (some error_invalid, s)
      else sync_call spdk fuel qos_get_limits_msg (λ msg. record msg { fd = fd; limits = limits })
          (λ rc _. rc) s

  -- `xpdk_qos_enable_simple`; `local` is the address of the array on its stack.
  unfoldable pub enable_simple : ℕ → ℤ → ℕ → ℕ → Sys R P W → Option ℤ × Sys R P W
  unfolding set_rate_limits
  enable_simple local fd iops bps s =
      set_rate_limits fd local
        (record s { limits_out = update s.limits_out local (simple_limits iops bps) })

  -- `xpdk_qos_disable`
  unfoldable pub disable : ℕ → ℤ → Sys R P W → Option ℤ × Sys R P W
  unfolding set_rate_limits
  disable local fd s =
      set_rate_limits fd local (record s { limits_out = update s.limits_out local no_limits })

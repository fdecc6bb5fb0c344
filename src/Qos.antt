-- ===== src/Qos.antt =====
-- xpdk_qos.c: rate limits.
pub mod Calls
pub mod Whole
use libxpdk.Prelude.{ℕ, none, some, List, [], ◌∷◌, ◌++◌, get_elem?, set, replicate, ℤ, update}
use Prim.Native.String.{String}
use libxpdk.Api.{
  RateLimit, rw_iops, rw_bps, r_bps, w_bps, num_rate_limit_types, success, error_invalid,
}
use libxpdk.State.{Device, Sys, qos_set}
use libxpdk.Spdk.{Spdk}
use libxpdk.Core.Devices.{get_device}
use libxpdk.Core.Messages.{finish}

-- `xpdk_qos_get_rate_limit_name`, with the table `qos_rate_limit_names`
unfoldable pub get_rate_limit_name : RateLimit → String
get_rate_limit_name rw_iops = "rw_iops"
get_rate_limit_name rw_bps = "rw_bps"
get_rate_limit_name r_bps = "r_bps"
get_rate_limit_name w_bps = "w_bps"
get_rate_limit_name num_rate_limit_types = "unknown"

-- The value of an enumerator, which is its index in an array of limits
abbrev pub limit_index : RateLimit → ℕ
limit_index rw_iops = 0
limit_index rw_bps = 1
limit_index r_bps = 2
limit_index w_bps = 3
limit_index num_rate_limit_types = 4

-- The array that `xpdk_qos_enable_simple` passes on
unfoldable pub simple_limits : ℕ → ℕ → List ℕ
simple_limits iops bps =
    set (set (replicate (limit_index num_rate_limit_types) 0) (limit_index rw_iops) iops)
      (limit_index rw_bps) bps

-- The array that `xpdk_qos_disable` passes on
unfoldable pub no_limits : List ℕ
no_limits = replicate (limit_index num_rate_limit_types) 0

-- The two handlers' way to the device: an error if the slot is not open, and `act` on its `bdev`.
-- (A slot in use with no `bdev` would hand NULL to SPDK; here it changes nothing.)
abbrev pub with_bdev {ℓ} : {S : Type ℓ} → List Device → ℤ → S → S → (ℕ → S) → S
with_bdev ds fd invalid fault act = elim (get_device ds fd) [
  | none ↦ invalid
  | some i ↦ elim (get_elem? ds i) [
    | none ↦ fault
    | some d ↦ elim d.bdev [ none ↦ fault | some b ↦ act b ]
  ]
]

module _ {R P W : Type 0} (spdk : Spdk R P W) where
  -- `xpdk_spdk_handle_qos_set_limits`
  unfoldable pub handle_qos_set_limits : ℕ → Sys R P W → Sys R P W
  handle_qos_set_limits m s = with_bdev s.devices (s.msgs m).fd (finish m error_invalid s) s λ b.
      record s {
        world = spdk.bdev_set_qos_rate_limits s.world b (s.limits_out (s.msgs m).limits);
        inflight = s.inflight ++ qos_set m ∷ [];
      }

  -- `xpdk_spdk_handle_qos_get_limits`
  unfoldable pub handle_qos_get_limits : ℕ → Sys R P W → Sys R P W
  handle_qos_get_limits m s = with_bdev s.devices (s.msgs m).fd (finish m error_invalid s) s λ b.
      finish m success (record s {
        limits_out =
            update s.limits_out (s.msgs m).limits (spdk.bdev_get_qos_rate_limits s.world b);
      })

-- ===== src/Bdev/Whole.antt =====
-- `xpdk_close` as a whole, from the call to its result.
mod Tests
pub mod Waits
use libxpdk.Prelude.{
  none, ◌≢◌, ℕ, suc, ◌≡◌, refl, ap, ◌∙◌, true, false, not, some, List, get_elem?, ℤ,
}
use libxpdk.State.{close_msg, Msg, Device, Sys}
use libxpdk.Api.{success}
use libxpdk.Spdk.{IsFifo, Spdk}
use libxpdk.Bdev.Calls.{close}
use libxpdk.Core.Answer.{taken}
use libxpdk.Core.Call.{msg_free_tables, sync_call_answers, filled_msg, Ready, filled}
use libxpdk.Core.Poller.{dispatch}
use libxpdk.Core.Devices.{get_device, IsTable}
use libxpdk.Core.Devices.Table.{Closes}
use libxpdk.Bdev.{handle_close}
use libxpdk.Core.Messages.{fresh_msg}
use libxpdk.Bdev.Slots.{handle_close-Closes}
use libxpdk.Core.Sync.{sync_call}

module _ {R P W : Type 0} (spdk : Spdk R P W) (queued : R → List ℕ) where
  -- `xpdk_close` of an open descriptor of an idle library succeeds, closes and clears that slot, changes no other,
  -- and its channel and its descriptor, if it has both, go back to SPDK, in that order. One round of the SPDK thread is enough.
  pub close-Closes :
      (fuel : ℕ) (fd : ℤ) (j : ℕ) (d : Device) (s : Sys R P W) (m : ℕ) (p p' : P) (r r' r'' : R)
      → IsFifo spdk queued
      → s.initialized ≡ true
      → Ready spdk queued s m p p' r r' r''
      → IsTable s.devices
      → get_device s.devices fd ≡ some j
      → get_elem? s.devices j ≡ some d
      → let (result, s') = close spdk (suc fuel) fd s in
        (result ≡ some success)
        × Closes s.devices j s'.devices
        × (get_elem? s'.devices j
            ≡ some
                (record d { channel = none; desc = none; bdev = none; flags = 0; in_use = false }))
        × ((i : ℕ) → j ≢ i → get_elem? s'.devices i ≡ get_elem? s.devices i)
        × ((c desc : ℕ)
            → d.channel ≡ some c
            → d.desc ≡ some desc
            → s'.world ≡ spdk.bdev_close (spdk.put_io_channel s.world c) desc)
  unfolding close dispatch
  close-Closes fuel fd j d s m p p' r r' r'' fifo init ready table found slot =
      let fill : Msg → Msg = λ msg. record msg { fd = fd } in
      let s₀ = taken spdk queued (filled spdk queued close_msg fill m p' s) r'' in
      let msg : s₀.msgs m ≡ fill (fresh_msg close_msg) =
        filled_msg spdk queued close_msg fill m p' s in
      let (closes, cleared, others, status, done, world) =
        handle_close-Closes spdk m j d s₀ table (rw msg found) slot in
      let call =
        sync_call_answers spdk queued fuel close_msg fill (λ rc _. rc) s m p p' r r' r'' fifo ready
          refl refl refl done in
      let guard : not s.initialized ≡ false = rw init refl in
      let s₂ = handle_close spdk m s₀ in
      let sent : close spdk (suc fuel) fd s
          ≡ sync_call spdk (suc fuel) close_msg fill (λ rc _. rc) s =
        rw guard refl in
      let (devices, _, same, _) = msg_free_tables spdk queued m s₂ in
      rw (sent ∙ call, devices)
        (
          ap some status,
          closes,
          cleared,
          others,
          λ c desc channel given. same ∙ world c desc channel given,
        )

-- ===== src/Bdev/Slots.antt =====
-- Opening and closing: what the handlers do to the table of devices.
use libxpdk.Prelude.{
  get_elem?-set_ne, get_elem?-lt, get_elem?-set_self, ◌≢◌, ℕ, suc, ◌≡◌, refl, ap, Bool, true, false,
  ◌||◌, none, some, List, arith, get_elem?, pos,
}
use libxpdk.State.{Device, Sys}
use libxpdk.Spdk.{Spdk}
use libxpdk.Bdev.{closed_slot, release_handles, open_claimed, handle_open, handle_close}
use libxpdk.Core.Messages.{finish, set_msg}
use libxpdk.Core.Devices.{put_device, open_count, modify_device, find_free_fd, get_device, IsTable}
use libxpdk.Core.Devices.Search.{find_free_fd-Claimed}
use libxpdk.Core.Devices.Table.{
  find_free_fd-Opens, Opens, put_device-Closes, Closes-set, get_device-some, Closes,
}
use libxpdk.Io.{o_wronly, o_rdwr, has_flag}
use libxpdk.Api.{error_io, success}
use libxpdk.Core.Devices.Modify.{Opens-modify_device, get_elem?-modify_device, Claimed-slot}

module _ {R P W : Type 0} (spdk : Spdk R P W) where
  -- `xpdk_close` of an open descriptor closes and clears that slot, changes no other, and succeeds; its channel and
  -- its descriptor, if it has both, go back to SPDK, in that order.
  pub handle_close-Closes :
      (m j : ℕ) (d : Device) (s : Sys R P W)
      → IsTable s.devices
      → get_device s.devices (s.msgs m).fd ≡ some j
      → get_elem? s.devices j ≡ some d
      → let s' = handle_close spdk m s in
        Closes s.devices j s'.devices
        × (get_elem? s'.devices j
            ≡ some
                (record d { channel = none; desc = none; bdev = none; flags = 0; in_use = false }))
        × ((i : ℕ) → j ≢ i → get_elem? s'.devices i ≡ get_elem? s.devices i)
        × ((s'.msgs m).status ≡ success)
        × ((s'.msgs m).completed ≡ true)
        × ((c desc : ℕ)
            → d.channel ≡ some c
            → d.desc ≡ some desc
            → s'.world ≡ spdk.bdev_close (spdk.put_io_channel s.world c) desc)
  unfolding handle_close release_handles
  handle_close-Closes m j d s t found slot =
      let (e, _, _, g, on) = get_device-some s.devices (s.msgs m).fd j found in
      let same : e ≡ d = cc in
      let used : d.in_use ≡ true = rw same at on in
      rw (handle_close, found, slot)
        (
          Closes-set s.devices j d (closed_slot spdk d) t slot used refl refl,
          get_elem?-set_self s.devices j (closed_slot spdk d) (get_elem?-lt s.devices j slot),
          λ i other. get_elem?-set_ne s.devices j i (closed_slot spdk d) other,
          ground arith,
          ground arith,
          λ c desc channel given. rw (channel, given) refl,
        )

  -- The state of an open that SPDK has been asked for, in slot `fd` for device `b`.
  claimed : ℕ → ℕ → ℕ → List Device → W → Sys R P W → Sys R P W
  claimed m b fd ds w s =
      let flags = (s.msgs m).flags in
      set_msg m (record (s.msgs m) { result_fd = fd })
        (record s {
          devices = modify_device ds fd (λ d. record d { bdev = some b; flags = flags });
          world = w;
        })

  -- What `xpdk_open` meets: a device `b` of that name, a free slot, and SPDK's answer.
  pub record Openable (m b fd : ℕ) (ds : List Device) (ok : Bool) (w : W) (s : Sys R P W)
      : Type 0 where
    pub table : IsTable s.devices
    pub name : spdk.bdev_get_by_name s.world (s.msgs m).bdev_name ≡ some b
    pub slot : find_free_fd s.devices ≡ some (fd, ds)
    pub answer :
        spdk.bdev_open_ext s.world
          (s.msgs m).bdev_name
          (has_flag (s.msgs m).flags o_rdwr || has_flag (s.msgs m).flags o_wronly)
        ≡ (ok, w)

  claimed-Opens :
      (m b fd : ℕ) (ds : List Device) (ok : Bool) (w : W) (s : Sys R P W)
      → Openable m b fd ds ok w s
      → (d : Device) × (get_elem? (claimed m b fd ds w s).devices fd ≡ some d)
        × (d.in_use ≡ true)
        × (d.bdev ≡ some b)
        × (d.flags ≡ (s.msgs m).flags)
        × Opens s.devices fd (claimed m b fd ds w s).devices
  unfolding claimed
  claimed-Opens m b fd ds ok w s o =
      let flags = (s.msgs m).flags in
      let f : Device → Device = λ d. record d { bdev = some b; flags = flags } in
      let c = find_free_fd-Claimed fd s.devices ds o.slot in
      let marked = record c.slot { in_use = true } in
      let at = Claimed-slot fd s.devices ds c in
      let opens = find_free_fd-Opens fd s.devices ds o.table o.slot in
      (
        f marked,
        get_elem?-modify_device ds fd f marked at,
        refl,
        refl,
        refl,
        Opens-modify_device s.devices ds fd f marked opens at refl refl refl,
      )

  -- An open that SPDK takes and does not report through its callback claims the slot, and nothing is
  -- in flight for its message.
  pub handle_open_unanswered :
      (m b fd : ℕ) (ds : List Device) (w : W) (s : Sys R P W)
      → Openable m b fd ds true w s
      → spdk.bdev_open_calls_back w (s.msgs m).bdev_name ≡ false
      → let s' = handle_open spdk m s in
        (get_device s'.devices (pos fd) ≡ some fd)
        × ((s'.msgs m).completed ≡ (s.msgs m).completed)
        × (s'.inflight ≡ s.inflight)
        × (open_count s'.devices ≡ suc (open_count s.devices))
  unfolding handle_open open_claimed claimed
  handle_open_unanswered m b fd ds w s o silent =
      let (_, _, _, _, _, opens) = claimed-Opens m b fd ds true w s o in
      let shape : handle_open spdk m s ≡ claimed m b fd ds w s =
        rw
          (
            handle_open,
            o.name,
            o.slot,
            open_claimed,
            ap (λ q. q.0) o.answer,
            ap (λ q. q.1) o.answer,
            silent,
          )
          refl in
      rw shape (opens.is_open, ground arith, refl, opens.counted)

  handle_open_rejects :
      (m b fd : ℕ) (ds : List Device) (w : W) (s : Sys R P W)
      → Openable m b fd ds false w s
      → let s₁ = claimed m b fd ds w s in
        handle_open spdk m s ≡ finish m error_io (record s₁ { devices = put_device s₁.devices fd })
  unfolding handle_open open_claimed claimed
  handle_open_rejects m b fd ds w s o =
      rw (handle_open, o.name, o.slot, open_claimed, ap (λ q. q.0) o.answer, ap (λ q. q.1) o.answer)
        refl

  -- An open that SPDK refuses at once is reported as an I/O error, and its slot is closed again: as
  -- many slots are in use as before.
  pub handle_open_refused :
      (m b fd : ℕ) (ds : List Device) (w : W) (s : Sys R P W)
      → Openable m b fd ds false w s
      → let s' = handle_open spdk m s in
        ((s'.msgs m).status ≡ error_io)
        × ((s'.msgs m).completed ≡ true)
        × (get_device s'.devices (pos fd) ≡ none)
        × (open_count s'.devices ≡ open_count s.devices)
        × IsTable s'.devices
  handle_open_refused m b fd ds w s o =
      let s₁ = claimed m b fd ds w s in
      let (_, _, _, _, _, opens) = claimed-Opens m b fd ds false w s o in
      let shut = put_device-Closes s₁.devices (pos fd) fd opens.table opens.is_open in
      rw (handle_open_rejects m b fd ds w s o) (
        ground arith,
        ground arith,
        shut.is_closed,
        omega (arith, shut.counted, opens.counted),
        shut.table,
      )

-- ===== src/Bdev.antt =====
-- xpdk_bdev.c: the handlers of listing, opening, closing and describing block devices.
mod Tests
pub mod Calls
pub mod Slots
pub mod Whole
pub mod Listing
use libxpdk.Prelude.{
  ℕ, ◌+◌, ◌*◌, false, ◌||◌, none, some, List, [], ◌∷◌, ◌++◌, leb, if◌then◌else◌, get_elem?, set,
  take, update,
}
use libxpdk.Api.{u64, Name, BdevInfo, success, error_invalid, error_nomem, error_io, error_nodev}
use libxpdk.State.{Device, Sys, opened}
use libxpdk.Spdk.{Spdk}
use libxpdk.Core.Devices.{find_free_fd, get_device, put_device, modify_device}
use libxpdk.Core.Messages.{set_msg, finish}
use libxpdk.Io.{has_flag, o_wronly, o_rdwr}

-- `strncpy` into `char name[256]` and the NUL after it: at most 255 bytes stay.
abbrev pub copy_name : Name → Name
copy_name name = take 255 name

module _ {R P W : Type 0} (spdk : Spdk R P W) where
  -- What both users of `struct xpdk_bdev_info` fill in for a device
  unfoldable pub describe : ℕ → BdevInfo
  describe b =
      let bs = spdk.bdev_get_block_size b in
      let blocks = spdk.bdev_get_num_blocks b in
      record {
        name = copy_name (spdk.bdev_get_name b);
        block_size = bs;
        num_blocks = blocks;
        capacity = u64 (bs * blocks);
      }

  -- `bdev_list_iter`, on the array that starts at `devices`, and its `count`
  unfoldable pub bdev_list_iter : ℕ → ℕ → ℕ → ℕ × (ℕ → BdevInfo) → ℕ × (ℕ → BdevInfo)
  unfolding describe
  bdev_list_iter devices max_devices b (count, infos) =
      if leb max_devices count
      then (count, infos)
      else (count + 1, update infos (devices + count) (describe b))

  -- `spdk_for_each_bdev` with that function
  unfoldable pub for_each_bdev : ℕ → ℕ → List ℕ → ℕ × (ℕ → BdevInfo) → ℕ × (ℕ → BdevInfo)
  unfolding bdev_list_iter
  for_each_bdev devices max_devices [] acc = acc
  for_each_bdev devices max_devices (b ∷ bs) acc =
      for_each_bdev devices max_devices bs (bdev_list_iter devices max_devices b acc)

  -- `xpdk_spdk_handle_list_bdevs`
  unfoldable pub handle_list_bdevs : ℕ → Sys R P W → Sys R P W
  unfolding for_each_bdev
  handle_list_bdevs m s =
      let msg = s.msgs m in
      let (count, infos) =
        for_each_bdev msg.devices msg.max_devices (spdk.bdevs s.world) (0, s.infos) in
      finish m success (set_msg m (record msg { list_count = count }) (record s { infos = infos }))

  -- `xpdk_spdk_handle_open` once a slot is claimed: the device and its flags are stored, and SPDK is
  -- asked to open it. What it will report through the callback is in flight, if it does.
  unfoldable pub open_claimed : ℕ → ℕ → ℕ → Sys R P W → Sys R P W
  open_claimed m b fd s =
      let flags = (s.msgs m).flags in
      let devices = modify_device s.devices fd (λ d. record d { bdev = some b; flags = flags }) in
      let (ok, w) =
        spdk.bdev_open_ext s.world (s.msgs m).bdev_name
          (has_flag flags o_rdwr || has_flag flags o_wronly) in
      let s₁ =
        set_msg m (record (s.msgs m) { result_fd = fd })
          (record s { devices = devices; world = w }) in
      let s₂ =
        if spdk.bdev_open_calls_back w (s.msgs m).bdev_name
        then record s₁ { inflight = s.inflight ++ opened m ∷ [] }
        else s₁ in
      if ok then s₂ else finish m error_io (record s₁ { devices = put_device devices fd })

  -- `xpdk_spdk_handle_open`
  unfoldable pub handle_open : ℕ → Sys R P W → Sys R P W
  unfolding open_claimed
  handle_open m s = elim (spdk.bdev_get_by_name s.world (s.msgs m).bdev_name) [
    | none ↦ finish m error_nodev s
    | some b ↦ elim (find_free_fd s.devices) [
      | none ↦ finish m error_nomem s
      | some (fd, devices) ↦ open_claimed m b fd (record s { devices = devices })
    ]
  ]

  -- The calls of `spdk_put_io_channel` and `spdk_bdev_close` on the handles that are not NULL
  unfoldable pub release_handles : Device → W → W
  release_handles d w =
      let w₁ : W = elim d.channel [ none ↦ w | some c ↦ spdk.put_io_channel w c ] in
      elim d.desc [ none ↦ w₁ | some desc ↦ spdk.bdev_close w₁ desc ]

  -- A slot after `xpdk_spdk_handle_close`
  abbrev pub closed_slot : Device → Device
  closed_slot d = record d { channel = none; desc = none; bdev = none; flags = 0; in_use = false }

  -- `xpdk_spdk_handle_close`
  unfoldable pub handle_close : ℕ → Sys R P W → Sys R P W
  unfolding release_handles
  handle_close m s = elim (get_device s.devices (s.msgs m).fd) [
    | none ↦ finish m error_invalid s
    | some i ↦ elim (get_elem? s.devices i) [
      | none ↦ s
      | some d ↦ finish m success (record s {
        devices = set s.devices i (closed_slot d);
        world = release_handles d s.world;
      })
    ]
  ]

  -- `xpdk_spdk_handle_get_info`
  unfoldable pub handle_get_info : ℕ → Sys R P W → Sys R P W
  unfolding describe
  handle_get_info m s = elim (get_device s.devices (s.msgs m).fd) [
    | none ↦ finish m error_invalid s
    | some i ↦ elim (get_elem? s.devices i) [
      | none ↦ s
      | some d ↦ elim d.bdev [
        | none ↦ finish m error_invalid s
        | some b ↦
            finish m success (record s { infos = update s.infos (s.msgs m).info (describe b) })
      ]
    ]
  ]

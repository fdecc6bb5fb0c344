-- ===== src/Io.antt =====
-- xpdk_io.c: the handlers of read, write and flush, which run on the SPDK thread.
mod Tests
pub mod Calls
pub mod Wait
pub mod Requests
pub mod Write
pub mod Read
pub mod Bounce
pub mod Early
pub mod Whole
pub mod Async
use libxpdk.Prelude.{
  ℕ, ◌%◌, bit_and, Bool, true, false, ◌&&◌, not, Option, none, some, List, [], ◌∷◌, ◌++◌, ◌==◌,
  if◌then◌else◌, get_elem?, replicate, ℤ, eq_ℤ, Memory, update, write_bytes,
}
use libxpdk.Api.{is_null, success, error_invalid, error_nomem, error_io}
use libxpdk.State.{
  Device, Msg, Sys, sync_io, async_io, Request, Direction, reading, writing, flushing,
}
use libxpdk.Spdk.{Spdk}
use libxpdk.Dma.{dma_malloc, dma_free}
use libxpdk.Core.Devices.{get_device}
use libxpdk.Core.Messages.{set_msg, finish}
use libxpdk.Vectored.Copy.{memcpy}
use libxpdk.Events.{wait_sync}
use libxpdk.BlockMath.{block_offset, block_count, buffer_size}

-- `O_RDONLY`, `O_WRONLY` and `O_RDWR` of fcntl.h
abbrev pub o_rdonly : ℕ
o_rdonly = 0

abbrev pub o_wronly : ℕ
o_wronly = 1

abbrev pub o_rdwr : ℕ
o_rdwr = 2

-- `flags & bit`, as a condition
abbrev pub has_flag : ℕ → ℕ → Bool
has_flag flags bit = not (bit_and flags bit == 0)

-- The handles of a device that is fit for I/O.
pub record Handles : Type 0 where
  pub bdev : ℕ
  pub desc : ℕ
  pub channel : ℕ
  pub flags : ℕ

abbrev pub handles : Device → Option Handles
handles d = elim d.bdev [
  | none ↦ none
  | some b ↦ elim d.desc [
    | none ↦ none
    | some desc ↦ elim d.channel [
      | none ↦ none
      | some c ↦ some (record { bdev = b; desc = desc; channel = c; flags = d.flags })
    ]
  ]
]

-- The guard of the three handlers: `xpdk_get_device`, and no handle is NULL
unfoldable pub io_device : List Device → ℤ → Option Handles
io_device ds fd = elim (get_device ds fd) [
  | none ↦ none
  | some i ↦ elim (get_elem? ds i) [ none ↦ none | some d ↦ handles d ]
]

-- `memset` to 0 and `memcpy` of the caller's bytes
abbrev pub fill_buffer : ℕ → ℕ → ℕ → ℕ → Memory → Memory
fill_buffer buffer size source count m =
    memcpy buffer source count (write_bytes m buffer (replicate size 0))

module _ {R P W : Type 0} (spdk : Spdk R P W) where
  -- The blocks that a read or a write asks for
  abbrev pub block_request : Direction → Handles → ℕ → Msg → Request
  block_request direction h buffer msg =
      let bs = spdk.bdev_get_block_size h.bdev in
      record {
        direction = direction;
        desc = h.desc;
        buffer = buffer;
        offset_blocks = block_offset msg.offset bs;
        num_blocks = block_count msg.count bs;
      }

  -- The completion context is set up and the request is handed to SPDK, with the callback for the
  -- kind of message; `none` is a result that is not 0.
  unfoldable pub submit_io : ℕ → Request → ℕ → Sys R P W → Bool × Sys R P W
  submit_io m req bytes s =
      let (ok, w) = spdk.submit s.world req in
      let event = if is_null (s.msgs m).callback then sync_io req m bytes else async_io req m in
      (
        ok,
        record s {
          world = w;
          sync_completed = update s.sync_completed m false;
          sync_status = update s.sync_status m success;
          inflight = if ok then s.inflight ++ event ∷ [] else s.inflight;
        },
      )

  -- A synchronous read from the submission to the end of its wait, before its copy
  unfoldable pub read_wait : ℕ → Handles → ℕ → Sys R P W → Sys R P W
  read_wait m h buffer s =
      let msg = s.msgs m in
      wait_sync spdk m (submit_io m (block_request reading h buffer msg) msg.count s).1

  -- The end of a synchronous read: the copy out of a bounce buffer, and its release
  unfoldable pub read_finish : ℕ → ℕ → Bool → Sys R P W → Sys R P W
  read_finish m buffer bounce s =
      if bounce && eq_ℤ (s.sync_status m) success
      then dma_free spdk buffer
          (record s { memory = memcpy (s.msgs m).buffer buffer (s.msgs m).count s.memory })
      else s

  -- `xpdk_spdk_handle_read` from the submission on
  unfoldable pub read_submit : ℕ → Handles → ℕ → Bool → Sys R P W → Sys R P W
  read_submit m h buffer bounce s =
      let msg = s.msgs m in
      let req = block_request reading h buffer msg in
      let (ok, s₁) = submit_io m req msg.count s in
      if not ok
      then finish m error_io (if bounce then dma_free spdk buffer s₁ else s₁)
      else if is_null msg.callback
      then read_finish m buffer bounce (wait_sync spdk m s₁)
      else s₁

  -- `xpdk_spdk_handle_read`
  unfoldable pub handle_read : ℕ → Sys R P W → Sys R P W
  handle_read m s =
      let msg = s.msgs m in
      elim (io_device s.devices msg.fd) [
        | none ↦ finish m error_invalid s
        | some h ↦
            let bs = spdk.bdev_get_block_size h.bdev in
            let (buffer, s₁) = dma_malloc spdk (buffer_size msg.count bs) bs s in
            if has_flag h.flags o_wronly
            then finish m error_invalid s
            else if msg.buffer % bs == 0 && msg.count % bs == 0
            then read_submit m h msg.buffer false s
            else elim buffer [
              | none ↦ finish m error_nomem s₁
              | some b ↦ read_submit m h b true (set_msg m (record (s₁.msgs m) { ctx = b }) s₁)
            ]
      ]

  -- `xpdk_spdk_handle_write` from the submission on
  unfoldable pub write_submit : ℕ → Handles → ℕ → Sys R P W → Sys R P W
  write_submit m h buffer s =
      let msg = s.msgs m in
      let req = block_request writing h buffer msg in
      let (ok, s₁) = submit_io m req msg.count s in
      if not ok
      then finish m error_io (dma_free spdk buffer s₁)
      else if is_null msg.callback
      then dma_free spdk buffer (wait_sync spdk m s₁)
      else s₁

  -- `xpdk_spdk_handle_write`
  unfoldable pub handle_write : ℕ → Sys R P W → Sys R P W
  handle_write m s =
      let msg = s.msgs m in
      elim (io_device s.devices msg.fd) [
        | none ↦ finish m error_invalid s
        | some h ↦
            let bs = spdk.bdev_get_block_size h.bdev in
            let size = buffer_size msg.count bs in
            let (buffer, s₁) = dma_malloc spdk size bs s in
            if has_flag h.flags o_rdonly then finish m error_invalid s else elim buffer [
              | none ↦ finish m error_nomem s₁
              | some b ↦ write_submit m h b (
                  set_msg m (record (s₁.msgs m) { ctx = b })
                    (record s₁ { memory = fill_buffer b size msg.buffer msg.count s₁.memory }))
            ]
      ]

  -- `xpdk_spdk_handle_flush`
  unfoldable pub handle_flush : ℕ → Sys R P W → Sys R P W
  handle_flush m s = elim (io_device s.devices (s.msgs m).fd) [
    | none ↦ finish m error_invalid s
    | some h ↦
        let req : Request = record {
          direction = flushing;
          desc = h.desc;
          buffer = 0;
          offset_blocks = 0;
          num_blocks = spdk.bdev_get_num_blocks h.bdev;
        } in
        let (ok, w) = spdk.submit s.world req in
        let s₁ = record s {
          world = w;
          sync_completed = update s.sync_completed m false;
          sync_status = update s.sync_status m success;
        } in
        if not ok
        then finish m error_io s₁
        else wait_sync spdk m (record s₁ { inflight = s.inflight ++ sync_io req m 0 ∷ [] })
  ]

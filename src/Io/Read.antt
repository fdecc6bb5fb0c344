-- ===== src/Io/Read.antt =====
-- A synchronous read, from the blocks of the device to the caller's buffer.
use libxpdk.Prelude.{
  ℕ, ◌+◌, ◌-◌, ◌*◌, ◌/◌, ◌%◌, ◌≡◌, refl, sym, ap, ◌∙◌, Bool, true, false, ◌&&◌, some, [], ◌∷◌, ◌++◌,
  arith, ◌==◌, length, read_bytes_prefix, Memory, read_bytes, write_bytes, length-read_bytes,
  read_bytes-write_bytes,
}
use libxpdk.Api.{null}
use libxpdk.State.{Sys, sync_io, reading}
use libxpdk.Spdk.{Spdk, IsDisk}
use libxpdk.Core.Messages.{set_msg}
use libxpdk.Events.{sync_io_completion_cb, deliver}
use libxpdk.BlockMath.{block_offset, block_count, buffer_size}
use libxpdk.BlockMath.Bounds.{Fits, block_count_covers}
use libxpdk.Io.{
  Handles, io_device, submit_io, read_submit, read_finish, handle_read, has_flag, o_wronly,
  block_request,
}
use libxpdk.Io.Wait.{wait_sync_one}
use libxpdk.Io.Requests.{deliver_sync, Ends, Servable, armed}

module _ {R P W : Type 0} (spdk : Spdk R P W) where
  pub read_submit_ok :
      (m : ℕ) (h : Handles) (b : ℕ) (bounce : Bool) (s : Sys R P W) (w : W)
      → (s.msgs m).callback ≡ null
      → s.inflight ≡ []
      → spdk.submit s.world (block_request spdk reading h b (s.msgs m)) ≡ (true, w)
      → read_submit spdk m h b bounce s
        ≡ read_finish spdk m b bounce (
            deliver spdk
              (sync_io (block_request spdk reading h b (s.msgs m)) m (s.msgs m).count)
              (armed m w s))
  unfolding read_submit submit_io
  read_submit_ok m h b bounce s w sync quiet taken =
      let req = block_request spdk reading h b (s.msgs m) in
      let bytes = (s.msgs m).count in
      let s₁ = record (armed m w s) { inflight = s.inflight ++ sync_io req m bytes ∷ [] } in
      ground (arith, wait_sync_one spdk m req bytes s₁)

  -- The request needs a bounce buffer: its address or its size is no multiple of the block size.
  abbrev pub is_aligned : ℕ → Handles → Sys R P W → Bool
  is_aligned m h s =
      let bs = spdk.bdev_get_block_size h.bdev in
      (s.msgs m).buffer % bs == 0 && (s.msgs m).count % bs == 0

  -- The state in which the bounce buffer `b` is given.
  abbrev pub bounced : ℕ → ℕ → W → Sys R P W → Sys R P W
  bounced m b w s =
      set_msg m (record (s.msgs m) { ctx = b }) (record s { world = w; dma_live = b ∷ s.dma_live })

  pub handle_read_aligned :
      (m : ℕ) (h : Handles) (s : Sys R P W)
      → io_device s.devices (s.msgs m).fd ≡ some h
      → has_flag h.flags o_wronly ≡ false
      → is_aligned m h s ≡ true
      → handle_read spdk m s ≡ read_submit spdk m h (s.msgs m).buffer false s
  unfolding handle_read
  handle_read_aligned m h s device readable aligned = ground arith

  pub handle_read-bounced :
      (m : ℕ) (h : Handles) (b : ℕ) (s : Sys R P W) (w : W)
      → io_device s.devices (s.msgs m).fd ≡ some h
      → has_flag h.flags o_wronly ≡ false
      → is_aligned m h s ≡ false
      → (let bs = spdk.bdev_get_block_size h.bdev in
          spdk.dma_malloc s.world (buffer_size (s.msgs m).count bs) bs ≡ (some b, w))
      → handle_read spdk m s ≡ read_submit spdk m h b true (bounced m b w s)
  unfolding handle_read
  handle_read-bounced m h b s w device readable unaligned given = ground arith

  -- What a read that SPDK did has left in its buffer, seen from the device.
  pub loaded_prefix :
      (disk : W → ℕ → Memory) (h : Handles) (b offset count : ℕ) (w w' : W) (mem mem' : Memory)
      → IsDisk spdk (spdk.bdev_get_block_size h.bdev) disk
      → Fits count (spdk.bdev_get_block_size h.bdev)
      → (let bs = spdk.bdev_get_block_size h.bdev in
          spdk.perform w mem (record {
            direction = reading;
            desc = h.desc;
            buffer = b;
            offset_blocks = block_offset offset bs;
            num_blocks = block_count count bs;
          })
          ≡ (true, mem', w'))
      → let bs = spdk.bdev_get_block_size h.bdev in
        read_bytes mem' b count ≡ read_bytes (disk w h.desc) (block_offset offset bs * bs) count
  loaded_prefix disk h b offset count w w' mem mem' law fits done =
      let bs = spdk.bdev_get_block_size h.bdev in
      let n = block_count count bs * bs in
      let start = block_offset offset bs * bs in
      let (_, covers, _) = block_count_covers count bs fits in
      let xs = read_bytes (disk w h.desc) start n in
      let rest : count + (n - count) ≡ n = omega (arith, covers) in
      let len : length xs ≡ n = length-read_bytes (disk w h.desc) start n in
      let whole : read_bytes mem' b n ≡ xs =
        ap (λ f. read_bytes f b n) (law.loaded w w' mem mem' _ refl done)
        ∙ ap (read_bytes (write_bytes mem b xs) b) (sym len)
        ∙ read_bytes-write_bytes mem b xs in
      read_bytes_prefix mem' (disk w h.desc) b start count (n - count) (rw rest whole)

  -- A synchronous read into an aligned buffer, when SPDK does it: the caller's buffer holds the bytes
  -- of the device from the start of the block of its offset on.
  pub handle_read_direct :
      (disk : W → ℕ → Memory) (m : ℕ) (h : Handles) (s : Sys R P W) (w₁ w₂ : W) (mem : Memory)
      → IsDisk spdk (spdk.bdev_get_block_size h.bdev) disk
      → Servable spdk m h s
      → has_flag h.flags o_wronly ≡ false
      → is_aligned m h s ≡ true
      → (let req = block_request spdk reading h (s.msgs m).buffer (s.msgs m) in
          (spdk.submit s.world req ≡ (true, w₁)) × (spdk.perform w₁ s.memory req ≡ (true, mem, w₂)))
      → let s' = handle_read spdk m s in
        let bs = spdk.bdev_get_block_size h.bdev in
        let msg = s.msgs m in
        Ends m true msg.count s s'
        × (read_bytes s'.memory msg.buffer msg.count
            ≡ read_bytes (disk s.world h.desc) (msg.offset / bs * bs) msg.count)
        × (disk s'.world ≡ disk s.world)
  unfolding read_finish sync_io_completion_cb block_offset
  handle_read_direct disk m h s w₁ w₂ mem law v readable aligned done =
      let b = (s.msgs m).buffer in
      let bs = spdk.bdev_get_block_size h.bdev in
      let req = block_request spdk reading h b (s.msgs m) in
      let e₁ = handle_read_aligned m h s v.device readable aligned in
      let e₂ = read_submit_ok m h b false s w₁ v.sync v.quiet done.0 in
      let e₃ = deliver_sync spdk m req (s.msgs m).count (armed m w₁ s) true mem w₂ done.1 in
      let kept : disk w₁ ≡ disk s.world = law.submit_keeps _ _ _ _ done.0 in
      rw (e₁, e₂, e₃)
        (
          record {
            completed = ground arith;
            status = ground arith;
            transferred = ground arith;
            live = refl;
            inflight = refl;
          },
          loaded_prefix disk h b (s.msgs m).offset (s.msgs m).count w₁ w₂ s.memory mem law v.fits
                done.1
              ∙ ap (λ d. read_bytes (d h.desc) ((s.msgs m).offset / bs * bs) (s.msgs m).count) kept,
          law.read_keeps _ _ _ _ _ refl done.1 ∙ kept,
        )

-- ===== src/Io/Bounce.antt =====
-- A synchronous read through a bounce buffer: how it ends, and what becomes of the buffer.
use libxpdk.Prelude.{
  ℕ, ◌*◌, ◌/◌, ◌≡◌, refl, sym, ap, ap₂, ◌∙◌, Bool, true, false, some, ◌∷◌, arith, Memory,
  read_bytes,
}
use libxpdk.Api.{success, error_io, null}
use libxpdk.State.{Sys, reading}
use libxpdk.Spdk.{Spdk, IsDisk}
use libxpdk.Events.{sync_io_completion_cb}
use libxpdk.BlockMath.{block_offset, buffer_size}
use libxpdk.Io.{Handles, read_finish, handle_read, has_flag, o_wronly, block_request}
use libxpdk.Io.Requests.{deliver_sync, Ends, Servable, armed}
use libxpdk.Dma.{dma_free}
use libxpdk.Vectored.Copy.{memcpy}
use libxpdk.Vectored.Gather.{memcpy_self}
use libxpdk.Io.Read.{is_aligned, bounced, read_submit_ok, handle_read-bounced, loaded_prefix}

module _ {R P W : Type 0} (spdk : Spdk R P W) where
  read_finish-success :
      (m b : ℕ) (s : Sys R P W)
      → s.sync_status m ≡ success
      → read_finish spdk m b true s
        ≡ dma_free spdk b
            (record s { memory = memcpy (s.msgs m).buffer b (s.msgs m).count s.memory })
  unfolding read_finish
  read_finish-success m b s h = ground arith

  -- The state in which a bounced spdk request has been reported.
  handle_read_reported :
      (m : ℕ) (h : Handles) (b : ℕ) (s : Sys R P W) (w₁ w₂ w₃ : W) (ok : Bool) (mem : Memory)
      → Servable spdk m h s
      → has_flag h.flags o_wronly ≡ false
      → is_aligned spdk m h s ≡ false
      → (let bs = spdk.bdev_get_block_size h.bdev in
          spdk.dma_malloc s.world (buffer_size (s.msgs m).count bs) bs ≡ (some b, w₁))
      → (let req = block_request spdk reading h b ((bounced spdk m b w₁ s).msgs m) in
          (spdk.submit w₁ req ≡ (true, w₂)) × (spdk.perform w₂ s.memory req ≡ (ok, mem, w₃)))
      → handle_read spdk m s
        ≡ read_finish spdk m b true (
            sync_io_completion_cb m
              ((bounced spdk m b w₁ s).msgs m).count
              ok
              (record (armed m w₂ (bounced spdk m b w₁ s)) { memory = mem; world = w₃ }))
  handle_read_reported m h b s w₁ w₂ w₃ ok mem v readable unaligned given done =
      let s₁ = bounced spdk m b w₁ s in
      let req = block_request spdk reading h b (s₁.msgs m) in
      let sync : (s₁.msgs m).callback ≡ null = ground (arith, v.sync) in
      handle_read-bounced spdk m h b s w₁ v.device readable unaligned given
      ∙ read_submit_ok spdk m h b true s₁ w₂ sync v.quiet done.0
      ∙ ap (read_finish spdk m b true)
          (deliver_sync spdk m req (s₁.msgs m).count (armed m w₂ s₁) ok mem w₃ done.1)

  -- A synchronous read that needs a bounce buffer, when SPDK does it: the caller's buffer holds the
  -- bytes of the device from the start of the block of its offset on, and the bounce buffer is freed.
  -- The device stays as it was.
  pub handle_read_bounce :
      (disk : W → ℕ → Memory) (m : ℕ) (h : Handles) (b : ℕ) (s : Sys R P W) (w₁ w₂ w₃ : W)
      (mem : Memory)
      → IsDisk spdk (spdk.bdev_get_block_size h.bdev) disk
      → Servable spdk m h s
      → has_flag h.flags o_wronly ≡ false
      → is_aligned spdk m h s ≡ false
      → (let bs = spdk.bdev_get_block_size h.bdev in
          spdk.dma_malloc s.world (buffer_size (s.msgs m).count bs) bs ≡ (some b, w₁))
      → (let req = block_request spdk reading h b ((bounced spdk m b w₁ s).msgs m) in
          (spdk.submit w₁ req ≡ (true, w₂)) × (spdk.perform w₂ s.memory req ≡ (true, mem, w₃)))
      → let s' = handle_read spdk m s in
        let bs = spdk.bdev_get_block_size h.bdev in
        let msg = s.msgs m in
        Ends m true msg.count s s'
        × (read_bytes s'.memory msg.buffer msg.count
            ≡ read_bytes (disk s.world h.desc) (msg.offset / bs * bs) msg.count)
        × (disk s'.world ≡ disk s.world)
  unfolding sync_io_completion_cb block_offset
  handle_read_bounce disk m h b s w₁ w₂ w₃ mem law v readable unaligned given done =
      let bs = spdk.bdev_get_block_size h.bdev in
      let buffer = (s.msgs m).buffer in
      let count = (s.msgs m).count in
      let s₁ = bounced spdk m b w₁ s in
      let s₂ =
        sync_io_completion_cb m (s₁.msgs m).count true
          (record (armed m w₂ s₁) { memory = mem; world = w₃ }) in
      let e₁ = handle_read_reported m h b s w₁ w₂ w₃ true mem v readable unaligned given done in
      let e₂ = read_finish-success m b s₂ (ground arith) in
      let req = block_request spdk reading h b (s.msgs m) in
      let same : block_request spdk reading h b (s₁.msgs m) ≡ req = ground arith in
      let performed : spdk.perform w₂ s.memory req ≡ (true, mem, w₃) =
        ap (spdk.perform w₂ s.memory) (sym same) ∙ done.1 in
      let kept : disk w₂ ≡ disk s.world =
        law.submit_keeps _ _ _ _ done.0 ∙ law.malloc_keeps _ _ _ _ _ given in
      let to : (s₂.msgs m).buffer ≡ buffer = ground arith in
      let many : (s₂.msgs m).count ≡ count = ground arith in
      rw (e₁, e₂)
        (
          record {
            completed = ground arith;
            status = ground arith;
            transferred = ground arith;
            live = ground arith;
            inflight = refl;
          },
          ap₂ (λ p n. read_bytes (memcpy p b n mem) buffer count) to many
              ∙ memcpy_self buffer b count mem
              ∙ loaded_prefix spdk disk h b (s.msgs m).offset count w₂ w₃ s.memory mem law v.fits
                  performed
              ∙ ap (λ d. read_bytes (d h.desc) ((s.msgs m).offset / bs * bs) count) kept,
          law.free_keeps w₃ b ∙ law.read_keeps _ _ _ _ _ refl performed ∙ kept,
        )

  -- A read through a bounce buffer that SPDK fails is reported as an I/O error, and its buffer is
  -- never freed.
  pub handle_read_leak :
      (m : ℕ) (h : Handles) (b : ℕ) (s : Sys R P W) (w₁ w₂ w₃ : W) (mem : Memory)
      → Servable spdk m h s
      → has_flag h.flags o_wronly ≡ false
      → is_aligned spdk m h s ≡ false
      → (let bs = spdk.bdev_get_block_size h.bdev in
          spdk.dma_malloc s.world (buffer_size (s.msgs m).count bs) bs ≡ (some b, w₁))
      → (let req = block_request spdk reading h b ((bounced spdk m b w₁ s).msgs m) in
          (spdk.submit w₁ req ≡ (true, w₂)) × (spdk.perform w₂ s.memory req ≡ (false, mem, w₃)))
      → let s' = handle_read spdk m s in
        ((s'.msgs m).status ≡ error_io)
        × ((s'.msgs m).completed ≡ true)
        × (s'.dma_live ≡ b ∷ s.dma_live)
  unfolding read_finish sync_io_completion_cb
  handle_read_leak m h b s w₁ w₂ w₃ mem v readable unaligned given done =
      rw (handle_read_reported m h b s w₁ w₂ w₃ false mem v readable unaligned given done)
        (ground arith, ground arith, ground arith)

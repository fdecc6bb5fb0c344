-- ===== src/Io/Write.antt =====
-- A synchronous write, from the caller's bytes to the blocks of the device.
use libxpdk.Prelude.{
  sym, ap₂, ap, ◌∙◌, ◌*◌, ◌/◌, refl, Bool, bit_and-zero, read_bytes_over_zeros, ℕ, ◌+◌, ◌-◌, ◌≤◌,
  ◌≡◌, true, some, [], ◌∷◌, ◌++◌, arith, length, replicate, length-replicate, Memory, read_bytes,
  write_bytes, Apart, length-read_bytes, read_bytes-write_bytes-Apart,
}
use libxpdk.Api.{null}
use libxpdk.State.{Sys, sync_io, writing}
use libxpdk.Spdk.{IsDisk, Spdk}
use libxpdk.Dma.{dma_free}
use libxpdk.Events.{sync_io_completion_cb, deliver}
use libxpdk.BlockMath.Bounds.{block_count_covers}
use libxpdk.Io.{
  handle_write, block_request, Handles, io_device, submit_io, write_submit, fill_buffer,
}
use libxpdk.Io.Wait.{wait_sync_one}
use libxpdk.Io.Requests.{Servable, armed, Ends, deliver_sync}
use libxpdk.BlockMath.{block_count, block_offset, buffer_size}
use libxpdk.Core.Messages.{set_msg}

-- What `fill_buffer` puts in the bounce buffer: the caller's bytes, and zeros up to its end.
pub fill_buffer_lem :
    (b size src count : ℕ) (m : Memory)
    → count ≤ size
    → Apart b size src count
    → read_bytes (fill_buffer b size src count m) b size
      ≡ read_bytes m src count ++ replicate (size - count) 0
fill_buffer_lem b size src count m fits apart =
    let zeroed = write_bytes m b (replicate size 0) in
    let rest = size - count in
    let same : read_bytes zeroed src count ≡ read_bytes m src count =
      read_bytes-write_bytes-Apart m b (replicate size 0) src count
        (rw (length-replicate {A = ℕ} size 0) apart) in
    let xs = read_bytes m src count in
    let len : length xs ≡ count = length-read_bytes m src count in
    let whole : length xs + rest ≡ size = omega (arith, len) in
    let over = read_bytes_over_zeros m b xs rest in rw same (rw whole at over)

module _ {R P W : Type 0} (spdk : Spdk R P W) where
  write_submit_ok :
      (m : ℕ) (h : Handles) (b : ℕ) (s : Sys R P W) (w : W)
      → (s.msgs m).callback ≡ null
      → s.inflight ≡ []
      → spdk.submit s.world (block_request spdk writing h b (s.msgs m)) ≡ (true, w)
      → write_submit spdk m h b s
        ≡ dma_free spdk b (
            deliver spdk
              (sync_io (block_request spdk writing h b (s.msgs m)) m (s.msgs m).count)
              (armed m w s))
  unfolding write_submit submit_io
  write_submit_ok m h b s w sync quiet taken =
      let req = block_request spdk writing h b (s.msgs m) in
      let bytes = (s.msgs m).count in
      let s₁ = record (armed m w s) { inflight = s.inflight ++ sync_io req m bytes ∷ [] } in
      ground (arith, wait_sync_one spdk m req bytes s₁)

  -- The state in which the bounce buffer `b` is filled.
  abbrev pub prepared : ℕ → Handles → ℕ → W → Sys R P W → Sys R P W
  prepared m h b w s =
      let msg = s.msgs m in
      let size = buffer_size msg.count (spdk.bdev_get_block_size h.bdev) in
      set_msg m (record msg { ctx = b })
        (record s {
          world = w;
          dma_live = b ∷ s.dma_live;
          memory = fill_buffer b size msg.buffer msg.count s.memory;
        })

  pub handle_write-some :
      (m : ℕ) (h : Handles) (b : ℕ) (s : Sys R P W) (w : W)
      → io_device s.devices (s.msgs m).fd ≡ some h
      → (let bs = spdk.bdev_get_block_size h.bdev in
          spdk.dma_malloc s.world (buffer_size (s.msgs m).count bs) bs ≡ (some b, w))
      → handle_write spdk m s ≡ write_submit spdk m h b (prepared m h b w s)
  unfolding handle_write
  handle_write-some m h b s w device given = ground (arith, bit_and-zero h.flags)

  -- A write that SPDK took is over when the handler returns, with the outcome that SPDK reported,
  -- and its bounce buffer is freed.
  handle_write-Ends :
      (m : ℕ) (h : Handles) (b : ℕ) (s : Sys R P W) (w₁ w₂ w₃ : W) (ok : Bool) (mem : Memory)
      → Servable spdk m h s
      → (let bs = spdk.bdev_get_block_size h.bdev in
          spdk.dma_malloc s.world (buffer_size (s.msgs m).count bs) bs ≡ (some b, w₁))
      → (let s₁ = prepared m h b w₁ s in
          let req = block_request spdk writing h b (s₁.msgs m) in
          (spdk.submit w₁ req ≡ (true, w₂)) × (spdk.perform w₂ s₁.memory req ≡ (ok, mem, w₃)))
      → let s' = handle_write spdk m s in
        Ends m ok (s.msgs m).count s s' × (s'.world ≡ spdk.dma_free w₃ b)
  unfolding sync_io_completion_cb
  handle_write-Ends m h b s w₁ w₂ w₃ ok mem v given done =
      let s₁ = prepared m h b w₁ s in
      let req = block_request spdk writing h b (s₁.msgs m) in
      let bytes = (s₁.msgs m).count in
      let e₁ = handle_write-some m h b s w₁ v.device given in
      let sync : (s₁.msgs m).callback ≡ null = ground (arith, v.sync) in
      let e₂ = write_submit_ok m h b s₁ w₂ sync v.quiet done.0 in
      let e₃ = deliver_sync spdk m req bytes (armed m w₂ s₁) ok mem w₃ done.1 in
      rw (e₁, e₂, e₃)
        (
          record {
            completed = ground arith;
            status = ground arith;
            transferred = ground arith;
            live = ground arith;
            inflight = refl;
          },
          refl,
        )

  -- A synchronous write that succeeds puts the caller's bytes on the device, from the block of its
  -- offset on, and zeros after them up to the end of the last block; no other byte of the device
  -- changes. The message says that all bytes went, and the bounce buffer is freed.
  pub handle_write_stores :
      (disk : W → ℕ → Memory) (m : ℕ) (h : Handles) (b : ℕ) (s : Sys R P W) (w₁ w₂ w₃ : W)
      (mem : Memory)
      → IsDisk spdk (spdk.bdev_get_block_size h.bdev) disk
      → Servable spdk m h s
      → (let bs = spdk.bdev_get_block_size h.bdev in
          spdk.dma_malloc s.world (buffer_size (s.msgs m).count bs) bs ≡ (some b, w₁))
      → (let bs = spdk.bdev_get_block_size h.bdev in
          Apart b (buffer_size (s.msgs m).count bs) (s.msgs m).buffer (s.msgs m).count)
      → (let s₁ = prepared m h b w₁ s in
          let req = block_request spdk writing h b (s₁.msgs m) in
          (spdk.submit w₁ req ≡ (true, w₂)) × (spdk.perform w₂ s₁.memory req ≡ (true, mem, w₃)))
      → let s' = handle_write spdk m s in
        let bs = spdk.bdev_get_block_size h.bdev in
        let msg = s.msgs m in
        Ends m true msg.count s s'
        × (disk s'.world h.desc
            ≡ write_bytes (disk s.world h.desc) (msg.offset / bs * bs) (
                read_bytes s.memory msg.buffer msg.count
                ++ replicate (block_count msg.count bs * bs - msg.count) 0))
  unfolding block_offset
  handle_write_stores disk m h b s w₁ w₂ w₃ mem law v given apart done =
      let bs = spdk.bdev_get_block_size h.bdev in
      let s₁ = prepared m h b w₁ s in
      let req = block_request spdk writing h b (s₁.msgs m) in
      let (ends, last) = handle_write-Ends m h b s w₁ w₂ w₃ true mem v given done in
      let kept : disk w₂ ≡ disk s.world =
        law.submit_keeps _ _ _ _ done.0 ∙ law.malloc_keeps _ _ _ _ _ given in
      let stored = law.stored w₂ w₃ s₁.memory mem req refl done.1 in
      let offset : req.offset_blocks ≡ (s.msgs m).offset / bs = ground arith in
      let blocks : req.num_blocks ≡ block_count (s.msgs m).count bs = ground arith in
      let put =
        λ (o n : ℕ). write_bytes (disk w₂ h.desc) (o * bs) (read_bytes s₁.memory b (n * bs)) in
      let (size, covers, _) = block_count_covers (s.msgs m).count bs v.fits in
      let filled =
        fill_buffer_lem b (buffer_size (s.msgs m).count bs) (s.msgs m).buffer (s.msgs m).count
          s.memory (omega (arith, size, covers)) apart in
      let place = (s.msgs m).offset / bs * bs in
      (
        ends,
        ap (λ w. disk w h.desc) last
            ∙ ap (λ d. d h.desc) (law.free_keeps w₃ b)
            ∙ stored
            ∙ ap₂ put offset blocks
            ∙ ap (λ n. write_bytes (disk w₂ h.desc) place (read_bytes s₁.memory b n)) (sym size)
            ∙ ap (write_bytes (disk w₂ h.desc) place) filled
            ∙ ap₂
                (λ d n. write_bytes (d h.desc) place (
                  read_bytes s.memory (s.msgs m).buffer (s.msgs m).count
                  ++ replicate (n - (s.msgs m).count) 0))
                kept size,
      )

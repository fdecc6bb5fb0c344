-- ===== src/Io/Early.antt =====
-- What a client of a read can see once its message is complete, while the handler may still run.
use libxpdk.Prelude.{
  ℕ, ◌*◌, ◌/◌, ◌≡◌, refl, sym, ap, ◌∙◌, true, false, some, [], ◌∷◌, ◌++◌, arith, Memory, read_bytes,
  Apart, length-read_bytes, read_bytes-write_bytes-Apart,
}
use libxpdk.Api.{success, null}
use libxpdk.State.{Sys, reading, sync_io}
use libxpdk.Spdk.{Spdk, IsDisk}
use libxpdk.Events.{deliver, sync_io_completion_cb}
use libxpdk.Io.{
  Handles, read_wait, read_finish, handle_read, has_flag, o_wronly, block_request, submit_io,
}
use libxpdk.Io.Requests.{deliver_sync, Servable, armed}
use libxpdk.Io.Read.{handle_read_aligned, is_aligned, bounced, read_submit_ok, handle_read-bounced}
use libxpdk.Io.Bounce.{handle_read_bounce}
use libxpdk.Io.Wait.{wait_sync_one}
use libxpdk.BlockMath.{block_count, block_offset, buffer_size}
use libxpdk.BlockMath.Bounds.{block_count_covers}

module _ {R P W : Type 0} (spdk : Spdk R P W) where
  read_wait_ok :
      (m : ℕ) (h : Handles) (b : ℕ) (s : Sys R P W) (w : W)
      → (s.msgs m).callback ≡ null
      → s.inflight ≡ []
      → spdk.submit s.world (block_request spdk reading h b (s.msgs m)) ≡ (true, w)
      → read_wait spdk m h b s
        ≡ deliver spdk
            (sync_io (block_request spdk reading h b (s.msgs m)) m (s.msgs m).count)
            (armed m w s)
  unfolding read_wait submit_io
  read_wait_ok m h b s w sync quiet taken =
      let req = block_request spdk reading h b (s.msgs m) in
      let bytes = (s.msgs m).count in
      let s₁ = record (armed m w s) { inflight = s.inflight ++ sync_io req m bytes ∷ [] } in
      ground (arith, wait_sync_one spdk m req bytes s₁)

  -- A synchronous read that needs a bounce buffer, which SPDK does, is complete before its data are
  -- there. After the wait of its handler the message says that it is completed, with success and with
  -- all its bytes, but the caller's buffer still holds what it held before the call, when the bounce
  -- buffer is apart from it; the rest of the handler then copies the bytes of the device, from the
  -- start of the block of the offset on, into it.
  pub read_visible_early :
      (disk : W → ℕ → Memory) (m : ℕ) (h : Handles) (b : ℕ) (s : Sys R P W) (w₁ w₂ w₃ : W)
      (mem : Memory)
      → IsDisk spdk (spdk.bdev_get_block_size h.bdev) disk
      → Servable spdk m h s
      → has_flag h.flags o_wronly ≡ false
      → is_aligned spdk m h s ≡ false
      → (let bs = spdk.bdev_get_block_size h.bdev in
          spdk.dma_malloc s.world (buffer_size (s.msgs m).count bs) bs ≡ (some b, w₁))
      → (let req = block_request spdk reading h b ((bounced spdk m b w₁ s).msgs m) in
          (spdk.submit w₁ req ≡ (true, w₂)) × (spdk.perform w₂ s.memory req ≡ (true, mem, w₃)))
      → Apart b
          (buffer_size (s.msgs m).count (spdk.bdev_get_block_size h.bdev))
          (s.msgs m).buffer
          (s.msgs m).count
      → let seen = read_wait spdk m h b (bounced spdk m b w₁ s) in
        let s' = handle_read spdk m s in
        let bs = spdk.bdev_get_block_size h.bdev in
        let msg = s.msgs m in
        ((seen.msgs m).completed ≡ true)
        × ((seen.msgs m).status ≡ success)
        × ((seen.msgs m).bytes_transferred ≡ msg.count)
        × (read_bytes seen.memory msg.buffer msg.count ≡ read_bytes s.memory msg.buffer msg.count)
        × (s' ≡ read_finish spdk m b true seen)
        × (read_bytes s'.memory msg.buffer msg.count
            ≡ read_bytes (disk s.world h.desc) (msg.offset / bs * bs) msg.count)
  unfolding sync_io_completion_cb
  read_visible_early disk m h b s w₁ w₂ w₃ mem law v readable unaligned given done apart =
      let bs = spdk.bdev_get_block_size h.bdev in
      let count = (s.msgs m).count in
      let s₁ = bounced spdk m b w₁ s in
      let req = block_request spdk reading h b (s₁.msgs m) in
      let sync : (s₁.msgs m).callback ≡ null = ground (arith, v.sync) in
      let waited =
        read_wait_ok m h b s₁ w₂ sync v.quiet done.0
        ∙ deliver_sync spdk m req (s₁.msgs m).count (armed m w₂ s₁) true mem w₃ done.1 in
      let whole =
        handle_read-bounced spdk m h b s w₁ v.device readable unaligned given
        ∙ read_submit_ok spdk m h b true s₁ w₂ sync v.quiet done.0
        ∙ ap (read_finish spdk m b true) (sym (read_wait_ok m h b s₁ w₂ sync v.quiet done.0)) in
      let (_, copied, _) =
        handle_read_bounce spdk disk m h b s w₁ w₂ w₃ mem law v readable unaligned given done in
      let (size, _, _) = block_count_covers count bs v.fits in
      let same : block_request spdk reading h b (s₁.msgs m)
          ≡ block_request spdk reading h b (s.msgs m) =
        ground arith in
      let start = block_offset (s.msgs m).offset bs * bs in
      let n = block_count count bs * bs in
      let loaded =
        law.loaded w₂ w₃ s.memory mem (block_request spdk reading h b (s.msgs m)) refl
          (ap (spdk.perform w₂ s.memory) (sym same) ∙ done.1) in
      let long = length-read_bytes (disk w₂ h.desc) start n in
      let kept : read_bytes mem (s.msgs m).buffer count
          ≡ read_bytes s.memory (s.msgs m).buffer count =
        rw loaded (
          read_bytes-write_bytes-Apart s.memory b (read_bytes (disk w₂ h.desc) start n)
            (s.msgs m).buffer count (rw (long, ← size) apart)) in
      (
        rw waited (ground arith),
        rw waited (ground arith),
        rw waited (ground arith),
        rw waited kept,
        whole,
        copied,
      )

  -- A synchronous read of whole blocks has nothing left to do after its wait: what a client can see
  -- once the message is complete is what the handler leaves.
  pub read_visible_whole :
      (m : ℕ) (h : Handles) (s : Sys R P W) (w : W)
      → Servable spdk m h s
      → has_flag h.flags o_wronly ≡ false
      → is_aligned spdk m h s ≡ true
      → spdk.submit s.world (block_request spdk reading h (s.msgs m).buffer (s.msgs m)) ≡ (true, w)
      → handle_read spdk m s ≡ read_wait spdk m h (s.msgs m).buffer s
  unfolding read_finish
  read_visible_whole m h s w v readable aligned taken =
      let b = (s.msgs m).buffer in
      handle_read_aligned spdk m h s v.device readable aligned
      ∙ read_submit_ok spdk m h b false s w v.sync v.quiet taken
      ∙ sym (read_wait_ok m h b s w v.sync v.quiet taken)

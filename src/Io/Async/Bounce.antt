-- ===== src/Io/Async/Bounce.antt =====
-- An asynchronous read that needs a bounce buffer, from the call to its callback.
use libxpdk.Prelude.{
  ℕ, ◌*◌, ◌%◌, ◌≡◌, refl, ap, ◌∙◌, true, false, ◌&&◌, List, [], ◌∷◌, arith, ◌==◌, ℤ, Memory,
  read_bytes, Apart, length-read_bytes, read_bytes-write_bytes-Apart,
}
use libxpdk.State.{read_msg, reading, async_io, Sys}
use libxpdk.Api.{success, user}
use libxpdk.Spdk.{IsFifo, IsDisk, Spdk}
use libxpdk.Io.{block_request, Handles}
use libxpdk.Io.Calls.{read_async}
use libxpdk.Core.Poller.{thread_poll, dispatch}
use libxpdk.BlockMath.Bounds.{block_count_covers, Fits}
use libxpdk.Io.Async.Read.{read_submit_async, CanReadAsync}
use libxpdk.BlockMath.{block_count, block_offset, buffer_size}
use libxpdk.Io.Whole.{started, Does, asked}
use libxpdk.Io.Async.Write.{completion_reports, deliver_async, Reported}
use libxpdk.Io.Async.{async_round, fill_async}
use libxpdk.Core.Call.{filled_msg}
use libxpdk.Io.Read.{handle_read-bounced, bounced}
use libxpdk.Io.Requests.{armed}
use libxpdk.Core.Late.{thread_poll_delivers}
use libxpdk.Events.{async_io_completion_cb}

module _ {R P W : Type 0} (spdk : Spdk R P W) (queued : R → List ℕ) where
  -- What SPDK reads into a bounce buffer stays apart from the caller's buffer.
  bounce-Apart :
      (disk : W → ℕ → Memory) (memory mem : Memory) (h : Handles) (b buffer count offset : ℕ)
      (w w' : W)
      → IsDisk spdk (spdk.bdev_get_block_size h.bdev) disk
      → Fits count (spdk.bdev_get_block_size h.bdev)
      → Apart b (buffer_size count (spdk.bdev_get_block_size h.bdev)) buffer count
      → spdk.perform w memory (asked spdk queued reading h b count offset) ≡ (true, mem, w')
      → read_bytes mem buffer count ≡ read_bytes memory buffer count
  bounce-Apart disk memory mem h b buffer count offset w w' law fits apart done =
      let bs = spdk.bdev_get_block_size h.bdev in
      let (size, _, _) = block_count_covers count bs fits in
      let start = block_offset offset bs * bs in
      let n = block_count count bs * bs in
      let loaded =
        law.loaded w w' memory mem (asked spdk queued reading h b count offset) refl done in
      let long = length-read_bytes (disk w h.desc) start n in
      rw loaded (
        read_bytes-write_bytes-Apart memory b (read_bytes (disk w h.desc) start n) buffer count
          (rw (long, ← size) apart))

  -- An asynchronous read that needs a bounce buffer loses its data: when SPDK takes and does it, the
  -- callback is called with success and the bounce buffer is freed, but nothing copies what was read,
  -- and the caller's buffer holds what it held before the call.
  pub read_async_bounced :
      (disk : W → ℕ → Memory) (fd : ℤ) (buffer count offset f ctx : ℕ) (s : Sys R P W) (m : ℕ)
      (p p' : P) (r r' r'' : R) (h : Handles) (b : ℕ) (w₁ w₂ w₃ : W) (mem : Memory)
      → IsFifo spdk queued
      → IsDisk spdk (spdk.bdev_get_block_size h.bdev) disk
      → CanReadAsync spdk queued fd buffer count s m p p' r r' r'' h
      → (let bs = spdk.bdev_get_block_size h.bdev in (buffer % bs == 0 && count % bs == 0) ≡ false)
      → Does spdk queued reading h count offset b s.memory mem s.world w₁ w₂ w₃
      → (b == 0) ≡ false
      → Apart b (buffer_size count (spdk.bdev_get_block_size h.bdev)) buffer count
      → let (rc, s₁) = read_async spdk fd buffer count offset (user f) ctx s in
        let s₃ = (thread_poll spdk (thread_poll spdk s₁).1).1 in
        (rc ≡ success)
        × Reported spdk queued f ctx success m p' s s₃
        × (read_bytes s₃.memory buffer count ≡ read_bytes s.memory buffer count)
  unfolding read_async dispatch
  read_async_bounced disk fd buffer count offset f ctx s m p p' r r' r'' h b w₁ w₂ w₃ mem fifo law
        can unaligned does nonnull apart =
      let fill = fill_async spdk queued fd buffer count offset f ctx in
      let (sent, round) =
        async_round spdk queued read_msg fd buffer count offset f ctx s m p p' r r' r'' fifo
          can.sends refl can.empty in
      let s₀ = started spdk queued read_msg fill m p' r'' s in
      let msg = filled_msg spdk queued read_msg fill m p' s in
      let s₁ = bounced spdk m b w₁ s₀ in
      let req : block_request spdk reading h b (s₁.msgs m)
          ≡ asked spdk queued reading h b count offset =
        ground (arith, msg) in
      let callback : (s₁.msgs m).callback ≡ user f = ground (arith, msg) in
      let context : (s₁.msgs m).user_ctx ≡ ctx = ground (arith, msg) in
      let buf : (s₁.msgs m).ctx ≡ b = ground arith in
      let e₁ =
        handle_read-bounced spdk m h b s₀ w₁ (rw msg can.device) can.readable (rw msg unaligned)
          (rw msg does.given) in
      let e₂ =
        read_submit_async spdk queued m h b true s₁ w₂ (rw callback refl) can.sends.ready.idle.quiet
          (rw req does.accepted) in
      let ev = async_io (block_request spdk reading h b (s₁.msgs m)) m in
      let s₂ = record (armed m w₂ s₁) { inflight = ev ∷ [] } in
      let e₃ = thread_poll_delivers spdk queued ev s₂ r'' fifo refl can.empty refl in
      let s₃ = record (armed m w₂ s₁) { memory = mem; world = w₃ } in
      let e₄ =
        deliver_async spdk queued m (block_request spdk reading h b (s₁.msgs m)) (armed m w₂ s₁)
          true mem w₃ (rw req does.done) in
      let end : (thread_poll spdk
            (thread_poll spdk (read_async spdk fd buffer count offset (user f) ctx s).1).1).1
          ≡ async_io_completion_cb spdk m true s₃ =
        ap (λ t. (thread_poll spdk t).1) (round ∙ e₁ ∙ e₂) ∙ e₃ ∙ e₄ in
      let (reported, _, memory) =
        completion_reports spdk queued m b f ctx true p' s.dma_live s₃ callback context buf nonnull
          refl refl refl in
      rw end (
        sent,
        record {
          called = reported.called;
          pool = reported.pool;
          live = reported.live;
          inflight = reported.inflight;
        },
        ap (λ k. read_bytes k buffer count) memory
            ∙ bounce-Apart disk s.memory mem h b buffer count offset w₂ w₃ law can.fits apart
                does.done,
      )

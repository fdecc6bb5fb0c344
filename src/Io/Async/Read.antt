-- ===== src/Io/Async/Read.antt =====
-- An asynchronous read, from the call to its callback.
use libxpdk.Prelude.{
  ℕ, ◌*◌, ◌/◌, ◌%◌, ◌≡◌, refl, ap, ◌∙◌, Bool, true, false, ◌&&◌, some, List, [], ◌∷◌, arith, ◌==◌,
  if◌then◌else◌, ℤ, Memory, read_bytes,
}
use libxpdk.State.{read_msg, reading, async_io, Sys}
use libxpdk.Api.{Callback, is_null, error_io, success, user}
use libxpdk.Spdk.{IsDisk, IsFifo, Spdk}
use libxpdk.Events.{run_callback, async_io_completion_cb}
use libxpdk.Io.{o_wronly, has_flag, block_request, io_device, submit_io, read_submit, Handles}
use libxpdk.Io.Calls.{fill_io, read_async}
use libxpdk.Io.Async.{callback_round, fill_async, CanSend}
use libxpdk.Core.Poller.{thread_poll, dispatch}
use libxpdk.BlockMath.{block_offset}
use libxpdk.Core.Messages.{msg_free}
use libxpdk.Io.Async.Write.{deliver_async, Reported}
use libxpdk.Io.Requests.{armed}
use libxpdk.Io.Whole.{started, asked}
use libxpdk.BlockMath.Bounds.{Fits}
use libxpdk.Core.Call.{filled_msg}
use libxpdk.Io.Read.{loaded_prefix, handle_read_aligned}
use libxpdk.Core.Late.{thread_poll_delivers}

module _ {R P W : Type 0} (spdk : Spdk R P W) (queued : R → List ℕ) where
  pub read_submit_async :
      (m : ℕ) (h : Handles) (b : ℕ) (bounce : Bool) (s : Sys R P W) (w : W)
      → is_null (s.msgs m).callback ≡ false
      → s.inflight ≡ []
      → spdk.submit s.world (block_request spdk reading h b (s.msgs m)) ≡ (true, w)
      → read_submit spdk m h b bounce s ≡ record (armed m w s) {
        inflight = async_io (block_request spdk reading h b (s.msgs m)) m ∷ [];
      }
  unfolding read_submit submit_io
  read_submit_async m h b bounce s w async quiet accepted = ground arith

  -- A completion of a request into the caller's buffer calls the callback and puts the message back.
  completion_reports_direct :
      (m f ctx : ℕ) (ok : Bool) (p : P) (s : Sys R P W)
      → (s.msgs m).callback ≡ user f
      → (s.msgs m).user_ctx ≡ ctx
      → (s.msgs m).ctx ≡ 0
      → s.msg_pool ≡ some p
      → s.inflight ≡ []
      → let s' = async_io_completion_cb spdk m ok s in
        Reported spdk queued f ctx (if ok then success else error_io) m p s s'
        × (s'.world ≡ s.world)
        × (s'.memory ≡ s.memory)
  unfolding async_io_completion_cb run_callback msg_free
  completion_reports_direct m f ctx ok p s callback context buffer pool quiet = (
    record {
      called = ground arith;
      pool = ground arith;
      live = ground arith;
      inflight = ground arith;
    },
    ground arith,
    ground arith,
  )

  -- An asynchronous read that can be served: the library accepts it, on an open device whose flags
  -- allow it.
  pub record CanReadAsync (fd : ℤ) (buffer count : ℕ) (s : Sys R P W) (m : ℕ) (p p' : P)
      (r r' r'' : R) (h : Handles) : Type 0 where
    pub sends : CanSend spdk queued buffer count s m p p' r r' r''
    pub empty : queued r'' ≡ []
    pub device : io_device s.devices fd ≡ some h
    pub readable : has_flag h.flags o_wronly ≡ false
    pub fits : Fits count (spdk.bdev_get_block_size h.bdev)

  -- Two rounds after an asynchronous read of whole blocks, with any callback, SPDK has done it and
  -- the completion is run.
  pub read_async_ends :
      (fd : ℤ) (buffer count offset : ℕ) (f : Callback) (ctx : ℕ) (s : Sys R P W) (m : ℕ) (p p' : P)
      (r r' r'' : R) (h : Handles) (w₁ w₂ : W) (mem : Memory)
      → IsFifo spdk queued
      → CanReadAsync fd buffer count s m p p' r r' r'' h
      → is_null f ≡ false
      → (let bs = spdk.bdev_get_block_size h.bdev in (buffer % bs == 0 && count % bs == 0) ≡ true)
      → spdk.submit s.world (asked spdk queued reading h buffer count offset) ≡ (true, w₁)
      → spdk.perform w₁ s.memory (asked spdk queued reading h buffer count offset) ≡ (true, mem, w₂)
      → let (rc, s₁) = read_async spdk fd buffer count offset f ctx s in
        let s₀ = started spdk queued read_msg (fill_io fd buffer count offset f ctx) m p' r'' s in
        (rc ≡ success)
        × ((thread_poll spdk (thread_poll spdk s₁).1).1
            ≡ async_io_completion_cb spdk m true
                (record (armed m w₁ s₀) { memory = mem; world = w₂ }))
  unfolding read_async dispatch
  read_async_ends fd buffer count offset f ctx s m p p' r r' r'' h w₁ w₂ mem fifo can some_callback
        aligned accepted done =
      let fill = fill_io fd buffer count offset f ctx in
      let (sent, round) =
        callback_round spdk queued read_msg fd buffer count offset f ctx s m p p' r r' r'' fifo
          can.sends some_callback refl can.empty in
      let s₀ = started spdk queued read_msg fill m p' r'' s in
      let msg = filled_msg spdk queued read_msg fill m p' s in
      let req : block_request spdk reading h (s₀.msgs m).buffer (s₀.msgs m)
          ≡ asked spdk queued reading h buffer count offset =
        ground (arith, msg) in
      let e₁ = handle_read_aligned spdk m h s₀ (rw msg can.device) can.readable (rw msg aligned) in
      let e₂ =
        read_submit_async m h (s₀.msgs m).buffer false s₀ w₁ (rw msg some_callback)
          can.sends.ready.idle.quiet (rw req accepted) in
      let ev = async_io (block_request spdk reading h (s₀.msgs m).buffer (s₀.msgs m)) m in
      let s₂ = record (armed m w₁ s₀) { inflight = ev ∷ [] } in
      let e₃ = thread_poll_delivers spdk queued ev s₂ r'' fifo refl can.empty refl in
      let e₄ =
        deliver_async spdk queued m (block_request spdk reading h (s₀.msgs m).buffer (s₀.msgs m))
          (armed m w₁ s₀) true mem w₂ (rw req done) in
      (sent, ap (λ t. (thread_poll spdk t).1) (round ∙ e₁ ∙ e₂) ∙ e₃ ∙ e₄)

  -- An asynchronous read into a buffer and of a length that are whole blocks, which SPDK takes and
  -- does: the call succeeds, the first round of the SPDK thread submits it, the second reports it. The
  -- callback is called once, with success; the caller's buffer holds the bytes of the device from the
  -- start of the block of the offset on; the message goes back to the pool, and the device stays as it
  -- was.
  pub read_async_loads :
      (disk : W → ℕ → Memory) (fd : ℤ) (buffer count offset f ctx : ℕ) (s : Sys R P W) (m : ℕ)
      (p p' : P) (r r' r'' : R) (h : Handles) (w₁ w₂ : W) (mem : Memory)
      → IsFifo spdk queued
      → IsDisk spdk (spdk.bdev_get_block_size h.bdev) disk
      → CanReadAsync fd buffer count s m p p' r r' r'' h
      → (let bs = spdk.bdev_get_block_size h.bdev in (buffer % bs == 0 && count % bs == 0) ≡ true)
      → spdk.submit s.world (asked spdk queued reading h buffer count offset) ≡ (true, w₁)
      → spdk.perform w₁ s.memory (asked spdk queued reading h buffer count offset) ≡ (true, mem, w₂)
      → let (rc, s₁) = read_async spdk fd buffer count offset (user f) ctx s in
        let s₃ = (thread_poll spdk (thread_poll spdk s₁).1).1 in
        let bs = spdk.bdev_get_block_size h.bdev in
        (rc ≡ success)
        × Reported spdk queued f ctx success m p' s s₃
        × (read_bytes s₃.memory buffer count
            ≡ read_bytes (disk s.world h.desc) (offset / bs * bs) count)
        × (disk s₃.world ≡ disk s.world)
  unfolding block_offset
  read_async_loads disk fd buffer count offset f ctx s m p p' r r' r'' h w₁ w₂ mem fifo law can
        aligned accepted done =
      let fill = fill_async spdk queued fd buffer count offset f ctx in
      let bs = spdk.bdev_get_block_size h.bdev in
      let (sent, end) =
        read_async_ends fd buffer count offset (user f) ctx s m p p' r r' r'' h w₁ w₂ mem fifo can
          refl aligned accepted done in
      let s₀ = started spdk queued read_msg fill m p' r'' s in
      let msg = filled_msg spdk queued read_msg fill m p' s in
      let s₃ = record (armed m w₁ s₀) { memory = mem; world = w₂ } in
      let (reported, world, memory) =
        completion_reports_direct m f ctx true p' s₃ (rw msg refl) (rw msg refl) (rw msg refl) refl
          refl in
      let kept : disk w₁ ≡ disk s.world = law.submit_keeps _ _ _ _ accepted in
      let loaded =
        loaded_prefix spdk disk h buffer offset count w₁ w₂ s.memory mem law can.fits done in
      rw end (
        sent,
        record {
          called = reported.called;
          pool = reported.pool;
          live = reported.live;
          inflight = reported.inflight;
        },
        ap (λ k. read_bytes k buffer count) memory
            ∙ loaded
            ∙ ap (λ d. read_bytes (d h.desc) (offset / bs * bs) count) kept,
        ap disk world ∙ law.read_keeps _ _ _ _ _ refl done ∙ kept,
      )

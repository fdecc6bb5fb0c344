-- ===== src/Io/Async/Write.antt =====
-- An asynchronous write, from the call to its callback.
use libxpdk.Prelude.{
  ℕ, ◌-◌, ◌*◌, ◌/◌, ◌≡◌, refl, sym, ap, ◌∙◌, Bool, true, false, some, List, [], ◌∷◌, ◌++◌, arith,
  ◌==◌, if◌then◌else◌, replicate, ℤ, Memory, read_bytes, write_bytes, Apart,
}
use libxpdk.State.{writing, Request, Sys, write_msg, async_io}
use libxpdk.Core.Call.{filled_msg}
use libxpdk.Api.{error_io, success, user}
use libxpdk.Spdk.{IsDisk, IsFifo, Spdk}
use libxpdk.Io.Calls.{write_async}
use libxpdk.Events.{deliver, run_callback, async_io_completion_cb}
use libxpdk.Io.{fill_buffer, io_device, block_request, submit_io, write_submit, Handles}
use libxpdk.Io.Write.{fill_buffer_lem, handle_write-some, prepared}
use libxpdk.Core.Poller.{thread_poll, dispatch}
use libxpdk.Core.Messages.{msg_free}
use libxpdk.Io.Requests.{armed}
use libxpdk.Core.Late.{thread_poll_delivers}
use libxpdk.Io.Async.{async_round, fill_async, CanSend}
use libxpdk.BlockMath.Bounds.{block_count_covers, Fits}
use libxpdk.BlockMath.{block_offset, block_count, buffer_size}
use libxpdk.Io.Whole.{started, asked}

module _ {R P W : Type 0} (spdk : Spdk R P W) (queued : R → List ℕ) where
  write_submit_async :
      (m : ℕ) (h : Handles) (b f : ℕ) (s : Sys R P W) (w : W)
      → (s.msgs m).callback ≡ user f
      → s.inflight ≡ []
      → spdk.submit s.world (block_request spdk writing h b (s.msgs m)) ≡ (true, w)
      → write_submit spdk m h b s ≡ record (armed m w s) {
        inflight = async_io (block_request spdk writing h b (s.msgs m)) m ∷ [];
      }
  unfolding write_submit submit_io
  write_submit_async m h b f s w async quiet accepted = ground arith

  -- How an asynchronous request ends: its callback is called once, with its context and the status,
  -- its buffer is freed and its message goes back to the pool.
  pub record Reported (f ctx : ℕ) (status : ℤ) (m : ℕ) (p : P) (s s' : Sys R P W) : Type 0 where
    pub called :
        s'.calls ≡ s.calls ++ record { function = user f; context = ctx; status = status } ∷ []
    pub pool : s'.msg_pool ≡ some (spdk.mempool_put p m)
    pub live : s'.dma_live ≡ s.dma_live
    pub inflight : s'.inflight ≡ []

  pub completion_reports :
      (m b f ctx : ℕ) (ok : Bool) (p : P) (live : List ℕ) (s : Sys R P W)
      → (s.msgs m).callback ≡ user f
      → (s.msgs m).user_ctx ≡ ctx
      → (s.msgs m).ctx ≡ b
      → (b == 0) ≡ false
      → s.msg_pool ≡ some p
      → s.dma_live ≡ b ∷ live
      → s.inflight ≡ []
      → let s' = async_io_completion_cb spdk m ok s in
        Reported f ctx (if ok then success else error_io) m p (record s { dma_live = live }) s'
        × (s'.world ≡ spdk.dma_free s.world b)
        × (s'.memory ≡ s.memory)
  unfolding async_io_completion_cb run_callback msg_free
  completion_reports m b f ctx ok p live s callback context buffer nonnull pool dma quiet = (
    record {
      called = ground arith;
      pool = ground arith;
      live = ground arith;
      inflight = ground arith;
    },
    ground arith,
    ground arith,
  )

  pub deliver_async :
      (m : ℕ) (req : Request) (s : Sys R P W) (ok : Bool) (mem : Memory) (w : W)
      → spdk.perform s.world s.memory req ≡ (ok, mem, w)
      → deliver spdk (async_io req m) s
        ≡ async_io_completion_cb spdk m ok (record s { memory = mem; world = w })
  unfolding deliver
  deliver_async m req s ok mem w done =
      rw (deliver, ap (λ q. q.0) done, ap (λ q. q.1) done, ap (λ q. q.2) done) refl

  -- What a write request leaves on the device, once its buffer is filled.
  stored_bytes :
      (disk : W → ℕ → Memory) (memory mem : Memory) (h : Handles) (b buffer count offset : ℕ)
      (w w' : W)
      → IsDisk spdk (spdk.bdev_get_block_size h.bdev) disk
      → Fits count (spdk.bdev_get_block_size h.bdev)
      → Apart b (buffer_size count (spdk.bdev_get_block_size h.bdev)) buffer count
      → (let size = buffer_size count (spdk.bdev_get_block_size h.bdev) in
          spdk.perform w
            (fill_buffer b size buffer count memory)
            (asked spdk queued writing h b count offset)
          ≡ (true, mem, w'))
      → let bs = spdk.bdev_get_block_size h.bdev in
        disk w' h.desc
        ≡ write_bytes
            (disk w h.desc)
            (offset / bs * bs)
            (read_bytes memory buffer count ++ replicate (block_count count bs * bs - count) 0)
  unfolding block_offset
  stored_bytes disk memory mem h b buffer count offset w w' law fits apart done =
      let bs = spdk.bdev_get_block_size h.bdev in
      let (size, covers, _) = block_count_covers count bs fits in
      let filled =
        fill_buffer_lem b (buffer_size count bs) buffer count memory (omega (arith, size, covers))
          apart in
      let stored = law.stored w w' _ mem (asked spdk queued writing h b count offset) refl done in
      stored
      ∙ ap (write_bytes (disk w h.desc) (offset / bs * bs)) (
          ap (read_bytes (fill_buffer b (buffer_size count bs) buffer count memory) b) (sym size)
          ∙ filled
          ∙ ap (λ n. read_bytes memory buffer count ++ replicate (n - count) 0) size)

  -- The message of an asynchronous write after its buffer is filled.
  prepared_fields :
      (m : ℕ) (h : Handles) (b : ℕ) (w : W) (s : Sys R P W)
      → let msg = (prepared spdk m h b w s).msgs m in
        (msg.callback ≡ (s.msgs m).callback) × (msg.user_ctx ≡ (s.msgs m).user_ctx) × (msg.ctx ≡ b)
  prepared_fields m h b w s = (ground arith, ground arith, ground arith)

  -- An asynchronous write that SPDK takes and does: the call succeeds, the first round of the SPDK
  -- thread submits it, the second reports it. The callback is called once, with success; the device
  -- holds the bytes from the block of the offset on, with zeros up to the end of the last block; the
  -- buffer is freed and the message goes back to the pool.
  pub write_async_stores :
      (disk : W → ℕ → Memory) (fd : ℤ) (buffer count offset f ctx : ℕ) (s : Sys R P W) (m : ℕ)
      (p p' : P) (r r' r'' : R) (h : Handles) (b : ℕ) (w₁ w₂ w₃ : W) (mem : Memory)
      → IsFifo spdk queued
      → IsDisk spdk (spdk.bdev_get_block_size h.bdev) disk
      → CanSend spdk queued buffer count s m p p' r r' r''
      → queued r'' ≡ []
      → io_device s.devices fd ≡ some h
      → Fits count (spdk.bdev_get_block_size h.bdev)
      → (let bs = spdk.bdev_get_block_size h.bdev in
          spdk.dma_malloc s.world (buffer_size count bs) bs ≡ (some b, w₁))
      → (b == 0) ≡ false
      → Apart b (buffer_size count (spdk.bdev_get_block_size h.bdev)) buffer count
      → spdk.submit w₁ (asked spdk queued writing h b count offset) ≡ (true, w₂)
      → (let size = buffer_size count (spdk.bdev_get_block_size h.bdev) in
          spdk.perform w₂
            (fill_buffer b size buffer count s.memory)
            (asked spdk queued writing h b count offset)
          ≡ (true, mem, w₃))
      → let (rc, s₁) = write_async spdk fd buffer count offset (user f) ctx s in
        let s₃ = (thread_poll spdk (thread_poll spdk s₁).1).1 in
        let bs = spdk.bdev_get_block_size h.bdev in
        (rc ≡ success)
        × Reported f ctx success m p' s s₃
        × (disk s₃.world h.desc
            ≡ write_bytes (disk s.world h.desc) (offset / bs * bs) (
                read_bytes s.memory buffer count
                ++ replicate (block_count count bs * bs - count) 0))
  unfolding write_async dispatch deliver
  write_async_stores disk fd buffer count offset f ctx s m p p' r r' r'' h b w₁ w₂ w₃ mem fifo law
        can empty device fits given nonnull apart accepted done =
      let fill = fill_async spdk queued fd buffer count offset f ctx in
      let (sent, round) =
        async_round spdk queued write_msg fd buffer count offset f ctx s m p p' r r' r'' fifo can
          refl empty in
      let s₀ = started spdk queued write_msg fill m p' r'' s in
      let msg = filled_msg spdk queued write_msg fill m p' s in
      let s₁ = prepared spdk m h b w₁ s₀ in
      let req : block_request spdk writing h b (s₁.msgs m)
          ≡ asked spdk queued writing h b count offset =
        ground (arith, msg) in
      let callback : (s₁.msgs m).callback ≡ user f =
        (prepared_fields m h b w₁ s₀).0 ∙ rw msg refl in
      let context : (s₁.msgs m).user_ctx ≡ ctx = (prepared_fields m h b w₁ s₀).1 ∙ rw msg refl in
      let memory : s₁.memory
          ≡ fill_buffer b (buffer_size count (spdk.bdev_get_block_size h.bdev)) buffer count
              s.memory =
        rw msg refl in
      let e₁ = handle_write-some spdk m h b s₀ w₁ (rw msg device) (rw msg given) in
      let e₂ = write_submit_async m h b f s₁ w₂ callback can.ready.idle.quiet (rw req accepted) in
      let ev = async_io (block_request spdk writing h b (s₁.msgs m)) m in
      let s₂ = record (armed m w₂ s₁) { inflight = ev ∷ [] } in
      let e₃ = thread_poll_delivers spdk queued ev s₂ r'' fifo refl empty refl in
      let s₃ = record (armed m w₂ s₁) { memory = mem; world = w₃ } in
      let e₄ =
        deliver_async m (block_request spdk writing h b (s₁.msgs m)) (armed m w₂ s₁) true mem w₃
          (rw (req, memory) done) in
      let end : (thread_poll spdk
            (thread_poll spdk (write_async spdk fd buffer count offset (user f) ctx s).1).1).1
          ≡ async_io_completion_cb spdk m true s₃ =
        ap (λ t. (thread_poll spdk t).1) (round ∙ e₁ ∙ e₂) ∙ e₃ ∙ e₄ in
      let (reported, world, _) =
        completion_reports m b f ctx true p' s.dma_live s₃ callback context
          ((prepared_fields m h b w₁ s₀).2) nonnull refl refl refl in
      let kept : disk w₂ ≡ disk s.world =
        law.submit_keeps _ _ _ _ accepted ∙ law.malloc_keeps _ _ _ _ _ given in
      let stored =
        stored_bytes disk s.memory mem h b buffer count offset w₂ w₃ law fits apart done in
      rw end (
        sent,
        record {
          called = reported.called;
          pool = reported.pool;
          live = reported.live;
          inflight = reported.inflight;
        },
        ap (λ w. disk w h.desc) world
            ∙ ap (λ d. d h.desc) (law.free_keeps w₃ b)
            ∙ stored
            ∙ ap
                (λ d.
                  write_bytes (d h.desc)
                    (let bs = spdk.bdev_get_block_size h.bdev in offset / bs * bs)
                    (let bs = spdk.bdev_get_block_size h.bdev in
                      read_bytes s.memory buffer count
                      ++ replicate (block_count count bs * bs - count) 0))
                kept,
      )

-- ===== src/Batch/Whole.antt =====
-- A batched read from its submission to the callback: batches, asynchronous I/O and the poller together.
use libxpdk.Prelude.{
  update, ◌&&◌, ◌==◌, ◌%◌, Memory, ℕ, ◌<◌, ◌≡◌, refl, sym, ap, ◌∙◌, inl, inr, true, some, List, [],
  ◌∷◌, ◌++◌, arith, Option-cases, length, length-take, ℤ, pos, ap₂, min, map, take, drop, ◌/◌, ◌*◌,
  read_bytes,
}
use libxpdk.State.{reading, read_msg, Sys}
use libxpdk.Api.{success, user, batch_completion, BatchIo, BatchCtx, io_read}
use libxpdk.Spdk.{IsDisk, IsFifo, Spdk}
use libxpdk.Batch.Queues.{process_completions, completion_callback, add_pending}
use libxpdk.Io.{Handles}
use libxpdk.Events.{run_callback, async_io_completion_cb}
use libxpdk.Batch.Calls.{batch_process_completions, set_batch, submit_by_type, batch_submit_one}
use libxpdk.Batch.View.{
  completion_callback-move, add_pending-some, completed_view, pending_view, add_pending-none,
  IsValid,
}
use libxpdk.Io.Async.Read.{read_async_ends, CanReadAsync}
use libxpdk.Core.Messages.{msg_free}
use libxpdk.Io.Calls.{fill_io, read_async}
use libxpdk.Batch.Refine.{completion_callback-keeps, add_pending-keeps}
use libxpdk.BlockMath.{block_offset}
use libxpdk.Io.Whole.{started, asked}
use libxpdk.Batch.Process.{process_completions-Delivers, call_of}
use libxpdk.Core.Poller.{thread_poll}
use libxpdk.Core.Call.{filled_msg}
use libxpdk.Io.Requests.{armed}
use libxpdk.Io.Read.{loaded_prefix}

module _ {R P W : Type 0} (spdk : Spdk R P W) (queued : R → List ℕ) where
  -- A batch context with nothing in it, and a callback of the application
  pub record IsEmpty (b : BatchCtx) (g : ℕ) : Type 0 where
    pub valid : IsValid b
    pub pending : pending_view b ≡ []
    pub completed : completed_view b ≡ []
    pub room : 0 < b.max_ios
    pub callback : b.global_callback ≡ user g

  add_pending-room :
      (io : BatchIo) (b : BatchCtx) (g : ℕ)
      → IsEmpty b g
      → (b' : BatchCtx) × (add_pending io b ≡ some b')
  add_pending-room io b g empty = elim (Option-cases (add_pending io b)) [
    | inl e ↦
        let full = (add_pending-none io b empty.valid).0 e in
        let none_left : 0 ≡ b.max_ios = sym (ap length empty.pending) ∙ full in
        absurd (omega (arith, none_left, empty.room))
    | inr found ↦ found
  ]

  -- A submission and its success, on an empty context, leave the request as the one that has finished.
  one_finished :
      (io : BatchIo) (b b' : BatchCtx) (g : ℕ)
      → IsEmpty b g
      → add_pending io b ≡ some b'
      → let b'' = completion_callback success b' in
        (pending_view b'' ≡ [])
        × (completed_view b'' ≡ record io { status = success } ∷ [])
        × IsValid b''
        × (b''.global_callback ≡ user g)
  one_finished io b b' g empty e =
      let (waiting, finished, valid) = add_pending-some io b b' empty.valid e in
      let (max, callback) = add_pending-keeps io b b' e in
      let (_, callback') = completion_callback-keeps success b' in
      let none_done : completed_view b' ≡ [] = finished ∙ empty.completed in
      let count : b'.completed_ios ≡ 0 = omega (
        arith,
        length-take b'.completed_ios b'.completed_queue,
        ap length none_done,
        valid.completed_fits,
        valid.completed_size,
      ) in
      let (w, f, v) =
        completion_callback-move success b' io [] valid
          (waiting ∙ ap (λ l. l ++ io ∷ []) empty.pending)
          (omega (arith, count, max, empty.room)) in
      (
        w,
        f ∙ ap (λ l. l ++ record io { status = success } ∷ []) none_done,
        v,
        callback' ∙ callback ∙ empty.callback,
      )

  completion_batches :
      (m c : ℕ) (p : P) (s : Sys R P W)
      → (s.msgs m).callback ≡ batch_completion
      → (s.msgs m).user_ctx ≡ c
      → (s.msgs m).ctx ≡ 0
      → s.msg_pool ≡ some p
      → let s' = async_io_completion_cb spdk m true s in
        (s'.batches c ≡ completion_callback success (s.batches c))
        × (s'.memory ≡ s.memory)
        × (s'.calls ≡ s.calls)
  unfolding async_io_completion_cb run_callback msg_free
  completion_batches m c p s callback context buffer pool =
      (ground arith, ground arith, ground arith)

  pub CanReadAsync-set_batch :
      (c : ℕ) (b : BatchCtx) (fd : ℤ) (buffer count : ℕ) (s : Sys R P W) (m : ℕ) (p p' : P)
      (r r' r'' : R) (h : Handles)
      → CanReadAsync spdk queued fd buffer count s m p p' r r' r'' h
      → CanReadAsync spdk queued fd buffer count (set_batch spdk c b s) m p p' r r' r'' h
  CanReadAsync-set_batch c b fd buffer count s m p p' r r' r'' h can = record {
    sends = record {
      initialized = can.sends.initialized;
      ready = record {
        pool = can.sends.ready.pool;
        message = can.sends.ready.message;
        idle = record {
          ring = can.sends.ready.idle.ring;
          empty = can.sends.ready.idle.empty;
          room = can.sends.ready.idle.room;
          running = can.sends.ready.idle.running;
          quiet = can.sends.ready.idle.quiet;
        };
        out = can.sends.ready.out;
      };
      some_buffer = can.sends.some_buffer;
      some_count = can.sends.some_count;
    };
    empty = can.empty;
    device = can.device;
    readable = can.readable;
    fits = can.fits;
  }

  submit_read :
      (c : ℕ) (io : BatchIo) (b' : BatchCtx) (s : Sys R P W)
      → io.type ≡ io_read
      → add_pending io (s.batches c) ≡ some b'
      → (let s₀ = set_batch spdk c b' s in
          (read_async spdk io.fd io.buffer io.count io.offset batch_completion c s₀).0 ≡ success)
      → batch_submit_one spdk c io s
        ≡ read_async spdk io.fd io.buffer io.count io.offset batch_completion c
            (set_batch spdk c b' s)
  unfolding batch_submit_one submit_by_type
  submit_read c io b' s type added ok = rw (batch_submit_one, added, type, submit_by_type, ok) refl

  update_self : (f : ℕ → BatchCtx) (c : ℕ) (b : BatchCtx) → update f c b c ≡ b
  update_self f c b = ground arith

  -- What `xpdk_batch_process_completions` does with one request that has finished
  process_one :
      (c : ℕ) (io : BatchIo) (b : BatchCtx) (g : ℕ) (s : Sys R P W)
      → s.batches c ≡ b
      → IsValid b
      → pending_view b ≡ []
      → completed_view b ≡ io ∷ []
      → b.global_callback ≡ user g
      → let (done, s') = batch_process_completions spdk c (pos 1) s in
        (done ≡ 1)
        × (s'.calls ≡ s.calls ++ call_of (user g) io ∷ [])
        × (pending_view (s'.batches c) ≡ [])
        × (completed_view (s'.batches c) ≡ [])
        × (s'.memory ≡ s.memory)
  unfolding batch_process_completions
  process_one c io b g s held valid waiting finished callback =
      let same : (c == c) ≡ true = ground arith in
      let d = process_completions-Delivers b (pos 1) valid in
      let one : (process_completions b (pos 1)).0 ≡ 1 =
        d.count ∙ ap (λ l. min 1 (length l)) finished in
      let calls : (process_completions b (pos 1)).2 ≡ call_of (user g) io ∷ [] =
        d.reported (rw callback refl)
        ∙ ap₂ (λ f l. map (call_of f) l) callback (ap₂ take one finished) in
      rw (held, same)
        (
          one,
          ap (λ l. s.calls ++ l) calls,
          d.pending ∙ waiting,
          d.left ∙ ap₂ drop one finished,
          refl,
        )

  -- `xpdk_batch_submit_one` of a read of whole blocks on an empty context, two rounds of the SPDK
  -- thread and `xpdk_batch_process_completions`, when the library is idle, the device is open for
  -- reading, and SPDK takes and does the request: the submission succeeds; one completion is taken,
  -- and the callback of the context has been called once, with the context of the request and success;
  -- nothing of the batch is pending or completed any more; the buffer of the request holds the bytes
  -- of the device from the start of the block of the offset on.
  pub batch_read_reports :
      (disk : W → ℕ → Memory) (c g : ℕ) (io : BatchIo) (s : Sys R P W) (m : ℕ) (p p' : P)
      (r r' r'' : R) (h : Handles) (w₁ w₂ : W) (mem : Memory)
      → IsFifo spdk queued
      → IsDisk spdk (spdk.bdev_get_block_size h.bdev) disk
      → IsEmpty (s.batches c) g
      → io.type ≡ io_read
      → CanReadAsync spdk queued io.fd io.buffer io.count s m p p' r r' r'' h
      → (let bs = spdk.bdev_get_block_size h.bdev in
          (io.buffer % bs == 0 && io.count % bs == 0) ≡ true)
      → spdk.submit s.world (asked spdk queued reading h io.buffer io.count io.offset) ≡ (true, w₁)
      → spdk.perform w₁ s.memory (asked spdk queued reading h io.buffer io.count io.offset)
        ≡ (true, mem, w₂)
      → let (rc, s₁) = batch_submit_one spdk c io s in
        let s₃ = (thread_poll spdk (thread_poll spdk s₁).1).1 in
        let (done, s₄) = batch_process_completions spdk c (pos 1) s₃ in
        let bs = spdk.bdev_get_block_size h.bdev in
        (rc ≡ success)
        × (done ≡ 1)
        × (s₄.calls
            ≡ s.calls ++ record { function = user g; context = io.user_ctx; status = success } ∷ [])
        × (pending_view (s₄.batches c) ≡ [])
        × (completed_view (s₄.batches c) ≡ [])
        × (read_bytes s₄.memory io.buffer io.count
            ≡ read_bytes (disk s.world h.desc) (io.offset / bs * bs) io.count)
  unfolding block_offset
  batch_read_reports disk c g io s m p p' r r' r'' h w₁ w₂ mem fifo law empty type can aligned
        accepted done =
      let (b', added) = add_pending-room io (s.batches c) g empty in
      let s₀ = set_batch spdk c b' s in
      let fill = fill_io io.fd io.buffer io.count io.offset batch_completion c in
      let can' = CanReadAsync-set_batch c b' io.fd io.buffer io.count s m p p' r r' r'' h can in
      let (sent, end) =
        read_async_ends spdk queued io.fd io.buffer io.count io.offset batch_completion c s₀ m p p'
          r r' r'' h w₁ w₂ mem fifo can' refl aligned accepted done in
      let msg = filled_msg spdk queued read_msg fill m p' s₀ in
      let s₂ = record (armed m w₁ (started spdk queued read_msg fill m p' r'' s₀)) {
        memory = mem;
        world = w₂;
      } in
      let (batch, memory, calls) =
        completion_batches m c p' s₂ (rw msg refl) (rw msg refl) (rw msg refl) refl in
      let (waiting, finished, valid, callback) = one_finished io (s.batches c) b' g empty added in
      let held = batch ∙ ap (completion_callback success) (update_self s.batches c _) in
      let (one, reported, w, f, kept) =
        process_one c (record io { status = success }) (completion_callback success b') g
          (async_io_completion_cb spdk m true s₂) held valid waiting finished callback in
      let disk_kept : disk w₁ ≡ disk s.world = law.submit_keeps _ _ _ _ accepted in
      let loaded =
        loaded_prefix spdk disk h io.buffer io.offset io.count w₁ w₂ s.memory mem law can.fits
          done in
      rw (submit_read c io b' s type added sent, end)
        (
          sent,
          one,
          reported ∙ ap (λ l. l ++ call_of (user g) (record io { status = success }) ∷ []) calls,
          w,
          f,
          ap (λ k. read_bytes k io.buffer io.count) (kept ∙ memory)
              ∙ loaded
              ∙ ap
                  (λ d.
                    read_bytes (d h.desc)
                      (block_offset io.offset (spdk.bdev_get_block_size h.bdev)
                        * spdk.bdev_get_block_size h.bdev)
                      io.count)
                  disk_kept,
        )

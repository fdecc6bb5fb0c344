-- ===== src/Io/Whole.antt =====
-- `xpdk_write` as a whole, from the call to its result.
mod Tests
pub mod Read
pub mod RoundTrip
use libxpdk.Prelude.{
  ℕ, suc, ◌-◌, ◌*◌, ◌/◌, ◌≡◌, refl, ap, ◌∙◌, true, false, some, List, ◌++◌, arith, ◌==◌, replicate,
  ℤ, pos, Memory, read_bytes, write_bytes, Apart,
}
use libxpdk.State.{Msg, MsgType, Direction, writing, Request, Sys, write_msg}
use libxpdk.Api.{null}
use libxpdk.Core.Call.{Ready, filled, sync_call_answers, filled_msg}
use libxpdk.Spdk.{IsDisk, IsFifo, Spdk}
use libxpdk.Io.Requests.{Servable, Ends}
use libxpdk.Core.Poller.{count_io_op, dispatch}
use libxpdk.Io.Calls.{fill_io, sync_io_call, transferred, write}
use libxpdk.Io.{handle_write, block_request, fill_buffer, io_device, Handles}
use libxpdk.Core.Sync.{sync_call}
use libxpdk.BlockMath.{buffer_size, block_count, block_offset}
use libxpdk.Core.Answer.{taken}
use libxpdk.BlockMath.Bounds.{Fits}
use libxpdk.Core.Messages.{msg_free, fresh_msg}
use libxpdk.Io.Write.{prepared, handle_write_stores}

module _ {R P W : Type 0} (spdk : Spdk R P W) (queued : R → List ℕ) where
  -- The state in which the handler of a call starts.
  abbrev pub started : MsgType → (Msg → Msg) → ℕ → P → R → Sys R P W → Sys R P W
  started type fill m p r s = count_io_op (taken spdk queued (filled spdk queued type fill m p s) r)

  -- With arguments that it takes, `xpdk_read` or `xpdk_write` is a synchronous call.
  pub sync_io_call-sends :
      (fuel : ℕ) (type : MsgType) (fd : ℤ) (buffer count offset : ℕ) (s : Sys R P W)
      → s.initialized ≡ true
      → (buffer == 0) ≡ false
      → (count == 0) ≡ false
      → sync_io_call spdk fuel type fd buffer count offset s
        ≡ sync_call spdk fuel type (fill_io fd buffer count offset null 0) transferred s
  unfolding sync_io_call
  sync_io_call-sends fuel type fd buffer count offset s ready some_buffer some_count =
      rw (ready, some_buffer, some_count) refl

  pub transferred_success :
      (bytes : ℕ) (m : ℕ) (s s' : Sys R P W)
      → Ends m true bytes s s'
      → transferred (s'.msgs m).status (s'.msgs m) ≡ pos bytes
  transferred_success bytes m s s' ends = rw (ends.status, ends.transferred) refl

  pub msg_free_frame :
      (m : ℕ) (s : Sys R P W)
      → ((msg_free spdk m s).world ≡ s.world)
        × ((msg_free spdk m s).dma_live ≡ s.dma_live)
        × ((msg_free spdk m s).memory ≡ s.memory)
  unfolding msg_free
  msg_free_frame m s = (ground arith, ground arith, ground arith)

  -- What a call asks of the block device: the descriptor and the blocks
  abbrev pub asked : Direction → Handles → ℕ → ℕ → ℕ → Request
  asked direction h b count offset =
      let bs = spdk.bdev_get_block_size h.bdev in
      record {
        direction = direction;
        desc = h.desc;
        buffer = b;
        offset_blocks = block_offset offset bs;
        num_blocks = block_count count bs;
      }

  -- SPDK takes a request for a bounce buffer and does it.
  pub record Does (direction : Direction) (h : Handles) (count offset : ℕ) (b : ℕ)
      (mem mem' : Memory) (w w₁ w₂ w₃ : W) : Type 0 where
    pub given :
        let bs = spdk.bdev_get_block_size h.bdev in
        spdk.dma_malloc w (buffer_size count bs) bs ≡ (some b, w₁)
    pub accepted : spdk.submit w₁ (asked direction h b count offset) ≡ (true, w₂)
    pub done : spdk.perform w₂ mem (asked direction h b count offset) ≡ (true, mem', w₃)

  -- `xpdk_write` on an open device of an idle library returns the number of bytes, and the device
  -- holds them from the block of the offset on, with zeros up to the end of the last block, when
  -- SPDK takes the request and does it. One round of the SPDK thread is enough.
  pub write_stores :
      (disk : W → ℕ → Memory) (fuel : ℕ) (fd : ℤ) (buffer count offset : ℕ) (s : Sys R P W) (m : ℕ)
      (p p' : P) (r r' r'' : R) (h : Handles) (b : ℕ) (w₁ w₂ w₃ : W) (mem : Memory)
      → IsFifo spdk queued
      → IsDisk spdk (spdk.bdev_get_block_size h.bdev) disk
      → s.initialized ≡ true
      → Ready spdk queued s m p p' r r' r''
      → (buffer == 0) ≡ false
      → (count == 0) ≡ false
      → io_device s.devices fd ≡ some h
      → Fits count (spdk.bdev_get_block_size h.bdev)
      → (let bs = spdk.bdev_get_block_size h.bdev in
          spdk.dma_malloc s.world (buffer_size count bs) bs ≡ (some b, w₁))
      → Apart b (buffer_size count (spdk.bdev_get_block_size h.bdev)) buffer count
      → spdk.submit w₁ (asked writing h b count offset) ≡ (true, w₂)
      → (let size = buffer_size count (spdk.bdev_get_block_size h.bdev) in
          spdk.perform w₂
            (fill_buffer b size buffer count s.memory)
            (asked writing h b count offset)
          ≡ (true, mem, w₃))
      → let (result, s') = write spdk (suc fuel) fd buffer count offset s in
        let bs = spdk.bdev_get_block_size h.bdev in
        (result ≡ some (pos count))
        × (disk s'.world h.desc
            ≡ write_bytes (disk s.world h.desc) (offset / bs * bs) (
                read_bytes s.memory buffer count
                ++ replicate (block_count count bs * bs - count) 0))
        × (s'.dma_live ≡ s.dma_live)
  unfolding dispatch write
  write_stores disk fuel fd buffer count offset s m p p' r r' r'' h b w₁ w₂ w₃ mem fifo law init
        ready some_buffer some_count device fits given apart accepted done =
      let fill = fill_io fd buffer count offset null 0 in
      let s₀ = started write_msg fill m p' r'' s in
      let msg : s₀.msgs m ≡ fill (fresh_msg write_msg) =
        filled_msg spdk queued write_msg fill m p' s in
      let servable : Servable spdk m h s₀ = record {
        device = rw msg device;
        sync = rw msg refl;
        quiet = ready.idle.quiet;
        fits = rw msg fits;
      } in
      let s₁ = prepared spdk m h b w₁ s₀ in
      let req : block_request spdk writing h b (s₁.msgs m) ≡ asked writing h b count offset =
        ground (arith, msg) in
      let memory : s₁.memory
          ≡ fill_buffer b (buffer_size count (spdk.bdev_get_block_size h.bdev)) buffer count
              s.memory =
        rw msg refl in
      let (ends, stored) =
        handle_write_stores spdk disk m h b s₀ w₁ w₂ w₃ mem law servable (rw msg given)
          (rw msg apart) (rw req accepted, rw (req, memory) done) in
      let call =
        sync_io_call-sends (suc fuel) write_msg fd buffer count offset s init some_buffer some_count
        ∙ sync_call_answers spdk queued fuel write_msg fill transferred s m p p' r r' r'' fifo ready
            refl refl refl ends.completed in
      let s₂ = handle_write spdk m s₀ in
      let (world, live, _) = msg_free_frame m s₂ in
      let bytes : Ends m true count s₀ s₂ = rw msg at ends in
      rw call (
        ap some (transferred_success count m s₀ s₂ bytes),
        ap (λ w. disk w h.desc) world ∙ (rw msg at stored),
        live ∙ ends.live,
      )

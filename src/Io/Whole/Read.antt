-- ===== src/Io/Whole/Read.antt =====
-- `xpdk_read` as a whole, from the call to its result.
use libxpdk.Prelude.{
  ℕ, suc, ◌*◌, ◌/◌, ◌%◌, ◌≡◌, refl, ap, ◌∙◌, true, false, ◌&&◌, some, List, arith, ◌==◌, ℤ, pos,
  Memory, read_bytes,
}
use libxpdk.State.{reading, Sys, read_msg}
use libxpdk.Core.Call.{Ready, sync_call_answers, filled_msg}
use libxpdk.Api.{null}
use libxpdk.Spdk.{IsDisk, IsFifo, Spdk}
use libxpdk.Io.Whole.{sync_io_call-sends, msg_free_frame, transferred_success, asked, started}
use libxpdk.Core.Poller.{dispatch}
use libxpdk.Io.{block_request, handle_read, o_wronly, has_flag, io_device, Handles}
use libxpdk.Io.Requests.{Ends, Servable}
use libxpdk.Io.Calls.{transferred, read, fill_io}
use libxpdk.BlockMath.Bounds.{Fits}
use libxpdk.Core.Messages.{msg_free, fresh_msg}
use libxpdk.Io.Read.{handle_read_direct}

module _ {R P W : Type 0} (spdk : Spdk R P W) (queued : R → List ℕ) where
  -- A call of `xpdk_read` that can be served: an idle library, arguments that it takes, and an open
  -- device whose flags allow it.
  pub record CanRead (fd : ℤ) (buffer count : ℕ) (s : Sys R P W) (m : ℕ) (p p' : P) (r r' r'' : R)
      (h : Handles) : Type 0 where
    pub initialized : s.initialized ≡ true
    pub ready : Ready spdk queued s m p p' r r' r''
    pub some_buffer : (buffer == 0) ≡ false
    pub some_count : (count == 0) ≡ false
    pub device : io_device s.devices fd ≡ some h
    pub readable : has_flag h.flags o_wronly ≡ false
    pub fits : Fits count (spdk.bdev_get_block_size h.bdev)

  -- The state in which the handler of `xpdk_read` starts.
  abbrev read_started : ℤ → ℕ → ℕ → ℕ → ℕ → P → R → Sys R P W → Sys R P W
  read_started fd buffer count offset m p r s =
      started spdk queued read_msg (fill_io fd buffer count offset null 0) m p r s

  read_call :
      (fuel : ℕ) (fd : ℤ) (buffer count offset : ℕ) (s : Sys R P W) (m : ℕ) (p p' : P)
      (r r' r'' : R) (h : Handles)
      → IsFifo spdk queued
      → CanRead fd buffer count s m p p' r r' r'' h
      → (let s₀ = read_started fd buffer count offset m p' r'' s in
          Ends m true count s₀ (handle_read spdk m s₀))
      → (let s₀ = read_started fd buffer count offset m p' r'' s in
          read spdk (suc fuel) fd buffer count offset s
          ≡ (some (pos count), msg_free spdk m (handle_read spdk m s₀)))
  unfolding dispatch read
  read_call fuel fd buffer count offset s m p p' r r' r'' h fifo can ends =
      let fill = fill_io fd buffer count offset null 0 in
      let s₂ = handle_read spdk m (read_started fd buffer count offset m p' r'' s) in
      let call =
        sync_call_answers spdk queued fuel read_msg fill transferred s m p p' r r' r'' fifo
          can.ready refl refl refl ends.completed in
      let bytes = transferred_success spdk queued count m _ s₂ ends in
      sync_io_call-sends spdk queued (suc fuel) read_msg fd buffer count offset s can.initialized
        can.some_buffer can.some_count
      ∙ call
      ∙ ap (λ n. (some n, msg_free spdk m s₂)) bytes

  read_started-Servable :
      (fd : ℤ) (buffer count offset : ℕ) (s : Sys R P W) (m : ℕ) (p p' : P) (r r' r'' : R)
      (h : Handles)
      → CanRead fd buffer count s m p p' r r' r'' h
      → Servable spdk m h (read_started fd buffer count offset m p' r'' s)
  read_started-Servable fd buffer count offset s m p p' r r' r'' h can =
      let msg = filled_msg spdk queued read_msg (fill_io fd buffer count offset null 0) m p' s in
      record {
        device = rw msg can.device;
        sync = rw msg refl;
        quiet = can.ready.idle.quiet;
        fits = rw msg can.fits;
      }

  read_loads_direct :
      (disk : W → ℕ → Memory) (fuel : ℕ) (fd : ℤ) (buffer count offset : ℕ) (s : Sys R P W) (m : ℕ)
      (p p' : P) (r r' r'' : R) (h : Handles) (w₁ w₂ : W) (mem : Memory)
      → IsFifo spdk queued
      → IsDisk spdk (spdk.bdev_get_block_size h.bdev) disk
      → CanRead fd buffer count s m p p' r r' r'' h
      → (let bs = spdk.bdev_get_block_size h.bdev in (buffer % bs == 0 && count % bs == 0) ≡ true)
      → spdk.submit s.world (asked spdk queued reading h buffer count offset) ≡ (true, w₁)
      → spdk.perform w₁ s.memory (asked spdk queued reading h buffer count offset) ≡ (true, mem, w₂)
      → let (result, s') = read spdk (suc fuel) fd buffer count offset s in
        let bs = spdk.bdev_get_block_size h.bdev in
        (result ≡ some (pos count))
        × (read_bytes s'.memory buffer count
            ≡ read_bytes (disk s.world h.desc) (offset / bs * bs) count)
        × (disk s'.world ≡ disk s.world)
        × (s'.dma_live ≡ s.dma_live)
  read_loads_direct disk fuel fd buffer count offset s m p p' r r' r'' h w₁ w₂ mem fifo law can
        aligned accepted done =
      let fill = fill_io fd buffer count offset null 0 in
      let s₀ = read_started fd buffer count offset m p' r'' s in
      let msg : s₀.msgs m ≡ fill (fresh_msg read_msg) =
        filled_msg spdk queued read_msg fill m p' s in
      let servable = read_started-Servable fd buffer count offset s m p p' r r' r'' h can in
      let req : block_request spdk reading h (s₀.msgs m).buffer (s₀.msgs m)
          ≡ asked spdk queued reading h buffer count offset =
        ground (arith, msg) in
      let (ends, loaded, same) =
        handle_read_direct spdk disk m h s₀ w₁ w₂ mem law servable can.readable (rw msg aligned)
          (rw req accepted, rw req done) in
      let call =
        read_call fuel fd buffer count offset s m p p' r r' r'' h fifo can (rw msg at ends) in
      let (world, live, memory) = msg_free_frame spdk queued m (handle_read spdk m s₀) in
      let got : read_bytes (handle_read spdk m s₀).memory buffer count ≡ (
          let bs = spdk.bdev_get_block_size h.bdev in
          read_bytes (disk s.world h.desc) (offset / bs * bs) count) =
        rw msg at loaded in
      rw call (
        refl,
        ap (λ k. read_bytes k buffer count) memory ∙ got,
        ap disk world ∙ same,
        live ∙ ends.live,
      )

  -- SPDK takes the request of a read into a buffer and of a length that are whole blocks, and does
  -- it: into the caller's buffer, for no bounce buffer is asked for.
  pub data ReadDone (h : Handles) (buffer count offset : ℕ) (mem : Memory) (w : W) : Type 0 where
    direct :
        (mem' : Memory) (w₁ w₂ : W)
        → (let bs = spdk.bdev_get_block_size h.bdev in (buffer % bs == 0 && count % bs == 0) ≡ true)
        → spdk.submit w (asked spdk queued reading h buffer count offset) ≡ (true, w₁)
        → spdk.perform w₁ mem (asked spdk queued reading h buffer count offset) ≡ (true, mem', w₂)
        → ReadDone h buffer count offset mem w

  -- `xpdk_read` on an open device of an idle library, into a buffer and of a length that are whole
  -- blocks, returns the number of bytes, and the caller's buffer holds that many bytes of the device
  -- from the start of the block of the offset on, when SPDK takes the request and does it. The device
  -- and the set of live DMA buffers stay the same. One round of the SPDK thread is enough.
  pub read_returns :
      (disk : W → ℕ → Memory) (fuel : ℕ) (fd : ℤ) (buffer count offset : ℕ) (s : Sys R P W) (m : ℕ)
      (p p' : P) (r r' r'' : R) (h : Handles)
      → IsFifo spdk queued
      → IsDisk spdk (spdk.bdev_get_block_size h.bdev) disk
      → CanRead fd buffer count s m p p' r r' r'' h
      → ReadDone h buffer count offset s.memory s.world
      → let (result, s') = read spdk (suc fuel) fd buffer count offset s in
        let bs = spdk.bdev_get_block_size h.bdev in
        (result ≡ some (pos count))
        × (read_bytes s'.memory buffer count
            ≡ read_bytes (disk s.world h.desc) (offset / bs * bs) count)
        × (disk s'.world ≡ disk s.world)
        × (s'.dma_live ≡ s.dma_live)
  read_returns disk fuel fd buffer count offset s m p p' r r' r'' h fifo law can
        (direct mem w₁ w₂ aligned accepted done) =
      read_loads_direct disk fuel fd buffer count offset s m p p' r r' r'' h w₁ w₂ mem fifo law can
        aligned accepted done

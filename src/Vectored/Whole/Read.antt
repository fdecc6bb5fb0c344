-- ===== src/Vectored/Whole/Read.antt =====
-- `xpdk_readv` as a whole, from the call to its result.
use libxpdk.Prelude.{
  ℕ, suc, ◌*◌, ◌/◌, ◌≡◌, refl, ap, ◌∙◌, true, false, ◌||◌, not, some, List, arith, ltb, ◌==◌, ℤ,
  pos, Memory, read_bytes,
}
use libxpdk.State.{Sys}
use libxpdk.Api.{Iovec}
use libxpdk.Spdk.{IsDisk, IsFifo, Spdk}
use libxpdk.Vectored.Calls.{is_positive_result, is_empty, readv, readv_into}
use libxpdk.Io.{Handles}
use libxpdk.Vectored.Whole.{free_buffer_temp, alloc_buffer_given, with_temp, HasTemp, Sized}
use libxpdk.Io.Calls.{read}
use libxpdk.Io.Whole.Read.{read_returns, ReadDone, CanRead}
use libxpdk.Vectored.Gather.{
  buffer_to_iovec_lem, gather, Separate, calculate_iovec_size_exact, total_len,
}
use libxpdk.Dma.{default_alignment, alloc_buffer, free_buffer}
use libxpdk.Vectored.Copy.{calculate_iovec_size, buffer_to_iovec}

module _ {R P W : Type 0} (spdk : Spdk R P W) (queued : R → List ℕ) where
  readv-sends :
      (fuel : ℕ) (fd : ℤ) (iov : List Iovec) (offset t : ℕ) (w₀ : W) (s : Sys R P W)
      → s.initialized ≡ true
      → Sized spdk queued iov
      → HasTemp spdk queued iov t s.world w₀
      → readv spdk fuel fd iov offset s
        ≡ readv_into spdk fuel fd iov offset t (with_temp spdk queued t w₀ s)
  unfolding readv
  readv-sends fuel fd iov offset t w₀ s init sized temp =
      let size = calculate_iovec_size_exact iov sized.total in
      let guard : (not s.initialized || is_empty iov || calculate_iovec_size iov == 0) ≡ false =
        rw (init, sized.parts, size, sized.bytes) refl in
      let alloc : alloc_buffer spdk (calculate_iovec_size iov) 0 s
          ≡ (some t, with_temp spdk queued t w₀ s) =
        rw size (alloc_buffer_given spdk queued (total_len iov) t w₀ s sized.bytes temp.given) in
      rw (guard, ap (λ q. q.0) alloc, ap (λ q. q.1) alloc) refl

  readv_into_answer :
      (fuel : ℕ) (fd : ℤ) (iov : List Iovec) (offset t : ℕ) (s : Sys R P W)
      → Sized spdk queued iov
      → (read spdk fuel fd t (total_len iov) offset s).0 ≡ some (pos (total_len iov))
      → let s₁ = (read spdk fuel fd t (total_len iov) offset s).1 in
        readv_into spdk fuel fd iov offset t s ≡ (
          some (pos (total_len iov)),
          free_buffer spdk t (record s₁ { memory = buffer_to_iovec t iov s₁.memory }),
        )
  unfolding readv_into
  readv_into_answer fuel fd iov offset t s sized e =
      let size = calculate_iovec_size_exact iov sized.total in
      let some_bytes : ltb 0 (total_len iov) ≡ true = ground (arith, sized.bytes) in
      let more : is_positive_result (read spdk fuel fd t (total_len iov) offset s).0 ≡ true =
        rw e some_bytes in
      rw (readv_into, size, e, size, more) refl

  -- `xpdk_readv` on an open device of an idle library, of whole blocks and with a temporary buffer
  -- that starts at one, returns the number of bytes of the array, and its parts, which are apart, hold
  -- that many bytes of the device, in order, from the start of the block of the offset on, when SPDK
  -- gives the buffer, takes the request and does it. The device and the set of live DMA buffers stay
  -- the same.
  pub readv_loads :
      (disk : W → ℕ → Memory) (fuel : ℕ) (fd : ℤ) (iov : List Iovec) (offset : ℕ) (s : Sys R P W)
      (m : ℕ) (p p' : P) (r r' r'' : R) (h : Handles) (t : ℕ) (w₀ : W)
      → IsFifo spdk queued
      → IsDisk spdk (spdk.bdev_get_block_size h.bdev) disk
      → CanRead spdk queued fd t (total_len iov) s m p p' r r' r'' h
      → Sized spdk queued iov
      → Separate iov
      → HasTemp spdk queued iov t s.world w₀
      → ReadDone spdk queued h t (total_len iov) offset s.memory w₀
      → let (result, s') = readv spdk (suc fuel) fd iov offset s in
        let bs = spdk.bdev_get_block_size h.bdev in
        (result ≡ some (pos (total_len iov)))
        × (gather iov s'.memory
            ≡ read_bytes (disk s.world h.desc) (offset / bs * bs) (total_len iov))
        × (disk s'.world ≡ disk s.world)
        × (s'.dma_live ≡ s.dma_live)
  readv_loads disk fuel fd iov offset s m p p' r r' r'' h t w₀ fifo law can sized separate temp
        does =
      let n = total_len iov in
      let s₀ = with_temp spdk queued t w₀ s in
      let can₀ : CanRead spdk queued fd t n s₀ m p p' r r' r'' h = record {
        initialized = can.initialized;
        ready = record {
          pool = can.ready.pool;
          message = can.ready.message;
          idle = record {
            ring = can.ready.idle.ring;
            empty = can.ready.idle.empty;
            room = can.ready.idle.room;
            running = can.ready.idle.running;
            quiet = can.ready.idle.quiet;
          };
          out = can.ready.out;
        };
        some_buffer = can.some_buffer;
        some_count = can.some_count;
        device = can.device;
        readable = can.readable;
        fits = can.fits;
      } in
      let s₁ = (read spdk (suc fuel) fd t n offset s₀).1 in
      let (result, loaded, same, live) =
        read_returns spdk queued disk fuel fd t n offset s₀ m p p' r r' r'' h fifo law can₀ does in
      let call =
        readv-sends (suc fuel) fd iov offset t w₀ s can.initialized sized temp
        ∙ readv_into_answer (suc fuel) fd iov offset t s₀ sized result in
      let s₂ : Sys R P W = record s₁ { memory = buffer_to_iovec t iov s₁.memory } in
      let (freed, world, memory) =
        free_buffer_temp spdk queued t s.dma_live s₂ temp.some_buffer live in
      let gathered = buffer_to_iovec_lem t iov s₁.memory separate temp.apart in
      let before : disk w₀ ≡ disk s.world =
        law.malloc_keeps s.world w₀ n default_alignment (some t) temp.given in
      let at = offset / spdk.bdev_get_block_size h.bdev * spdk.bdev_get_block_size h.bdev in
      rw call (
        refl,
        ap (gather iov) memory ∙ gathered ∙ loaded ∙ ap (λ d. read_bytes (d h.desc) at n) before,
        ap disk world ∙ law.free_keeps s₁.world t ∙ same ∙ before,
        freed,
      )

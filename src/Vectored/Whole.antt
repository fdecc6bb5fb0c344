-- ===== src/Vectored/Whole.antt =====
-- `xpdk_writev` and `xpdk_readv` as a whole, from the call to its result.
mod Tests
pub mod Read
pub mod RoundTrip
use libxpdk.Prelude.{
  ℕ, suc, ◌-◌, ◌*◌, ◌/◌, ◌^◌, ◌<◌, ◌≡◌, refl, ap, ◌∙◌, true, false, ◌||◌, not, some, List, ◌∷◌,
  ◌++◌, arith, ◌==◌, replicate, ℤ, pos, Memory, write_bytes, Apart,
}
use libxpdk.State.{writing, Sys}
use libxpdk.Api.{Iovec}
use libxpdk.Spdk.{IsDisk, IsFifo, Spdk}
use libxpdk.Io.{fill_buffer, io_device, Handles}
use libxpdk.Dma.{default_alignment, alloc_buffer, free_buffer}
use libxpdk.Vectored.Calls.{is_empty, writev_from, writev}
use libxpdk.Vectored.Gather.{
  iovec_to_buffer_lem, gather, AllApart, calculate_iovec_size_exact, total_len,
}
use libxpdk.Vectored.Copy.{calculate_iovec_size, iovec_to_buffer}
use libxpdk.Io.Calls.{write}
use libxpdk.Core.Call.{Ready}
use libxpdk.BlockMath.Bounds.{Fits}
use libxpdk.BlockMath.{block_count, buffer_size}
use libxpdk.Io.Whole.{write_stores, Does}

module _ {R P W : Type 0} (spdk : Spdk R P W) (queued : R → List ℕ) where
  -- The linear buffer of a vectored call, once SPDK has given it
  abbrev pub with_temp : ℕ → W → Sys R P W → Sys R P W
  with_temp t w s = record s { world = w; dma_live = t ∷ s.dma_live }

  pub alloc_buffer_given :
      (size t : ℕ) (w : W) (s : Sys R P W)
      → (size == 0) ≡ false
      → spdk.dma_malloc s.world size default_alignment ≡ (some t, w)
      → alloc_buffer spdk size 0 s ≡ (some t, with_temp t w s)
  unfolding alloc_buffer
  alloc_buffer_given size t w s some_size given = ground arith

  pub free_buffer_temp :
      (t : ℕ) (live : List ℕ) (s : Sys R P W)
      → (t == 0) ≡ false
      → s.dma_live ≡ t ∷ live
      → ((free_buffer spdk t s).dma_live ≡ live)
        × ((free_buffer spdk t s).world ≡ spdk.dma_free s.world t)
        × ((free_buffer spdk t s).memory ≡ s.memory)
  unfolding free_buffer
  free_buffer_temp t live s some_t e =
      let same : (t == t) ≡ true = ground arith in rw (some_t, e, same) (refl, refl, refl)

  -- An array that a vectored call takes: parts whose bytes, at least one, have a total with no wrap.
  pub record Sized (iov : List Iovec) : Type 0 where
    pub parts : is_empty iov ≡ false
    pub bytes : (total_len iov == 0) ≡ false
    pub total : total_len iov < 2 ^ 64

  -- The linear buffer `t` that SPDK gives for the array `iov`.
  pub record HasTemp (iov : List Iovec) (t : ℕ) (w w₀ : W) : Type 0 where
    pub given : spdk.dma_malloc w (total_len iov) default_alignment ≡ (some t, w₀)
    pub some_buffer : (t == 0) ≡ false
    pub apart : AllApart t (total_len iov) iov

  writev-sends :
      (fuel : ℕ) (fd : ℤ) (iov : List Iovec) (offset t : ℕ) (w₀ : W) (s : Sys R P W)
      → s.initialized ≡ true
      → Sized iov
      → HasTemp iov t s.world w₀
      → writev spdk fuel fd iov offset s ≡ writev_from spdk fuel fd iov offset t (with_temp t w₀ s)
  unfolding writev
  writev-sends fuel fd iov offset t w₀ s init sized temp =
      let size = calculate_iovec_size_exact iov sized.total in
      let guard : (not s.initialized || is_empty iov || calculate_iovec_size iov == 0) ≡ false =
        rw (init, sized.parts, size, sized.bytes) refl in
      let alloc : alloc_buffer spdk (calculate_iovec_size iov) 0 s ≡ (some t, with_temp t w₀ s) =
        rw size (alloc_buffer_given (total_len iov) t w₀ s sized.bytes temp.given) in
      rw (guard, ap (λ q. q.0) alloc, ap (λ q. q.1) alloc) refl

  writev_from_answer :
      (fuel : ℕ) (fd : ℤ) (iov : List Iovec) (offset t : ℕ) (s : Sys R P W) (r : ℤ)
      → Sized iov
      → (let s₀ = record s { memory = iovec_to_buffer iov t s.memory } in
          (write spdk fuel fd t (total_len iov) offset s₀).0 ≡ some r)
      → let s₀ = record s { memory = iovec_to_buffer iov t s.memory } in
        writev_from spdk fuel fd iov offset t s
        ≡ (some r, free_buffer spdk t (write spdk fuel fd t (total_len iov) offset s₀).1)
  unfolding writev_from
  writev_from_answer fuel fd iov offset t s r sized e =
      let size = calculate_iovec_size_exact iov sized.total in rw (writev_from, size, e, size) refl

  -- `xpdk_writev` on an open device of an idle library returns the number of bytes of the array, and
  -- the device holds the parts one after the other from the block of the offset on, with zeros up to
  -- the end of the last block, when SPDK gives two buffers that are apart, takes the request and does
  -- it. No DMA buffer is lost.
  pub writev_stores :
      (disk : W → ℕ → Memory) (fuel : ℕ) (fd : ℤ) (iov : List Iovec) (offset : ℕ) (s : Sys R P W)
      (m : ℕ) (p p' : P) (r r' r'' : R) (h : Handles) (t b : ℕ) (w₀ w₁ w₂ w₃ : W) (mem : Memory)
      → IsFifo spdk queued
      → IsDisk spdk (spdk.bdev_get_block_size h.bdev) disk
      → s.initialized ≡ true
      → Ready spdk queued s m p p' r r' r''
      → Sized iov
      → io_device s.devices fd ≡ some h
      → Fits (total_len iov) (spdk.bdev_get_block_size h.bdev)
      → HasTemp iov t s.world w₀
      → Apart b (buffer_size (total_len iov) (spdk.bdev_get_block_size h.bdev)) t (total_len iov)
      → Does spdk queued writing h
          (total_len iov)
          offset
          b
          (fill_buffer b
            (buffer_size (total_len iov) (spdk.bdev_get_block_size h.bdev))
            t
            (total_len iov)
            (iovec_to_buffer iov t s.memory))
          mem
          w₀
          w₁
          w₂
          w₃
      → let (result, s') = writev spdk (suc fuel) fd iov offset s in
        let bs = spdk.bdev_get_block_size h.bdev in
        (result ≡ some (pos (total_len iov)))
        × (disk s'.world h.desc
            ≡ write_bytes (disk s.world h.desc) (offset / bs * bs) (
                gather iov s.memory
                ++ replicate (block_count (total_len iov) bs * bs - total_len iov) 0))
        × (s'.dma_live ≡ s.dma_live)
  writev_stores disk fuel fd iov offset s m p p' r r' r'' h t b w₀ w₁ w₂ w₃ mem fifo law init ready
        sized device fits temp apart does =
      let n = total_len iov in
      let s₀ : Sys R P W = record (with_temp t w₀ s) { memory = iovec_to_buffer iov t s.memory } in
      let ready₀ : Ready spdk queued s₀ m p p' r r' r'' = record {
        pool = ready.pool;
        message = ready.message;
        idle = record {
          ring = ready.idle.ring;
          empty = ready.idle.empty;
          room = ready.idle.room;
          running = ready.idle.running;
          quiet = ready.idle.quiet;
        };
        out = ready.out;
      } in
      let s₁ = (write spdk (suc fuel) fd t n offset s₀).1 in
      let (result, stored, live) =
        write_stores spdk queued disk fuel fd t n offset s₀ m p p' r r' r'' h b w₁ w₂ w₃ mem fifo
          law init ready₀ temp.some_buffer sized.bytes device fits does.given apart does.accepted
          does.done in
      let call =
        writev-sends (suc fuel) fd iov offset t w₀ s init sized temp
        ∙ writev_from_answer (suc fuel) fd iov offset t (with_temp t w₀ s) (pos n) sized result in
      let (freed, world, _) = free_buffer_temp t s.dma_live s₁ temp.some_buffer live in
      let gathered = iovec_to_buffer_lem iov t s.memory temp.apart in
      let before : disk w₀ ≡ disk s.world =
        law.malloc_keeps s.world w₀ n default_alignment (some t) temp.given in
      rw call (
        refl,
        ap (λ w. disk w h.desc) world
            ∙ ap (λ d. d h.desc) (law.free_keeps s₁.world t)
            ∙ (rw (gathered, before) at stored),
        freed,
      )

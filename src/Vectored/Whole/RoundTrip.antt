-- ===== src/Vectored/Whole/RoundTrip.antt =====
-- `xpdk_writev` and then `xpdk_readv`, with arrays that need not be cut alike.
use libxpdk.Prelude.{
  read_bytes-write_bytes-append, ℕ, suc, ◌-◌, ◌*◌, ◌/◌, ◌≡◌, sym, ap, ◌∙◌, true, some, List,
  replicate, ℤ, pos, Memory, read_bytes, Apart,
}
use libxpdk.State.{writing, Sys}
use libxpdk.Api.{Iovec}
use libxpdk.Spdk.{IsDisk, IsFifo, Spdk}
use libxpdk.Io.{fill_buffer, io_device, Handles}
use libxpdk.Core.Call.{Ready}
use libxpdk.Vectored.Whole.{writev_stores, HasTemp, Sized}
use libxpdk.BlockMath.Bounds.{Fits}
use libxpdk.Vectored.Gather.{length-gather, gather, Separate, total_len}
use libxpdk.BlockMath.{block_count, buffer_size}
use libxpdk.Io.Whole.{Does}
use libxpdk.Vectored.Copy.{iovec_to_buffer}
use libxpdk.Vectored.Calls.{readv, writev}
use libxpdk.Io.Whole.Read.{ReadDone, CanRead}
use libxpdk.Vectored.Whole.Read.{readv_loads}

module _ {R P W : Type 0} (spdk : Spdk R P W) (queued : R → List ℕ) where
  -- What `xpdk_writev` stores from the parts of one array, `xpdk_readv` at the same offset loads into
  -- the parts of another of the same total length, however the two are cut, if that length and the
  -- temporary buffer of the read are whole blocks: both calls return the number of bytes, when the
  -- library can serve them and SPDK takes both requests and does them. No DMA buffer is lost.
  pub writev-readv :
      (disk : W → ℕ → Memory) (fuel : ℕ) (fd : ℤ) (iov iov₂ : List Iovec) (offset : ℕ)
      (s : Sys R P W) (m m₂ : ℕ) (p p' p₂ p₃ : P) (r r' r'' q q' q'' : R) (h : Handles) (t t₂ b : ℕ)
      (w₀ w₁ w₂ w₃ v₀ : W) (mem : Memory)
      → IsFifo spdk queued
      → IsDisk spdk (spdk.bdev_get_block_size h.bdev) disk
      → s.initialized ≡ true
      → Ready spdk queued s m p p' r r' r''
      → Sized spdk queued iov
      → io_device s.devices fd ≡ some h
      → Fits (total_len iov) (spdk.bdev_get_block_size h.bdev)
      → HasTemp spdk queued iov t s.world w₀
      → Apart b (buffer_size (total_len iov) (spdk.bdev_get_block_size h.bdev)) t (total_len iov)
      → Does spdk queued writing h
          (total_len iov)
          offset
          b
          (fill_buffer b
            (buffer_size (total_len iov) (spdk.bdev_get_block_size h.bdev))
            t
            (total_len iov)
            (iovec_to_buffer iov t s.memory))
          mem
          w₀
          w₁
          w₂
          w₃
      → total_len iov ≡ total_len iov₂
      → Sized spdk queued iov₂
      → Separate iov₂
      → (let s₁ = (writev spdk (suc fuel) fd iov offset s).1 in
          CanRead spdk queued fd t₂ (total_len iov₂) s₁ m₂ p₂ p₃ q q' q'' h
          × HasTemp spdk queued iov₂ t₂ s₁.world v₀
          × ReadDone spdk queued h t₂ (total_len iov₂) offset s₁.memory v₀)
      → let (written, s₁) = writev spdk (suc fuel) fd iov offset s in
        let (result, s₂) = readv spdk (suc fuel) fd iov₂ offset s₁ in
        (written ≡ some (pos (total_len iov)))
        × (result ≡ some (pos (total_len iov)))
        × (gather iov₂ s₂.memory ≡ gather iov s.memory)
        × (s₂.dma_live ≡ s.dma_live)
  writev-readv disk fuel fd iov iov₂ offset s m m₂ p p' p₂ p₃ r r' r'' q q' q'' h t t₂ b w₀ w₁ w₂ w₃
        v₀ mem fifo law init ready sized device fits temp apart does same sized₂ separate
        (can, temp₂, loads) =
      let s₁ = (writev spdk (suc fuel) fd iov offset s).1 in
      let bs = spdk.bdev_get_block_size h.bdev in
      let at = offset / bs * bs in
      let (written, stored, live₁) =
        writev_stores spdk queued disk fuel fd iov offset s m p p' r r' r'' h t b w₀ w₁ w₂ w₃ mem
          fifo law init ready sized device fits temp apart does in
      let (result, loaded, _, live₂) =
        readv_loads spdk queued disk fuel fd iov₂ offset s₁ m₂ p₂ p₃ q q' q'' h t₂ v₀ fifo law can
          sized₂ separate temp₂ loads in
      let start =
        read_bytes-write_bytes-append (disk s.world h.desc) at (gather iov s.memory)
          (replicate (block_count (total_len iov) bs * bs - total_len iov) 0) (total_len iov₂)
          (length-gather iov s.memory ∙ same) in
      (
        written,
        result ∙ ap (λ n. some (pos n)) (sym same),
        loaded ∙ ap (λ f. read_bytes f at (total_len iov₂)) stored ∙ start,
        live₂ ∙ live₁,
      )

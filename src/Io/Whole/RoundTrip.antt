-- ===== src/Io/Whole/RoundTrip.antt =====
-- `xpdk_write` and then `xpdk_read`: what an application stores is what it gets back.
use libxpdk.Prelude.{
  read_bytes-write_bytes-append, ℕ, suc, ◌-◌, ◌*◌, ◌/◌, ◌≡◌, ap, ◌∙◌, true, false, some, List, ◌==◌,
  replicate, ℤ, pos, Memory, read_bytes, Apart, length-read_bytes,
}
use libxpdk.State.{writing, Sys}
use libxpdk.Spdk.{IsDisk, IsFifo, Spdk}
use libxpdk.Io.{fill_buffer, io_device, Handles}
use libxpdk.BlockMath.{block_count, buffer_size}
use libxpdk.Io.Whole.{Does, write_stores}
use libxpdk.Core.Call.{Ready}
use libxpdk.Io.Calls.{read, write}
use libxpdk.Io.Whole.Read.{read_returns, ReadDone, CanRead}

module _ {R P W : Type 0} (spdk : Spdk R P W) (queued : R → List ℕ) where
  -- What `xpdk_write` stores from one buffer, `xpdk_read` of as many bytes at the same offset loads
  -- into another, if that buffer and the length are whole blocks: both calls return the number of
  -- bytes, when the library can serve them and SPDK takes both requests and does them, with a bounce
  -- buffer of the write that is apart from the buffer that is written. No DMA buffer is lost.
  pub write-read :
      (disk : W → ℕ → Memory) (fuel : ℕ) (fd : ℤ) (buffer buffer₂ count offset : ℕ) (s : Sys R P W)
      (m m₂ : ℕ) (p p' p₂ p₃ : P) (r r' r'' q q' q'' : R) (h : Handles) (b : ℕ) (w₁ w₂ w₃ : W)
      (mem : Memory)
      → IsFifo spdk queued
      → IsDisk spdk (spdk.bdev_get_block_size h.bdev) disk
      → s.initialized ≡ true
      → Ready spdk queued s m p p' r r' r''
      → (buffer == 0) ≡ false
      → io_device s.devices fd ≡ some h
      → Apart b (buffer_size count (spdk.bdev_get_block_size h.bdev)) buffer count
      → Does spdk queued writing h count offset b
          (fill_buffer b
            (buffer_size count (spdk.bdev_get_block_size h.bdev))
            buffer
            count
            s.memory)
          mem
          s.world
          w₁
          w₂
          w₃
      → (let s₁ = (write spdk (suc fuel) fd buffer count offset s).1 in
          CanRead spdk queued fd buffer₂ count s₁ m₂ p₂ p₃ q q' q'' h
          × ReadDone spdk queued h buffer₂ count offset s₁.memory s₁.world)
      → let s₁ = (write spdk (suc fuel) fd buffer count offset s).1 in
        let (result, s₂) = read spdk (suc fuel) fd buffer₂ count offset s₁ in
        ((write spdk (suc fuel) fd buffer count offset s).0 ≡ some (pos count))
        × (result ≡ some (pos count))
        × (read_bytes s₂.memory buffer₂ count ≡ read_bytes s.memory buffer count)
        × (s₂.dma_live ≡ s.dma_live)
  write-read disk fuel fd buffer buffer₂ count offset s m m₂ p p' p₂ p₃ r r' r'' q q' q'' h b w₁ w₂
        w₃ mem fifo law init ready some_buffer device apart wrote (can, loads) =
      let s₁ = (write spdk (suc fuel) fd buffer count offset s).1 in
      let bs = spdk.bdev_get_block_size h.bdev in
      let at = offset / bs * bs in
      let xs = read_bytes s.memory buffer count in
      let (wrote_all, stored, live₁) =
        write_stores spdk queued disk fuel fd buffer count offset s m p p' r r' r'' h b w₁ w₂ w₃ mem
          fifo law init ready some_buffer can.some_count device can.fits wrote.given apart
          wrote.accepted wrote.done in
      let (result, loaded, _, live₂) =
        read_returns spdk queued disk fuel fd buffer₂ count offset s₁ m₂ p₂ p₃ q q' q'' h fifo law
          can loads in
      let prefix =
        read_bytes-write_bytes-append (disk s.world h.desc) at xs
          (replicate (block_count count bs * bs - count) 0) count
          (length-read_bytes s.memory buffer count) in
      (wrote_all, result, loaded ∙ ap (λ f. read_bytes f at count) stored ∙ prefix, live₂ ∙ live₁)

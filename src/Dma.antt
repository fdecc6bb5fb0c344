-- ===== src/Dma.antt =====
-- DMA memory: SPDK's allocator with a record of what is live, and the buffers of xpdk_vectored.c.
use libxpdk.Prelude.{ℕ, Option, none, some, List, [], ◌∷◌, ◌==◌, if◌then◌else◌}
use libxpdk.State.{Sys}
use libxpdk.Spdk.{Spdk}

-- The alignment that `xpdk_alloc_buffer` puts in place of 0
abbrev pub default_alignment : ℕ
default_alignment = 4096

-- A list without the first place that holds an address.
abbrev pub remove_one : ℕ → List ℕ → List ℕ
remove_one p [] = []
remove_one p (q ∷ qs) = if p == q then qs else q ∷ remove_one p qs

module _ {R P W : Type 0} (spdk : Spdk R P W) where
  -- `spdk_dma_malloc`
  abbrev pub dma_malloc : ℕ → ℕ → Sys R P W → Option ℕ × Sys R P W
  dma_malloc size align s =
      let (p, w) = spdk.dma_malloc s.world size align in
      elim p [
        | none ↦ (none, record s { world = w })
        | some b ↦ (some b, record s { world = w; dma_live = b ∷ s.dma_live })
      ]

  -- `spdk_dma_free`
  abbrev pub dma_free : ℕ → Sys R P W → Sys R P W
  dma_free p s = record s { world = spdk.dma_free s.world p; dma_live = remove_one p s.dma_live }

  -- `xpdk_alloc_buffer`
  unfoldable pub alloc_buffer : ℕ → ℕ → Sys R P W → Option ℕ × Sys R P W
  alloc_buffer size alignment s =
      if size == 0
      then (none, s)
      else dma_malloc size (if alignment == 0 then default_alignment else alignment) s

  -- `xpdk_free_buffer`
  unfoldable pub free_buffer : ℕ → Sys R P W → Sys R P W
  free_buffer p s = if p == 0 then s else dma_free p s

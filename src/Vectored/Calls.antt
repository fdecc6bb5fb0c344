-- ===== src/Vectored/Calls.antt =====
-- xpdk_vectored.c: the four vectored calls. An empty array stands for a NULL array and for a count
-- that is not positive.
use libxpdk.Prelude.{
  ℕ, Bool, true, false, ◌||◌, not, Option, none, some, List, [], ◌∷◌, ◌==◌, if◌then◌else◌, ℤ,
  is_pos, update,
}
use libxpdk.Api.{Iovec, Callback, vectored_completion, is_null, error_invalid, error_nomem}
use libxpdk.State.{VectoredCtx, Sys}
use libxpdk.Spdk.{Spdk}
use libxpdk.Dma.{alloc_buffer, free_buffer}
use libxpdk.Io.Calls.{read, write, read_async, write_async}
use libxpdk.Vectored.Copy.{calculate_iovec_size, iovec_to_buffer, buffer_to_iovec}

abbrev pub is_empty : List Iovec → Bool
is_empty [] = true
is_empty (v ∷ vs) = false

abbrev pub is_positive_result : Option ℤ → Bool
is_positive_result none = false
is_positive_result (some n) = is_pos n

module _ {R P W : Type 0} (spdk : Spdk R P W) (fuel : ℕ) where
  -- `xpdk_readv` with its linear buffer: a wait that has not ended leaves the buffer as it is.
  unfoldable pub readv_into : ℤ → List Iovec → ℕ → ℕ → Sys R P W → Option ℤ × Sys R P W
  readv_into fd iov offset temp s =
      let (n, s₁) = read spdk fuel fd temp (calculate_iovec_size iov) offset s in
      let s₂ =
        if is_positive_result n
        then record s₁ { memory = buffer_to_iovec temp iov s₁.memory }
        else s₁ in
      elim n [ none ↦ (none, s₁) | some r ↦ (some r, free_buffer spdk temp s₂) ]

  -- `xpdk_readv`
  unfoldable pub readv : ℤ → List Iovec → ℕ → Sys R P W → Option ℤ × Sys R P W
  unfolding readv_into
  readv fd iov offset s =
      let size = calculate_iovec_size iov in
      let (temp, s₁) = alloc_buffer spdk size 0 s in
      if not s.initialized || is_empty iov || size == 0
      then (some error_invalid, s)
      else elim temp [ none ↦ (some error_nomem, s₁) | some t ↦ readv_into fd iov offset t s₁ ]

  -- `xpdk_writev` with its linear buffer
  unfoldable pub writev_from : ℤ → List Iovec → ℕ → ℕ → Sys R P W → Option ℤ × Sys R P W
  writev_from fd iov offset temp s =
      let (n, s₁) =
        write spdk fuel fd temp (calculate_iovec_size iov) offset
          (record s { memory = iovec_to_buffer iov temp s.memory }) in
      elim n [ none ↦ (none, s₁) | some r ↦ (some r, free_buffer spdk temp s₁) ]

  -- `xpdk_writev`
  unfoldable pub writev : ℤ → List Iovec → ℕ → Sys R P W → Option ℤ × Sys R P W
  unfolding writev_from
  writev fd iov offset s =
      let size = calculate_iovec_size iov in
      let (temp, s₁) = alloc_buffer spdk size 0 s in
      if not s.initialized || is_empty iov || size == 0
      then (some error_invalid, s)
      else elim temp [ none ↦ (some error_nomem, s₁) | some t ↦ writev_from fd iov offset t s₁ ]

module _ {R P W : Type 0} (spdk : Spdk R P W) where
  -- The wrapper context of the asynchronous calls: `malloc`, and its fields
  unfoldable pub make_ctx : VectoredCtx → Sys R P W → Option ℕ × Sys R P W
  make_ctx v s =
      let (p, w) = spdk.malloc s.world in
      elim p [
        | none ↦ (none, record s { world = w })
        | some c ↦ (some c, record s { world = w; vectored = update s.vectored c v })
      ]

  abbrev pub wrapper : List Iovec → ℕ → Bool → Callback → ℕ → VectoredCtx
  wrapper iov temp is_read callback ctx = record {
    original_callback = callback;
    original_ctx = ctx;
    iov = iov;
    temp_buffer = temp;
    is_read = is_read;
  }

  -- The guards of the asynchronous calls
  abbrev pub refuses : List Iovec → Callback → Sys R P W → Bool
  refuses iov callback s =
      not s.initialized || is_empty iov || is_null callback || calculate_iovec_size iov == 0

  -- `xpdk_readv_async`
  unfoldable pub readv_async : ℤ → List Iovec → ℕ → Callback → ℕ → Sys R P W → ℤ × Sys R P W
  unfolding make_ctx
  readv_async fd iov offset callback ctx s =
      let size = calculate_iovec_size iov in
      let (temp, s₁) = alloc_buffer spdk size 0 s in
      if refuses iov callback s then (error_invalid, s) else elim temp [
        | none ↦ (error_nomem, s₁)
        | some t ↦
            let (v, s₂) = make_ctx (wrapper iov t true callback ctx) s₁ in
            elim v [
              | none ↦ (error_nomem, free_buffer spdk t s₂)
              | some c ↦ read_async spdk fd t size offset vectored_completion c s₂
            ]
      ]

  -- `xpdk_writev_async`
  unfoldable pub writev_async : ℤ → List Iovec → ℕ → Callback → ℕ → Sys R P W → ℤ × Sys R P W
  unfolding make_ctx
  writev_async fd iov offset callback ctx s =
      let size = calculate_iovec_size iov in
      let (temp, s₁) = alloc_buffer spdk size 0 s in
      if refuses iov callback s then (error_invalid, s) else elim temp [
        | none ↦ (error_nomem, s₁)
        | some t ↦
            let (v, s₂) =
              make_ctx (wrapper iov t false callback ctx)
                (record s₁ { memory = iovec_to_buffer iov t s₁.memory }) in
            elim v [
              | none ↦ (error_nomem, free_buffer spdk t s₂)
              | some c ↦ write_async spdk fd t size offset vectored_completion c s₂
            ]
      ]

-- ===== src/Vectored/Copy.antt =====
-- xpdk_vectored.c: the copies between an array of buffers and a linear one, over memory.
use libxpdk.Prelude.{ℕ, ◌+◌, List, [], ◌∷◌, Memory, read_bytes, write_bytes}
use libxpdk.Api.{Iovec, u64}

-- `memcpy`
abbrev pub memcpy : ℕ → ℕ → ℕ → Memory → Memory
memcpy dst src n m = write_bytes m dst (read_bytes m src n)

-- The loop of `calculate_iovec_size`
unfoldable pub size_from : ℕ → List Iovec → ℕ
size_from total [] = total
size_from total (v ∷ vs) = size_from (u64 (total + v.iov_len)) vs

-- `calculate_iovec_size`
unfoldable pub calculate_iovec_size : List Iovec → ℕ
unfolding size_from
calculate_iovec_size iov = size_from 0 iov

-- `iovec_to_buffer`; the argument `dst` is the loop's.
unfoldable pub iovec_to_buffer : List Iovec → ℕ → Memory → Memory
iovec_to_buffer [] dst m = m
iovec_to_buffer (v ∷ vs) dst m =
    iovec_to_buffer vs (dst + v.iov_len) (memcpy dst v.iov_base v.iov_len m)

-- `buffer_to_iovec`; the argument `src` is the loop's.
unfoldable pub buffer_to_iovec : ℕ → List Iovec → Memory → Memory
buffer_to_iovec src [] m = m
buffer_to_iovec src (v ∷ vs) m =
    buffer_to_iovec (src + v.iov_len) vs (memcpy v.iov_base src v.iov_len m)

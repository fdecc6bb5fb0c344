-- ===== src/Vectored/Gather.antt =====
-- What the copies of vectored I/O move: an array of buffers is the concatenation of its parts.
use libxpdk.Prelude.{
  ap₂, read_bytes_ext, ℕ, ◌+◌, ◌^◌, ◌≤◌, ◌<◌, ◌≡◌, refl, sym, ap, ◌∙◌, inl, List, [], ◌∷◌, ◌++◌,
  arith, length, length-append, Memory, read_bytes, write_bytes, Apart, length-read_bytes,
  write_bytes_outside, read_bytes-write_bytes, read_bytes-write_bytes-Apart, read_bytes_add,
}
use libxpdk.Api.{Iovec, u64}
use libxpdk.Vectored.Copy.{
  memcpy, size_from, calculate_iovec_size, iovec_to_buffer, buffer_to_iovec,
}

-- The bytes that the array holds, in order, and how many they are.
abbrev pub gather : List Iovec → Memory → List ℕ
gather [] m = []
gather (v ∷ vs) m = read_bytes m v.iov_base v.iov_len ++ gather vs m

abbrev pub total_len : List Iovec → ℕ
total_len [] = 0
total_len (v ∷ vs) = v.iov_len + total_len vs

-- No part of the array shares an address with the `n` bytes from `p` on.
abbrev pub AllApart : ℕ → ℕ → List Iovec → Type 0
AllApart p n [] = Unit {0}
AllApart p n (v ∷ vs) = Apart p n v.iov_base v.iov_len × AllApart p n vs

-- Nor do two parts.
abbrev pub Separate : List Iovec → Type 0
Separate [] = Unit {0}
Separate (v ∷ vs) = AllApart v.iov_base v.iov_len vs × Separate vs

pub length-gather : (iov : List Iovec) (m : Memory) → length (gather iov m) ≡ total_len iov
length-gather [] m = refl
length-gather (v ∷ vs) m = omega (
  arith,
  length-append (read_bytes m v.iov_base v.iov_len) (gather vs m),
  length-read_bytes m v.iov_base v.iov_len,
  length-gather vs m,
)

size_from-total_len :
    (total : ℕ) (iov : List Iovec)
    → total + total_len iov < 2 ^ 64
    → size_from total iov ≡ total + total_len iov
unfolding size_from
size_from-total_len total [] h = omega arith
size_from-total_len total (v ∷ vs) h =
    let fits : u64 (total + v.iov_len) ≡ total + v.iov_len = omega arith in
    rw fits (size_from-total_len (total + v.iov_len) vs (omega arith) ∙ omega arith)

-- `calculate_iovec_size` is the number of bytes, where that fits in a `size_t`.
pub calculate_iovec_size_exact :
    (iov : List Iovec) → total_len iov < 2 ^ 64 → calculate_iovec_size iov ≡ total_len iov
unfolding calculate_iovec_size
calculate_iovec_size_exact iov h = size_from-total_len 0 iov (omega arith) ∙ omega arith

-- A write of bytes apart from the array leaves what the array holds.
gather-write_bytes :
    (iov : List Iovec) (m : Memory) (p : ℕ) (xs : List ℕ)
    → AllApart p (length xs) iov
    → gather iov (write_bytes m p xs) ≡ gather iov m
gather-write_bytes [] m p xs h = refl
gather-write_bytes (v ∷ vs) m p xs h =
    rw (
      read_bytes-write_bytes-Apart m p xs v.iov_base v.iov_len h.0,
      gather-write_bytes vs m p xs h.1,
    )

AllApart-sub :
    (p n q k : ℕ) (iov : List Iovec) → p ≤ q → q + k ≤ p + n → AllApart p n iov → AllApart q k iov
AllApart-sub p n q k [] lo hi h = tt
AllApart-sub p n q k (v ∷ vs) lo hi h = (ground arith, AllApart-sub p n q k vs lo hi h.1)

-- `iovec_to_buffer` writes nothing below its destination.
iovec_to_buffer_below :
    (iov : List Iovec) (dst : ℕ) (m : Memory) (q : ℕ) → q < dst → iovec_to_buffer iov dst m q ≡ m q
unfolding iovec_to_buffer
iovec_to_buffer_below [] dst m q h = refl
iovec_to_buffer_below (v ∷ vs) dst m q h =
    iovec_to_buffer_below vs (dst + v.iov_len) _ q (omega arith)
    ∙ write_bytes_outside m dst (read_bytes m v.iov_base v.iov_len) q (inl h)

pub memcpy_self :
    (dst src n : ℕ) (m : Memory) → read_bytes (memcpy dst src n m) dst n ≡ read_bytes m src n
memcpy_self dst src n m =
    ap (read_bytes (memcpy dst src n m) dst) (sym (length-read_bytes m src n))
    ∙ read_bytes-write_bytes m dst (read_bytes m src n)

-- After `iovec_to_buffer` the linear buffer holds what the array held, in order.
pub iovec_to_buffer_lem :
    (iov : List Iovec) (dst : ℕ) (m : Memory)
    → AllApart dst (total_len iov) iov
    → read_bytes (iovec_to_buffer iov dst m) dst (total_len iov) ≡ gather iov m
unfolding iovec_to_buffer
iovec_to_buffer_lem [] dst m h = refl
iovec_to_buffer_lem (v ∷ vs) dst m h =
    read_bytes_add m₂ dst v.iov_len (total_len vs)
    ∙ ap₂ ◌++◌ (kept ∙ memcpy_self dst v.iov_base v.iov_len m)
        (iovec_to_buffer_lem vs (dst + v.iov_len) m₁ rest_apart ∙ same)
  where
    m₁ : Memory
    m₁ = memcpy dst v.iov_base v.iov_len m

    m₂ : Memory
    m₂ = iovec_to_buffer vs (dst + v.iov_len) m₁

    kept : read_bytes m₂ dst v.iov_len ≡ read_bytes m₁ dst v.iov_len
    kept =
        read_bytes_ext m₂ m₁ dst v.iov_len
          λ q lo hi. iovec_to_buffer_below vs (dst + v.iov_len) m₁ q hi

    rest_apart : AllApart (dst + v.iov_len) (total_len vs) vs
    rest_apart = AllApart-sub dst (v.iov_len + total_len vs) _ _ vs (omega arith) (omega arith) h.1

    same : gather vs m₁ ≡ gather vs m
    same = gather-write_bytes vs m dst (read_bytes m v.iov_base v.iov_len) (
        rw (length-read_bytes m v.iov_base v.iov_len)
          (AllApart-sub dst (v.iov_len + total_len vs) _ _ vs (omega arith) (omega arith) h.1))

-- `buffer_to_iovec` leaves alone what is apart from the array.
read_bytes-buffer_to_iovec :
    (src : ℕ) (iov : List Iovec) (m : Memory) (p n : ℕ)
    → AllApart p n iov
    → read_bytes (buffer_to_iovec src iov m) p n ≡ read_bytes m p n
unfolding buffer_to_iovec
read_bytes-buffer_to_iovec src [] m p n h = refl
read_bytes-buffer_to_iovec src (v ∷ vs) m p n h =
    read_bytes-buffer_to_iovec (src + v.iov_len) vs _ p n h.1
    ∙ read_bytes-write_bytes-Apart m v.iov_base (read_bytes m src v.iov_len) p n
        (rw (length-read_bytes m src v.iov_len) (ground arith))

-- After `buffer_to_iovec` the parts hold the bytes of the linear buffer, in order, if no two parts
-- overlap one another or the buffer.
pub buffer_to_iovec_lem :
    (src : ℕ) (iov : List Iovec) (m : Memory)
    → Separate iov
    → AllApart src (total_len iov) iov
    → gather iov (buffer_to_iovec src iov m) ≡ read_bytes m src (total_len iov)
unfolding buffer_to_iovec
buffer_to_iovec_lem src [] m sep h = refl
buffer_to_iovec_lem src (v ∷ vs) m sep h =
    ap₂ ◌++◌
      (read_bytes-buffer_to_iovec (src + v.iov_len) vs m₁ v.iov_base v.iov_len sep.0
        ∙ memcpy_self v.iov_base src v.iov_len m)
      (buffer_to_iovec_lem (src + v.iov_len) vs m₁ sep.1 rest_apart ∙ untouched)
    ∙ sym (read_bytes_add m src v.iov_len (total_len vs))
  where
    m₁ : Memory
    m₁ = memcpy v.iov_base src v.iov_len m

    rest_apart : AllApart (src + v.iov_len) (total_len vs) vs
    rest_apart = AllApart-sub src (v.iov_len + total_len vs) _ _ vs (omega arith) (omega arith) h.1

    untouched :
        read_bytes m₁ (src + v.iov_len) (total_len vs)
        ≡ read_bytes m (src + v.iov_len) (total_len vs)
    untouched =
        read_bytes-write_bytes-Apart m v.iov_base (read_bytes m src v.iov_len) _ _
          (rw (length-read_bytes m src v.iov_len) (ground arith))

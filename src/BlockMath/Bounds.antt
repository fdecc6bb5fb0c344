-- ===== src/BlockMath/Bounds.antt =====
-- When the block arithmetic is exact.
use libxpdk.Prelude.{ℕ, ◌+◌, ◌-◌, ◌*◌, ◌/◌, ◌^◌, ◌≤◌, ◌<◌, ◌≡◌, refl, arith}
use libxpdk.Api.{u32, u64}
use libxpdk.BlockMath.{block_count, buffer_size}

-- A request that the arithmetic of the handlers can carry: the last byte of its last block still
-- has a 32-bit number.
pub record Fits (count bs : ℕ) : Type 0 where
  pub blocks : 0 < bs
  pub bytes : count + bs ≤ 2 ^ 32

div_bounds : (n d : ℕ) → 0 < d → (n / d * d ≤ n) × (n < (n / d + 1) * d)
div_bounds n d h = grind arith

ceil_bounds :
    (count bs : ℕ)
    → 0 < bs
    → (count ≤ (count + bs - 1) / bs * bs) × ((count + bs - 1) / bs * bs < count + bs)
ceil_bounds count bs h = omega (arith, div_bounds (count + bs - 1) bs h)

le-mul_pos : (q d : ℕ) → 0 < d → q ≤ q * d
le-mul_pos q d h = grind arith

-- The rounded quotient, with no wrap left in it.
pub block_count_exact :
    (count bs : ℕ) → Fits count bs → block_count count bs ≡ (count + bs - 1) / bs
unfolding block_count
block_count_exact count bs fits =
    let no_wrap : u64 (count + bs - 1) ≡ count + bs - 1 = omega (arith, fits.bytes) in
    rw no_wrap (
      omega (
        arith,
        ceil_bounds count bs fits.blocks,
        le-mul_pos ((count + bs - 1) / bs) bs fits.blocks,
        fits.bytes,
      ))

-- The blocks of a request that fits cover its bytes and no whole block more, and the bounce buffer
-- is exactly as long as they are.
pub block_count_covers :
    (count bs : ℕ)
    → Fits count bs
    → (buffer_size count bs ≡ block_count count bs * bs)
      × (count ≤ block_count count bs * bs)
      × (block_count count bs * bs < count + bs)
unfolding buffer_size
block_count_covers count bs fits =
    rw (block_count_exact count bs fits)
      (omega (arith, ceil_bounds count bs fits.blocks, fits.bytes))

quotient_unique : (q n d : ℕ) → 0 < d → n * d ≤ q * d → q * d < n * d + d → q ≡ n
quotient_unique q n d h lo hi = grind arith

-- The product of blocks and block size wraps: a request of 4 GiB, in blocks that divide it, gets a
-- bounce buffer of no bytes for all its blocks.
pub buffer_size_wraps :
    (n bs : ℕ)
    → 0 < bs
    → n < 2 ^ 32
    → n * bs ≡ 2 ^ 32
    → (buffer_size (2 ^ 32) bs ≡ 0) × (block_count (2 ^ 32) bs ≡ n)
unfolding buffer_size block_count
buffer_size_wraps n bs pos_bs small exact =
    let fits : bs ≤ 2 ^ 32 = rw (← exact) (grind arith) in
    let no_wrap : u64 (2 ^ 32 + bs - 1) ≡ 2 ^ 32 + bs - 1 = omega arith in
    let q : (2 ^ 32 + bs - 1) / bs ≡ n =
      quotient_unique ((2 ^ 32 + bs - 1) / bs) n bs pos_bs
        (omega (arith, ceil_bounds (2 ^ 32) bs pos_bs))
        (omega (arith, ceil_bounds (2 ^ 32) bs pos_bs)) in
    let short : u32 n ≡ n = omega arith in rw (no_wrap, q, short, exact) (refl, refl)

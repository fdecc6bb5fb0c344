-- ===== src/BlockMath/Tests.antt =====
-- The block arithmetic at concrete sizes.
use libxpdk.Prelude.{◌^◌, ◌≡◌, refl, arith}
use libxpdk.BlockMath.{block_count, buffer_size}
use libxpdk.BlockMath.Bounds.{buffer_size_wraps}

buffer_size_wraps_example : (buffer_size (2 ^ 32) 512 ≡ 0) × (block_count (2 ^ 32) 512 ≡ 8388608)
buffer_size_wraps_example = buffer_size_wraps 8388608 512 (omega arith) (omega arith) refl

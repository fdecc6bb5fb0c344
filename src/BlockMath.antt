-- ===== src/BlockMath.antt =====
-- The block arithmetic that the handlers of xpdk_io.c and xpdk_perf.c share: `block_size` and
-- `num_blocks` are `uint32_t`, byte counts and offsets are 64 bits wide.
mod Tests
pub mod Bounds
use libxpdk.Prelude.{ℕ, ◌+◌, ◌-◌, ◌*◌, ◌/◌}
use libxpdk.Api.{u32, u64}

-- `offset / block_size`
unfoldable pub block_offset : ℕ → ℕ → ℕ
block_offset offset bs = offset / bs

-- `(count + block_size - 1) / block_size`, stored in a `uint32_t`
unfoldable pub block_count : ℕ → ℕ → ℕ
block_count count bs = u32 (u64 (count + bs - 1) / bs)

-- `num_blocks * block_size`, a product of two `uint32_t`
unfoldable pub buffer_size : ℕ → ℕ → ℕ
unfolding block_count
buffer_size count bs = u32 (block_count count bs * bs)

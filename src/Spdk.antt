-- ===== src/Spdk.antt =====
-- The code outside the repository that the library stands on: SPDK's rings, pools, DMA memory and
-- block devices, and the clock. Each is a parameter; the laws below are the documented behaviour
-- that a theorem may ask for.
use libxpdk.Prelude.{
  ◌<◌, ℕ, suc, ◌+◌, ◌==◌, if◌then◌else◌, ◌*◌, ◌≡◌, Bool, true, Option, none, some, List, [], ◌∷◌,
  ◌++◌, Memory, read_bytes, write_bytes,
}
use libxpdk.Api.{Name}
use libxpdk.State.{reading, writing, Request}

-- The functions that the source calls. `R` is the state of a ring, `P` that of a pool, `W` that of
-- everything else. A Boolean result says whether the call returned 0.
pub record Spdk (R P W : Type 0) : Type 0 where
  pub ring_create : ℕ → Option R
  pub ring_enqueue : R → ℕ → Option R
  pub ring_dequeue : R → Option (ℕ × R)
  pub mempool_create : ℕ → Option P
  pub mempool_get : P → Option (ℕ × P)
  pub mempool_put : P → ℕ → P
  pub env_init : W → Bool × W
  pub thread_create : W → Bool × W
  pub set_affinity : W → ℕ → Bool × W
  pub dma_malloc : W → ℕ → ℕ → Option ℕ × W
  pub dma_free : W → ℕ → W
  pub malloc : W → Option ℕ × W
  pub bdevs : W → List ℕ
  pub bdev_get_by_name : W → Name → Option ℕ
  pub bdev_get_name : ℕ → Name
  pub bdev_get_block_size : ℕ → ℕ
  pub bdev_get_num_blocks : ℕ → ℕ
  pub bdev_open_ext : W → Name → Bool → Bool × W
  -- Whether SPDK hands the descriptor of an open to the callback of `spdk_bdev_open_ext`, as the
  -- source expects, and with what. The documented function gives it through its last argument, which
  -- is NULL here, and calls the callback for events of the device alone.
  pub bdev_open_calls_back : W → Name → Bool
  pub bdev_open_result : W → Name → Option ℕ × W
  pub bdev_get_io_channel : W → ℕ → Option ℕ × W
  pub put_io_channel : W → ℕ → W
  pub bdev_close : W → ℕ → W
  pub submit : W → Request → Bool × W
  pub perform : W → Memory → Request → Bool × Memory × W
  pub bdev_unmap_blocks : W → ℕ → ℕ → ℕ → Bool × W
  pub bdev_write_zeroes_blocks : W → ℕ → ℕ → ℕ → Bool × W
  pub bdev_set_qos_rate_limits : W → ℕ → List ℕ → W
  pub qos_result : W → Bool
  pub bdev_get_qos_rate_limits : W → ℕ → List ℕ
  pub time_us : W → ℕ

-- A ring is a queue: what is taken is what was put in first, and nothing is lost.
pub record IsFifo {R P W : Type 0} (spdk : Spdk R P W) (queued : R → List ℕ) : Type 0 where
  pub enqueued :
      (r r' : R) (m : ℕ) → spdk.ring_enqueue r m ≡ some r' → queued r' ≡ queued r ++ m ∷ []
  pub dequeued_none : (r : R) → spdk.ring_dequeue r ≡ none → queued r ≡ []
  pub dequeued_some :
      (r r' : R) (m : ℕ) → spdk.ring_dequeue r ≡ some (m, r') → queued r ≡ m ∷ queued r'

-- An empty ring takes a message.
pub record IsRoomy {R P W : Type 0} (spdk : Spdk R P W) (queued : R → List ℕ) : Type 0 where
  pub room : (r : R) (m : ℕ) → queued r ≡ [] → (r' : R) × (spdk.ring_enqueue r m ≡ some r')

-- A pool counts its free elements.
pub record IsCounted {R P W : Type 0} (spdk : Spdk R P W) (available : P → ℕ) : Type 0 where
  pub got :
      (p p' : P) (m : ℕ) → spdk.mempool_get p ≡ some (m, p') → available p ≡ suc (available p')
  pub refused : (p : P) → spdk.mempool_get p ≡ none → available p ≡ 0
  pub returned : (p : P) (m : ℕ) → available (spdk.mempool_put p m) ≡ suc (available p)

-- A new ring is empty, and a new pool has elements, if any were asked for.
pub record IsFresh {R P W : Type 0} (spdk : Spdk R P W) (queued : R → List ℕ) (available : P → ℕ)
    : Type 0 where
  pub new_ring : (n : ℕ) (r : R) → spdk.ring_create n ≡ some r → queued r ≡ []
  pub new_pool : (n : ℕ) (p : P) → 0 < n → spdk.mempool_create n ≡ some p → 0 < available p

-- Whether two numbers are the same, as a count.
abbrev pub here : ℕ → ℕ → ℕ
here m x = if m == x then 1 else 0

-- A pool gives out what it holds and holds what it gets back: `holds p x` is how often it has `x`.
pub record IsPool {R P W : Type 0} (spdk : Spdk R P W) (holds : P → ℕ → ℕ) : Type 0 where
  pub taken :
      (p p' : P) (m x : ℕ) → spdk.mempool_get p ≡ some (m, p') → holds p x ≡ holds p' x + here m x
  pub put : (p : P) (m x : ℕ) → holds (spdk.mempool_put p m) x ≡ holds p x + here m x

-- A block device behind a descriptor: `disk w desc` gives the bytes, `block_size` per block. A
-- request that succeeds moves exactly its blocks. Memory management and the submission of a request
-- move none.
pub record IsDisk {R P W : Type 0} (spdk : Spdk R P W) (block_size : ℕ) (disk : W → ℕ → Memory)
    : Type 0 where
  pub stored :
      (w w' : W) (m m' : Memory) (r : Request)
      → r.direction ≡ writing
      → spdk.perform w m r ≡ (true, m', w')
      → disk w' r.desc
        ≡ write_bytes
            (disk w r.desc)
            (r.offset_blocks * block_size)
            (read_bytes m r.buffer (r.num_blocks * block_size))
  pub loaded :
      (w w' : W) (m m' : Memory) (r : Request)
      → r.direction ≡ reading
      → spdk.perform w m r ≡ (true, m', w')
      → m'
        ≡ write_bytes m r.buffer
            (read_bytes (disk w r.desc) (r.offset_blocks * block_size) (r.num_blocks * block_size))
  pub read_keeps :
      (w w' : W) (m m' : Memory) (r : Request)
      → r.direction ≡ reading
      → spdk.perform w m r ≡ (true, m', w')
      → disk w' ≡ disk w
  pub malloc_keeps :
      (w w' : W) (size align : ℕ) (p : Option ℕ)
      → spdk.dma_malloc w size align ≡ (p, w')
      → disk w' ≡ disk w
  pub free_keeps : (w : W) (p : ℕ) → disk (spdk.dma_free w p) ≡ disk w
  pub submit_keeps :
      (w w' : W) (r : Request) (ok : Bool) → spdk.submit w r ≡ (ok, w') → disk w' ≡ disk w

-- Rate limits that are set are in force, as SPDK adjusts them: it rounds them to its units, and an
-- entry may stand for the limit that was in force before.
pub record IsLimiter {R P W : Type 0} (spdk : Spdk R P W) (adjusted : List ℕ → List ℕ → List ℕ)
    : Type 0 where
  pub in_force :
      (w : W) (b : ℕ) (limits : List ℕ)
      → spdk.bdev_get_qos_rate_limits (spdk.bdev_set_qos_rate_limits w b limits) b
        ≡ adjusted (spdk.bdev_get_qos_rate_limits w b) limits

-- ===== src/Rig.antt =====
-- A concrete SPDK for witnesses and tests: rings and pools are lists, one disk of 8-byte blocks
-- behind descriptor 1, an allocator that hands out addresses upwards, and a clock that stands.
pub mod Ready
use libxpdk.Prelude.{
  ◌<◌, arith, ap, ◌≡◌, refl, ℕ, ◌+◌, ◌*◌, ◌%◌, Bool, true, false, Option, none, some, List, [], ◌∷◌,
  ◌++◌, ltb, if◌then◌else◌, length, pos, negsuc, Memory, read_bytes, write_bytes,
}
use libxpdk.Api.{Opts, zero_stats, null, success}
use libxpdk.State.{Direction, reading, writing, flushing, Request, Sys, Msg, read_msg, Device}
use libxpdk.Spdk.{here, IsPool, IsRoomy, IsFresh, Spdk, IsDisk, IsFifo, IsCounted}
use libxpdk.Core.Devices.{fresh_device, init_devices}
use libxpdk.Core.Messages.{fresh_msg}
use libxpdk.Batch.Queues.{empty_ctx}

pub record World : Type 0 where
  pub disk : Memory
  pub next : ℕ
  pub accepts : Bool
  pub succeeds : Bool
  pub clock : ℕ
  pub limits : List ℕ

abbrev pub pop : List ℕ → Option (ℕ × List ℕ)
pop [] = none
pop (x ∷ xs) = some (x, xs)

pop-none : (r : List ℕ) → pop r ≡ none → r ≡ []
pop-none [] e = refl
pop-none (x ∷ xs) e = cc

pop-some : (r r' : List ℕ) (m : ℕ) → pop r ≡ some (m, r') → r ≡ m ∷ r'
pop-some [] r' m e = cc
pop-some (x ∷ xs) r' m e = ground arith

abbrev pub transfer : Direction → World → Memory → Request → Bool × Memory × World
transfer reading w m r =
    (true, write_bytes m r.buffer (read_bytes w.disk (r.offset_blocks * 8) (r.num_blocks * 8)), w)
transfer writing w m r = (
  true,
  m,
  record w {
    disk = write_bytes w.disk (r.offset_blocks * 8) (read_bytes m r.buffer (r.num_blocks * 8));
  },
)
transfer flushing w m r = (true, m, w)

abbrev pub rig : Spdk (List ℕ) (List ℕ) World
rig = record {
  ring_create = λ n. some [];
  ring_enqueue = λ r m. if ltb (length r) 4 then some (r ++ m ∷ []) else none;
  ring_dequeue = pop;
  mempool_create = λ n. some (1 ∷ 2 ∷ 3 ∷ []);
  mempool_get = pop;
  mempool_put = λ p m. m ∷ p;
  env_init = λ w. (true, w);
  thread_create = λ w. (true, w);
  set_affinity = λ w core. (true, w);
  dma_malloc = λ w size align. (some w.next, record w { next = w.next + size });
  dma_free = λ w p. w;
  malloc = λ w. (some w.next, record w { next = w.next + 64 });
  bdevs = λ w. 5 ∷ [];
  bdev_get_by_name = λ w name. some 5;
  bdev_get_name = λ b. 78 ∷ 118 ∷ [];
  bdev_get_block_size = λ b. 8;
  bdev_get_num_blocks = λ b. 16;
  bdev_open_ext = λ w name write_access. (w.accepts, w);
  bdev_open_calls_back = λ w name. false;
  bdev_open_result = λ w name. (if w.succeeds then some 1 else none, w);
  bdev_get_io_channel = λ w desc. (some 2, w);
  put_io_channel = λ w c. w;
  bdev_close = λ w desc. w;
  submit = λ w r. (w.accepts, w);
  perform = λ w m r.
      let (ok, m', w') = transfer r.direction w m r in
      if w.succeeds then (ok, m', w') else (false, m, w);
  bdev_unmap_blocks = λ w desc off n. (w.accepts, w);
  bdev_write_zeroes_blocks = λ w desc off n. (w.accepts, w);
  bdev_set_qos_rate_limits = λ w b limits. record w { limits = limits };
  qos_result = λ w. w.succeeds;
  bdev_get_qos_rate_limits = λ w b. w.limits;
  time_us = λ w. w.clock;
}

abbrev pub calm : World
calm = record {
  disk = λ a. a % 256;
  next = 4096;
  accepts = true;
  succeeds = true;
  clock = 5000000;
  limits = 0 ∷ 0 ∷ 0 ∷ 0 ∷ [];
}

abbrev pub rig_opts : Opts
rig_opts = record {
  config_file = none;
  turbo_mode = false;
  cpu_core = negsuc 0;
  msg_ring_size = 4;
  msg_pool_size = 3;
  poll_period_us = 1000;
}

-- The rig's disk, whatever the descriptor.
abbrev pub rig_disk : World → ℕ → Memory
rig_disk w desc = w.disk

same_disk : (w w' : World) → w'.disk ≡ w.disk → rig_disk w' ≡ rig_disk w
same_disk w w' e = ap (λ d (desc : ℕ). d) e

pub rig-IsDisk : IsDisk rig 8 rig_disk
rig-IsDisk = record {
  stored = λ w w' m m' r dir e. ground arith;
  loaded = λ w w' m m' r dir e. ground arith;
  read_keeps = λ w w' m m' r dir e. same_disk w w' (ground arith);
  malloc_keeps = λ w w' size align p e. same_disk w w' (ground arith);
  free_keeps = λ w p. refl;
  submit_keeps = λ w w' r ok e. same_disk w w' (ground arith);
}

pub rig-IsFifo : IsFifo rig (λ r. r)
rig-IsFifo = record {
  enqueued = λ r r' m e. ground arith;
  dequeued_none = pop-none;
  dequeued_some = pop-some;
}

pub rig-IsCounted : IsCounted rig length
rig-IsCounted = record {
  got = λ p p' m e. ap length (pop-some p p' m e);
  refused = λ p e. ap length (pop-none p e);
  returned = λ p m. refl;
}

pub rig-IsRoomy : IsRoomy rig (λ r. r)
rig-IsRoomy = record { room = λ r m e. (m ∷ [], rw e refl) }

rig_pool : (p : List ℕ) → some (1 ∷ 2 ∷ 3 ∷ []) ≡ some p → 0 < length p
rig_pool p e = let same : 1 ∷ 2 ∷ 3 ∷ [] ≡ p = ground arith in rw (← same) (omega arith)

pub rig-IsFresh : IsFresh rig (λ r. r) length
rig-IsFresh = record {
  new_ring = λ n r e. ground arith;
  new_pool = λ n p some_size e. rig_pool p e;
}

-- How often a list holds a number.
abbrev pub count_in : List ℕ → ℕ → ℕ
count_in [] x = 0
count_in (m ∷ ms) x = count_in ms x + here m x

pub rig-IsPool : IsPool rig count_in
rig-IsPool = record {
  taken = λ p p' m x e. ap (λ l. count_in l x) (pop-some p p' m e);
  put = λ p m x. refl;
}

-- Slot 0 is open on the disk.
abbrev pub open_device : Device
open_device = record (fresh_device 0) {
  bdev = some 5;
  desc = some 1;
  channel = some 2;
  flags = 2;
  in_use = true;
}

abbrev pub ready : Sys (List ℕ) (List ℕ) World
ready = record {
  initialized = true;
  devices = open_device ∷ init_devices 1 255;
  opts = rig_opts;
  spdk_thread_running = true;
  msg_ring = some [];
  msg_pool = some (1 ∷ 2 ∷ 3 ∷ []);
  total_messages_processed = 0;
  total_io_operations = 0;
  msgs = λ m. fresh_msg read_msg;
  sync_completed = λ m. false;
  sync_status = λ m. success;
  memory = λ a. 7;
  infos = λ p. record { name = []; block_size = 0; num_blocks = 0; capacity = 0 };
  stats_out = λ p. zero_stats;
  limits_out = λ p. [];
  vectored = λ p. record {
    original_callback = null;
    original_ctx = 0;
    iov = [];
    temp_buffer = 0;
    is_read = false;
  };
  batches = λ p. empty_ctx 0 [] [];
  dma_live = [];
  inflight = [];
  calls = [];
  world = calm;
}

-- A message that asks for `count` bytes at `offset`, into or from address 100.
abbrev pub request : ℕ → ℕ → Msg
request count offset = record (fresh_msg read_msg) {
  fd = pos 0;
  buffer = 100;
  count = count;
  offset = offset;
}

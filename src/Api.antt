-- ===== src/Api.antt =====
-- include/xpdk.h: error codes, I/O types and the public structures. The header's text at the codes
-- is garbled in this commit; the values are those of README.md, which the table of xpdk_core.c
-- matches.
use libxpdk.Prelude.{ℕ, ◌%◌, ◌^◌, Bool, true, false, Option, List, ℤ, pos, negsuc}

abbrev pub success : ℤ
success = pos 0

abbrev pub error_invalid : ℤ
error_invalid = negsuc 0

abbrev pub error_nomem : ℤ
error_nomem = negsuc 1

abbrev pub error_io : ℤ
error_io = negsuc 2

abbrev pub error_busy : ℤ
error_busy = negsuc 3

abbrev pub error_nodev : ℤ
error_nodev = negsuc 4

abbrev pub error_qos : ℤ
error_qos = negsuc 5

-- `uint64_t` (also `size_t`) and `uint32_t`
abbrev pub u64 : ℕ → ℕ
u64 n = n % 2 ^ 64

abbrev pub u32 : ℕ → ℕ
u32 n = n % 2 ^ 32

-- A byte string, without its terminating NUL.
abbrev pub Name : Type 0
Name = List ℕ

-- `struct xpdk_bdev_info`
pub record BdevInfo : Type 0 where
  pub name : Name
  pub block_size : ℕ
  pub num_blocks : ℕ
  pub capacity : ℕ

-- `xpdk_io_type_t`; `other` is any value that the enumeration does not name.
pub data IoType : Type 0 where
  io_read io_write io_flush other : IoType

-- `xpdk_qos_rate_limit_type_t`, the last one included
pub data RateLimit : Type 0 where
  rw_iops rw_bps r_bps w_bps num_rate_limit_types : RateLimit

-- `struct xpdk_iovec`
pub record Iovec : Type 0 where
  pub iov_base : ℕ
  pub iov_len : ℕ

-- `struct xpdk_perf_stats`
pub record PerfStats : Type 0 where
  pub total_read_ops : ℕ
  pub total_write_ops : ℕ
  pub total_bytes_read : ℕ
  pub total_bytes_written : ℕ
  pub avg_read_latency_us : ℕ
  pub avg_write_latency_us : ℕ
  pub current_iops : ℕ
  pub current_bandwidth : ℕ
  pub queue_depth : ℕ
  pub errors : ℕ

abbrev pub zero_stats : PerfStats
zero_stats = record {
  total_read_ops = 0;
  total_write_ops = 0;
  total_bytes_read = 0;
  total_bytes_written = 0;
  avg_read_latency_us = 0;
  avg_write_latency_us = 0;
  current_iops = 0;
  current_bandwidth = 0;
  queue_depth = 0;
  errors = 0;
}

-- A value of `xpdk_io_callback_t`: NULL, a function of the application, or one of the two
-- functions of this library that are passed as callbacks.
pub data Callback : Type 0 where
  null : Callback
  user : ℕ → Callback
  batch_completion : Callback
  vectored_completion : Callback

abbrev pub is_null : Callback → Bool
is_null null = true
is_null (user f) = false
is_null batch_completion = false
is_null vectored_completion = false

-- `struct xpdk_batch_io`. Pointers are numbers, and 0 is NULL.
pub record BatchIo : Type 0 where
  pub type : IoType
  pub fd : ℤ
  pub buffer : ℕ
  pub count : ℕ
  pub offset : ℕ
  pub user_ctx : ℕ
  pub status : ℤ
  pub bytes_transferred : ℕ

-- `struct xpdk_batch_ctx` without its lock; a queue is an array of `max_ios` cells.
pub record BatchCtx : Type 0 where
  pub max_ios : ℕ
  pub pending_ios : ℕ
  pub completed_ios : ℕ
  pub pending_queue : List BatchIo
  pub completed_queue : List BatchIo
  pub global_callback : Callback

-- `struct xpdk_opts`; `config_file` is a pointer that is only stored and printed.
pub record Opts : Type 0 where
  pub config_file : Option Name
  pub turbo_mode : Bool
  pub cpu_core : ℤ
  pub msg_ring_size : ℕ
  pub msg_pool_size : ℕ
  pub poll_period_us : ℕ

-- ===== src/State.antt =====
-- src/xpdk_internal.h: messages, devices and the global context, with the memory that the code
-- reaches through pointers.
use libxpdk.Prelude.{ℕ, Bool, Option, List, ℤ, Memory}
use libxpdk.Api.{BdevInfo, Name, PerfStats, Callback, BatchIo, BatchCtx, Opts, Iovec}

-- `XPDK_MAX_OPEN_DEVICES`
abbrev pub max_open_devices : ℕ
max_open_devices = 256

-- `enum xpdk_msg_type`
pub data MsgType : Type 0 where
  open_msg close_msg read_msg write_msg readv_msg writev_msg batch_submit_msg flush_msg : MsgType
  list_bdevs_msg get_info_msg qos_set_limits_msg qos_get_limits_msg : MsgType
  get_perf_stats_msg reset_perf_stats_msg trim_msg write_zeros_msg shutdown_msg : MsgType

-- `struct xpdk_msg`. The union is laid out flat: a message is written and read through the fields
-- of one arm, and `fd` is shared by the arms that have one.
pub record Msg : Type 0 where
  pub type : MsgType
  pub ctx : ℕ
  pub completed : Bool
  pub status : ℤ
  pub bdev_name : Name
  pub flags : ℕ
  pub result_fd : ℕ
  pub fd : ℤ
  pub buffer : ℕ
  pub count : ℕ
  pub offset : ℕ
  pub bytes_transferred : ℕ
  pub callback : Callback
  pub user_ctx : ℕ
  pub devices : ℕ
  pub max_devices : ℕ
  pub list_count : ℕ
  pub info : ℕ
  pub limits : ℕ
  pub stats : ℕ
  pub length : ℕ
  pub ios : List BatchIo

-- `struct xpdk_device`; `none` is a NULL handle.
pub record Device : Type 0 where
  pub fd : ℕ
  pub bdev : Option ℕ
  pub desc : Option ℕ
  pub channel : Option ℕ
  pub flags : ℕ
  pub in_use : Bool
  pub perf_stats : PerfStats
  pub stats_start_time : ℕ
  pub stats_window_start : ℕ
  pub last_total_ops : ℕ
  pub last_total_bytes : ℕ

-- `struct xpdk_vectored_ctx`
pub record VectoredCtx : Type 0 where
  pub original_callback : Callback
  pub original_ctx : ℕ
  pub iov : List Iovec
  pub temp_buffer : ℕ
  pub is_read : Bool

-- A call of an application's callback: the function, its context and the status.
pub record Call : Type 0 where
  pub function : Callback
  pub context : ℕ
  pub status : ℤ

-- A block request as it is handed to SPDK.
pub data Direction : Type 0 where
  reading writing flushing : Direction

pub record Request : Type 0 where
  pub direction : Direction
  pub desc : ℕ
  pub buffer : ℕ
  pub offset_blocks : ℕ
  pub num_blocks : ℕ

-- What SPDK has accepted and not yet reported: a request with the callback that it was given
-- (`sync_io_completion_cb` with the byte count of its context, or `async_io_completion_cb`), the
-- completion of an open, and that of a change of rate limits. The number is the message.
pub data Event : Type 0 where
  sync_io : Request → ℕ → ℕ → Event
  async_io : Request → ℕ → Event
  opened : ℕ → Event
  qos_set : ℕ → Event

-- `struct xpdk_context`, and what the code reaches beside it: the messages by their address, the
-- contexts of synchronous waits by their message, memory, the structures that results are written
-- to, the live DMA buffers, the accepted work of SPDK and the calls of application callbacks.
pub record Sys (R P W : Type 0) : Type 0 where
  pub initialized : Bool
  pub devices : List Device
  pub opts : Opts
  pub spdk_thread_running : Bool
  pub msg_ring : Option R
  pub msg_pool : Option P
  pub total_messages_processed : ℕ
  pub total_io_operations : ℕ
  pub msgs : ℕ → Msg
  pub sync_completed : ℕ → Bool
  pub sync_status : ℕ → ℤ
  pub memory : Memory
  pub infos : ℕ → BdevInfo
  pub stats_out : ℕ → PerfStats
  pub limits_out : ℕ → List ℕ
  pub vectored : ℕ → VectoredCtx
  pub batches : ℕ → BatchCtx
  pub dma_live : List ℕ
  pub inflight : List Event
  pub calls : List Call
  pub world : W

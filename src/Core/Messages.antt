-- ===== src/Core/Messages.antt =====
-- xpdk_core.c: messages. Allocation from the pool, the two ways to send, and the updates through a
-- message pointer that every handler makes.
use libxpdk.Prelude.{ℕ, true, false, Option, none, some, [], ℤ, pos, update}
use libxpdk.Api.{null, success, error_busy}
use libxpdk.State.{MsgType, Msg, Sys}
use libxpdk.Spdk.{Spdk}

-- A message after `memset`, with its type: the end of `xpdk_msg_alloc`.
abbrev pub fresh_msg : MsgType → Msg
fresh_msg t = record {
  type = t;
  ctx = 0;
  completed = false;
  status = success;
  bdev_name = [];
  flags = 0;
  result_fd = 0;
  fd = pos 0;
  buffer = 0;
  count = 0;
  offset = 0;
  bytes_transferred = 0;
  callback = null;
  user_ctx = 0;
  devices = 0;
  max_devices = 0;
  list_count = 0;
  info = 0;
  limits = 0;
  stats = 0;
  length = 0;
  ios = [];
}

module _ {R P W : Type 0} where
  -- `*msg = …` through a message pointer
  abbrev pub set_msg : ℕ → Msg → Sys R P W → Sys R P W
  set_msg m v s = record s { msgs = update s.msgs m v }

  -- `msg->status = status; msg->completed = true;`
  abbrev pub finish : ℕ → ℤ → Sys R P W → Sys R P W
  finish m status s = set_msg m (record (s.msgs m) { status = status; completed = true }) s

module _ {R P W : Type 0} (spdk : Spdk R P W) where
  open spdk use {ring_enqueue, mempool_get, mempool_put}

  -- `xpdk_msg_alloc`. A pool that was never created gives nothing.
  unfoldable pub msg_alloc : MsgType → Sys R P W → Option (ℕ × Sys R P W)
  msg_alloc t s = elim s.msg_pool [
    | none ↦ none
    | some p ↦ elim (mempool_get p) [
      | none ↦ none
      | some (m, p') ↦ some (m, set_msg m (fresh_msg t) (record s { msg_pool = some p' }))
    ]
  ]

  -- `xpdk_msg_free`, at a pointer that is not NULL
  unfoldable pub msg_free : ℕ → Sys R P W → Sys R P W
  msg_free m s = elim s.msg_pool [
    | none ↦ s
    | some p ↦ record s { msg_pool = some (mempool_put p m) }
  ]

  -- `spdk_ring_enqueue` of one message into the ring of the context
  unfoldable pub enqueue : ℕ → Sys R P W → Option (Sys R P W)
  enqueue m s = elim s.msg_ring [
    | none ↦ none
    | some r ↦ elim (ring_enqueue r m) [
      | none ↦ none
      | some r' ↦ some (record s { msg_ring = some r' })
    ]
  ]

  -- `xpdk_msg_send_async`, at a pointer that is not NULL
  unfoldable pub msg_send_async : ℕ → Sys R P W → ℤ × Sys R P W
  unfolding enqueue
  msg_send_async m s = elim (enqueue m s) [ none ↦ (error_busy, s) | some s' ↦ (success, s') ]

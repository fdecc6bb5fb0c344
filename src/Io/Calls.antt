-- ===== src/Io/Calls.antt =====
-- xpdk_io.c and xpdk_async.c: the calls that read, write, flush and poll. A call that returns gives
-- `some` of its result; `fuel` is the number of rounds that the SPDK thread is given.
use libxpdk.Prelude.{ℕ, ◌||◌, not, Option, none, some, ◌==◌, if◌then◌else◌, ℤ, pos, eq_ℤ}
use libxpdk.Api.{Callback, is_null, success, error_invalid, error_nomem}
use libxpdk.State.{MsgType, read_msg, write_msg, flush_msg, Msg, Sys}
use libxpdk.Spdk.{Spdk}
use libxpdk.Core.Messages.{set_msg, msg_alloc, msg_free, msg_send_async}
use libxpdk.Core.Poller.{thread_poll}
use libxpdk.Core.Sync.{sync_call, on_success}

-- The parameters of a read or a write
abbrev pub fill_io : ℤ → ℕ → ℕ → ℕ → Callback → ℕ → Msg → Msg
fill_io fd buffer count offset callback ctx msg = record msg {
  fd = fd;
  buffer = buffer;
  count = count;
  offset = offset;
  callback = callback;
  user_ctx = ctx;
}

abbrev pub transferred : ℤ → Msg → ℤ
transferred = on_success (λ msg. pos msg.bytes_transferred)

module _ {R P W : Type 0} (spdk : Spdk R P W) (fuel : ℕ) where
  -- What `xpdk_read` and `xpdk_write` share
  unfoldable pub sync_io_call : MsgType → ℤ → ℕ → ℕ → ℕ → Sys R P W → Option ℤ × Sys R P W
  sync_io_call type fd buffer count offset s =
      if not s.initialized || buffer == 0 || count == 0
      then (some error_invalid, s)
      else sync_call spdk fuel type (fill_io fd buffer count offset Callback.null 0) transferred s

  -- `xpdk_read`
  unfoldable pub read : ℤ → ℕ → ℕ → ℕ → Sys R P W → Option ℤ × Sys R P W
  unfolding sync_io_call
  read fd buffer count offset s = sync_io_call read_msg fd buffer count offset s

  -- `xpdk_write`
  unfoldable pub write : ℤ → ℕ → ℕ → ℕ → Sys R P W → Option ℤ × Sys R P W
  unfolding sync_io_call
  write fd buffer count offset s = sync_io_call write_msg fd buffer count offset s

  -- `xpdk_flush`
  unfoldable pub flush : ℤ → Sys R P W → Option ℤ × Sys R P W
  flush fd s =
      if not s.initialized
      then (some error_invalid, s)
      else sync_call spdk fuel flush_msg (λ msg. record msg { fd = fd }) (λ rc _. rc) s

module _ {R P W : Type 0} (spdk : Spdk R P W) where
  -- What `xpdk_read_async` and `xpdk_write_async` share
  unfoldable pub async_io_call : MsgType → ℤ → ℕ → ℕ → ℕ → Callback → ℕ → Sys R P W → ℤ × Sys R P W
  async_io_call type fd buffer count offset callback ctx s =
      if not s.initialized || buffer == 0 || count == 0 || is_null callback
      then (error_invalid, s)
      else elim (msg_alloc spdk type s) [
        | none ↦ (error_nomem, s)
        | some (m, s₁) ↦
            let (rc, s₂) =
              msg_send_async spdk m
                (set_msg m (fill_io fd buffer count offset callback ctx (s₁.msgs m)) s₁) in
            if eq_ℤ rc success then (success, s₂) else (rc, msg_free spdk m s₂)
      ]

  -- `xpdk_read_async`
  unfoldable pub read_async : ℤ → ℕ → ℕ → ℕ → Callback → ℕ → Sys R P W → ℤ × Sys R P W
  unfolding async_io_call
  read_async fd buffer count offset callback ctx s =
      async_io_call read_msg fd buffer count offset callback ctx s

  -- `xpdk_write_async`
  unfoldable pub write_async : ℤ → ℕ → ℕ → ℕ → Callback → ℕ → Sys R P W → ℤ × Sys R P W
  unfolding async_io_call
  write_async fd buffer count offset callback ctx s =
      async_io_call write_msg fd buffer count offset callback ctx s

  -- `xpdk_poll`: the argument only bounds what SPDK does in this round, and the result is that of
  -- `spdk_thread_poll`, 1 for a busy round and 0 for an idle one.
  unfoldable pub poll : ℤ → Sys R P W → ℤ × Sys R P W
  poll max_completions s =
      if not s.initialized
      then (error_invalid, s)
      else let (busy, s') = thread_poll spdk s in (if busy then pos 1 else pos 0, s')

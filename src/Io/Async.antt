-- ===== src/Io/Async.antt =====
-- Asynchronous calls, round by round of the SPDK thread.
mod Tests
pub mod Write
pub mod Read
pub mod Bounce
use libxpdk.Prelude.{ℕ, ◌≡◌, refl, true, false, ◌||◌, not, none, some, List, [], arith, ◌==◌, ℤ}
use libxpdk.State.{MsgType, Sys, read_msg, Msg}
use libxpdk.Core.Call.{Ready, filled, filled_msg}
use libxpdk.Core.Answer.{taken, thread_poll_one}
use libxpdk.Api.{Callback, error_invalid, is_null, success, user}
use libxpdk.Spdk.{IsFifo, Spdk}
use libxpdk.Core.Poller.{dispatch, is_shutdown, thread_poll}
use libxpdk.Io.Calls.{read_async, async_io_call, fill_io}
use libxpdk.Core.Messages.{enqueue, msg_send_async, msg_alloc}
use libxpdk.Io.{io_device, handle_read}

module _ {R P W : Type 0} (spdk : Spdk R P W) (queued : R → List ℕ) where
  -- An asynchronous call that can be accepted: an idle library, and arguments that the call takes.
  pub record CanSend (buffer count : ℕ) (s : Sys R P W) (m : ℕ) (p p' : P) (r r' r'' : R)
      : Type 0 where
    pub initialized : s.initialized ≡ true
    pub ready : Ready spdk queued s m p p' r r' r''
    pub some_buffer : (buffer == 0) ≡ false
    pub some_count : (count == 0) ≡ false

  -- The parameters that such a call puts into its message.
  abbrev pub fill_async : ℤ → ℕ → ℕ → ℕ → ℕ → ℕ → Msg → Msg
  fill_async fd buffer count offset f ctx = fill_io fd buffer count offset (user f) ctx

  async_io_call-sends :
      (type : MsgType) (fd : ℤ) (buffer count offset : ℕ) (f : Callback) (ctx : ℕ) (s : Sys R P W)
      (m : ℕ) (p p' : P) (r r' r'' : R)
      → CanSend buffer count s m p p' r r' r''
      → is_null f ≡ false
      → async_io_call spdk type fd buffer count offset f ctx s ≡ (
        success,
        record (filled spdk queued type (fill_io fd buffer count offset f ctx) m p' s) {
          msg_ring = some r';
        },
      )
  unfolding async_io_call msg_alloc msg_send_async enqueue
  async_io_call-sends type fd buffer count offset f ctx s m p p' r r' r'' can some_callback =
      let ready = can.ready in
      let guard : (not s.initialized || buffer == 0 || count == 0 || is_null f) ≡ false =
        rw (can.initialized, can.some_buffer, can.some_count, some_callback) refl in
      rw
        (
          guard, msg_alloc, ready.pool, ready.message, msg_send_async, enqueue, ready.idle.ring,
          ready.idle.room,
        )
        refl

  -- The first round of the SPDK thread after an asynchronous call hands its message to the handler.
  pub callback_round :
      (type : MsgType) (fd : ℤ) (buffer count offset : ℕ) (f : Callback) (ctx : ℕ) (s : Sys R P W)
      (m : ℕ) (p p' : P) (r r' r'' : R)
      → IsFifo spdk queued
      → CanSend buffer count s m p p' r r' r''
      → is_null f ≡ false
      → is_shutdown type ≡ false
      → queued r'' ≡ []
      → let fill = fill_io fd buffer count offset f ctx in
        let (rc, s₁) = async_io_call spdk type fd buffer count offset f ctx s in
        (rc ≡ success)
        × ((thread_poll spdk s₁).1
            ≡ dispatch spdk type m (taken spdk queued (filled spdk queued type fill m p' s) r''))
  callback_round type fd buffer count offset f ctx s m p p' r r' r'' fifo can some_callback more
        empty =
      let fill = fill_io fd buffer count offset f ctx in
      let s₀ = filled spdk queued type fill m p' s in
      let s₁ = record s₀ { msg_ring = some r' } in
      let kind : (s₀.msgs m).type ≡ type = rw (filled_msg spdk queued type fill m p' s) refl in
      let round =
        thread_poll_one spdk queued m s₁ r' r'' fifo refl can.ready.idle.quiet can.ready.out empty
          (rw (kind, more) refl) in
      rw (async_io_call-sends type fd buffer count offset f ctx s m p p' r r' r'' can some_callback)
        (refl, rw kind at round)

  -- The same for a callback of the application.
  pub async_round :
      (type : MsgType) (fd : ℤ) (buffer count offset f ctx : ℕ) (s : Sys R P W) (m : ℕ) (p p' : P)
      (r r' r'' : R)
      → IsFifo spdk queued
      → CanSend buffer count s m p p' r r' r''
      → is_shutdown type ≡ false
      → queued r'' ≡ []
      → let fill = fill_async fd buffer count offset f ctx in
        let (rc, s₁) = async_io_call spdk type fd buffer count offset (user f) ctx s in
        (rc ≡ success)
        × ((thread_poll spdk s₁).1
            ≡ dispatch spdk type m (taken spdk queued (filled spdk queued type fill m p' s) r''))
  async_round type fd buffer count offset f ctx s m p p' r r' r'' fifo can more empty =
      callback_round type fd buffer count offset (user f) ctx s m p p' r r' r'' fifo can refl more
        empty

  -- An asynchronous read of a descriptor that is not open is accepted, and then lost: the SPDK
  -- thread takes the message and marks it as failed, but nothing is in flight for it, its callback
  -- is not called, and the message does not go back to the pool.
  pub read_async_lost :
      (fd : ℤ) (buffer count offset f ctx : ℕ) (s : Sys R P W) (m : ℕ) (p p' : P) (r r' r'' : R)
      → IsFifo spdk queued
      → CanSend buffer count s m p p' r r' r''
      → queued r'' ≡ []
      → io_device s.devices fd ≡ none
      → let (rc, s₁) = read_async spdk fd buffer count offset (user f) ctx s in
        let s₂ = (thread_poll spdk s₁).1 in
        (rc ≡ success)
        × ((s₂.msgs m).status ≡ error_invalid)
        × ((s₂.msgs m).completed ≡ true)
        × (s₂.calls ≡ s.calls)
        × (s₂.inflight ≡ [])
        × (s₂.msg_pool ≡ some p')
  unfolding read_async dispatch handle_read
  read_async_lost fd buffer count offset f ctx s m p p' r r' r'' fifo can empty closed =
      let fill = fill_async fd buffer count offset f ctx in
      let (sent, round) =
        async_round read_msg fd buffer count offset f ctx s m p p' r r' r'' fifo can refl empty in
      let s₀ = filled spdk queued read_msg fill m p' s in
      let shut : io_device s.devices (s₀.msgs m).fd ≡ none =
        rw (filled_msg spdk queued read_msg fill m p' s) closed in
      rw (round, dispatch, handle_read, shut)
        (sent, ground arith, ground arith, refl, can.ready.idle.quiet, refl)

-- ===== src/Batch/Lost.antt =====
-- What becomes of a bulk submission.
use libxpdk.Prelude.{ℕ, ◌≡◌, refl, some, List, [], ◌∷◌, arith}
use libxpdk.State.{Sys, Msg, batch_submit_msg}
use libxpdk.Core.Call.{Ready, filled, filled_msg}
use libxpdk.Core.Answer.{thread_poll_one}
use libxpdk.Api.{error_invalid, success, Callback, BatchIo}
use libxpdk.Spdk.{IsFifo, Spdk}
use libxpdk.Batch.Calls.{batch_submit}
use libxpdk.Core.Poller.{thread_poll, dispatch}
use libxpdk.Core.Messages.{enqueue, msg_send_async, msg_alloc}

module _ {R P W : Type 0} (spdk : Spdk R P W) (queued : R → List ℕ) where
  -- The parameters that `xpdk_batch_submit` puts into its message.
  abbrev fill_batch : List BatchIo → Callback → Msg → Msg
  fill_batch ios callback msg = record msg { ios = ios; callback = callback }

  batch_submit_sends :
      (io : BatchIo) (ios : List BatchIo) (callback : Callback) (s : Sys R P W) (m : ℕ) (p p' : P)
      (r r' r'' : R)
      → Ready spdk queued s m p p' r r' r''
      → batch_submit spdk (io ∷ ios) callback s ≡ (
        success,
        record (filled spdk queued batch_submit_msg (fill_batch (io ∷ ios) callback) m p' s) {
          msg_ring = some r';
        },
      )
  unfolding batch_submit msg_alloc msg_send_async enqueue
  batch_submit_sends io ios callback s m p p' r r' r'' ready =
      rw
        (
          batch_submit, msg_alloc, ready.pool, ready.message, msg_send_async, enqueue,
          ready.idle.ring, ready.idle.room,
        )
        refl

  -- `xpdk_batch_submit` of requests to an idle library succeeds, and then they are lost: the SPDK
  -- thread takes the message and marks it as failed, but submits nothing to SPDK, calls no callback
  -- and does not put the message back into the pool.
  pub batch_submit_lost :
      (io : BatchIo) (ios : List BatchIo) (callback : Callback) (s : Sys R P W) (m : ℕ) (p p' : P)
      (r r' r'' : R)
      → IsFifo spdk queued
      → Ready spdk queued s m p p' r r' r''
      → queued r'' ≡ []
      → let (rc, s₁) = batch_submit spdk (io ∷ ios) callback s in
        let s₂ = (thread_poll spdk s₁).1 in
        (rc ≡ success)
        × ((s₂.msgs m).status ≡ error_invalid)
        × (s₂.calls ≡ s.calls)
        × (s₂.inflight ≡ [])
        × (s₂.world ≡ s.world)
        × (s₂.msg_pool ≡ some p')
  unfolding dispatch
  batch_submit_lost io ios callback s m p p' r r' r'' fifo ready empty =
      let fill = fill_batch (io ∷ ios) callback in
      let s₁ = record (filled spdk queued batch_submit_msg fill m p' s) { msg_ring = some r' } in
      let kind : (s₁.msgs m).type ≡ batch_submit_msg =
        rw (filled_msg spdk queued batch_submit_msg fill m p' s) refl in
      let round =
        thread_poll_one spdk queued m s₁ r' r'' fifo refl ready.idle.quiet ready.out empty
          (rw kind refl) in
      rw (batch_submit_sends io ios callback s m p p' r r' r'' ready, round, kind, dispatch)
        (refl, ground arith, refl, ready.idle.quiet, refl, refl)

-- ===== src/Interleaving.antt =====
-- Any interleaving of asynchronous calls, bulk submissions, starts of synchronous calls, rounds of the poller and completions in any order, as a step relation.
mod Tests
pub mod Owners
use libxpdk.Prelude.{ℕ, ◌≡◌, some, List, ◌∷◌, ◌++◌, ℤ}
use libxpdk.State.{MsgType, Msg, Event, Sys}
use libxpdk.Api.{Callback, BatchIo}
use libxpdk.Spdk.{Spdk}
use libxpdk.Io.Calls.{async_io_call}
use libxpdk.Batch.Calls.{batch_submit}
use libxpdk.Core.Messages.{set_msg, enqueue, msg_alloc}
use libxpdk.Core.Poller.{msg_process_poller}
use libxpdk.Events.{deliver}

module _ {R P W : Type 0} (spdk : Spdk R P W) where
  pub data Step (s t : Sys R P W) : Type 0 where
    -- `xpdk_read_async` or `xpdk_write_async`
    called :
        (type : MsgType) (fd : ℤ) (buffer count offset : ℕ) (f : Callback) (ctx : ℕ)
        → t ≡ (async_io_call spdk type fd buffer count offset f ctx s).1
        → Step s t
    -- `xpdk_batch_submit`
    submitted : (ios : List BatchIo) (f : Callback) → t ≡ (batch_submit spdk ios f s).1 → Step s t
    -- A synchronous call as far as its wait: a message is allocated, filled in and enqueued.
    started :
        (type : MsgType) (fill : Msg → Msg) (m : ℕ) (s₁ : Sys R P W)
        → msg_alloc spdk type s ≡ some (m, s₁)
        → enqueue spdk m (set_msg m (fill (s₁.msgs m)) s₁) ≡ some t
        → Step s t
    -- A run of `xpdk_msg_process_poller`
    polled : t ≡ (msg_process_poller spdk s).1 → Step s t
    -- SPDK reports any of the work that is in flight.
    reported :
        (before : List Event) (e : Event) (after : List Event)
        → s.inflight ≡ before ++ e ∷ after
        → t ≡ deliver spdk e (record s { inflight = before ++ after })
        → Step s t

  pub data Reach (s : Sys R P W) : Sys R P W → Type 0 where
    start : Reach s s
    next : {t u : Sys R P W} → Reach s t → Step t u → Reach s u

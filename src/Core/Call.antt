-- ===== src/Core/Call.antt =====
-- A synchronous call of an idle library, from the allocation of its message to its result.
use libxpdk.Prelude.{ℕ, suc, ◌≡◌, refl, ap, ◌∙◌, true, false, some, List, arith, ℤ}
use libxpdk.Core.Answer.{Idle, taken, msg_send_sync_answers}
use libxpdk.Spdk.{IsFifo, Spdk}
use libxpdk.Core.Sync.{send_and_free, sync_call}
use libxpdk.State.{Msg, MsgType, Sys}
use libxpdk.Core.Messages.{msg_free, fresh_msg, set_msg, msg_alloc}
use libxpdk.Core.Poller.{msg_send_sync, dispatch, is_shutdown}

module _ {R P W : Type 0} (spdk : Spdk R P W) (queued : R → List ℕ) where
  -- The state in which a call sends its message `m`, which is filled in.
  abbrev pub filled : MsgType → (Msg → Msg) → ℕ → P → Sys R P W → Sys R P W
  filled type fill m p s =
      let s₁ = set_msg m (fresh_msg type) (record s { msg_pool = some p }) in
      set_msg m (fill (s₁.msgs m)) s₁

  -- A library that can serve one call: the pool gives message `m`, the ring is empty and takes it,
  -- and the SPDK thread runs and has nothing else to do.
  pub record Ready (s : Sys R P W) (m : ℕ) (p p' : P) (r r' r'' : R) : Type 0 where
    pub pool : s.msg_pool ≡ some p
    pub message : spdk.mempool_get p ≡ some (m, p')
    pub idle : Idle spdk queued s m r r'
    pub out : spdk.ring_dequeue r' ≡ some (m, r'')

  pub filled_msg :
      (type : MsgType) (fill : Msg → Msg) (m : ℕ) (p : P) (s : Sys R P W)
      → (filled type fill m p s).msgs m ≡ fill (fresh_msg type)
  filled_msg type fill m p s = ground arith

  pub filled-Idle :
      (type : MsgType) (fill : Msg → Msg) (m : ℕ) (p : P) (s : Sys R P W) (r r' : R)
      → Idle spdk queued s m r r'
      → Idle spdk queued (filled type fill m p s) m r r'
  filled-Idle type fill m p s r r' idle = record {
    ring = idle.ring;
    empty = idle.empty;
    room = idle.room;
    running = idle.running;
    quiet = idle.quiet;
  }

  pub sync_call_sends :
      (fuel : ℕ) (type : MsgType) (fill : Msg → Msg) (result : ℤ → Msg → ℤ) (s : Sys R P W) (m : ℕ)
      (p p' : P)
      → s.msg_pool ≡ some p
      → spdk.mempool_get p ≡ some (m, p')
      → sync_call spdk fuel type fill result s
        ≡ send_and_free spdk fuel m result (filled type fill m p' s)
  unfolding sync_call msg_alloc
  sync_call_sends fuel type fill result s m p p' pool got =
      rw (sync_call, msg_alloc, pool, got) refl

  pub send_and_free_answer :
      (fuel m : ℕ) (result : ℤ → Msg → ℤ) (s s₁ : Sys R P W) (rc : ℤ)
      → msg_send_sync spdk fuel m s ≡ (some rc, s₁)
      → send_and_free spdk fuel m result s ≡ (some (result rc (s₁.msgs m)), msg_free spdk m s₁)
  unfolding send_and_free
  send_and_free_answer fuel m result s s₁ rc e =
      rw (send_and_free, ap (λ q. q.0) e, ap (λ q. q.1) e) refl

  -- A synchronous call whose handler completes its message returns, and what it returns is made
  -- from the message that the handler left, which goes back to the pool.
  pub sync_call_answers :
      (fuel : ℕ) (type : MsgType) (fill : Msg → Msg) (result : ℤ → Msg → ℤ) (s : Sys R P W) (m : ℕ)
      (p p' : P) (r r' r'' : R)
      → IsFifo spdk queued
      → Ready s m p p' r r' r''
      → is_shutdown type ≡ false
      → (fill (fresh_msg type)).type ≡ type
      → (fill (fresh_msg type)).completed ≡ false
      → (let s₁ = dispatch spdk type m (taken spdk queued (filled type fill m p' s) r'') in
          (s₁.msgs m).completed ≡ true)
      → let s₁ = dispatch spdk type m (taken spdk queued (filled type fill m p' s) r'') in
        sync_call spdk (suc fuel) type fill result s
        ≡ (some (result (s₁.msgs m).status (s₁.msgs m)), msg_free spdk m s₁)
  sync_call_answers fuel type fill result s m p p' r r' r'' fifo ready more same new done =
      let s₀ = filled type fill m p' s in
      let kept : s₀.msgs m ≡ fill (fresh_msg type) = filled_msg type fill m p' s in
      let kind : (s₀.msgs m).type ≡ type = rw kept same in
      let sent =
        msg_send_sync_answers spdk queued fuel m s₀ r r' r'' fifo
          (filled-Idle type fill m p' s r r' ready.idle) ready.out (rw kept new)
          (rw (kind, more) refl) (rw kind done) in
      let e : msg_send_sync spdk (suc fuel) m s₀ ≡ (
        some ((dispatch spdk type m (taken spdk queued s₀ r'')).msgs m).status,
        dispatch spdk type m (taken spdk queued s₀ r''),
      ) =
        rw kind at sent in
      sync_call_sends (suc fuel) type fill result s m p p' ready.pool ready.message
      ∙ send_and_free_answer (suc fuel) m result s₀ _ _ e

  -- Putting a message back changes the pool alone.
  pub msg_free_tables :
      (m : ℕ) (s : Sys R P W)
      → ((msg_free spdk m s).devices ≡ s.devices)
        × ((msg_free spdk m s).limits_out ≡ s.limits_out)
        × ((msg_free spdk m s).world ≡ s.world)
        × ((msg_free spdk m s).initialized ≡ s.initialized)
  unfolding msg_free
  msg_free_tables m s = (ground arith, ground arith, ground arith, ground arith)

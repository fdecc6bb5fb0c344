-- ===== src/Core/Late.antt =====
-- An answer that takes a second round of the SPDK thread: the handler hands work to SPDK, and the
-- completion of that work ends the call.
use libxpdk.Core.Answer.{taken}
use libxpdk.Prelude.{
  ℕ, zero, suc, ◌≡◌, refl, sym, ap, ◌∙◌, true, false, ◌||◌, not, Option, none, some, List, [], ◌∷◌,
  ℤ,
}
use libxpdk.State.{MsgType, Msg, Event, Sys}
use libxpdk.Spdk.{IsFifo, Spdk}
use libxpdk.Core.Poller.{
  dispatch, is_shutdown, deliver_next, msg_process_poller, dequeue, run_thread, msg_send_sync,
  poll_rounds, thread_poll,
}
use libxpdk.Core.Call.{
  send_and_free_answer, sync_call_sends, filled-Idle, filled_msg, filled, Ready,
}
use libxpdk.Core.Messages.{msg_free, fresh_msg, enqueue}
use libxpdk.Core.Answer.{
  deliver_next_quiet, run_thread_done, thread_poll_one, empty_dequeue, only_dequeue,
  dequeue_nothing, Idle,
}
use libxpdk.Events.{deliver}
use libxpdk.Events.Frame.{Keeps-deliver}
use libxpdk.Core.Sync.{sync_call}
use libxpdk.Core.Options.{max_batch}
use libxpdk.Core.Frame.Thread.{dispatch-Keeps}

module _ {R P W : Type 0} (spdk : Spdk R P W) (queued : R → List ℕ) where
  pub poll_rounds_idle :
      (n : ℕ) (s : Sys R P W) → dequeue spdk s ≡ none → poll_rounds spdk n s ≡ (0, s)
  unfolding poll_rounds
  poll_rounds_idle zero s e = refl
  poll_rounds_idle (suc n) s e = rw (poll_rounds, e) refl

  -- A round of the SPDK thread with nothing to do changes nothing.
  pub thread_poll_quiet :
      (s : Sys R P W) (r : R)
      → IsFifo spdk queued
      → s.msg_ring ≡ some r
      → queued r ≡ []
      → s.inflight ≡ []
      → thread_poll spdk s ≡ (false, s)
  unfolding thread_poll msg_process_poller
  thread_poll_quiet s r fifo ring empty quiet =
      let nothing = dequeue_nothing spdk queued s r ring (empty_dequeue spdk queued r fifo empty) in
      rw (deliver_next_quiet spdk queued s quiet, poll_rounds_idle (max_batch s.opts) s nothing)
        refl

  -- A round of the SPDK thread with an empty ring delivers the one completion that there is.
  pub thread_poll_delivers :
      (e : Event) (s : Sys R P W) (r : R)
      → IsFifo spdk queued
      → s.msg_ring ≡ some r
      → queued r ≡ []
      → s.inflight ≡ e ∷ []
      → (thread_poll spdk s).1 ≡ deliver spdk e (record s { inflight = [] })
  unfolding thread_poll msg_process_poller deliver_next
  thread_poll_delivers e s r fifo ring empty one =
      let s₁ = record s { inflight = [] } in
      let kept = Keeps-deliver spdk e s₁ in
      let last =
        dequeue_nothing spdk queued (deliver spdk e s₁) r (ap (λ q. q.ring) kept.same ∙ ring)
          (empty_dequeue spdk queued r fifo empty) in
      rw
        (
          deliver_next,
          one,
          poll_rounds_idle (max_batch (deliver spdk e s₁).opts) (deliver spdk e s₁) last,
        )
        refl

  -- A message whose handler leaves one piece of work in flight is answered when that is done.
  msg_send_sync_answers_late :
      (fuel m : ℕ) (s : Sys R P W) (r r' r'' : R) (e : Event)
      → IsFifo spdk queued
      → Idle spdk queued s m r r'
      → spdk.ring_dequeue r' ≡ some (m, r'')
      → (s.msgs m).completed ≡ false
      → is_shutdown (s.msgs m).type ≡ false
      → (let s₁ = dispatch spdk (s.msgs m).type m (taken spdk queued s r'') in
          ((s₁.msgs m).completed ≡ false)
          × (s₁.inflight ≡ e ∷ [])
          × (((deliver spdk e (record s₁ { inflight = [] })).msgs m).completed ≡ true))
      → (let s₁ = dispatch spdk (s.msgs m).type m (taken spdk queued s r'') in
          let s₂ = deliver spdk e (record s₁ { inflight = [] }) in
          msg_send_sync spdk (suc (suc fuel)) m s ≡ (some (s₂.msgs m).status, s₂))
  unfolding msg_send_sync run_thread enqueue
  msg_send_sync_answers_late fuel m s r r' r'' e fifo idle out new more (late, one, done) =
      let (q, got, empty) = only_dequeue spdk queued r r' m fifo idle.empty idle.room in
      let same : ◌≡◌ {A = Option (ℕ × R)} (some (m, q)) (some (m, r'')) = sym got ∙ out in
      let q_r : q ≡ r'' = cc in
      let left : queued r'' ≡ [] = rw (← q_r) empty in
      let s₀ = taken spdk queued s r'' in
      let s₁ = dispatch spdk (s.msgs m).type m s₀ in
      let s₂ = deliver spdk e (record s₁ { inflight = [] }) in
      let round =
        thread_poll_one spdk queued m (record s { msg_ring = some r' }) r' r'' fifo refl idle.quiet
          out left more in
      let wait : (s.msgs m).completed || not s.spdk_thread_running ≡ false =
        rw (new, idle.running) refl in
      let kept = dispatch-Keeps spdk (s.msgs m).type m s₀ more in
      let ring : s₁.msg_ring ≡ some r'' = ap (λ q. q.ring) kept.same in
      let running : s₁.spdk_thread_running ≡ true = ap (λ q. q.running) kept.same ∙ idle.running in
      let wait₁ : (s₁.msgs m).completed || not s₁.spdk_thread_running ≡ false =
        rw (late, running) refl in
      let round₁ = thread_poll_delivers e s₁ r'' fifo ring left one in
      rw
        (
          msg_send_sync,
          enqueue,
          idle.ring,
          idle.room,
          wait,
          round,
          wait₁,
          round₁,
          run_thread_done spdk queued fuel m s₂ done,
          done,
        )
        refl

  -- A synchronous call whose handler leaves one piece of work in flight, and whose message that work
  -- completes, returns after two rounds, and its message goes back to the pool.
  pub sync_call_answers_late :
      (fuel : ℕ) (type : MsgType) (fill : Msg → Msg) (result : ℤ → Msg → ℤ) (s : Sys R P W) (m : ℕ)
      (p p' : P) (r r' r'' : R) (e : Event)
      → IsFifo spdk queued
      → Ready spdk queued s m p p' r r' r''
      → is_shutdown type ≡ false
      → (fill (fresh_msg type)).type ≡ type
      → (fill (fresh_msg type)).completed ≡ false
      → (let s₁ =
            dispatch spdk type m (taken spdk queued (filled spdk queued type fill m p' s) r'') in
          ((s₁.msgs m).completed ≡ false)
          × (s₁.inflight ≡ e ∷ [])
          × (((deliver spdk e (record s₁ { inflight = [] })).msgs m).completed ≡ true))
      → (let s₁ =
            dispatch spdk type m (taken spdk queued (filled spdk queued type fill m p' s) r'') in
          let s₂ = deliver spdk e (record s₁ { inflight = [] }) in
          sync_call spdk (suc (suc fuel)) type fill result s
          ≡ (some (result (s₂.msgs m).status (s₂.msgs m)), msg_free spdk m s₂))
  sync_call_answers_late fuel type fill result s m p p' r r' r'' e fifo ready more same new done =
      let s₀ = filled spdk queued type fill m p' s in
      let kept : s₀.msgs m ≡ fill (fresh_msg type) = filled_msg spdk queued type fill m p' s in
      let kind : (s₀.msgs m).type ≡ type = rw kept same in
      let s₁ = dispatch spdk type m (taken spdk queued s₀ r'') in
      let s₂ = deliver spdk e (record s₁ { inflight = [] }) in
      let sent =
        msg_send_sync_answers_late fuel m s₀ r r' r'' e fifo
          (filled-Idle spdk queued type fill m p' s r r' ready.idle) ready.out (rw kept new)
          (rw (kind, more) refl) (rw kind done) in
      let answer : msg_send_sync spdk (suc (suc fuel)) m s₀ ≡ (some (s₂.msgs m).status, s₂) =
        rw kind at sent in
      sync_call_sends spdk queued (suc (suc fuel)) type fill result s m p p' ready.pool
        ready.message
      ∙ send_and_free_answer spdk queued (suc (suc fuel)) m result s₀ _ _ answer

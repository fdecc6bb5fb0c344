-- ===== src/Core/Answer.antt =====
-- The answer that a client of `xpdk_msg_send_sync` gets: it comes with the first round of the SPDK
-- thread, when nothing else is queued.
use libxpdk.Prelude.{
  ℕ, zero, suc, ◌≡◌, refl, sym, ap, ◌∙◌, inl, inr, true, false, ◌||◌, not, Option, none, some, List,
  [], ◌∷◌, arith, Bool-cases, Option-cases,
}
use libxpdk.Spdk.{IsFifo, Spdk}
use libxpdk.State.{Sys}
use libxpdk.Core.Poller.{
  msg_send_sync, dispatch, deliver_next, msg_process_poller, is_shutdown, thread_poll, run_thread,
  dequeue, poll_rounds, count_message,
}
use libxpdk.Core.Options.{max_batch}
use libxpdk.Api.{Opts}
use libxpdk.Core.Frame.Thread.{dispatch-Keeps}
use libxpdk.Core.Messages.{enqueue}

module _ {R P W : Type 0} (spdk : Spdk R P W) (queued : R → List ℕ) where
  -- A running thread with nothing to do, and a ring that takes one more message.
  pub record Idle (s : Sys R P W) (m : ℕ) (r r' : R) : Type 0 where
    pub ring : s.msg_ring ≡ some r
    pub empty : queued r ≡ []
    pub room : spdk.ring_enqueue r m ≡ some r'
    pub running : s.spdk_thread_running ≡ true
    pub quiet : s.inflight ≡ []

  pub empty_dequeue : (r : R) → IsFifo spdk queued → queued r ≡ [] → spdk.ring_dequeue r ≡ none
  empty_dequeue r fifo e = elim (Option-cases (spdk.ring_dequeue r)) [
    | inl h ↦ h
    | inr ((m, r'), h) ↦ cc (fifo.dequeued_some r r' m h)
  ]

  -- The only message of a ring is taken, and nothing is left.
  pub only_dequeue :
      (r r' : R) (m : ℕ)
      → IsFifo spdk queued
      → queued r ≡ []
      → spdk.ring_enqueue r m ≡ some r'
      → (r'' : R) × (spdk.ring_dequeue r' ≡ some (m, r'')) × (queued r'' ≡ [])
  only_dequeue r r' m fifo e room =
      let one : queued r' ≡ m ∷ [] = rw (fifo.enqueued r r' m room, e) in
      elim (Option-cases (spdk.ring_dequeue r')) [
        | inl h ↦ cc (fifo.dequeued_none r' h)
        | inr ((k, r''), h) ↦
            let same : ◌≡◌ {A = List ℕ} (m ∷ []) (k ∷ queued r'') =
              sym one ∙ fifo.dequeued_some r' r'' k h in
            let k_m : k ≡ m = ground arith in
            let none_left : queued r'' ≡ [] = ground arith in (r'', rw (← k_m) h, none_left)
      ]

  -- The state in which the message is dispatched.
  abbrev pub taken : Sys R P W → R → Sys R P W
  taken s r = count_message spdk (record s { msg_ring = some r })

  -- One message is the whole of a run of the poller.
  poll_rounds_one :
      (k m : ℕ) (s s₁ : Sys R P W)
      → dequeue spdk s ≡ some (m, s₁)
      → is_shutdown (s₁.msgs m).type ≡ false
      → dequeue spdk (dispatch spdk (s₁.msgs m).type m (count_message spdk s₁)) ≡ none
      → poll_rounds spdk (suc k) s ≡ (1, dispatch spdk (s₁.msgs m).type m (count_message spdk s₁))
  unfolding poll_rounds
  poll_rounds_one zero m s s₁ e more last = rw (poll_rounds, e, more) refl
  poll_rounds_one (suc k) m s s₁ e more last = rw (poll_rounds, e, more, last) refl

  pub max_batch-suc : (o : Opts) → (k : ℕ) × (max_batch o ≡ suc k)
  unfolding max_batch
  max_batch-suc o = elim (Bool-cases o.turbo_mode) [
    | inl e ↦ (31, rw e refl)
    | inr e ↦ (0, rw e refl)
  ]

  pub dequeue_first :
      (s : Sys R P W) (m : ℕ) (r r' : R)
      → s.msg_ring ≡ some r
      → spdk.ring_dequeue r ≡ some (m, r')
      → dequeue spdk s ≡ some (m, record s { msg_ring = some r' })
  unfolding dequeue
  dequeue_first s m r r' ring e = rw (dequeue, ring, e) refl

  pub dequeue_nothing :
      (s : Sys R P W) (r : R)
      → s.msg_ring ≡ some r
      → spdk.ring_dequeue r ≡ none
      → dequeue spdk s ≡ none
  unfolding dequeue
  dequeue_nothing s r ring e = rw (dequeue, ring, e) refl

  pub deliver_next_quiet : (s : Sys R P W) → s.inflight ≡ [] → deliver_next spdk s ≡ s
  unfolding deliver_next
  deliver_next_quiet s e = ground (arith, e)

  -- One round of the thread, when nothing is in flight and one message is queued.
  pub thread_poll_one :
      (m : ℕ) (s : Sys R P W) (r r' : R)
      → IsFifo spdk queued
      → s.msg_ring ≡ some r
      → s.inflight ≡ []
      → spdk.ring_dequeue r ≡ some (m, r')
      → queued r' ≡ []
      → is_shutdown (s.msgs m).type ≡ false
      → (thread_poll spdk s).1 ≡ dispatch spdk (s.msgs m).type m (taken s r')
  unfolding thread_poll msg_process_poller
  thread_poll_one m s r r' fifo ring quiet e empty more =
      let (k, batch) = max_batch-suc s.opts in
      let s₁ = record s { msg_ring = some r' } in
      let kept = dispatch-Keeps spdk (s.msgs m).type m (taken s r') more in
      let last = dequeue_nothing _ r' (ap (λ q. q.ring) kept.same) (empty_dequeue r' fifo empty) in
      let one = poll_rounds_one k m s s₁ (dequeue_first s m r r' ring e) more last in
      rw (deliver_next_quiet s quiet, batch) (ap (λ p. p.1) one)

  pub run_thread_done :
      (fuel m : ℕ) (s : Sys R P W) → (s.msgs m).completed ≡ true → run_thread spdk fuel m s ≡ s
  unfolding run_thread
  run_thread_done zero m s e = refl
  run_thread_done (suc fuel) m s e = rw (run_thread, e) refl

  -- A message that is sent to an idle thread, and that its handler completes, is answered: one round
  -- is enough, the result is the status that the handler left, and the state is the handler's.
  pub msg_send_sync_answers :
      (fuel m : ℕ) (s : Sys R P W) (r r' r'' : R)
      → IsFifo spdk queued
      → Idle s m r r'
      → spdk.ring_dequeue r' ≡ some (m, r'')
      → (s.msgs m).completed ≡ false
      → is_shutdown (s.msgs m).type ≡ false
      → ((dispatch spdk (s.msgs m).type m (taken s r'')).msgs m).completed ≡ true
      → msg_send_sync spdk (suc fuel) m s ≡ (
        some ((dispatch spdk (s.msgs m).type m (taken s r'')).msgs m).status,
        dispatch spdk (s.msgs m).type m (taken s r''),
      )
  unfolding msg_send_sync run_thread enqueue
  msg_send_sync_answers fuel m s r r' r'' fifo idle out new more done =
      let (q, e, empty) = only_dequeue r r' m fifo idle.empty idle.room in
      let same : ◌≡◌ {A = Option (ℕ × R)} (some (m, q)) (some (m, r'')) = sym e ∙ out in
      let q_r : q ≡ r'' = cc in
      let s₂ = dispatch spdk (s.msgs m).type m (taken s r'') in
      let s₁ = record s { msg_ring = some r' } in
      let round = thread_poll_one m s₁ r' r'' fifo refl idle.quiet out (rw (← q_r) empty) more in
      let wait : (s.msgs m).completed || not s.spdk_thread_running ≡ false =
        rw (new, idle.running) refl in
      rw
        (
          msg_send_sync,
          enqueue,
          idle.ring,
          idle.room,
          wait,
          round,
          run_thread_done fuel m s₂ done,
          done,
        )
        refl

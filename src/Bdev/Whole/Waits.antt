-- ===== src/Bdev/Whole/Waits.antt =====
-- What `xpdk_open` does when SPDK does not report an open through its callback.
use libxpdk.Prelude.{
  ℕ, zero, suc, ◌≡◌, refl, sym, ap, ◌∙◌, true, false, ◌||◌, not, Option, none, some, List, [],
}
use libxpdk.State.{Sys}
use libxpdk.Spdk.{IsFifo, Spdk}
use libxpdk.Core.Answer.{taken, Idle, only_dequeue, thread_poll_one}
use libxpdk.Core.Frame.Thread.{dispatch-Keeps}
use libxpdk.Core.Late.{thread_poll_quiet}
use libxpdk.Core.Messages.{enqueue}
use libxpdk.Core.Poller.{dispatch, is_shutdown, msg_send_sync, run_thread}

module _ {R P W : Type 0} (spdk : Spdk R P W) (queued : R → List ℕ) where
  run_thread_quiet :
      (fuel m : ℕ) (s : Sys R P W) (r : R)
      → IsFifo spdk queued
      → s.msg_ring ≡ some r
      → queued r ≡ []
      → s.inflight ≡ []
      → (s.msgs m).completed ≡ false
      → s.spdk_thread_running ≡ true
      → run_thread spdk fuel m s ≡ s
  unfolding run_thread
  run_thread_quiet zero m s r fifo ring empty quiet new on = refl
  run_thread_quiet (suc fuel) m s r fifo ring empty quiet new on =
      let wait : (s.msgs m).completed || not s.spdk_thread_running ≡ false = rw (new, on) refl in
      rw (run_thread, wait, ap (λ q. q.1) (thread_poll_quiet spdk queued s r fifo ring empty quiet))
        (run_thread_quiet fuel m s r fifo ring empty quiet new on)

  -- A message whose handler neither completes it nor leaves anything in flight is never answered.
  pub msg_send_sync_waits :
      (fuel m : ℕ) (s : Sys R P W) (r r' r'' : R)
      → IsFifo spdk queued
      → Idle spdk queued s m r r'
      → spdk.ring_dequeue r' ≡ some (m, r'')
      → (s.msgs m).completed ≡ false
      → is_shutdown (s.msgs m).type ≡ false
      → (let s₁ = dispatch spdk (s.msgs m).type m (taken spdk queued s r'') in
          ((s₁.msgs m).completed ≡ false) × (s₁.inflight ≡ []))
      → msg_send_sync spdk (suc fuel) m s
        ≡ (none, dispatch spdk (s.msgs m).type m (taken spdk queued s r''))
  unfolding msg_send_sync run_thread enqueue
  msg_send_sync_waits fuel m s r r' r'' fifo idle out new more (late, quiet) =
      let (q, got, empty) = only_dequeue spdk queued r r' m fifo idle.empty idle.room in
      let same : ◌≡◌ {A = Option (ℕ × R)} (some (m, q)) (some (m, r'')) = sym got ∙ out in
      let q_r : q ≡ r'' = cc in
      let left : queued r'' ≡ [] = rw (← q_r) empty in
      let s₀ = taken spdk queued s r'' in
      let s₁ = dispatch spdk (s.msgs m).type m s₀ in
      let round =
        thread_poll_one spdk queued m (record s { msg_ring = some r' }) r' r'' fifo refl idle.quiet
          out left more in
      let wait : (s.msgs m).completed || not s.spdk_thread_running ≡ false =
        rw (new, idle.running) refl in
      let kept = dispatch-Keeps spdk (s.msgs m).type m s₀ more in
      let ring : s₁.msg_ring ≡ some r'' = ap (λ q. q.ring) kept.same in
      let running : s₁.spdk_thread_running ≡ true = ap (λ q. q.running) kept.same ∙ idle.running in
      rw
        (
          msg_send_sync,
          enqueue,
          idle.ring,
          idle.room,
          wait,
          round,
          run_thread_quiet fuel m s₁ r'' fifo ring left quiet late running,
          late,
        )
        refl

-- ===== src/Core/Shutdown.antt =====
-- xpdk_cleanup_spdk_thread on an idle library: the shutdown message, and what is left after it.
use libxpdk.Prelude.{
  ℕ, suc, ◌≡◌, refl, true, false, ◌||◌, not, none, some, List, [], arith, if◌then◌else◌,
}
use libxpdk.State.{MsgType, shutdown_msg, Sys}
use libxpdk.Spdk.{Spdk}
use libxpdk.Core.Lifecycle.{cleanup_spdk_thread}
use libxpdk.Core.Poller.{
  is_shutdown, handle_shutdown, dispatch, poll_rounds, msg_process_poller, run_thread,
  msg_send_sync, thread_poll,
}
use libxpdk.Core.Messages.{fresh_msg, set_msg, enqueue, msg_free, msg_alloc}
use libxpdk.Core.Call.{Ready}
use libxpdk.Core.Answer.{
  deliver_next_quiet, dequeue_first, run_thread_done, max_batch-suc, taken, Idle,
}

module _ {R P W : Type 0} (spdk : Spdk R P W) (queued : R → List ℕ) where
  stop :
      (t : MsgType) (m : ℕ) (s : Sys R P W) (rest : ℕ × Sys R P W)
      → t ≡ shutdown_msg
      → (let first : ℕ × Sys R P W = (1, dispatch spdk t m s) in
          (if is_shutdown t then first else (suc rest.0, rest.1)).1 ≡ handle_shutdown m s)
  unfolding dispatch
  stop t m s rest e = rw e refl

  -- One round of the thread, when nothing is in flight and a shutdown message is first in the ring.
  shutdown_round :
      (m : ℕ) (s : Sys R P W) (r r' : R)
      → s.msg_ring ≡ some r
      → s.inflight ≡ []
      → spdk.ring_dequeue r ≡ some (m, r')
      → (s.msgs m).type ≡ shutdown_msg
      → (thread_poll spdk s).1 ≡ handle_shutdown m (taken spdk queued s r')
  unfolding thread_poll msg_process_poller poll_rounds dispatch
  shutdown_round m s r r' ring quiet out type =
      let (k, batch) = max_batch-suc spdk queued s.opts in
      let first = dequeue_first spdk queued s m r r' ring out in
      rw (deliver_next_quiet spdk queued s quiet, batch)
        (rw (poll_rounds, first) (stop (s.msgs m).type m (taken spdk queued s r') _ type))

  -- The shutdown of an idle library is answered within one round, and stops the thread.
  shutdown_sent :
      (fuel m : ℕ) (s : Sys R P W) (r r' r'' : R)
      → Idle spdk queued s m r r'
      → spdk.ring_dequeue r' ≡ some (m, r'')
      → (s.msgs m).completed ≡ false
      → (s.msgs m).type ≡ shutdown_msg
      → (msg_send_sync spdk (suc fuel) m s).1 ≡ handle_shutdown m (taken spdk queued s r'')
  unfolding msg_send_sync run_thread enqueue
  shutdown_sent fuel m s r r' r'' idle out new type =
      let s₁ = record s { msg_ring = some r' } in
      let s₂ = handle_shutdown m (taken spdk queued s r'') in
      let round = shutdown_round m s₁ r' r'' refl idle.quiet out type in
      let wait : (s.msgs m).completed || not s.spdk_thread_running ≡ false =
        rw (new, idle.running) refl in
      let done : (s₂.msgs m).completed ≡ true = ground arith in
      rw
        (
          msg_send_sync,
          enqueue,
          idle.ring,
          idle.room,
          wait,
          round,
          run_thread_done spdk queued fuel m s₂ done,
        )
        refl

  -- On an idle library the wait for the thread ends, the thread has stopped, and the pool and the
  -- ring are gone; the table of devices is as it was.
  pub cleanup_spdk_thread_ends :
      (fuel : ℕ) (s : Sys R P W) (m : ℕ) (p p' : P) (r r' r'' : R)
      → Ready spdk queued s m p p' r r' r''
      → (s' : Sys R P W) × (cleanup_spdk_thread spdk (suc fuel) s ≡ some s')
        × (s'.spdk_thread_running ≡ false)
        × (s'.msg_pool ≡ none)
        × (s'.msg_ring ≡ none)
        × (s'.devices ≡ s.devices)
  unfolding cleanup_spdk_thread msg_alloc msg_free
  cleanup_spdk_thread_ends fuel s m p p' r r' r'' ready =
      let s₁ = set_msg m (fresh_msg shutdown_msg) (record s { msg_pool = some p' }) in
      let idle : Idle spdk queued s₁ m r r' = record {
        ring = ready.idle.ring;
        empty = ready.idle.empty;
        room = ready.idle.room;
        running = ready.idle.running;
        quiet = ready.idle.quiet;
      } in
      let msg : s₁.msgs m ≡ fresh_msg shutdown_msg = ground arith in
      let sent = shutdown_sent fuel m s₁ r r' r'' idle ready.out (rw msg refl) (rw msg refl) in
      let s₂ = handle_shutdown m (taken spdk queued s₁ r'') in
      (
        record (msg_free spdk m s₂) { msg_pool = none; msg_ring = none },
        rw (cleanup_spdk_thread, ready.idle.running, msg_alloc, ready.pool, ready.message, sent)
            refl,
        ground arith,
        refl,
        refl,
        ground arith,
      )

-- ===== src/Core/Poller.antt =====
-- xpdk_core.c: the poller that takes messages from the ring, the SPDK thread's loop, and the
-- synchronous send that waits for it.
use libxpdk.Prelude.{
  ℕ, zero, suc, ◌+◌, ◌%◌, ◌^◌, Bool, true, false, ◌||◌, not, Option, none, some, [], ◌∷◌, ltb,
  if◌then◌else◌, ℤ,
}
use libxpdk.Api.{error_invalid, error_busy}
use libxpdk.State.{
  MsgType, open_msg, close_msg, read_msg, write_msg, readv_msg, writev_msg, batch_submit_msg,
  flush_msg, list_bdevs_msg, get_info_msg, qos_set_limits_msg, qos_get_limits_msg,
  get_perf_stats_msg, reset_perf_stats_msg, trim_msg, write_zeros_msg, shutdown_msg, Sys,
}
use libxpdk.Spdk.{Spdk}
use libxpdk.Core.Messages.{set_msg, finish, enqueue}
use libxpdk.Core.Options.{max_batch}
use libxpdk.Bdev.{handle_open, handle_close, handle_list_bdevs, handle_get_info}
use libxpdk.Io.{handle_read, handle_write, handle_flush}
use libxpdk.Qos.{handle_qos_set_limits, handle_qos_get_limits}
use libxpdk.Perf.Handlers.{
  handle_get_perf_stats, handle_reset_perf_stats, handle_trim, handle_write_zeros,
}
use libxpdk.Events.{deliver}

abbrev pub is_shutdown : MsgType → Bool
is_shutdown shutdown_msg = true
is_shutdown _ = false

module _ {R P W : Type 0} where
  -- `g_xpdk_ctx.total_io_operations++`
  abbrev pub count_io_op : Sys R P W → Sys R P W
  count_io_op s = record s { total_io_operations = (s.total_io_operations + 1) % 2 ^ 64 }

  -- The case XPDK_MSG_SHUTDOWN
  abbrev pub handle_shutdown : ℕ → Sys R P W → Sys R P W
  handle_shutdown m s =
      set_msg m (record (s.msgs m) { completed = true }) (record s { spdk_thread_running = false })

  -- `spdk_ring_dequeue` of one message from the ring of the context
  unfoldable pub dequeue : Spdk R P W → Sys R P W → Option (ℕ × Sys R P W)
  dequeue spdk s = elim s.msg_ring [
    | none ↦ none
    | some r ↦ elim (spdk.ring_dequeue r) [
      | none ↦ none
      | some (m, r') ↦ some (m, record s { msg_ring = some r' })
    ]
  ]

module _ {R P W : Type 0} (spdk : Spdk R P W) where
  -- The `switch` of `xpdk_msg_process_poller`. The default is reached by one enumerator,
  -- XPDK_MSG_BATCH_SUBMIT.
  unfoldable pub dispatch : MsgType → ℕ → Sys R P W → Sys R P W
  dispatch open_msg m s = handle_open spdk m s
  dispatch close_msg m s = handle_close spdk m s
  dispatch read_msg m s = handle_read spdk m (count_io_op s)
  dispatch readv_msg m s = handle_read spdk m (count_io_op s)
  dispatch write_msg m s = handle_write spdk m (count_io_op s)
  dispatch writev_msg m s = handle_write spdk m (count_io_op s)
  dispatch flush_msg m s = handle_flush spdk m s
  dispatch list_bdevs_msg m s = handle_list_bdevs spdk m s
  dispatch get_info_msg m s = handle_get_info spdk m s
  dispatch qos_set_limits_msg m s = handle_qos_set_limits spdk m s
  dispatch qos_get_limits_msg m s = handle_qos_get_limits spdk m s
  dispatch get_perf_stats_msg m s = handle_get_perf_stats spdk m s
  dispatch reset_perf_stats_msg m s = handle_reset_perf_stats spdk m s
  dispatch trim_msg m s = handle_trim spdk m s
  dispatch write_zeros_msg m s = handle_write_zeros spdk m s
  dispatch shutdown_msg m s = handle_shutdown m s
  dispatch batch_submit_msg m s = finish m error_invalid s

  -- `g_xpdk_ctx.total_messages_processed++`
  abbrev pub count_message : Sys R P W → Sys R P W
  count_message s = record s {
    total_messages_processed = (s.total_messages_processed + 1) % 2 ^ 64;
  }

  -- The loop of `xpdk_msg_process_poller` with the rounds that are left. The number is `processed`;
  -- a shutdown message ends the run at once.
  unfoldable pub poll_rounds : ℕ → Sys R P W → ℕ × Sys R P W
  unfolding dequeue
  poll_rounds zero s = (0, s)
  poll_rounds (suc n) s = elim (dequeue spdk s) [
    | none ↦ (0, s)
    | some (m, s₁) ↦
        let s₂ = dispatch (s₁.msgs m).type m (count_message s₁) in
        let rest = poll_rounds n s₂ in
        if is_shutdown (s₁.msgs m).type then (1, s₂) else (suc rest.0, rest.1)
  ]

  -- `xpdk_msg_process_poller`: whether it was busy (SPDK_POLLER_BUSY or SPDK_POLLER_IDLE)
  unfoldable pub msg_process_poller : Sys R P W → Bool × Sys R P W
  unfolding poll_rounds
  msg_process_poller s =
      let (processed, s') = poll_rounds (max_batch s.opts) s in (ltb 0 processed, s')

  -- One piece of accepted work, the oldest, comes to its end.
  unfoldable pub deliver_next : Sys R P W → Sys R P W
  deliver_next s = elim s.inflight [ [] ↦ s | e ∷ es ↦ deliver spdk e (record s { inflight = es }) ]

  -- `spdk_thread_poll` on the SPDK thread: what SPDK has to report, then the registered poller
  unfoldable pub thread_poll : Sys R P W → Bool × Sys R P W
  unfolding msg_process_poller
  thread_poll s = msg_process_poller (deliver_next s)

  -- The loop of `xpdk_spdk_thread_main` while a client waits in `xpdk_msg_send_sync` for message
  -- `m`: rounds of the thread until the message is complete, or the thread has stopped. The client of
  -- the source looks at its message all the time, and so may go on before a handler that has completed
  -- the message is over; `Io.Early` has what it can see then.
  unfoldable pub run_thread : ℕ → ℕ → Sys R P W → Sys R P W
  run_thread zero m s = s
  run_thread (suc fuel) m s =
      let rest = run_thread fuel m (thread_poll s).1 in
      if (s.msgs m).completed || not s.spdk_thread_running then s else rest

  -- `xpdk_msg_send_sync`, at a pointer that is not NULL, with the rounds that the thread is given.
  -- `none` is a wait that has not ended.
  unfoldable pub msg_send_sync : ℕ → ℕ → Sys R P W → Option ℤ × Sys R P W
  unfolding run_thread
  msg_send_sync fuel m s = elim (enqueue spdk m s) [
    | none ↦ (some error_busy, s)
    | some s₁ ↦
        let s₂ = run_thread fuel m s₁ in
        (if (s₂.msgs m).completed then some (s₂.msgs m).status else none, s₂)
  ]

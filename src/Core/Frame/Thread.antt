-- ===== src/Core/Frame/Thread.antt =====
-- The SPDK thread as a whole: what a message leaves alone, and the table of devices as an invariant.
use libxpdk.Prelude.{
  ℕ, zero, suc, ◌≡◌, refl, inl, inr, true, false, ◌||◌, not, Option, some, List, [], ◌∷◌,
  Bool-cases, Option-cases,
}
use libxpdk.State.{
  Event, MsgType, open_msg, close_msg, read_msg, write_msg, readv_msg, writev_msg, batch_submit_msg,
  flush_msg, list_bdevs_msg, get_info_msg, qos_set_limits_msg, qos_get_limits_msg,
  get_perf_stats_msg, reset_perf_stats_msg, trim_msg, write_zeros_msg, shutdown_msg, Sys,
}
use libxpdk.Spdk.{Spdk}
use libxpdk.Events.Frame.{settings, Keeps-deliver, Keeps-trans, Keeps}
use libxpdk.Core.Poller.{
  count_message, deliver_next, dequeue, msg_process_poller, poll_rounds, thread_poll, run_thread,
  is_shutdown, count_io_op, dispatch,
}
use libxpdk.Perf.Handlers.{handle_write_zeros, handle_trim}
use libxpdk.Core.Devices.{IsTable}
use libxpdk.Core.Frame.Devices.{
  Keeps-handle_range, Keeps-handle_reset_perf_stats, Keeps-handle_get_perf_stats,
  Keeps-handle_qos_get_limits, Keeps-handle_qos_set_limits, Keeps-handle_get_info,
  Keeps-handle_list_bdevs, Keeps-handle_close, Keeps-handle_open,
}
use libxpdk.Core.Frame.{Keeps-handle_flush, Keeps-handle_write, Keeps-handle_read}

module _ {R P W : Type 0} where
  same_frame : (s t : Sys R P W) → settings t ≡ settings s → t.devices ≡ s.devices → Keeps s t
  same_frame s t same devices = record { same = same; table = λ h. rw devices h }

module _ {R P W : Type 0} (spdk : Spdk R P W) where
  Keeps-counted : (m : ℕ) (s t : Sys R P W) → Keeps (count_io_op s) t → Keeps s t
  Keeps-counted m s t k = Keeps-trans s (count_io_op s) t (same_frame s (count_io_op s) refl refl) k

  -- No message but the one for shutdown touches the ring, the options or the thread's state, and
  -- each keeps the table of devices well formed.
  pub dispatch-Keeps :
      (t : MsgType) (m : ℕ) (s : Sys R P W) → is_shutdown t ≡ false → Keeps s (dispatch spdk t m s)
  unfolding dispatch handle_trim handle_write_zeros
  dispatch-Keeps open_msg m s h = Keeps-handle_open spdk m s
  dispatch-Keeps close_msg m s h = Keeps-handle_close spdk m s
  dispatch-Keeps read_msg m s h = Keeps-counted m s _ (Keeps-handle_read spdk m (count_io_op s))
  dispatch-Keeps readv_msg m s h = Keeps-counted m s _ (Keeps-handle_read spdk m (count_io_op s))
  dispatch-Keeps write_msg m s h = Keeps-counted m s _ (Keeps-handle_write spdk m (count_io_op s))
  dispatch-Keeps writev_msg m s h = Keeps-counted m s _ (Keeps-handle_write spdk m (count_io_op s))
  dispatch-Keeps flush_msg m s h = Keeps-handle_flush spdk m s
  dispatch-Keeps list_bdevs_msg m s h = Keeps-handle_list_bdevs spdk m s
  dispatch-Keeps get_info_msg m s h = Keeps-handle_get_info spdk m s
  dispatch-Keeps qos_set_limits_msg m s h = Keeps-handle_qos_set_limits spdk m s
  dispatch-Keeps qos_get_limits_msg m s h = Keeps-handle_qos_get_limits spdk m s
  dispatch-Keeps get_perf_stats_msg m s h = Keeps-handle_get_perf_stats spdk m s
  dispatch-Keeps reset_perf_stats_msg m s h = Keeps-handle_reset_perf_stats spdk m s
  dispatch-Keeps trim_msg m s h = Keeps-handle_range spdk spdk.bdev_unmap_blocks m s
  dispatch-Keeps write_zeros_msg m s h = Keeps-handle_range spdk spdk.bdev_write_zeroes_blocks m s
  dispatch-Keeps shutdown_msg m s h = cc
  dispatch-Keeps batch_submit_msg m s h = same_frame s _ refl refl

  pub shutdown_type : (t : MsgType) → is_shutdown t ≡ true → t ≡ shutdown_msg
  shutdown_type shutdown_msg e = refl
  shutdown_type _ e = cc

  pub dispatch-IsTable :
      (t : MsgType) (m : ℕ) (s : Sys R P W)
      → IsTable s.devices
      → IsTable (dispatch spdk t m s).devices
  unfolding dispatch
  dispatch-IsTable t m s h = elim (Bool-cases (is_shutdown t)) [
    | inl e ↦ rw (shutdown_type t e, dispatch) h
    | inr e ↦ (dispatch-Keeps t m s e).table h
  ]

  -- What the ring hands out, the rest of the state does not notice.
  pub dequeue-some :
      (s s₁ : Sys R P W) (m : ℕ)
      → dequeue spdk s ≡ some (m, s₁)
      → (r : R) × (r' : R) × (s.msg_ring ≡ some r)
        × (spdk.ring_dequeue r ≡ some (m, r'))
        × (s₁ ≡ record s { msg_ring = some r' })
  unfolding dequeue
  dequeue-some s s₁ m e = elim (Option-cases s.msg_ring) [
    | inl e₁ ↦ cc (rw e₁ at e)
    | inr (r, e₁) ↦ elim (Option-cases (spdk.ring_dequeue r)) [
      | inl e₂ ↦ cc (rw (e₁, dequeue, e₂) at e)
      | inr ((k, r'), e₂) ↦
          let same : ◌≡◌ {A = Option (ℕ × Sys R P W)} (some (k, record s { msg_ring = some r' }))
              (some (m, s₁)) =
            rw (e₁, dequeue, e₂) at e in
          let k_m : k ≡ m = cc in (r, r', e₁, rw (← k_m) e₂, cc)
    ]
  ]

  pub poll_rounds-IsTable :
      (n : ℕ) (s : Sys R P W) → IsTable s.devices → IsTable (poll_rounds spdk n s).1.devices
  unfolding poll_rounds
  poll_rounds-IsTable zero s h = h
  poll_rounds-IsTable (suc n) s h = elim (Option-cases (dequeue spdk s)) [
    | inl e ↦ rw (poll_rounds, e) h
    | inr ((m, s₁), e) ↦
        let (_, _, _, _, shape) = dequeue-some s s₁ m e in
        let same : s₁.devices ≡ s.devices = rw shape in
        let h₁ = dispatch-IsTable (s₁.msgs m).type m (count_message spdk s₁) (rw same h) in
        elim (Bool-cases (is_shutdown (s₁.msgs m).type)) [
          | inl last ↦ rw (poll_rounds, e, last) h₁
          | inr more ↦ rw (poll_rounds, e, more) (poll_rounds-IsTable n _ h₁)
        ]
  ]

  deliver_next-IsTable :
      (es : List Event) (s : Sys R P W)
      → s.inflight ≡ es
      → IsTable s.devices
      → IsTable (deliver_next spdk s).devices
  unfolding deliver_next
  deliver_next-IsTable [] s e h = rw (deliver_next, e) h
  deliver_next-IsTable (x ∷ es) s e h =
      rw (deliver_next, e) ((Keeps-deliver spdk x (record s { inflight = es })).table h)

  thread_poll-IsTable : (s : Sys R P W) → IsTable s.devices → IsTable (thread_poll spdk s).1.devices
  unfolding thread_poll msg_process_poller
  thread_poll-IsTable s h = poll_rounds-IsTable _ _ (deliver_next-IsTable s.inflight s refl h)

  -- Whatever messages and completions the SPDK thread handles, the table of devices stays well formed.
  pub run_thread-IsTable :
      (fuel m : ℕ) (s : Sys R P W) → IsTable s.devices → IsTable (run_thread spdk fuel m s).devices
  unfolding run_thread
  run_thread-IsTable zero m s h = h
  run_thread-IsTable (suc fuel) m s h =
      elim (Bool-cases ((s.msgs m).completed || not s.spdk_thread_running)) [
        | inl e ↦ rw e h
        | inr e ↦ rw e (run_thread-IsTable fuel m _ (thread_poll-IsTable s h))
      ]

-- ===== src/Events.antt =====
-- Completion callbacks: what SPDK calls when work that it accepted is finished, and the loop that
-- polls for it.
pub mod Frame
use libxpdk.Prelude.{
  ℕ, Bool, true, ◌&&◌, Option, none, some, List, [], ◌∷◌, ◌++◌, ◌==◌, if◌then◌else◌, ℤ, eq_ℤ,
  update,
}
use libxpdk.Api.{
  Callback, null, user, batch_completion, vectored_completion, success, error_io, error_qos,
}
use libxpdk.State.{Device, Sys, Event, sync_io, async_io, opened, qos_set}
use libxpdk.Spdk.{Spdk}
use libxpdk.Dma.{dma_free, free_buffer}
use libxpdk.Core.Devices.{modify_device}
use libxpdk.Core.Messages.{set_msg, finish, msg_free}
use libxpdk.Vectored.Copy.{buffer_to_iovec}
use libxpdk.Batch.Queues.{completion_callback}
use libxpdk.Perf.Stats.{perf_stats_init}

module _ {R P W : Type 0} where
  -- A call of a function of the application, which may do anything but change this state.
  abbrev pub call_user : Callback → ℕ → ℤ → Sys R P W → Sys R P W
  call_user f context status s = record s {
    calls = s.calls ++ record { function = f; context = context; status = status } ∷ [];
  }

  -- `xpdk_qos_set_limits_complete`
  unfoldable pub qos_set_limits_complete : ℕ → Bool → Sys R P W → Sys R P W
  qos_set_limits_complete m ok s = finish m (if ok then success else error_qos) s

  -- `sync_io_completion_cb`, with the byte count of its context
  unfoldable pub sync_io_completion_cb : ℕ → ℕ → Bool → Sys R P W → Sys R P W
  sync_io_completion_cb m bytes ok s =
      let status = if ok then success else error_io in
      set_msg m
        (record (s.msgs m) {
          status = status;
          bytes_transferred = if ok then bytes else 0;
          completed = true;
        })
        (record s {
          sync_completed = update s.sync_completed m true;
          sync_status = update s.sync_status m status;
        })

module _ {R P W : Type 0} (spdk : Spdk R P W) where
  -- `xpdk_vectored_completion_callback`
  unfoldable pub vectored_completion_callback : ℕ → ℤ → Sys R P W → Sys R P W
  vectored_completion_callback ctx status s =
      let v = s.vectored ctx in
      let s₁ =
        if v.is_read && eq_ℤ status success
        then record s { memory = buffer_to_iovec v.temp_buffer v.iov s.memory }
        else s in
      free_buffer spdk v.temp_buffer (call_user v.original_callback v.original_ctx status s₁)

  -- A call through a value of `xpdk_io_callback_t` that is not NULL
  unfoldable pub run_callback : Callback → ℕ → ℤ → Sys R P W → Sys R P W
  unfolding vectored_completion_callback
  run_callback null ctx status s = s
  run_callback (user f) ctx status s = call_user (user f) ctx status s
  run_callback batch_completion ctx status s = record s {
    batches = update s.batches ctx (completion_callback status (s.batches ctx));
  }
  run_callback vectored_completion ctx status s = vectored_completion_callback ctx status s

  -- `async_io_completion_cb`
  unfoldable pub async_io_completion_cb : ℕ → Bool → Sys R P W → Sys R P W
  async_io_completion_cb m ok s =
      let msg = s.msgs m in
      let status = if ok then success else error_io in
      let s₁ = run_callback msg.callback msg.user_ctx status s in
      msg_free spdk m (if msg.ctx == 0 then s₁ else dma_free spdk msg.ctx s₁)

  -- A slot with the handles of a device that has been opened: the end of `bdev_open_complete`
  abbrev pub open_slot : ℕ → ℕ → ℕ → Device → Device
  open_slot now desc channel d =
      perf_stats_init now (record d { desc = some desc; channel = some channel })

  -- `bdev_open_complete`; no descriptor stands for a status that is not 0.
  unfoldable pub bdev_open_complete : ℕ → Option ℕ → Sys R P W → Sys R P W
  bdev_open_complete m result s =
      let fd = (s.msgs m).result_fd in
      elim result [
        | none ↦ finish m error_io s
        | some desc ↦
            let (channel, w) = spdk.bdev_get_io_channel s.world desc in
            elim channel [
              | none ↦ finish m error_io (record s {
                devices =
                    modify_device s.devices fd (λ d. record d { desc = none; channel = none });
                world = spdk.bdev_close w desc;
              })
              | some c ↦ finish m success (record s {
                devices = modify_device s.devices fd (open_slot (spdk.time_us w) desc c);
                world = w;
              })
            ]
      ]

  -- The end of one piece of accepted work: SPDK does it and calls its callback.
  unfoldable pub deliver : Event → Sys R P W → Sys R P W
  deliver (sync_io req m bytes) s =
      let (ok, memory, w) = spdk.perform s.world s.memory req in
      sync_io_completion_cb m bytes ok (record s { memory = memory; world = w })
  deliver (async_io req m) s =
      let (ok, memory, w) = spdk.perform s.world s.memory req in
      async_io_completion_cb m ok (record s { memory = memory; world = w })
  deliver (opened m) s =
      let (result, w) = spdk.bdev_open_result s.world (s.msgs m).bdev_name in
      bdev_open_complete m result (record s { world = w })
  deliver (qos_set m) s = qos_set_limits_complete m (spdk.qos_result s.world) s

  -- `while (!ctx.completed) spdk_thread_poll(…)`, over the work that is in flight, oldest first
  unfoldable pub wait_events : ℕ → List Event → Sys R P W → Sys R P W
  wait_events m [] s = s
  wait_events m (e ∷ es) s =
      let rest = wait_events m es (deliver e (record s { inflight = es })) in
      if s.sync_completed m then s else rest

  unfoldable pub wait_sync : ℕ → Sys R P W → Sys R P W
  wait_sync m s = wait_events m s.inflight s

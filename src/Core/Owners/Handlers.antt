-- ===== src/Core/Owners/Handlers.antt =====
-- No handler makes a second owner of a message: what each does to the pool and the work in flight.
use libxpdk.Prelude.{
  ℕ, ◌+◌, ◌≤◌, inl, inr, Bool, true, false, [], ◌∷◌, ◌++◌, arith, if◌then◌else◌, Option-cases,
  update,
}
use libxpdk.State.{
  MsgType, open_msg, close_msg, read_msg, write_msg, readv_msg, writev_msg, batch_submit_msg,
  flush_msg, list_bdevs_msg, get_info_msg, qos_set_limits_msg, qos_get_limits_msg,
  get_perf_stats_msg, reset_perf_stats_msg, trim_msg, write_zeros_msg, shutdown_msg, reading,
  writing, flushing, Request, sync_io, async_io, opened, qos_set, Sys,
}
use libxpdk.Api.{success, is_null}
use libxpdk.Core.Owners.{busy, wait_sync-owners, in_flight-append}
use libxpdk.Spdk.{here, IsPool, Spdk}
use libxpdk.Bdev.{open_claimed, handle_open, handle_close, handle_get_info, handle_list_bdevs}
use libxpdk.Io.{
  fill_buffer, block_request, io_device, read_finish, Handles, handle_flush, read_submit,
  handle_write, write_submit, submit_io, handle_read,
}
use libxpdk.Perf.Handlers.{
  handle_write_zeros, handle_trim, handle_get_perf_stats, handle_reset_perf_stats, handle_range,
}
use libxpdk.Core.Poller.{count_io_op, dispatch}
use libxpdk.Qos.{handle_qos_set_limits, handle_qos_get_limits}
use libxpdk.BlockMath.{buffer_size}
use libxpdk.Core.Messages.{set_msg}

module _ {R P W : Type 0} (spdk : Spdk R P W) (holds : P → ℕ → ℕ) (pool : IsPool spdk holds) where
  -- A step of the handling of message `m`: at most that message gains an owner.
  abbrev pub Gains : ℕ → ℕ → Sys R P W → Sys R P W → Type 0
  Gains m x s s' = busy spdk holds pool s' x ≤ busy spdk holds pool s x + here m x

  submit_io-owners :
      (m x : ℕ) (req : Request) (bytes : ℕ) (s : Sys R P W)
      → busy spdk holds pool (submit_io spdk m req bytes s).1 x
        ≤ busy spdk holds pool s x + (if is_null (s.msgs m).callback then 0 else here m x)
  unfolding submit_io
  submit_io-owners m x req bytes s = ground (
    arith,
    in_flight-append spdk holds pool s.inflight (sync_io req m bytes ∷ []) x,
    in_flight-append spdk holds pool s.inflight (async_io req m ∷ []) x,
  )

  read_submit-owners :
      (m x : ℕ) (h : Handles) (b : ℕ) (bounce : Bool) (s : Sys R P W)
      → Gains m x s (read_submit spdk m h b bounce s)
  unfolding read_submit read_finish
  read_submit-owners m x h b bounce s =
      let req = block_request spdk reading h b (s.msgs m) in
      let s₁ = (submit_io spdk m req (s.msgs m).count s).1 in
      ground (
        arith,
        submit_io-owners m x req (s.msgs m).count s,
        wait_sync-owners spdk holds pool m x s₁,
      )

  write_submit-owners :
      (m x : ℕ) (h : Handles) (b : ℕ) (s : Sys R P W) → Gains m x s (write_submit spdk m h b s)
  unfolding write_submit
  write_submit-owners m x h b s =
      let req = block_request spdk writing h b (s.msgs m) in
      let s₁ = (submit_io spdk m req (s.msgs m).count s).1 in
      ground (
        arith,
        submit_io-owners m x req (s.msgs m).count s,
        wait_sync-owners spdk holds pool m x s₁,
      )

  handle_read-owners : (m x : ℕ) (s : Sys R P W) → Gains m x s (handle_read spdk m s)
  unfolding handle_read
  handle_read-owners m x s = elim (Option-cases (io_device s.devices (s.msgs m).fd)) [
    | inl e ↦ ground (arith, e)
    | inr (h, e) ↦
        let bs = spdk.bdev_get_block_size h.bdev in
        let (p, w) = spdk.dma_malloc s.world (buffer_size (s.msgs m).count bs) bs in
        let direct = read_submit-owners m x h (s.msgs m).buffer false s in
        elim (Option-cases p) [
          | inl e₁ ↦ ground (arith, e, e₁, direct)
          | inr (b, e₁) ↦ ground (
            arith,
            e,
            e₁,
            direct,
            read_submit-owners m x h b true (
                set_msg m (record (s.msgs m) { ctx = b })
                  (record s { world = w; dma_live = b ∷ s.dma_live })),
          )
        ]
  ]

  handle_write-owners : (m x : ℕ) (s : Sys R P W) → Gains m x s (handle_write spdk m s)
  unfolding handle_write
  handle_write-owners m x s = elim (Option-cases (io_device s.devices (s.msgs m).fd)) [
    | inl e ↦ ground (arith, e)
    | inr (h, e) ↦
        let bs = spdk.bdev_get_block_size h.bdev in
        let size = buffer_size (s.msgs m).count bs in
        let (p, w) = spdk.dma_malloc s.world size bs in
        elim (Option-cases p) [
          | inl e₁ ↦ ground (arith, e, e₁)
          | inr (b, e₁) ↦ ground (
            arith,
            e,
            e₁,
            write_submit-owners m x h b (
                set_msg m (record (s.msgs m) { ctx = b })
                  (record s {
                    world = w;
                    dma_live = b ∷ s.dma_live;
                    memory = fill_buffer b size (s.msgs m).buffer (s.msgs m).count s.memory;
                  })),
          )
        ]
  ]

  handle_flush-owners : (m x : ℕ) (s : Sys R P W) → Gains m x s (handle_flush spdk m s)
  unfolding handle_flush
  handle_flush-owners m x s = elim (Option-cases (io_device s.devices (s.msgs m).fd)) [
    | inl e ↦ ground (arith, e)
    | inr (h, e) ↦
        let req : Request = record {
          direction = flushing;
          desc = h.desc;
          buffer = 0;
          offset_blocks = 0;
          num_blocks = spdk.bdev_get_num_blocks h.bdev;
        } in
        let s₁ = record s {
          world = (spdk.submit s.world req).1;
          sync_completed = update s.sync_completed m false;
          sync_status = update s.sync_status m success;
          inflight = s.inflight ++ sync_io req m 0 ∷ [];
        } in
        ground (
          arith,
          e,
          wait_sync-owners spdk holds pool m x s₁,
          in_flight-append spdk holds pool s.inflight (sync_io req m 0 ∷ []) x,
        )
  ]

  handle_open-owners : (m x : ℕ) (s : Sys R P W) → Gains m x s (handle_open spdk m s)
  unfolding handle_open open_claimed
  handle_open-owners m x s =
      ground (arith, in_flight-append spdk holds pool s.inflight (opened m ∷ []) x)

  handle_close-owners : (m x : ℕ) (s : Sys R P W) → Gains m x s (handle_close spdk m s)
  unfolding handle_close
  handle_close-owners m x s = ground arith

  handle_list_bdevs-owners : (m x : ℕ) (s : Sys R P W) → Gains m x s (handle_list_bdevs spdk m s)
  unfolding handle_list_bdevs
  handle_list_bdevs-owners m x s = ground arith

  handle_get_info-owners : (m x : ℕ) (s : Sys R P W) → Gains m x s (handle_get_info spdk m s)
  unfolding handle_get_info
  handle_get_info-owners m x s = ground arith

  handle_qos_set_limits-owners :
      (m x : ℕ) (s : Sys R P W) → Gains m x s (handle_qos_set_limits spdk m s)
  unfolding handle_qos_set_limits
  handle_qos_set_limits-owners m x s =
      ground (arith, in_flight-append spdk holds pool s.inflight (qos_set m ∷ []) x)

  handle_qos_get_limits-owners :
      (m x : ℕ) (s : Sys R P W) → Gains m x s (handle_qos_get_limits spdk m s)
  unfolding handle_qos_get_limits
  handle_qos_get_limits-owners m x s = ground arith

  handle_get_perf_stats-owners :
      (m x : ℕ) (s : Sys R P W) → Gains m x s (handle_get_perf_stats spdk m s)
  unfolding handle_get_perf_stats
  handle_get_perf_stats-owners m x s = ground arith

  handle_reset_perf_stats-owners :
      (m x : ℕ) (s : Sys R P W) → Gains m x s (handle_reset_perf_stats spdk m s)
  unfolding handle_reset_perf_stats
  handle_reset_perf_stats-owners m x s = ground arith

  handle_range-owners :
      (operation : W → ℕ → ℕ → ℕ → Bool × W) (m x : ℕ) (s : Sys R P W)
      → Gains m x s (handle_range spdk operation m s)
  unfolding handle_range
  handle_range-owners operation m x s = ground arith

  -- Dispatching a message makes at most that message one owner more.
  pub dispatch-owners : (t : MsgType) (m x : ℕ) (s : Sys R P W) → Gains m x s (dispatch spdk t m s)
  unfolding dispatch handle_trim handle_write_zeros
  dispatch-owners open_msg m x s = handle_open-owners m x s
  dispatch-owners close_msg m x s = handle_close-owners m x s
  dispatch-owners read_msg m x s = handle_read-owners m x (count_io_op s)
  dispatch-owners readv_msg m x s = handle_read-owners m x (count_io_op s)
  dispatch-owners write_msg m x s = handle_write-owners m x (count_io_op s)
  dispatch-owners writev_msg m x s = handle_write-owners m x (count_io_op s)
  dispatch-owners flush_msg m x s = handle_flush-owners m x s
  dispatch-owners list_bdevs_msg m x s = handle_list_bdevs-owners m x s
  dispatch-owners get_info_msg m x s = handle_get_info-owners m x s
  dispatch-owners qos_set_limits_msg m x s = handle_qos_set_limits-owners m x s
  dispatch-owners qos_get_limits_msg m x s = handle_qos_get_limits-owners m x s
  dispatch-owners get_perf_stats_msg m x s = handle_get_perf_stats-owners m x s
  dispatch-owners reset_perf_stats_msg m x s = handle_reset_perf_stats-owners m x s
  dispatch-owners trim_msg m x s = handle_range-owners spdk.bdev_unmap_blocks m x s
  dispatch-owners write_zeros_msg m x s = handle_range-owners spdk.bdev_write_zeroes_blocks m x s
  dispatch-owners shutdown_msg m x s = omega arith
  dispatch-owners batch_submit_msg m x s = omega arith

-- ===== src/Core/Answered/Handlers.antt =====
-- Each handler of the SPDK thread answers its message or leaves work in flight for it.
use libxpdk.Prelude.{
  ℕ, ◌≡◌, inl, inr, Bool, true, false, some, [], ◌∷◌, ◌++◌, arith, Bool-cases, Option-cases,
  get_elem?, update,
}
use libxpdk.State.{
  MsgType, open_msg, close_msg, read_msg, write_msg, readv_msg, writev_msg, batch_submit_msg,
  flush_msg, list_bdevs_msg, get_info_msg, qos_set_limits_msg, qos_get_limits_msg,
  get_perf_stats_msg, reset_perf_stats_msg, trim_msg, write_zeros_msg, shutdown_msg, Sys, sync_io,
  async_io, qos_set, Request, flushing, reading, writing, Device,
}
use libxpdk.Api.{success, is_null}
use libxpdk.Spdk.{here, Spdk}
use libxpdk.Core.Messages.{set_msg}
use libxpdk.Core.Devices.{get_device}
use libxpdk.Core.Devices.Table.{get_device-some}
use libxpdk.Core.Poller.{count_io_op, dispatch}
use libxpdk.Io.{
  Handles, block_request, fill_buffer, handle_flush, handle_read, handle_write, io_device,
  read_finish, read_submit, submit_io, write_submit,
}
use libxpdk.Bdev.{handle_close, handle_get_info, handle_list_bdevs}
use libxpdk.Qos.{handle_qos_get_limits, handle_qos_set_limits}
use libxpdk.Perf.Handlers.{
  handle_get_perf_stats, handle_range, handle_reset_perf_stats, handle_trim, handle_write_zeros,
}
use libxpdk.BlockMath.{buffer_size}
use libxpdk.Core.Answered.{Answered, wait_sync-answers, works-append}

module _ {R P W : Type 0} (spdk : Spdk R P W) where
  read_submit-Answered :
      (m : ℕ) (h : Handles) (b : ℕ) (bounce : Bool) (s : Sys R P W)
      → Answered m (read_submit spdk m h b bounce s)
  unfolding read_submit read_finish submit_io
  read_submit-Answered m h b bounce s =
      let req = block_request spdk reading h b (s.msgs m) in
      let s₁ = (submit_io spdk m req (s.msgs m).count s).1 in
      let one : here m m ≡ 1 = ground arith in
      elim (Bool-cases (spdk.submit s.world req).0) [
        | inl ok ↦ elim (Bool-cases (is_null (s.msgs m).callback)) [
          | inl sync ↦
              let over =
                wait_sync-answers spdk m req (s.msgs m).count s.inflight s₁
                  (ground (arith, ok, sync)) (ground arith) in
              inl (ground (arith, over, ok, sync))
          | inr async ↦
              inr (ground (arith, one, ok, async, works-append m s.inflight (async_io req m ∷ [])))
        ]
        | inr refused ↦ inl (ground (arith, refused))
      ]

  write_submit-Answered :
      (m : ℕ) (h : Handles) (b : ℕ) (s : Sys R P W) → Answered m (write_submit spdk m h b s)
  unfolding write_submit submit_io
  write_submit-Answered m h b s =
      let req = block_request spdk writing h b (s.msgs m) in
      let s₁ = (submit_io spdk m req (s.msgs m).count s).1 in
      let one : here m m ≡ 1 = ground arith in
      elim (Bool-cases (spdk.submit s.world req).0) [
        | inl ok ↦ elim (Bool-cases (is_null (s.msgs m).callback)) [
          | inl sync ↦
              let over =
                wait_sync-answers spdk m req (s.msgs m).count s.inflight s₁
                  (ground (arith, ok, sync)) (ground arith) in
              inl (ground (arith, over, ok, sync))
          | inr async ↦
              inr (ground (arith, one, ok, async, works-append m s.inflight (async_io req m ∷ [])))
        ]
        | inr refused ↦ inl (ground (arith, refused))
      ]

  handle_read-Answered : (m : ℕ) (s : Sys R P W) → Answered m (handle_read spdk m s)
  unfolding handle_read
  handle_read-Answered m s = elim (Option-cases (io_device s.devices (s.msgs m).fd)) [
    | inl e ↦ inl (ground (arith, e))
    | inr (h, e) ↦
        let bs = spdk.bdev_get_block_size h.bdev in
        let (p, w) = spdk.dma_malloc s.world (buffer_size (s.msgs m).count bs) bs in
        let direct = read_submit-Answered m h (s.msgs m).buffer false s in
        elim (Option-cases p) [
          | inl e₁ ↦ ground (arith, e, e₁, direct)
          | inr (b, e₁) ↦ ground (
            arith,
            e,
            e₁,
            direct,
            read_submit-Answered m h b true (
                set_msg m (record (s.msgs m) { ctx = b })
                  (record s { world = w; dma_live = b ∷ s.dma_live })),
          )
        ]
  ]

  handle_write-Answered : (m : ℕ) (s : Sys R P W) → Answered m (handle_write spdk m s)
  unfolding handle_write
  handle_write-Answered m s = elim (Option-cases (io_device s.devices (s.msgs m).fd)) [
    | inl e ↦ inl (ground (arith, e))
    | inr (h, e) ↦
        let bs = spdk.bdev_get_block_size h.bdev in
        let size = buffer_size (s.msgs m).count bs in
        let (p, w) = spdk.dma_malloc s.world size bs in
        elim (Option-cases p) [
          | inl e₁ ↦ inl (ground (arith, e, e₁))
          | inr (b, e₁) ↦ ground (
            arith,
            e,
            e₁,
            write_submit-Answered m h b (
                set_msg m (record (s.msgs m) { ctx = b })
                  (record s {
                    world = w;
                    dma_live = b ∷ s.dma_live;
                    memory = fill_buffer b size (s.msgs m).buffer (s.msgs m).count s.memory;
                  })),
          )
        ]
  ]

  handle_flush-answers : (m : ℕ) (s : Sys R P W) → ((handle_flush spdk m s).msgs m).completed ≡ true
  unfolding handle_flush
  handle_flush-answers m s = elim (Option-cases (io_device s.devices (s.msgs m).fd)) [
    | inl e ↦ ground (arith, e)
    | inr (h, e) ↦
        let req : Request = record {
          direction = flushing;
          desc = h.desc;
          buffer = 0;
          offset_blocks = 0;
          num_blocks = spdk.bdev_get_num_blocks h.bdev;
        } in
        let s₁ = record s {
          world = (spdk.submit s.world req).1;
          sync_completed = update s.sync_completed m false;
          sync_status = update s.sync_status m success;
          inflight = s.inflight ++ sync_io req m 0 ∷ [];
        } in
        ground (arith, e, wait_sync-answers spdk m req 0 s.inflight s₁)
  ]

  -- A slot in use has its device and its descriptor, for the descriptor that a message names.
  abbrev pub Usable : ℕ → Sys R P W → Type 0
  Usable m s =
      (j : ℕ) (d : Device)
      → get_device s.devices (s.msgs m).fd ≡ some j
      → get_elem? s.devices j ≡ some d
      → ((b : ℕ) × (d.bdev ≡ some b)) × (k : ℕ) × (d.desc ≡ some k)

  handle_close-answers : (m : ℕ) (s : Sys R P W) → ((handle_close spdk m s).msgs m).completed ≡ true
  unfolding handle_close
  handle_close-answers m s = elim (Option-cases (get_device s.devices (s.msgs m).fd)) [
    | inl e ↦ ground (arith, e)
    | inr (j, e) ↦
        let (d, _, _, at, _) = get_device-some s.devices (s.msgs m).fd j e in ground (arith, e, at)
  ]

  handle_get_info-answers :
      (m : ℕ) (s : Sys R P W) → ((handle_get_info spdk m s).msgs m).completed ≡ true
  unfolding handle_get_info
  handle_get_info-answers m s = elim (Option-cases (get_device s.devices (s.msgs m).fd)) [
    | inl e ↦ ground (arith, e)
    | inr (j, e) ↦
        let (d, _, _, at, _) = get_device-some s.devices (s.msgs m).fd j e in ground (arith, e, at)
  ]

  handle_get_perf_stats-answers :
      (m : ℕ) (s : Sys R P W) → ((handle_get_perf_stats spdk m s).msgs m).completed ≡ true
  unfolding handle_get_perf_stats
  handle_get_perf_stats-answers m s = elim (Option-cases (get_device s.devices (s.msgs m).fd)) [
    | inl e ↦ ground (arith, e)
    | inr (j, e) ↦
        let (d, _, _, at, _) = get_device-some s.devices (s.msgs m).fd j e in ground (arith, e, at)
  ]

  handle_qos_set_limits-Answered :
      (m : ℕ) (s : Sys R P W) → Usable m s → Answered m (handle_qos_set_limits spdk m s)
  unfolding handle_qos_set_limits
  handle_qos_set_limits-Answered m s usable =
      elim (Option-cases (get_device s.devices (s.msgs m).fd)) [
        | inl e ↦ inl (ground (arith, e))
        | inr (j, e) ↦
            let (d, _, _, at, _) = get_device-some s.devices (s.msgs m).fd j e in
            let ((b, device), _, _) = usable j d e at in
            let one : here m m ≡ 1 = ground arith in
            inr (ground (arith, e, at, device, one, works-append m s.inflight (qos_set m ∷ [])))
      ]

  handle_qos_get_limits-answers :
      (m : ℕ) (s : Sys R P W)
      → Usable m s
      → ((handle_qos_get_limits spdk m s).msgs m).completed ≡ true
  unfolding handle_qos_get_limits
  handle_qos_get_limits-answers m s usable =
      elim (Option-cases (get_device s.devices (s.msgs m).fd)) [
        | inl e ↦ ground (arith, e)
        | inr (j, e) ↦
            let (d, _, _, at, _) = get_device-some s.devices (s.msgs m).fd j e in
            let ((b, device), _, _) = usable j d e at in ground (arith, e, at, device)
      ]

  handle_range-answers :
      (operation : W → ℕ → ℕ → ℕ → Bool × W) (m : ℕ) (s : Sys R P W)
      → Usable m s
      → ((handle_range spdk operation m s).msgs m).completed ≡ true
  unfolding handle_range
  handle_range-answers operation m s usable =
      elim (Option-cases (get_device s.devices (s.msgs m).fd)) [
        | inl e ↦ ground (arith, e)
        | inr (j, e) ↦
            let (d, _, _, at, _) = get_device-some s.devices (s.msgs m).fd j e in
            let ((b, device), k, desc) = usable j d e at in ground (arith, e, at, device, desc)
      ]

  abbrev pub is_open : MsgType → Bool
  is_open open_msg = true
  is_open _ = false

  -- No handler but that of an open loses its message: when the dispatch of a message is over, the
  -- message is complete, or a piece of work is in flight for it, as long as a slot in use has its
  -- device and its descriptor.
  pub dispatch-Answered :
      (t : MsgType) (m : ℕ) (s : Sys R P W)
      → is_open t ≡ false
      → Usable m s
      → Answered m (dispatch spdk t m s)
  unfolding dispatch handle_list_bdevs handle_reset_perf_stats handle_trim handle_write_zeros
  dispatch-Answered open_msg m s other usable = cc
  dispatch-Answered close_msg m s other usable = inl (handle_close-answers m s)
  dispatch-Answered read_msg m s other usable = handle_read-Answered m (count_io_op s)
  dispatch-Answered readv_msg m s other usable = handle_read-Answered m (count_io_op s)
  dispatch-Answered write_msg m s other usable = handle_write-Answered m (count_io_op s)
  dispatch-Answered writev_msg m s other usable = handle_write-Answered m (count_io_op s)
  dispatch-Answered flush_msg m s other usable = inl (handle_flush-answers m s)
  dispatch-Answered list_bdevs_msg m s other usable = inl (ground arith)
  dispatch-Answered get_info_msg m s other usable = inl (handle_get_info-answers m s)
  dispatch-Answered qos_set_limits_msg m s other usable = handle_qos_set_limits-Answered m s usable
  dispatch-Answered qos_get_limits_msg m s other usable =
      inl (handle_qos_get_limits-answers m s usable)
  dispatch-Answered get_perf_stats_msg m s other usable = inl (handle_get_perf_stats-answers m s)
  dispatch-Answered reset_perf_stats_msg m s other usable = inl (ground arith)
  dispatch-Answered trim_msg m s other usable =
      inl (handle_range-answers spdk.bdev_unmap_blocks m s usable)
  dispatch-Answered write_zeros_msg m s other usable =
      inl (handle_range-answers spdk.bdev_write_zeroes_blocks m s usable)
  dispatch-Answered shutdown_msg m s other usable = inl (ground arith)
  dispatch-Answered batch_submit_msg m s other usable = inl (ground arith)

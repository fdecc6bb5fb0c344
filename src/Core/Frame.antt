-- ===== src/Core/Frame.antt =====
-- What the handlers of reads, writes and flushes leave alone.
pub mod Devices
pub mod Thread
use libxpdk.Prelude.{ℕ, inl, inr, Bool, true, false, [], ◌∷◌, ◌++◌, arith, Option-cases, update}
use libxpdk.Spdk.{Spdk}
use libxpdk.Io.{
  fill_buffer, handle_write, handle_flush, io_device, handle_read, block_request, Handles,
  read_finish, submit_io, write_submit, read_submit,
}
use libxpdk.State.{Sys}
use libxpdk.Events.Frame.{Keeps-wait_sync, Keeps}
use libxpdk.State.{reading, writing, flushing, sync_io, Request}
use libxpdk.BlockMath.{buffer_size}
use libxpdk.Core.Messages.{set_msg}
use libxpdk.Api.{success}

module _ {R P W : Type 0} (spdk : Spdk R P W) where
  Keeps-read_submit :
      (m : ℕ) (h : Handles) (b : ℕ) (bounce : Bool) (s : Sys R P W)
      → Keeps s (read_submit spdk m h b bounce s)
  unfolding read_submit submit_io read_finish
  Keeps-read_submit m h b bounce s =
      let req = block_request spdk reading h b (s.msgs m) in
      let s₁ = (submit_io spdk m req (s.msgs m).count s).1 in
      let k = Keeps-wait_sync spdk m s₁ in
      record { same = ground (arith, k.same); table = λ t. ground (arith, k.table t) }

  Keeps-write_submit :
      (m : ℕ) (h : Handles) (b : ℕ) (s : Sys R P W) → Keeps s (write_submit spdk m h b s)
  unfolding write_submit submit_io
  Keeps-write_submit m h b s =
      let req = block_request spdk writing h b (s.msgs m) in
      let s₁ = (submit_io spdk m req (s.msgs m).count s).1 in
      let k = Keeps-wait_sync spdk m s₁ in
      record { same = ground (arith, k.same); table = λ t. ground (arith, k.table t) }

  pub Keeps-handle_read : (m : ℕ) (s : Sys R P W) → Keeps s (handle_read spdk m s)
  unfolding handle_read
  Keeps-handle_read m s = elim (Option-cases (io_device s.devices (s.msgs m).fd)) [
    | inl e ↦ record { same = ground arith; table = λ t. ground arith }
    | inr (h, e) ↦
        let bs = spdk.bdev_get_block_size h.bdev in
        let (p, w) = spdk.dma_malloc s.world (buffer_size (s.msgs m).count bs) bs in
        let k = Keeps-read_submit m h (s.msgs m).buffer false s in
        elim (Option-cases p) [
          | inl e₁ ↦ record {
            same = ground (arith, k.same);
            table = λ t. ground (arith, k.table t);
          }
          | inr (b, e₁) ↦
              let k₁ = Keeps-read_submit m h b true (
                set_msg m (record (s.msgs m) { ctx = b })
                  (record s { world = w; dma_live = b ∷ s.dma_live })) in
              record {
                same = ground (arith, k.same, k₁.same);
                table = λ t. ground (arith, k.table t, k₁.table t);
              }
        ]
  ]

  pub Keeps-handle_write : (m : ℕ) (s : Sys R P W) → Keeps s (handle_write spdk m s)
  unfolding handle_write
  Keeps-handle_write m s = elim (Option-cases (io_device s.devices (s.msgs m).fd)) [
    | inl e ↦ record { same = ground arith; table = λ t. ground arith }
    | inr (h, e) ↦
        let bs = spdk.bdev_get_block_size h.bdev in
        let size = buffer_size (s.msgs m).count bs in
        let (p, w) = spdk.dma_malloc s.world size bs in
        elim (Option-cases p) [
          | inl e₁ ↦ record { same = ground arith; table = λ t. ground arith }
          | inr (b, e₁) ↦
              let k = Keeps-write_submit m h b (
                set_msg m (record (s.msgs m) { ctx = b })
                  (record s {
                    world = w;
                    dma_live = b ∷ s.dma_live;
                    memory = fill_buffer b size (s.msgs m).buffer (s.msgs m).count s.memory;
                  })) in
              record { same = ground (arith, k.same); table = λ t. ground (arith, k.table t) }
        ]
  ]

  pub Keeps-handle_flush : (m : ℕ) (s : Sys R P W) → Keeps s (handle_flush spdk m s)
  unfolding handle_flush
  Keeps-handle_flush m s = elim (Option-cases (io_device s.devices (s.msgs m).fd)) [
    | inl e ↦ record { same = ground arith; table = λ t. ground arith }
    | inr (h, e) ↦
        let req : Request = record {
          direction = flushing;
          desc = h.desc;
          buffer = 0;
          offset_blocks = 0;
          num_blocks = spdk.bdev_get_num_blocks h.bdev;
        } in
        let k = Keeps-wait_sync spdk m (record s {
          world = (spdk.submit s.world req).1;
          sync_completed = update s.sync_completed m false;
          sync_status = update s.sync_status m success;
          inflight = s.inflight ++ sync_io req m 0 ∷ [];
        }) in
        record { same = ground (arith, k.same); table = λ t. ground (arith, k.table t) }
  ]

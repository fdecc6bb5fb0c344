-- ===== src/Batch/Calls.antt =====
-- xpdk_batch.c: submission, alone and in bulk, and the handler of a bulk message.
use libxpdk.Prelude.{
  ℕ, ◌+◌, not, Option, none, some, List, [], ◌∷◌, ◌++◌, if◌then◌else◌, ℤ, pos, eq_ℤ, update,
}
use libxpdk.Api.{
  IoType, io_read, io_write, io_flush, other, BatchIo, BatchCtx, Callback, batch_completion,
  is_null, success, error_invalid, error_nomem, error_busy,
}
use libxpdk.State.{batch_submit_msg, flush_msg, Msg, Sys}
use libxpdk.Spdk.{Spdk}
use libxpdk.Core.Messages.{set_msg, finish, msg_alloc, msg_free, msg_send_async, enqueue}
use libxpdk.Events.{call_user}
use libxpdk.Io.Calls.{read_async, write_async}
use libxpdk.Batch.Queues.{add_pending, drop_pending, process_completions}

module _ {R P W : Type 0} (spdk : Spdk R P W) where
  abbrev pub set_batch : ℕ → BatchCtx → Sys R P W → Sys R P W
  set_batch c v s = record s { batches = update s.batches c v }

  -- The `switch` of `xpdk_batch_submit_one`, for the context at address `c`
  unfoldable pub submit_by_type : IoType → ℕ → BatchIo → Sys R P W → ℤ × Sys R P W
  submit_by_type io_read c io s =
      read_async spdk io.fd io.buffer io.count io.offset batch_completion c s
  submit_by_type io_write c io s =
      write_async spdk io.fd io.buffer io.count io.offset batch_completion c s
  submit_by_type io_flush c io s = (error_invalid, s)
  submit_by_type other c io s = (error_invalid, s)

  -- `xpdk_batch_submit_one`, at pointers that are not NULL
  unfoldable pub batch_submit_one : ℕ → BatchIo → Sys R P W → ℤ × Sys R P W
  unfolding submit_by_type
  batch_submit_one c io s = elim (add_pending io (s.batches c)) [
    | none ↦ (error_busy, s)
    | some added ↦
        let (rc, s₁) = submit_by_type io.type c io (set_batch c added s) in
        if eq_ℤ rc success then (rc, s₁) else (rc, set_batch c (drop_pending (s₁.batches c)) s₁)
  ]

  -- `xpdk_batch_process_completions` on the context at address `c`: the callbacks are called in turn.
  unfoldable pub batch_process_completions : ℕ → ℤ → Sys R P W → ℕ × Sys R P W
  batch_process_completions c limit s =
      let (done, c', calls) = process_completions (s.batches c) limit in
      (done, record (set_batch c c' s) { calls = s.calls ++ calls })

  -- `xpdk_batch_submit`; an empty array stands for NULL and for a count that is not positive.
  unfoldable pub batch_submit : List BatchIo → Callback → Sys R P W → ℤ × Sys R P W
  batch_submit [] callback s = (error_invalid, s)
  batch_submit (io ∷ ios) callback s = elim (msg_alloc spdk batch_submit_msg s) [
    | none ↦ (error_nomem, s)
    | some (m, s₁) ↦
        let msg : Msg = record (s₁.msgs m) { ios = io ∷ ios; callback = callback } in
        let (rc, s₂) = msg_send_async spdk m (set_msg m msg s₁) in
        if eq_ℤ rc success then (rc, s₂) else (rc, msg_free spdk m s₂)
  ]

  -- `xpdk_flush` as the SPDK thread calls it: `none` once it waits for a message that only the
  -- caller could take from the ring.
  unfoldable pub flush_on_thread : ℤ → Sys R P W → Option ℤ × Sys R P W
  flush_on_thread fd s =
      if not s.initialized then (some error_invalid, s) else elim (msg_alloc spdk flush_msg s) [
        | none ↦ (some error_nomem, s)
        | some (m, s₁) ↦
            let s₂ = set_msg m (record (s₁.msgs m) { fd = fd }) s₁ in
            elim (enqueue spdk m s₂) [
              | none ↦ (some error_busy, msg_free spdk m s₂)
              | some s₃ ↦ (none, s₃)
            ]
      ]

  -- `if (callback) callback(io->user_ctx, rc)`
  abbrev pub notify : Callback → ℕ → Option ℤ → Sys R P W → Sys R P W
  notify callback ctx none s = s
  notify callback ctx (some rc) s = if is_null callback then s else call_user callback ctx rc s

  -- One round of the loop of `xpdk_spdk_handle_batch_submit`; `none` is a flush that never returns.
  unfoldable pub submit_entry : IoType → Callback → BatchIo → Sys R P W → Option ℤ × Sys R P W
  unfolding flush_on_thread
  submit_entry io_read callback io s =
      let (rc, s') = read_async spdk io.fd io.buffer io.count io.offset callback io.user_ctx s in
      (some rc, s')
  submit_entry io_write callback io s =
      let (rc, s') = write_async spdk io.fd io.buffer io.count io.offset callback io.user_ctx s in
      (some rc, s')
  submit_entry io_flush callback io s =
      let (rc, s') = flush_on_thread io.fd s in (rc, notify callback io.user_ctx rc s')
  submit_entry other callback io s =
      (some error_invalid, notify callback io.user_ctx (some error_invalid) s)

  -- The loop: how many submissions succeeded, and the entries with their status
  unfoldable pub submit_entries :
      Callback → List BatchIo → Sys R P W → Option (ℕ × List BatchIo) × Sys R P W
  unfolding submit_entry
  submit_entries callback [] s = (some (0, []), s)
  submit_entries callback (io ∷ ios) s =
      let (rc, s₁) = submit_entry io.type callback io s in
      let (rest, s₂) = submit_entries callback ios s₁ in
      elim rc [
        | none ↦ (none, s₁)
        | some r ↦ elim rest [
          | none ↦ (none, s₂)
          | some (n, done) ↦
              (some (if eq_ℤ r success then n + 1 else n, record io { status = r } ∷ done), s₂)
        ]
      ]

  -- `xpdk_spdk_handle_batch_submit`, which no message reaches: `none` is a handler that never ends.
  unfoldable pub handle_batch_submit : ℕ → Sys R P W → Option (Sys R P W)
  unfolding submit_entries
  handle_batch_submit m s =
      let (outcome, s') = submit_entries (s.msgs m).callback (s.msgs m).ios s in
      elim outcome [
        | none ↦ none
        | some (n, done) ↦
            some (finish m (pos n) (set_msg m (record (s'.msgs m) { ios = done }) s'))
      ]

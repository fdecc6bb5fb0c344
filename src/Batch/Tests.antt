-- ===== src/Batch/Tests.antt =====
-- A batch context of two requests.
use libxpdk.Batch.Whole.{batch_read_reports, CanReadAsync-set_batch, IsEmpty}
use libxpdk.Io.Async.Read.{CanReadAsync}
use libxpdk.BlockMath.{block_offset, block_count}
use libxpdk.Batch.Refine.{Op, withdraw, submit, complete, process}
use libxpdk.Prelude.{suc, ℤ, negsuc, List, ℕ, ◌+◌, ◌≡◌, refl, some, [], ◌∷◌, arith, pos}
use libxpdk.Rig.Ready.{ready-Ready, ready_device, rig_handles}
use libxpdk.Rig.{World, rig, ready, rig-IsFifo, rig-IsDisk, rig_disk}
use libxpdk.Batch.Wait.{batch_wait, Timespec}
use libxpdk.Batch.Cleanup.{batch_cleanup_ends}
use libxpdk.Batch.Lost.{batch_submit_lost}
use libxpdk.Batch.Calls.{batch_submit, batch_submit_one, set_batch}
use libxpdk.Api.{success, BatchIo, BatchCtx, user, io_read}
use libxpdk.Batch.Queues.{batch_cleanup}
use libxpdk.Batch.View.{completed_view, pending_view, IsValid}
use libxpdk.Batch.Process.{rounds_overrun, rounds}
use libxpdk.Batch.Waiting.Library.{batch_wait_idle, library_wait}
use libxpdk.Batch.Waiting.{batch_wait_times_out}

abbrev entry : ℕ → BatchIo
entry ctx = record {
  type = io_read;
  fd = pos 0;
  buffer = 100;
  count = 8;
  offset = 0;
  user_ctx = ctx;
  status = pos 0;
  bytes_transferred = 0;
}

-- One pending and one completed entry
abbrev some_ctx : BatchCtx
some_ctx = record {
  max_ios = 2;
  pending_ios = 1;
  completed_ios = 1;
  pending_queue = entry 1 ∷ entry 2 ∷ [];
  completed_queue = entry 3 ∷ entry 4 ∷ [];
  global_callback = user 9;
}

some_ctx-IsValid : IsValid some_ctx
some_ctx-IsValid = record {
  pending_size = refl;
  completed_size = refl;
  pending_fits = omega arith;
  completed_fits = omega arith;
}

abbrev no_pending : BatchCtx
no_pending = record some_ctx { pending_ios = 0 }

rounds_overrun_example : (rounds 4 (entry 6) (pos 0) no_pending).completed_ios ≡ 5
rounds_overrun_example = rounds_overrun 4 (entry 6) (pos 0) no_pending (omega arith) refl refl

batch_submit_lost_example : (batch_submit rig (entry 1 ∷ entry 2 ∷ []) (user 9) ready).0 ≡ success
batch_submit_lost_example =
    (batch_submit_lost rig (λ r. r) (entry 1) (entry 2 ∷ []) (user 9) ready 1 _ _ [] (1 ∷ []) []
      rig-IsFifo ready-Ready refl).0

batch_cleanup_ends_example :
    (c' : BatchCtx) × (batch_cleanup (negsuc 2 ∷ []) some_ctx ≡ some c')
    × (pending_view c' ≡ [])
    × (completed_view c' ≡ entry 3 ∷ record (entry 1) { status = negsuc 2 } ∷ [])
    × IsValid c'
batch_cleanup_ends_example =
    batch_cleanup_ends (negsuc 2 ∷ []) some_ctx some_ctx-IsValid (omega arith) (omega arith)

abbrev history : List Op
history = submit (entry 6) ∷ withdraw ∷ process (pos 1) ∷ complete (negsuc 2) ∷ process (pos 5) ∷ []

-- A clock that counts seconds, a poll and a sleep that each take one, and polls that find nothing, or
-- one completion each time
abbrev seconds : ℕ → Timespec
seconds t = record { tv_sec = t; tv_nsec = 0 }

abbrev poll_nothing : ℤ → ℕ → ℤ × ℕ
poll_nothing n t = (pos 0, t + 1)

batch_wait_times_out_example :
    (batch_wait poll_nothing seconds suc 2 (pos 3) (pos 1500) 0).0 ≡ some (pos 0)
batch_wait_times_out_example =
    batch_wait_times_out poll_nothing seconds suc 1 0 3 1500 0 (omega arith) (omega arith)
      (λ t. refl) (omega arith) (omega arith) (omega arith)

-- A read of two whole blocks, and an empty context for it
abbrev block_read : BatchIo
block_read = record (entry 33) { buffer = 104; count = 16; offset = 11 }

abbrev fresh_ctx : BatchCtx
fresh_ctx = record some_ctx { pending_ios = 0; completed_ios = 0 }

fresh_ctx-IsEmpty : IsEmpty rig (λ r. r) fresh_ctx 9
fresh_ctx-IsEmpty = record {
  valid = record {
    pending_size = refl;
    completed_size = refl;
    pending_fits = omega arith;
    completed_fits = omega arith;
  };
  pending = refl;
  completed = refl;
  room = omega arith;
  callback = refl;
}

can_read_blocks :
    CanReadAsync rig
      (λ r. r)
      (pos 0)
      104
      16
      (set_batch rig 7 fresh_ctx ready)
      1
      (1 ∷ 2 ∷ 3 ∷ [])
      (2 ∷ 3 ∷ [])
      []
      (1 ∷ [])
      []
      rig_handles
can_read_blocks =
    CanReadAsync-set_batch rig (λ r. r) 7 fresh_ctx (pos 0) 104 16 ready 1 _ _ [] (1 ∷ []) []
      rig_handles
      (record {
        sends = record {
          initialized = refl;
          ready = ready-Ready;
          some_buffer = refl;
          some_count = refl;
        };
        empty = refl;
        device = ready_device;
        readable = refl;
        fits = record { blocks = omega arith; bytes = omega arith };
      })

batch_read_reports_example :
    (batch_submit_one rig 7 block_read (set_batch rig 7 fresh_ctx ready)).0 ≡ success
unfolding block_offset block_count
batch_read_reports_example =
    (batch_read_reports rig (λ r. r) rig_disk 7 9 block_read (set_batch rig 7 fresh_ctx ready) 1 _ _
      [] (1 ∷ []) [] rig_handles _ _ _ rig-IsFifo rig-IsDisk fresh_ctx-IsEmpty refl can_read_blocks
      refl refl refl).0

-- A clock of the rig that counts seconds, and a sleep of one
abbrev rig_now : World → Timespec
rig_now w = record { tv_sec = w.clock; tv_nsec = 0 }

abbrev one_second : World → World
one_second w = record w { clock = w.clock + 1 }

batch_wait_idle_example :
    (library_wait rig (λ r. r) rig_now one_second 3 (pos 4) (pos 1500) ready).0 ≡ some (pos 0)
batch_wait_idle_example =
    batch_wait_idle rig (λ r. r) rig_now one_second 2 0 4 1500 [] ready rig-IsFifo
      (record { initialized = refl; ring = refl; empty = refl; quiet = refl }) (omega arith)
      (omega arith) (omega arith) (omega arith) (omega arith)

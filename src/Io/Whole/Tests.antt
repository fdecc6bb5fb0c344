-- ===== src/Io/Whole/Tests.antt =====
-- The theorems on whole calls, at concrete requests.
use libxpdk.Prelude.{ℕ, List, read_bytes, ◌≡◌, refl, inr, some, [], ◌∷◌, arith, pos}
use libxpdk.Rig.Ready.{rig_handles, ready-Ready, ready_device}
use libxpdk.Rig.{World, rig, ready, rig_disk, rig-IsDisk, rig-IsFifo}
use libxpdk.BlockMath.{block_offset, block_count, buffer_size}
use libxpdk.Core.Devices.{get_device, init_devices}
use libxpdk.Io.Calls.{read, write}
use libxpdk.Io.Whole.{write_stores}
use libxpdk.Io.Whole.Read.{direct, read_returns, CanRead}
use libxpdk.State.{Sys}
use libxpdk.Io.{submit_io, write_submit, handle_write, io_device}
use libxpdk.Io.Whole.RoundTrip.{write-read}
use libxpdk.Core.Sync.{sync_call}
use libxpdk.Core.Messages.{msg_free, enqueue, msg_alloc}
use libxpdk.Core.Poller.{dispatch, deliver_next, thread_poll, msg_send_sync}
use libxpdk.Core.Options.{max_batch}
use libxpdk.Events.{sync_io_completion_cb, deliver, wait_events, wait_sync}

write_stores_example : (write rig 1 (pos 0) 100 5 11 ready).0 ≡ some (pos 5)
unfolding buffer_size block_count block_offset init_devices
write_stores_example =
    (write_stores rig (λ r. r) rig_disk 0 (pos 0) 100 5 11 ready 1 _ _ [] (1 ∷ []) [] rig_handles
      4096 _ _ _ _ rig-IsFifo rig-IsDisk refl ready-Ready refl refl ready_device
      (record { blocks = omega arith; bytes = omega arith }) refl (inr (omega arith)) refl refl).0

-- The same library after `xpdk_write` of 16 bytes
abbrev written : Sys (List ℕ) (List ℕ) World
written = (write rig 1 (pos 0) 100 16 11 ready).1

CanRead-back :
    CanRead rig
      (λ r. r)
      (pos 0)
      208
      16
      written
      1
      (1 ∷ 2 ∷ 3 ∷ [])
      (2 ∷ 3 ∷ [])
      []
      (1 ∷ [])
      []
      rig_handles
unfolding init_devices write io_device get_device sync_call msg_alloc msg_send_sync enqueue
    thread_poll max_batch deliver_next dispatch handle_write write_submit submit_io wait_sync
    wait_events deliver sync_io_completion_cb msg_free
CanRead-back = record {
  initialized = refl;
  ready = record {
    pool = refl;
    message = refl;
    idle = record { ring = refl; empty = refl; room = refl; running = refl; quiet = refl };
    out = refl;
  };
  some_buffer = refl;
  some_count = refl;
  device = refl;
  readable = refl;
  fits = record { blocks = omega arith; bytes = omega arith };
}

write-read_example :
    read_bytes (read rig 1 (pos 0) 208 16 11 written).1.memory 208 16
    ≡ read_bytes ready.memory 100 16
unfolding buffer_size block_count block_offset init_devices write sync_call msg_alloc msg_send_sync
    enqueue thread_poll max_batch deliver_next dispatch handle_write write_submit submit_io
    wait_sync wait_events deliver sync_io_completion_cb msg_free io_device get_device
write-read_example =
    (write-read rig (λ r. r) rig_disk 0 (pos 0) 100 208 16 11 ready 1 1 _ _ _ _ [] (1 ∷ []) [] []
      (1 ∷ []) [] rig_handles 4096 _ _ _ _ rig-IsFifo rig-IsDisk refl ready-Ready refl ready_device
      (inr (omega arith)) (record { given = refl; accepted = refl; done = refl })
      (CanRead-back, direct _ _ _ refl refl refl)).2

CanRead-blocks :
    CanRead rig
      (λ r. r)
      (pos 0)
      104
      16
      ready
      1
      (1 ∷ 2 ∷ 3 ∷ [])
      (2 ∷ 3 ∷ [])
      []
      (1 ∷ [])
      []
      rig_handles
CanRead-blocks = record {
  initialized = refl;
  ready = ready-Ready;
  some_buffer = refl;
  some_count = refl;
  device = ready_device;
  readable = refl;
  fits = record { blocks = omega arith; bytes = omega arith };
}

read_returns_example : (read rig 1 (pos 0) 104 16 11 ready).0 ≡ some (pos 16)
unfolding block_offset block_count
read_returns_example =
    (read_returns rig (λ r. r) rig_disk 0 (pos 0) 104 16 11 ready 1 _ _ [] (1 ∷ []) [] rig_handles
      rig-IsFifo rig-IsDisk CanRead-blocks (direct _ _ _ refl refl refl)).0

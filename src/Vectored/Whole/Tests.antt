-- ===== src/Vectored/Whole/Tests.antt =====
-- The theorems on whole vectored calls, at concrete requests.
use libxpdk.Prelude.{ℕ, ◌≡◌, refl, inl, inr, some, List, [], ◌∷◌, arith, pos}
use libxpdk.State.{Sys}
use libxpdk.Api.{Iovec}
use libxpdk.Vectored.Whole.{writev_stores, Sized, HasTemp}
use libxpdk.Io.Whole.Read.{direct, CanRead}
use libxpdk.Core.Devices.{get_device, init_devices}
use libxpdk.Rig.{rig-IsDisk, rig-IsFifo, rig_disk, ready, calm, rig, World}
use libxpdk.BlockMath.{block_offset, block_count, buffer_size}
use libxpdk.Io.Calls.{write}
use libxpdk.Vectored.Calls.{readv, writev}
use libxpdk.Io.{submit_io, write_submit, handle_write, io_device}
use libxpdk.Rig.Ready.{ready_device, ready-Ready, rig_handles}
use libxpdk.Vectored.Whole.Read.{readv_loads}
use libxpdk.Core.Sync.{sync_call}
use libxpdk.Core.Messages.{msg_free, enqueue, msg_alloc}
use libxpdk.Core.Poller.{dispatch, deliver_next, thread_poll, msg_send_sync}
use libxpdk.Core.Options.{max_batch}
use libxpdk.Events.{sync_io_completion_cb, deliver, wait_events, wait_sync}
use libxpdk.Vectored.Copy.{calculate_iovec_size, iovec_to_buffer}
use libxpdk.Dma.{free_buffer, alloc_buffer}
use libxpdk.Vectored.Gather.{gather}
use libxpdk.Vectored.Whole.RoundTrip.{writev-readv}

-- Two parts of 6 and 10 bytes, and one of 16
abbrev parts : List Iovec
parts = record { iov_base = 100; iov_len = 6 } ∷ record { iov_base = 110; iov_len = 10 } ∷ []

abbrev whole : List Iovec
whole = record { iov_base = 200; iov_len = 16 } ∷ []

parts-Sized : Sized rig (λ r. r) parts
parts-Sized = record { parts = refl; bytes = refl; total = omega arith }

whole-Sized : Sized rig (λ r. r) whole
whole-Sized = record { parts = refl; bytes = refl; total = omega arith }

parts_temp : HasTemp rig (λ r. r) parts 4096 calm (record calm { next = 4112 })
parts_temp = record {
  given = refl;
  some_buffer = refl;
  apart = (inr (omega arith), (inr (omega arith), tt));
}

writev_stores_example : (writev rig 1 (pos 0) parts 11 ready).0 ≡ some (pos 16)
unfolding buffer_size block_count block_offset
writev_stores_example =
    (writev_stores rig (λ r. r) rig_disk 0 (pos 0) parts 11 ready 1 _ _ [] (1 ∷ []) [] rig_handles
      4096 4112 _ _ _ _ _ rig-IsFifo rig-IsDisk refl ready-Ready parts-Sized ready_device
      (record { blocks = omega arith; bytes = omega arith }) parts_temp (inr (omega arith))
      (record { given = refl; accepted = refl; done = refl })).0

can_readv :
    CanRead rig
      (λ r. r)
      (pos 0)
      4096
      16
      ready
      1
      (1 ∷ 2 ∷ 3 ∷ [])
      (2 ∷ 3 ∷ [])
      []
      (1 ∷ [])
      []
      rig_handles
can_readv = record {
  initialized = refl;
  ready = ready-Ready;
  some_buffer = refl;
  some_count = refl;
  device = ready_device;
  readable = refl;
  fits = record { blocks = omega arith; bytes = omega arith };
}

readv_loads_example : (readv rig 1 (pos 0) parts 11 ready).0 ≡ some (pos 16)
unfolding buffer_size block_count block_offset
readv_loads_example =
    (readv_loads rig (λ r. r) rig_disk 0 (pos 0) parts 11 ready 1 _ _ [] (1 ∷ []) [] rig_handles
      4096 _ rig-IsFifo rig-IsDisk can_readv parts-Sized ((inl (omega arith), tt), (tt, tt))
      parts_temp (direct _ _ _ refl refl refl)).0

-- The library after `xpdk_writev` of the two parts
abbrev written : Sys (List ℕ) (List ℕ) World
written = (writev rig 1 (pos 0) parts 11 ready).1

can_readv_back :
    CanRead rig
      (λ r. r)
      (pos 0)
      4128
      16
      written
      1
      (1 ∷ 2 ∷ 3 ∷ [])
      (2 ∷ 3 ∷ [])
      []
      (1 ∷ [])
      []
      rig_handles
unfolding init_devices write io_device get_device sync_call msg_alloc msg_send_sync enqueue
    thread_poll max_batch deliver_next dispatch handle_write write_submit submit_io wait_sync
    wait_events deliver sync_io_completion_cb msg_free writev iovec_to_buffer calculate_iovec_size
    alloc_buffer free_buffer
can_readv_back = record {
  initialized = refl;
  ready = record {
    pool = refl;
    message = refl;
    idle = record { ring = refl; empty = refl; room = refl; running = refl; quiet = refl };
    out = refl;
  };
  some_buffer = refl;
  some_count = refl;
  device = refl;
  readable = refl;
  fits = record { blocks = omega arith; bytes = omega arith };
}

writev-readv_example :
    gather whole (readv rig 1 (pos 0) whole 11 written).1.memory ≡ gather parts ready.memory
unfolding init_devices write io_device get_device sync_call msg_alloc msg_send_sync enqueue
    thread_poll max_batch deliver_next dispatch handle_write write_submit submit_io wait_sync
    wait_events deliver sync_io_completion_cb msg_free writev iovec_to_buffer calculate_iovec_size
    alloc_buffer free_buffer buffer_size block_count block_offset
writev-readv_example =
    (writev-readv rig (λ r. r) rig_disk 0 (pos 0) parts whole 11 ready 1 1 _ _ _ _ [] (1 ∷ []) [] []
      (1 ∷ []) [] rig_handles 4096 4128 4112 _ _ _ _ _ _ rig-IsFifo rig-IsDisk refl ready-Ready
      parts-Sized ready_device (record { blocks = omega arith; bytes = omega arith }) parts_temp
      (inr (omega arith)) (record { given = refl; accepted = refl; done = refl }) refl whole-Sized
      (tt, tt)
      (
        can_readv_back,
        record { given = refl; some_buffer = refl; apart = (inr (omega arith), tt) },
        direct _ _ _ refl refl refl,
      )).2

-- ===== src/Io/Async/Tests.antt =====
-- Asynchronous calls on the rig.
use libxpdk.Prelude.{◌≡◌, refl, inr, none, [], ◌∷◌, arith, pos}
use libxpdk.Rig.Ready.{rig_handles, ready-Ready, ready_device}
use libxpdk.Rig.{rig, ready, rig_disk, rig-IsDisk, rig-IsFifo}
use libxpdk.Io.Async.{read_async_lost, CanSend}
use libxpdk.Api.{success, user}
use libxpdk.Io.{io_device}
use libxpdk.Io.Calls.{write_async, read_async}
use libxpdk.BlockMath.{block_offset, block_count, buffer_size}
use libxpdk.Core.Devices.{init_devices, get_device}
use libxpdk.Io.Async.Write.{write_async_stores}
use libxpdk.Io.Async.Read.{read_async_loads, CanReadAsync}
use libxpdk.Io.Async.Bounce.{read_async_bounced}

can_send : CanSend rig (λ r. r) 100 5 ready 1 (1 ∷ 2 ∷ 3 ∷ []) (2 ∷ 3 ∷ []) [] (1 ∷ []) []
can_send = record { initialized = refl; ready = ready-Ready; some_buffer = refl; some_count = refl }

shut_slot_3 : io_device ready.devices (pos 3) ≡ none
unfolding io_device get_device init_devices
shut_slot_3 = refl

write_async_stores_example : (write_async rig (pos 0) 100 5 11 (user 9) 33 ready).0 ≡ success
unfolding buffer_size block_count block_offset init_devices
write_async_stores_example =
    (write_async_stores rig (λ r. r) rig_disk (pos 0) 100 5 11 9 33 ready 1 _ _ [] (1 ∷ []) []
      rig_handles 4096 _ _ _ _ rig-IsFifo rig-IsDisk can_send refl ready_device
      (record { blocks = omega arith; bytes = omega arith }) refl refl (inr (omega arith)) refl
      refl).0

read_async_lost_example : (read_async rig (pos 3) 100 5 0 (user 9) 33 ready).0 ≡ success
read_async_lost_example =
    (read_async_lost rig (λ r. r) (pos 3) 100 5 0 9 33 ready 1 _ _ [] (1 ∷ []) [] rig-IsFifo
      can_send refl shut_slot_3).0

can_read_blocks :
    CanReadAsync rig
      (λ r. r)
      (pos 0)
      104
      16
      ready
      1
      (1 ∷ 2 ∷ 3 ∷ [])
      (2 ∷ 3 ∷ [])
      []
      (1 ∷ [])
      []
      rig_handles
can_read_blocks = record {
  sends = record { initialized = refl; ready = ready-Ready; some_buffer = refl; some_count = refl };
  empty = refl;
  device = ready_device;
  readable = refl;
  fits = record { blocks = omega arith; bytes = omega arith };
}

read_async_loads_example : (read_async rig (pos 0) 104 16 11 (user 9) 33 ready).0 ≡ success
unfolding block_offset block_count
read_async_loads_example =
    (read_async_loads rig (λ r. r) rig_disk (pos 0) 104 16 11 9 33 ready 1 _ _ [] (1 ∷ []) []
      rig_handles _ _ _ rig-IsFifo rig-IsDisk can_read_blocks refl refl refl).0

can_read_bytes :
    CanReadAsync rig
      (λ r. r)
      (pos 0)
      100
      5
      ready
      1
      (1 ∷ 2 ∷ 3 ∷ [])
      (2 ∷ 3 ∷ [])
      []
      (1 ∷ [])
      []
      rig_handles
can_read_bytes = record {
  sends = can_send;
  empty = refl;
  device = ready_device;
  readable = refl;
  fits = record { blocks = omega arith; bytes = omega arith };
}

read_async_bounced_example : (read_async rig (pos 0) 100 5 11 (user 9) 33 ready).0 ≡ success
unfolding buffer_size block_count block_offset
read_async_bounced_example =
    (read_async_bounced rig (λ r. r) rig_disk (pos 0) 100 5 11 9 33 ready 1 _ _ [] (1 ∷ []) []
      rig_handles 4096 _ _ _ _ rig-IsFifo rig-IsDisk can_read_bytes refl
      (record { given = refl; accepted = refl; done = refl }) refl (inr (omega arith))).0

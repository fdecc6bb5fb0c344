-- ===== src/Io/Tests.antt =====
-- Runs of the handlers on the rig, and the theorems at concrete requests.
use libxpdk.Prelude.{read_bytes, inr, ℕ, ◌≡◌, refl, true, false, List, [], ◌∷◌, arith}
use libxpdk.State.{Sys, Request, flushing, qos_set, async_io, sync_io}
use libxpdk.Rig.Ready.{rig_handles}
use libxpdk.Io.Early.{read_visible_early}
use libxpdk.Io.Read.{bounced}
use libxpdk.Rig.{rig_disk, rig-IsDisk, World, rig, ready, request, calm}
use libxpdk.Core.Messages.{set_msg}
use libxpdk.Core.Devices.{get_device, init_devices}
use libxpdk.BlockMath.{block_count, buffer_size, block_offset}
use libxpdk.Io.{read_wait, handle_read, io_device}
use libxpdk.Io.Requests.{Servable}
use libxpdk.Events.{wait_sync}
use libxpdk.Io.Bounce.{handle_read_leak}
use libxpdk.Io.Wait.{wait_sync-completed}

-- Five bytes at offset 11, from or to address 100
abbrev unaligned : Sys (List ℕ) (List ℕ) World
unaligned = set_msg 1 (request 5 11) ready

-- The same on a disk whose requests fail
abbrev unlucky : Sys (List ℕ) (List ℕ) World
unlucky = record unaligned { world = record calm { succeeds = false } }

unlucky-Servable : Servable rig 1 rig_handles unlucky
unfolding io_device get_device init_devices
unlucky-Servable = record {
  device = refl;
  sync = refl;
  quiet = refl;
  fits = record { blocks = omega arith; bytes = omega arith };
}

handle_read_leak_example : (handle_read rig 1 unlucky).dma_live ≡ 4096 ∷ []
unfolding buffer_size block_count block_offset init_devices
handle_read_leak_example =
    (handle_read_leak rig 1 rig_handles 4096 unlucky _ _ _ _ unlucky-Servable refl refl refl
      (refl, refl)).2

abbrev flush_request : Request
flush_request = record {
  direction = flushing;
  desc = 1;
  buffer = 0;
  offset_blocks = 0;
  num_blocks = 16;
}

-- A request behind two others
abbrev queueing : Sys (List ℕ) (List ℕ) World
queueing = record ready {
  inflight = qos_set 3 ∷ async_io flush_request 2 ∷ sync_io flush_request 1 0 ∷ [];
}

wait_sync-completed_example : (wait_sync rig 1 queueing).sync_completed 1 ≡ true
wait_sync-completed_example =
    wait_sync-completed rig 1 flush_request 0 (qos_set 3 ∷ async_io flush_request 2 ∷ []) queueing
      refl

unaligned-Servable : Servable rig 1 rig_handles unaligned
unfolding io_device get_device init_devices
unaligned-Servable = record {
  device = refl;
  sync = refl;
  quiet = refl;
  fits = record { blocks = omega arith; bytes = omega arith };
}

read_visible_early_example :
    let seen =
      read_wait rig 1 rig_handles 4096
        (bounced rig 1 4096 (record calm { next = 4104 }) unaligned) in
    read_bytes seen.memory 100 5 ≡ read_bytes unaligned.memory 100 5
unfolding buffer_size block_count block_offset init_devices
read_visible_early_example =
    (read_visible_early rig rig_disk 1 rig_handles 4096 unaligned _ _ _ _ rig-IsDisk
      unaligned-Servable refl refl refl (refl, refl) (inr (omega arith))).3

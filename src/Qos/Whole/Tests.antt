-- ===== src/Qos/Whole/Tests.antt =====
-- The theorems on rate limits, at concrete calls.
use libxpdk.Prelude.{◌≡◌, refl, [], ◌∷◌, pos}
use libxpdk.Qos.Calls.{get_rate_limits, enable_simple}
use libxpdk.Spdk.{IsLimiter}
use libxpdk.Core.Devices.{get_device}
use libxpdk.Rig.{rig-IsFifo, open_device, ready, rig}
use libxpdk.Qos.Whole.{enable_simple_get, OpenOn}
use libxpdk.Core.Sync.{sync_call}
use libxpdk.Core.Messages.{msg_free, enqueue, msg_alloc}
use libxpdk.Core.Poller.{dispatch, deliver_next, thread_poll, msg_send_sync}
use libxpdk.Rig.Ready.{ready-Ready}
use libxpdk.Core.Options.{max_batch}
use libxpdk.Qos.{handle_qos_set_limits}
use libxpdk.Events.{qos_set_limits_complete, deliver}
use libxpdk.Core.Call.{Ready}

rig-IsLimiter : IsLimiter rig (λ old new. new)
rig-IsLimiter = record { in_force = λ w b limits. refl }

open_on : OpenOn rig (λ r. r) ready.devices (pos 0) 5
unfolding get_device
open_on = record { index = 0; slot = open_device; found = refl; elem = refl; bdev = refl }

after_enable :
    Ready rig
      (λ r. r)
      (enable_simple rig 2 900 (pos 0) 1000 64 ready).1
      1
      (1 ∷ 2 ∷ 3 ∷ [])
      (2 ∷ 3 ∷ [])
      []
      (1 ∷ [])
      []
unfolding enable_simple sync_call msg_alloc msg_send_sync enqueue thread_poll max_batch deliver_next
    dispatch handle_qos_set_limits get_device deliver qos_set_limits_complete msg_free
after_enable = record {
  pool = refl;
  message = refl;
  idle = record { ring = refl; empty = refl; room = refl; running = refl; quiet = refl };
  out = refl;
}

enable_simple_get_example :
    (get_rate_limits rig 1
        (pos 0)
        800
        (enable_simple rig 2 900 (pos 0) 1000 64 ready).1).1.limits_out
      800
    ≡ 1000 ∷ 64 ∷ 0 ∷ 0 ∷ []
enable_simple_get_example =
    (enable_simple_get rig (λ r. r) (λ old new. new) 0 900 (pos 0) 5 1000 64 800 ready 1 1 _ _ _ _
      [] (1 ∷ []) [] [] (1 ∷ []) [] rig-IsFifo rig-IsLimiter ready-Ready open_on refl refl refl
      after_enable).2

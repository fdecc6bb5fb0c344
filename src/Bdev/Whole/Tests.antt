-- ===== src/Bdev/Whole/Tests.antt =====
-- The theorems on opening and closing, at concrete calls.
use libxpdk.Prelude.{◌≡◌, refl, true, some, List, [], ◌∷◌, pos}
use libxpdk.State.{Device}
use libxpdk.Api.{success}
use libxpdk.Core.Devices.{fresh_device, init_devices, get_device}
use libxpdk.Bdev.Whole.{close-Closes}
use libxpdk.Rig.{rig-IsFifo, ready, rig, open_device}
use libxpdk.Bdev.Calls.{close}
use libxpdk.Rig.Ready.{ready-IsTable, ready-Ready}

-- The table of the rig with its lowest free slot claimed
abbrev grown : List Device
grown = open_device ∷ record (fresh_device 1) { in_use = true } ∷ init_devices 2 254

close-Closes_example : (close rig 1 (pos 0) ready).0 ≡ some success
unfolding get_device
close-Closes_example =
    (close-Closes rig (λ r. r) 0 (pos 0) 0 open_device ready 1 _ _ [] (1 ∷ []) [] rig-IsFifo refl
      ready-Ready ready-IsTable refl refl).0

-- ===== src/Rig/Ready.antt =====
-- What the ready state of the rig offers: an open disk, a well-formed table and an idle library.
use libxpdk.Prelude.{◌≡◌, refl, some, [], ◌∷◌, pos}
use libxpdk.Core.Devices.Table.{IsTable-set, init_devices-IsTable}
use libxpdk.Rig.{rig, ready, open_device}
use libxpdk.Core.Call.{Ready}
use libxpdk.Core.Devices.{fresh_device, IsTable, get_device, init_devices}
use libxpdk.Io.{Handles, io_device}

-- The handles of the rig's disk
abbrev pub rig_handles : Handles
rig_handles = record { bdev = 5; desc = 1; channel = 2; flags = 2 }

pub ready-Ready : Ready rig (λ r. r) ready 1 (1 ∷ 2 ∷ 3 ∷ []) (2 ∷ 3 ∷ []) [] (1 ∷ []) []
ready-Ready = record {
  pool = refl;
  message = refl;
  idle = record { ring = refl; empty = refl; room = refl; running = refl; quiet = refl };
  out = refl;
}

pub ready_device : io_device ready.devices (pos 0) ≡ some rig_handles
unfolding io_device get_device init_devices
ready_device = refl

pub ready-IsTable : IsTable ready.devices
unfolding init_devices
ready-IsTable =
    IsTable-set (init_devices 0 256) 0 (fresh_device 0) open_device refl refl init_devices-IsTable.0

-- ===== src/Bdev/Tests.antt =====
-- Opening, closing and listing on the rig.
use libxpdk.Prelude.{ℕ, ◌≡◌, refl, inl, true, false, List, [], ◌∷◌, arith, pos}
use libxpdk.State.{Sys, Device, open_msg, close_msg, list_bdevs_msg}
use libxpdk.Rig.Ready.{ready-IsTable}
use libxpdk.Rig.{World, rig, ready, open_device, calm}
use libxpdk.Core.Devices.{init_devices, find_free_fd, open_count, fresh_device}
use libxpdk.Bdev.{handle_open, handle_list_bdevs}
use libxpdk.Core.Messages.{fresh_msg, set_msg}
use libxpdk.Bdev.Slots.{handle_open_refused, Openable}
use libxpdk.Bdev.Listing.{handle_list_bdevs_lem}

-- A message that asks to open the rig's device for reading and writing, in a world of SPDK
abbrev opening : World → Sys (List ℕ) (List ℕ) World
opening w =
    set_msg 1 (record (fresh_msg open_msg) { bdev_name = 78 ∷ []; flags = 2 })
      (record ready { world = w })

abbrev grown : List Device
grown = open_device ∷ record (fresh_device 1) { in_use = true } ∷ init_devices 2 254

abbrev refusing : World
refusing = record calm { accepts = false }

opening-Openable : (w : World) → Openable rig 1 5 1 grown w.accepts w (opening w)
unfolding find_free_fd init_devices
opening-Openable w = record { table = ready-IsTable; name = refl; slot = refl; answer = refl }

handle_open_refused_example :
    open_count (handle_open rig 1 (opening refusing)).devices
    ≡ open_count (opening refusing).devices
handle_open_refused_example =
    (handle_open_refused rig 1 5 1 grown refusing (opening refusing) (opening-Openable refusing)).3

abbrev closing : Sys (List ℕ) (List ℕ) World
closing = set_msg 1 (record (fresh_msg close_msg) { fd = pos 0 }) ready

abbrev listing : Sys (List ℕ) (List ℕ) World
listing = set_msg 1 (record (fresh_msg list_bdevs_msg) { devices = 40; max_devices = 3 }) ready

handle_list_bdevs_lem_example : ((handle_list_bdevs rig 1 listing).msgs 1).list_count ≡ 1
handle_list_bdevs_lem_example = (handle_list_bdevs_lem rig 1 7 listing (inl (omega arith))).0

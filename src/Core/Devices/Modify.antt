-- ===== src/Core/Devices/Modify.antt =====
-- Changes of a slot through a pointer to it, and what they leave of the table.
use libxpdk.Prelude.{
  ℕ, zero, suc, ◌<◌, ◌≡◌, refl, ◌∙◌, true, some, List, [], ◌∷◌, arith, get_elem?, set,
  get_elem?-set_self, get_elem?-lt,
}
use libxpdk.State.{max_open_devices, Device}
use libxpdk.Core.Devices.{open_count, modify_device}
use libxpdk.Core.Devices.Search.{Claimed}
use libxpdk.Core.Devices.Table.{IsTable-set, get_device-set_ne, get_device-set_self, Opens}

open_count-set_same :
    (ds : List Device) (k : ℕ) (d e : Device)
    → get_elem? ds k ≡ some d
    → e.in_use ≡ d.in_use
    → open_count (set ds k e) ≡ open_count ds
open_count-set_same [] k d e g same = cc
open_count-set_same (x ∷ ds) zero d e g same = ground arith
open_count-set_same (x ∷ ds) (suc k) d e g same =
    ground (arith, open_count-set_same ds k d e g same)

pub modify_device-some :
    (ds : List Device) (k : ℕ) (f : Device → Device) (d : Device)
    → get_elem? ds k ≡ some d
    → modify_device ds k f ≡ set ds k (f d)
modify_device-some ds k f d g = ground (arith, g)

pub get_elem?-modify_device :
    (ds : List Device) (k : ℕ) (f : Device → Device) (d : Device)
    → get_elem? ds k ≡ some d
    → get_elem? (modify_device ds k f) k ≡ some (f d)
get_elem?-modify_device ds k f d g =
    rw (modify_device-some ds k f d g) (get_elem?-set_self ds k (f d) (get_elem?-lt ds k g))

-- A change of the slot that was opened, which keeps its mark and its number, leaves it opened.
pub Opens-modify_device :
    (ds ds' : List Device) (k : ℕ) (f : Device → Device) (d : Device)
    → Opens ds k ds'
    → get_elem? ds' k ≡ some d
    → d.in_use ≡ true
    → (f d).in_use ≡ d.in_use
    → (f d).fd ≡ d.fd
    → Opens ds k (modify_device ds' k f)
Opens-modify_device ds ds' k f d o g on used same = rw (modify_device-some ds' k f d g) (record {
  was_closed = o.was_closed;
  is_open = rw (get_device-set_self ds' k d (f d) g lt, used, on) refl;
  others = λ fd ne. get_device-set_ne ds' k (f d) fd ne ∙ o.others fd ne;
  counted = open_count-set_same ds' k d (f d) g used ∙ o.counted;
  table = IsTable-set ds' k d (f d) g same o.table;
})
  where
    lt : k < max_open_devices
    lt = omega (arith, get_elem?-lt ds' k g, o.table.size)

-- The slot that a search marked.
pub Claimed-slot :
    (j : ℕ) (ds ds' : List Device)
    → (c : Claimed 0 ds j ds') → get_elem? ds' j ≡ some (record c.slot { in_use = true })
Claimed-slot j ds ds' c =
    let at : j ≡ c.offset = omega (arith, c.index) in
    rw (at, c.marked)
      (get_elem?-set_self ds c.offset (record c.slot { in_use = true })
        (get_elem?-lt ds c.offset c.found))

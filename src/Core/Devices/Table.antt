-- ===== src/Core/Devices/Table.antt =====
-- The table of open devices: what `xpdk_find_free_fd`, `xpdk_get_device` and `xpdk_put_device`
-- promise one another.
use libxpdk.Prelude.{
  ℕ, zero, suc, ◌+◌, ◌<◌, ◌≡◌, refl, sym, ap, ◌≢◌, inl, inr, true, false, none, some, List, [], ◌∷◌,
  arith, if◌then◌else◌, Option-cases, length, get_elem?, set, length-set, get_elem?-set_self,
  get_elem?-set_ne, get_elem?-lt, ℤ, pos, negsuc,
}
use libxpdk.Core.Devices.{
  find_free_fd, get_device, put_device, init_devices, Numbered, IsTable, open_count,
}
use libxpdk.Core.Devices.Search.{find_free_fd-Claimed}
use libxpdk.State.{Device, max_open_devices}

Numbered-set :
    (i k : ℕ) (ds : List Device) (d e : Device)
    → get_elem? ds k ≡ some d
    → e.fd ≡ d.fd
    → Numbered i ds
    → Numbered i (set ds k e)
Numbered-set i k [] d e g same h = tt
Numbered-set i zero (x ∷ ds) d e g same h = ground arith
Numbered-set i (suc k) (x ∷ ds) d e g same h = (h.0, Numbered-set (i + 1) k ds d e g same h.1)

-- A change of one slot that keeps its number keeps the table.
pub IsTable-set :
    (ds : List Device) (k : ℕ) (d e : Device)
    → get_elem? ds k ≡ some d
    → e.fd ≡ d.fd
    → IsTable ds
    → IsTable (set ds k e)
IsTable-set ds k d e g same t = record {
  size = rw (length-set ds k e) t.size;
  numbered = Numbered-set 0 k ds d e g same t.numbered;
}

open_count-set_used :
    (ds : List Device) (k : ℕ) (d e : Device)
    → get_elem? ds k ≡ some d
    → d.in_use ≡ false
    → e.in_use ≡ true
    → open_count (set ds k e) ≡ suc (open_count ds)
open_count-set_used [] k d e g off on = cc
open_count-set_used (x ∷ ds) zero d e g off on = ground arith
open_count-set_used (x ∷ ds) (suc k) d e g off on =
    ground (arith, open_count-set_used ds k d e g off on)

open_count-set_unused :
    (ds : List Device) (k : ℕ) (d e : Device)
    → get_elem? ds k ≡ some d
    → d.in_use ≡ true
    → e.in_use ≡ false
    → suc (open_count (set ds k e)) ≡ open_count ds
open_count-set_unused [] k d e g off on = cc
open_count-set_unused (x ∷ ds) zero d e g off on = ground arith
open_count-set_unused (x ∷ ds) (suc k) d e g off on =
    ground (arith, open_count-set_unused ds k d e g off on)

-- What a look-up that succeeds has found.
pub get_device-some :
    (ds : List Device) (fd : ℤ) (j : ℕ)
    → get_device ds fd ≡ some j
    → (d : Device) × (fd ≡ pos j)
      × (j < max_open_devices)
      × (get_elem? ds j ≡ some d)
      × (d.in_use ≡ true)
unfolding get_device
get_device-some ds (negsuc n) j h = cc
get_device-some ds (pos n) j h = elim (Option-cases (get_elem? ds n)) [
  | inl e ↦ ground arith
  | inr (d, e) ↦ (d, ground arith, ground arith, ground arith, ground arith)
]

pub get_device-set_self :
    (ds : List Device) (j : ℕ) (d e : Device)
    → get_elem? ds j ≡ some d
    → j < max_open_devices
    → get_device (set ds j e) (pos j) ≡ (if e.in_use then some j else none)
unfolding get_device
get_device-set_self ds j d e g lt = ground (arith, get_elem?-set_self ds j e, get_elem?-lt ds j g)

pub get_device-set_ne :
    (ds : List Device) (j : ℕ) (e : Device) (fd : ℤ)
    → fd ≢ pos j
    → get_device (set ds j e) fd ≡ get_device ds fd
unfolding get_device
get_device-set_ne ds j e (negsuc n) h = refl
get_device-set_ne ds j e (pos n) h =
    let ne : j ≢ n = λ (p : j ≡ n). h (ap pos (sym p)) in rw (get_elem?-set_ne ds j n e ne)

get_device_unused :
    (ds : List Device) (k : ℕ) (d : Device)
    → get_elem? ds k ≡ some d
    → d.in_use ≡ false
    → get_device ds (pos k) ≡ none
unfolding get_device
get_device_unused ds k d g off = ground arith

-- What an operation that opens slot `j` owes the rest of the program.
pub record Opens (ds : List Device) (j : ℕ) (ds' : List Device) : Type 0 where
  pub was_closed : get_device ds (pos j) ≡ none
  pub is_open : get_device ds' (pos j) ≡ some j
  pub others : (fd : ℤ) → fd ≢ pos j → get_device ds' fd ≡ get_device ds fd
  pub counted : open_count ds' ≡ suc (open_count ds)
  pub table : IsTable ds'

Opens-set :
    (ds : List Device) (k : ℕ) (d : Device)
    → IsTable ds
    → get_elem? ds k ≡ some d
    → d.in_use ≡ false
    → Opens ds k (set ds k (record d { in_use = true }))
Opens-set ds k d t g off =
    let e : Device = record d { in_use = true } in
    let lt : k < max_open_devices = omega (arith, get_elem?-lt ds k g, t.size) in
    record {
      was_closed = get_device_unused ds k d g off;
      is_open = get_device-set_self ds k d e g lt;
      others = get_device-set_ne ds k e;
      counted = open_count-set_used ds k d e g off refl;
      table = IsTable-set ds k d e g refl t;
    }

-- The slot that `xpdk_find_free_fd` returns was closed and is open afterwards; no other look-up
-- changes, one more slot is in use, and the table stays well formed.
pub find_free_fd-Opens :
    (j : ℕ) (ds ds' : List Device) → IsTable ds → find_free_fd ds ≡ some (j, ds') → Opens ds j ds'
find_free_fd-Opens j ds ds' t e =
    let c = find_free_fd-Claimed j ds ds' e in
    let at : j ≡ c.offset = omega (arith, c.index) in
    rw (at, c.marked) (Opens-set ds c.offset c.slot t c.found c.free)

-- What an operation that closes slot `j` owes the rest of the program.
pub record Closes (ds : List Device) (j : ℕ) (ds' : List Device) : Type 0 where
  pub is_closed : get_device ds' (pos j) ≡ none
  pub others : (fd : ℤ) → fd ≢ pos j → get_device ds' fd ≡ get_device ds fd
  pub counted : suc (open_count ds') ≡ open_count ds
  pub table : IsTable ds'

-- Any write of a slot that was open, which clears its mark and keeps its number, closes it.
pub Closes-set :
    (ds : List Device) (k : ℕ) (d e : Device)
    → IsTable ds
    → get_elem? ds k ≡ some d
    → d.in_use ≡ true
    → e.in_use ≡ false
    → e.fd ≡ d.fd
    → Closes ds k (set ds k e)
Closes-set ds k d e t g on off same =
    let lt : k < max_open_devices = omega (arith, get_elem?-lt ds k g, t.size) in
    record {
      is_closed = rw (get_device-set_self ds k d e g lt, off);
      others = get_device-set_ne ds k e;
      counted = open_count-set_unused ds k d e g on off;
      table = IsTable-set ds k d e g same t;
    }

put_device-some :
    (ds : List Device) (j : ℕ) (d : Device)
    → get_elem? ds j ≡ some d
    → put_device ds j ≡ set ds j (record d { in_use = false })
unfolding put_device
put_device-some ds j d g = ground arith

-- `xpdk_put_device` at a slot that a look-up gave closes that slot, and no other.
pub put_device-Closes :
    (ds : List Device) (fd : ℤ) (j : ℕ)
    → IsTable ds
    → get_device ds fd ≡ some j
    → Closes ds j (put_device ds j)
put_device-Closes ds fd j t e =
    let (d, _, _, g, on) = get_device-some ds fd j e in
    rw (put_device-some ds j d g) (Closes-set ds j d (record d { in_use = false }) t g on refl refl)

init_devices-Numbered : (i n : ℕ) → Numbered i (init_devices i n)
unfolding init_devices
init_devices-Numbered i zero = tt
init_devices-Numbered i (suc n) = (refl, init_devices-Numbered (i + 1) n)

init_devices_counts :
    (i n : ℕ) → (length (init_devices i n) ≡ n) × (open_count (init_devices i n) ≡ 0)
unfolding init_devices
init_devices_counts i zero = (refl, refl)
init_devices_counts i (suc n) = ground (arith, init_devices_counts (i + 1) n)

-- The table that `xpdk_init_opts` builds is well formed, and nothing in it is open.
pub init_devices-IsTable :
    IsTable (init_devices 0 max_open_devices) × (open_count (init_devices 0 max_open_devices) ≡ 0)
init_devices-IsTable =
    let (size, shut) = init_devices_counts 0 max_open_devices in
    (record { size = size; numbered = init_devices-Numbered 0 max_open_devices }, shut)

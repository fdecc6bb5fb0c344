-- ===== src/Core/Devices.antt =====
-- xpdk_core.c: the table of open devices, the options and the error strings.
pub mod Search
pub mod Table
pub mod Modify
use libxpdk.Prelude.{
  ℕ, zero, suc, ◌+◌, ◌≡◌, true, false, ◌||◌, not, Option, none, some, List, [], ◌∷◌, leb,
  if◌then◌else◌, length, get_elem?, set, ℤ, is_neg, pos_part,
}
use libxpdk.Api.{zero_stats}
use libxpdk.State.{Device, max_open_devices}

-- The first slot from `i` on that is not in use, marked as used: the loop of `xpdk_find_free_fd`.
claim_from : ℕ → List Device → Option (ℕ × List Device)
claim_from i [] = none
claim_from i (d ∷ ds) =
    let rest = claim_from (i + 1) ds in
    if not d.in_use
    then some (i, record d { in_use = true } ∷ ds)
    else elim rest [ none ↦ none | some (j, ds') ↦ some (j, d ∷ ds') ]

-- `xpdk_find_free_fd`; `none` is the result XPDK_ERROR_NOMEM.
unfoldable pub find_free_fd : List Device → Option (ℕ × List Device)
unfolding claim_from
find_free_fd ds = claim_from 0 ds

-- `xpdk_get_device`: the index of the slot stands for the pointer to it.
unfoldable pub get_device : List Device → ℤ → Option ℕ
get_device ds fd =
    if is_neg fd || leb max_open_devices (pos_part fd)
    then none
    else elim (get_elem? ds (pos_part fd)) [
      | none ↦ none
      | some d ↦ if d.in_use then some (pos_part fd) else none
    ]

-- A change of one slot through a pointer to it.
abbrev pub modify_device : List Device → ℕ → (Device → Device) → List Device
modify_device ds i f = elim (get_elem? ds i) [ none ↦ ds | some d ↦ set ds i (f d) ]

-- `xpdk_put_device` at a pointer that is not NULL
unfoldable pub put_device : List Device → ℕ → List Device
put_device ds i = modify_device ds i (λ d. record d { in_use = false })

-- A slot after `memset` and the loop of `xpdk_init_opts`
abbrev pub fresh_device : ℕ → Device
fresh_device i = record {
  fd = i;
  bdev = none;
  desc = none;
  channel = none;
  flags = 0;
  in_use = false;
  perf_stats = zero_stats;
  stats_start_time = 0;
  stats_window_start = 0;
  last_total_ops = 0;
  last_total_bytes = 0;
}

-- The slots `i`, `i + 1`, … in a row, `n` of them.
unfoldable pub init_devices : ℕ → ℕ → List Device
init_devices i zero = []
init_devices i (suc n) = fresh_device i ∷ init_devices (i + 1) n

-- Slot numbers are their indices: the invariant of the table.
abbrev pub Numbered : ℕ → List Device → Type 0
Numbered i [] = Unit {0}
Numbered i (d ∷ ds) = (d.fd ≡ i) × Numbered (i + 1) ds

pub record IsTable (ds : List Device) : Type 0 where
  pub size : length ds ≡ max_open_devices
  pub numbered : Numbered 0 ds

-- How many slots are in use.
abbrev pub open_count : List Device → ℕ
open_count [] = 0
open_count (d ∷ ds) = if d.in_use then suc (open_count ds) else open_count ds

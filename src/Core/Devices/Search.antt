-- ===== src/Core/Devices/Search.antt =====
-- The search of `xpdk_find_free_fd` for a slot that is not in use.
use libxpdk.Prelude.{
  ℕ, zero, suc, ◌+◌, ◌≤◌, ◌<◌, ◌≡◌, refl, ap, ◌↔◌, inl, inr, true, false, Option, none, some, List,
  [], ◌∷◌, arith, Bool-cases, Option-cases, length, get_elem?, set,
}
use libxpdk.Core.Devices.{claim_from, find_free_fd, open_count}
use libxpdk.State.{Device}

-- What a search from `i` that ended with slot `j` has found: the slot's offset, and the slot.
pub record Claimed (i : ℕ) (ds : List Device) (j : ℕ) (ds' : List Device) : Type 0 where
  pub offset : ℕ
  pub slot : Device
  pub index : j ≡ i + offset
  pub found : get_elem? ds offset ≡ some slot
  pub free : slot.in_use ≡ false
  pub marked : ds' ≡ set ds offset (record slot { in_use = true })
  pub first : (m : ℕ) (e : Device) → m < offset → get_elem? ds m ≡ some e → e.in_use ≡ true

used_before :
    (d : Device) (ds : List Device) (n : ℕ)
    → d.in_use ≡ true
    → ((m : ℕ) (e : Device) → m < n → get_elem? ds m ≡ some e → e.in_use ≡ true)
    → (m : ℕ) (e : Device) → m < suc n
    → get_elem? (d ∷ ds) m ≡ some e
    → e.in_use ≡ true
used_before d ds n used h zero e lt found = ground arith
used_before d ds n used h (suc m) e lt found = h m e (omega arith) found

Claimed-cons :
    (i j : ℕ) (d : Device) (ds ds' : List Device)
    → d.in_use ≡ true
    → Claimed (i + 1) ds j ds'
    → Claimed i (d ∷ ds) j (d ∷ ds')
Claimed-cons i j d ds ds' used c = record {
  offset = suc c.offset;
  slot = c.slot;
  index = omega (arith, c.index);
  found = c.found;
  free = c.free;
  marked = ap (◌∷◌ d) c.marked;
  first = used_before d ds c.offset used c.first;
}

claim_from-Claimed :
    (i j : ℕ) (ds ds' : List Device) → claim_from i ds ≡ some (j, ds') → Claimed i ds j ds'
unfolding claim_from
claim_from-Claimed i j [] ds' e = cc
claim_from-Claimed i j (d ∷ ds) ds' e = elim (Bool-cases d.in_use) [
  | inl used ↦ elim (Option-cases (claim_from (i + 1) ds)) [
    | inl h ↦ cc (rw (used, h) at e)
    | inr ((k, rest), h) ↦
        let same : ◌≡◌ {A = Option (ℕ × List Device)} (some (k, d ∷ rest)) (some (j, ds')) =
          rw (used, h) at e in
        let c : Claimed i (d ∷ ds) k (d ∷ rest) =
          Claimed-cons i k d ds rest used (claim_from-Claimed (i + 1) k ds rest h) in
        let index : k ≡ j = cc in let table : d ∷ rest ≡ ds' = cc in rw (← index, ← table) c
  ]
  | inr unused ↦ record {
    offset = 0;
    slot = d;
    index = ground arith;
    found = refl;
    free = unused;
    marked = ground arith;
    first = λ m e' lt _. absurd (omega arith);
  }
]

-- `xpdk_find_free_fd` returns the lowest slot that was not in use, and marks that slot alone.
pub find_free_fd-Claimed :
    (j : ℕ) (ds ds' : List Device) → find_free_fd ds ≡ some (j, ds') → Claimed 0 ds j ds'
unfolding find_free_fd
find_free_fd-Claimed j ds ds' e = claim_from-Claimed 0 j ds ds' e

open_count-le : (ds : List Device) → open_count ds ≤ length ds
open_count-le [] = omega arith
open_count-le (d ∷ ds) = ground (arith, open_count-le ds)

claim_from-full : (i : ℕ) (ds : List Device) → open_count ds ≡ length ds → claim_from i ds ≡ none
unfolding claim_from
claim_from-full i [] h = refl
claim_from-full i (d ∷ ds) h = ground (arith, claim_from-full (i + 1) ds, open_count-le ds)

claim_from-none : (i : ℕ) (ds : List Device) → claim_from i ds ≡ none → open_count ds ≡ length ds
unfolding claim_from
claim_from-none i [] h = refl
claim_from-none i (d ∷ ds) h = ground (arith, claim_from-none (i + 1) ds)

-- `xpdk_find_free_fd` fails exactly when every slot is in use.
pub find_free_fd-none : (ds : List Device) → (find_free_fd ds ≡ none) ↔ (open_count ds ≡ length ds)
unfolding find_free_fd
find_free_fd-none ds = (claim_from-none 0 ds, claim_from-full 0 ds)

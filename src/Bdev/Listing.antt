-- ===== src/Bdev/Listing.antt =====
-- Listing: what the array of the caller holds afterwards.
use libxpdk.Prelude.{
  ℕ, zero, suc, ◌+◌, ◌-◌, ◌≤◌, ◌<◌, min, ◌≡◌, refl, ap₂, ◌∙◌, ◌⊎◌, inl, inr, true, List, [], ◌∷◌,
  map, arith, leb, length, take, update,
}
use libxpdk.Spdk.{Spdk}
use libxpdk.Bdev.{handle_list_bdevs, describe, for_each_bdev, bdev_list_iter}
use libxpdk.Api.{success, BdevInfo}
use libxpdk.State.{Sys}

module _ {R P W : Type 0} (spdk : Spdk R P W) where
  -- The entries of the array that starts at `devices`.
  abbrev pub entries : ℕ → ℕ → (ℕ → BdevInfo) → List BdevInfo
  entries devices zero infos = []
  entries devices (suc n) infos = infos devices ∷ entries (devices + 1) n infos

  -- One more device when the array has room for it.
  iter_room :
      (devices max count b : ℕ) (infos : ℕ → BdevInfo)
      → count < max
      → bdev_list_iter spdk devices max b (count, infos)
        ≡ (count + 1, update infos (devices + count) (describe spdk b))
  unfolding bdev_list_iter
  iter_room devices max count b infos lt = ground arith

  for_each_full :
      (devices max : ℕ) (bs : List ℕ) (count : ℕ) (infos : ℕ → BdevInfo)
      → max ≤ count
      → for_each_bdev spdk devices max bs (count, infos) ≡ (count, infos)
  unfolding for_each_bdev bdev_list_iter
  for_each_full devices max [] count infos full = refl
  for_each_full devices max (b ∷ bs) count infos full =
      let e : leb max count ≡ true = ground arith in
      rw e (for_each_full devices max bs count infos full)

  for_each_run :
      (devices max : ℕ) (bs : List ℕ) (count k : ℕ) (infos : ℕ → BdevInfo)
      → k ≡ min (max - count) (length bs)
      → let (n, infos') = for_each_bdev spdk devices max bs (count, infos) in
        (n ≡ count + k)
        × (entries (devices + count) k infos' ≡ map (describe spdk) (take k bs))
        × ((p : ℕ) → (p < devices + count) ⊎ (devices + max ≤ p) → infos' p ≡ infos p)
  unfolding for_each_bdev
  for_each_run devices max [] count zero infos size = (omega arith, refl, λ p _. refl)
  for_each_run devices max [] count (suc k) infos size = absurd (omega arith)
  for_each_run devices max (b ∷ bs) count zero infos size =
      let full = for_each_full devices max (b ∷ bs) count infos (omega arith) in
      rw full (omega arith, refl, λ p _. refl)
  for_each_run devices max (b ∷ bs) count (suc k) infos size =
      let infos₁ = update infos (devices + count) (describe spdk b) in
      let first = iter_room devices max count b infos (omega arith) in
      let (n, listed, frame) = for_each_run devices max bs (count + 1) k infos₁ (omega arith) in
      let next : devices + (count + 1) ≡ devices + count + 1 = omega arith in
      rw (for_each_bdev, first)
        (
          omega (arith, n),
          ap₂ (◌∷◌) (frame (devices + count) (inl (omega arith)) ∙ ground arith)
              (rw next at listed),
          λ p out. frame p (outside p out) ∙ update_out p out,
        )
    where
      outside :
          (p : ℕ)
          → (p < devices + count) ⊎ (devices + max ≤ p)
          → (p < devices + (count + 1)) ⊎ (devices + max ≤ p)
      outside p (inl lt) = inl (omega arith)
      outside p (inr ge) = inr ge

      update_out :
          (p : ℕ)
          → (p < devices + count) ⊎ (devices + max ≤ p)
          → update infos (devices + count) (describe spdk b) p ≡ infos p
      update_out p (inl lt) = ground arith
      update_out p (inr ge) = ground arith

  from_start :
      (p devices max : ℕ)
      → (p < devices) ⊎ (devices + max ≤ p)
      → (p < devices + 0) ⊎ (devices + max ≤ p)
  from_start p devices max (inl lt) = inl (omega arith)
  from_start p devices max (inr ge) = inr ge

  -- `xpdk_list_bdevs` fills the caller's array with the first devices, in order, as many as there
  -- are and it has room for, reports their number, and touches nothing outside the array.
  pub handle_list_bdevs_lem :
      (m p : ℕ) (s : Sys R P W)
      → (p < (s.msgs m).devices) ⊎ ((s.msgs m).devices + (s.msgs m).max_devices ≤ p)
      → let s' = handle_list_bdevs spdk m s in
        let msg = s.msgs m in
        let found = spdk.bdevs s.world in
        ((s'.msgs m).list_count ≡ min msg.max_devices (length found))
        × (entries msg.devices (s'.msgs m).list_count s'.infos
            ≡ map (describe spdk) (take (s'.msgs m).list_count found))
        × (s'.infos p ≡ s.infos p)
        × ((s'.msgs m).status ≡ success)
        × ((s'.msgs m).completed ≡ true)
  unfolding handle_list_bdevs
  handle_list_bdevs_lem m p s out =
      let msg = s.msgs m in
      let found = spdk.bdevs s.world in
      let k = min msg.max_devices (length found) in
      let (n, listed, frame) =
        for_each_run msg.devices msg.max_devices found 0 k s.infos (omega arith) in
      let start : msg.devices + 0 ≡ msg.devices = omega arith in
      let s' = handle_list_bdevs spdk m s in
      let count : (s'.msgs m).list_count ≡ k = ground (arith, n) in
      (
        count,
        rw (count, handle_list_bdevs) (rw start at listed),
        frame p (from_start p msg.devices msg.max_devices out),
        ground arith,
        ground arith,
      )

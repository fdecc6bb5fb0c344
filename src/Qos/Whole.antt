-- ===== src/Qos/Whole.antt =====
-- Setting and reading rate limits as a whole, from the call to its result.
mod Tests
use libxpdk.Prelude.{
  ℕ, suc, ◌≡◌, refl, ap, ◌∙◌, true, false, some, List, [], ◌∷◌, arith, ◌==◌, if◌then◌else◌,
  get_elem?, ℤ, update,
}
use libxpdk.State.{qos_set_limits_msg, qos_get_limits_msg, Msg, Device, qos_set, Sys}
use libxpdk.Api.{error_qos, success}
use libxpdk.Spdk.{IsLimiter, IsFifo, Spdk}
use libxpdk.Qos.Calls.{get_rate_limits, set_rate_limits, enable_simple}
use libxpdk.Core.Devices.{get_device}
use libxpdk.Qos.{handle_qos_get_limits, handle_qos_set_limits, simple_limits, with_bdev}
use libxpdk.Core.Poller.{dispatch}
use libxpdk.Core.Call.{msg_free_tables, sync_call_answers, filled_msg, filled, Ready}
use libxpdk.Events.{qos_set_limits_complete, deliver}
use libxpdk.Core.Answer.{taken}
use libxpdk.Core.Messages.{msg_free, finish, fresh_msg}
use libxpdk.Core.Late.{sync_call_answers_late}
use libxpdk.Core.Sync.{sync_call}

module _ {R P W : Type 0} (spdk : Spdk R P W) (queued : R → List ℕ) where
  -- The descriptor `fd` is open on device `b`.
  pub record OpenOn (ds : List Device) (fd : ℤ) (b : ℕ) : Type 0 where
    pub index : ℕ
    pub slot : Device
    pub found : get_device ds fd ≡ some index
    pub elem : get_elem? ds index ≡ some slot
    pub bdev : slot.bdev ≡ some b

  with_bdev-OpenOn :
      {S : Type 0} (ds : List Device) (fd : ℤ) (b : ℕ) (invalid fault : S) (act : ℕ → S)
      → OpenOn ds fd b
      → with_bdev ds fd invalid fault act ≡ act b
  with_bdev-OpenOn ds fd b invalid fault act on = rw (with_bdev, on.found, on.elem, on.bdev) refl

  handle_qos_set_limits-OpenOn :
      (m b : ℕ) (s : Sys R P W)
      → OpenOn s.devices (s.msgs m).fd b
      → s.inflight ≡ []
      → handle_qos_set_limits spdk m s ≡ record s {
        world = spdk.bdev_set_qos_rate_limits s.world b (s.limits_out (s.msgs m).limits);
        inflight = qos_set m ∷ [];
      }
  unfolding handle_qos_set_limits
  handle_qos_set_limits-OpenOn m b s on quiet =
      with_bdev-OpenOn s.devices (s.msgs m).fd b _ _ _ on ∙ rw quiet refl

  handle_qos_get_limits-OpenOn :
      (m b : ℕ) (s : Sys R P W)
      → OpenOn s.devices (s.msgs m).fd b
      → handle_qos_get_limits spdk m s
        ≡ finish m success (record s {
          limits_out =
              update s.limits_out (s.msgs m).limits (spdk.bdev_get_qos_rate_limits s.world b);
        })
  unfolding handle_qos_get_limits
  handle_qos_get_limits-OpenOn m b s on = with_bdev-OpenOn s.devices (s.msgs m).fd b _ _ _ on

  -- `xpdk_qos_set_rate_limits` on an open descriptor of an idle library hands the array to SPDK and
  -- returns success or the error of rate limits, as SPDK answers. Two rounds are enough.
  pub set_rate_limits_lem :
      (fuel : ℕ) (fd : ℤ) (b limits : ℕ) (s : Sys R P W) (m : ℕ) (p p' : P) (r r' r'' : R)
      → IsFifo spdk queued
      → Ready spdk queued s m p p' r r' r''
      → OpenOn s.devices fd b
      → (limits == 0) ≡ false
      → let (result, s') = set_rate_limits spdk (suc (suc fuel)) fd limits s in
        let w = spdk.bdev_set_qos_rate_limits s.world b (s.limits_out limits) in
        (result ≡ some (if spdk.qos_result w then success else error_qos))
        × (s'.world ≡ w)
        × (s'.devices ≡ s.devices)
        × (s'.limits_out ≡ s.limits_out)
  unfolding set_rate_limits dispatch handle_qos_set_limits deliver qos_set_limits_complete
  set_rate_limits_lem fuel fd b limits s m p p' r r' r'' fifo ready on some_limits =
      let fill : Msg → Msg = λ msg. record msg { fd = fd; limits = limits } in
      let s₀ = taken spdk queued (filled spdk queued qos_set_limits_msg fill m p' s) r'' in
      let msg : s₀.msgs m ≡ fill (fresh_msg qos_set_limits_msg) =
        filled_msg spdk queued qos_set_limits_msg fill m p' s in
      let w = spdk.bdev_set_qos_rate_limits s.world b (s.limits_out limits) in
      let s₁ : Sys R P W = record s₀ { world = w; inflight = qos_set m ∷ [] } in
      let handled : handle_qos_set_limits spdk m s₀ ≡ s₁ =
        handle_qos_set_limits-OpenOn m b s₀ (rw msg on) ready.idle.quiet ∙ rw msg refl in
      let s₂ = deliver spdk (qos_set m) (record s₁ { inflight = [] }) in
      let call =
        sync_call_answers_late spdk queued fuel qos_set_limits_msg fill (λ rc _. rc) s m p p' r r'
          r'' (qos_set m) fifo ready refl refl refl
          (rw (handled, msg) refl, rw handled refl, rw handled (ground arith)) in
      let sent : set_rate_limits spdk (suc (suc fuel)) fd limits s
          ≡ sync_call spdk (suc (suc fuel)) qos_set_limits_msg fill (λ rc _. rc) s =
        rw some_limits refl in
      let answer : sync_call spdk (suc (suc fuel)) qos_set_limits_msg fill (λ rc _. rc) s
          ≡ (some (s₂.msgs m).status, msg_free spdk m s₂) =
        rw handled at call in
      let (devices, limits_out, world, _) = msg_free_tables spdk queued m s₂ in
      rw (sent ∙ answer, devices, limits_out, world) (ground arith, refl, refl, refl)

  -- `xpdk_qos_get_rate_limits` on an open descriptor of an idle library stores what SPDK says.
  pub get_rate_limits_lem :
      (fuel : ℕ) (fd : ℤ) (b limits : ℕ) (s : Sys R P W) (m : ℕ) (p p' : P) (r r' r'' : R)
      → IsFifo spdk queued
      → Ready spdk queued s m p p' r r' r''
      → OpenOn s.devices fd b
      → (limits == 0) ≡ false
      → let (result, s') = get_rate_limits spdk (suc fuel) fd limits s in
        (result ≡ some success) × (s'.limits_out limits ≡ spdk.bdev_get_qos_rate_limits s.world b)
  unfolding get_rate_limits dispatch handle_qos_get_limits
  get_rate_limits_lem fuel fd b limits s m p p' r r' r'' fifo ready on some_limits =
      let fill : Msg → Msg = λ msg. record msg { fd = fd; limits = limits } in
      let s₀ = taken spdk queued (filled spdk queued qos_get_limits_msg fill m p' s) r'' in
      let msg : s₀.msgs m ≡ fill (fresh_msg qos_get_limits_msg) =
        filled_msg spdk queued qos_get_limits_msg fill m p' s in
      let s₁ = handle_qos_get_limits spdk m s₀ in
      let handled : s₁
          ≡ finish m success (record s₀ {
            limits_out = update s₀.limits_out limits (spdk.bdev_get_qos_rate_limits s₀.world b);
          }) =
        handle_qos_get_limits-OpenOn m b s₀ (rw msg on) ∙ rw msg refl in
      let call =
        sync_call_answers spdk queued fuel qos_get_limits_msg fill (λ rc _. rc) s m p p' r r' r''
          fifo ready refl refl refl (rw handled (ground arith)) in
      let sent : get_rate_limits spdk (suc fuel) fd limits s
          ≡ sync_call spdk (suc fuel) qos_get_limits_msg fill (λ rc _. rc) s =
        rw some_limits refl in
      let (_, limits_out, _, _) = msg_free_tables spdk queued m s₁ in
      rw (sent ∙ call, limits_out, handled) (ground arith, ground arith)

  -- What `xpdk_qos_enable_simple` sets on an open descriptor is what `xpdk_qos_get_rate_limits` then
  -- reads, as SPDK adjusts it: the two totals in the first entries, and no separate limit on reads or
  -- writes. Both calls succeed, when the library is idle at both and SPDK sets the limits.
  pub enable_simple_get :
      (adjusted : List ℕ → List ℕ → List ℕ) (fuel local : ℕ) (fd : ℤ) (b iops bps limits : ℕ)
      (s : Sys R P W) (m m₂ : ℕ) (p p' p₂ p₃ : P) (r r' r'' q q' q'' : R)
      → IsFifo spdk queued
      → IsLimiter spdk adjusted
      → Ready spdk queued s m p p' r r' r''
      → OpenOn s.devices fd b
      → (local == 0) ≡ false
      → (limits == 0) ≡ false
      → spdk.qos_result (spdk.bdev_set_qos_rate_limits s.world b (iops ∷ bps ∷ 0 ∷ 0 ∷ [])) ≡ true
      → Ready spdk queued
          (enable_simple spdk (suc (suc fuel)) local fd iops bps s).1
          m₂
          p₂
          p₃
          q
          q'
          q''
      → let (set_result, s₁) = enable_simple spdk (suc (suc fuel)) local fd iops bps s in
        let (result, s₂) = get_rate_limits spdk (suc fuel) fd limits s₁ in
        (set_result ≡ some success)
        × (result ≡ some success)
        × (s₂.limits_out limits
            ≡ adjusted (spdk.bdev_get_qos_rate_limits s.world b) (iops ∷ bps ∷ 0 ∷ 0 ∷ []))
  unfolding enable_simple simple_limits
  enable_simple_get adjusted fuel local fd b iops bps limits s m m₂ p p' p₂ p₃ r r' r'' q q' q''
        fifo law ready on some_local some_limits taken_on ready₁ =
      let limits₀ : List ℕ = iops ∷ bps ∷ 0 ∷ 0 ∷ [] in
      let s₀ : Sys R P W = record s { limits_out = update s.limits_out local limits₀ } in
      let s₁ = (enable_simple spdk (suc (suc fuel)) local fd iops bps s).1 in
      let stored : s₀.limits_out local ≡ limits₀ = ground arith in
      let ready₀ : Ready spdk queued s₀ m p p' r r' r'' = record {
        pool = ready.pool;
        message = ready.message;
        idle = record {
          ring = ready.idle.ring;
          empty = ready.idle.empty;
          room = ready.idle.room;
          running = ready.idle.running;
          quiet = ready.idle.quiet;
        };
        out = ready.out;
      } in
      let (set_result, world, devices, _) =
        set_rate_limits_lem fuel fd b local s₀ m p p' r r' r'' fifo ready₀ on some_local in
      let on₁ : OpenOn s₁.devices fd b = rw devices on in
      let (result, got) =
        get_rate_limits_lem fuel fd b limits s₁ m₂ p₂ p₃ q q' q'' fifo ready₁ on₁ some_limits in
      let world₁ : s₁.world ≡ spdk.bdev_set_qos_rate_limits s.world b limits₀ =
        rw stored at world in
      let ok : (if spdk.qos_result (spdk.bdev_set_qos_rate_limits s.world b limits₀)
            then success
            else error_qos)
          ≡ success =
        rw taken_on refl in
      (
        rw (stored, taken_on) at set_result,
        result,
        got ∙ ap (λ w. spdk.bdev_get_qos_rate_limits w b) world₁ ∙ law.in_force s.world b limits₀,
      )

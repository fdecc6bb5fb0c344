-- ===== src/Core/Cleanup.antt =====
-- xpdk_cleanup of an idle library: every device is closed, and the thread stops.
mod Tests
use libxpdk.Prelude.{
  ℤ-cases, ℕ, zero, suc, ◌+◌, ◌<◌, ◌≡◌, refl, ap, ◌∙◌, ◌≢◌, inl, inr, true, false, not, none, some,
  List, [], arith, ◌==◌, if◌then◌else◌, Bool-cases, Option-cases, get_elem?, set, ℤ, pos,
}
use libxpdk.State.{max_open_devices, close_msg, Msg, Device, Sys}
use libxpdk.Api.{success}
use libxpdk.Spdk.{IsCounted, IsRoomy, IsFifo, Spdk}
use libxpdk.Core.Messages.{fresh_msg, msg_free, finish}
use libxpdk.Bdev.{release_handles, closed_slot, handle_close}
use libxpdk.Core.Devices.{IsTable, get_device}
use libxpdk.Bdev.Calls.{close}
use libxpdk.Core.Idle.{IsIdle-Serves, IsIdle}
use libxpdk.Core.Poller.{dispatch}
use libxpdk.Core.Call.{sync_call_answers, msg_free_tables, filled_msg, filled, Ready}
use libxpdk.Core.Answer.{taken}
use libxpdk.Core.Devices.Table.{get_device-some, Closes-set}
use libxpdk.Core.Sync.{sync_call}
use libxpdk.Core.Lifecycle.{cleanup, close_all}
use libxpdk.Core.Shutdown.{cleanup_spdk_thread_ends}

module _ {R P W : Type 0} (spdk : Spdk R P W) (queued : R → List ℕ) (available : P → ℕ) where
  -- The state after the handler of `xpdk_close` of slot `j`, which holds `d`.
  abbrev closed_state : ℕ → ℕ → Device → Sys R P W → Sys R P W
  closed_state m j d s = finish m success (record s {
    devices = set s.devices j (closed_slot spdk d);
    world = release_handles spdk d s.world;
  })

  handle_close_shape :
      (m j : ℕ) (d : Device) (s : Sys R P W)
      → get_device s.devices (s.msgs m).fd ≡ some j
      → get_elem? s.devices j ≡ some d
      → handle_close spdk m s ≡ closed_state m j d s
  unfolding handle_close
  handle_close_shape m j d s found slot = rw (handle_close, found, slot) refl

  close_shape :
      (fuel : ℕ) (fd : ℤ) (j : ℕ) (d : Device) (s : Sys R P W) (m : ℕ) (p p' : P) (r r' r'' : R)
      → IsFifo spdk queued
      → s.initialized ≡ true
      → Ready spdk queued s m p p' r r' r''
      → get_device s.devices fd ≡ some j
      → get_elem? s.devices j ≡ some d
      → let fill : Msg → Msg = λ msg. record msg { fd = fd } in
        let s₀ = taken spdk queued (filled spdk queued close_msg fill m p' s) r'' in
        (close spdk (suc fuel) fd s).1 ≡ msg_free spdk m (closed_state m j d s₀)
  unfolding close dispatch
  close_shape fuel fd j d s m p p' r r' r'' fifo init ready found slot =
      let fill : Msg → Msg = λ msg. record msg { fd = fd } in
      let s₀ = taken spdk queued (filled spdk queued close_msg fill m p' s) r'' in
      let msg : s₀.msgs m ≡ fill (fresh_msg close_msg) =
        filled_msg spdk queued close_msg fill m p' s in
      let shape = handle_close_shape m j d s₀ (rw msg found) slot in
      let call =
        sync_call_answers spdk queued fuel close_msg fill (λ rc _. rc) s m p p' r r' r'' fifo ready
          refl refl refl (rw shape (ground arith)) in
      let guard : not s.initialized ≡ false = rw init refl in
      let sent : close spdk (suc fuel) fd s
          ≡ sync_call spdk (suc fuel) close_msg fill (λ rc _. rc) s =
        rw guard refl in
      ap (λ q. q.1) (sent ∙ call) ∙ ap (msg_free spdk m) shape

  msg_free-IsIdle :
      (m : ℕ) (p' : P) (r : R) (s : Sys R P W)
      → IsCounted spdk available
      → s.msg_pool ≡ some p'
      → s.msg_ring ≡ some r
      → queued r ≡ []
      → s.spdk_thread_running ≡ true
      → s.inflight ≡ []
      → IsIdle spdk queued available (msg_free spdk m s)
  unfolding msg_free
  msg_free-IsIdle m p' r s counted pool ring empty running quiet = rw pool (record {
    pool = spdk.mempool_put p' m;
    ring = r;
    has_pool = refl;
    has_ring = ring;
    left = let more = counted.returned p' m in ground (arith, more);
    empty = empty;
    running = running;
    quiet = quiet;
  })

  -- The laws of SPDK that the closing rests on.
  pub record Laws : Type 0 where
    pub fifo : IsFifo spdk queued
    pub roomy : IsRoomy spdk queued
    pub counted : IsCounted spdk available

  -- The loop of `xpdk_cleanup` before slot `i`: an idle library whose lower slots are closed.
  pub record Closing (i : ℕ) (s : Sys R P W) : Type 0 where
    pub initialized : s.initialized ≡ true
    pub idle : IsIdle spdk queued available s
    pub table : IsTable s.devices
    pub closed : (j : ℕ) → j < i → get_device s.devices (pos j) ≡ none

  below_next : (i j : ℕ) → j < i + 1 → ◌≢◌ {A = ℤ} (pos j) (pos i) → j < i
  below_next i j below e = elim (Bool-cases (j == i)) [
    | inl h ↦ let same : j ≡ i = ground arith in elim (e (ap pos same)) [ ]
    | inr h ↦ ground arith
  ]

  close-Closing :
      (fuel i : ℕ) (d : Device) (s : Sys R P W)
      → Laws
      → Closing i s
      → get_device s.devices (pos i) ≡ some i
      → get_elem? s.devices i ≡ some d
      → d.in_use ≡ true
      → Closing (i + 1) (close spdk (suc fuel) (pos i) s).1
  close-Closing fuel i d s laws at found slot used =
      let v = IsIdle-Serves spdk queued available s laws.fifo laws.roomy laws.counted at.idle in
      let fill : Msg → Msg = λ msg. record msg { fd = pos i } in
      let s₀ = taken spdk queued (filled spdk queued close_msg fill v.m v.p' s) v.r'' in
      let s₁ = closed_state v.m i d s₀ in
      let shape =
        close_shape fuel (pos i) i d s v.m v.p v.p' v.r v.r' v.r'' laws.fifo at.initialized v.ready
          found slot in
      let closes = Closes-set s.devices i d (closed_slot spdk d) at.table slot used refl refl in
      let (devices, _, _, on) = msg_free_tables spdk queued v.m s₁ in
      rw shape (record {
        initialized = on ∙ at.initialized;
        idle =
            msg_free-IsIdle v.m v.p' v.r'' s₁ laws.counted refl refl v.empty at.idle.running
              at.idle.quiet;
        table = rw devices closes.table;
        closed = λ j below.
            ap (λ ds. get_device ds (pos j)) devices ∙ elim (ℤ-cases (pos j) (pos i)) [
              | inl e ↦ rw e closes.is_closed
              | inr e ↦ closes.others (pos j) e ∙ at.closed j (below_next i j below e)
            ];
      })

  -- A slot that is not open is passed over.
  skip-Closing :
      (i : ℕ) (s : Sys R P W)
      → Closing i s
      → get_device s.devices (pos i) ≡ none
      → Closing (i + 1) s
  skip-Closing i s at shut = record {
    initialized = at.initialized;
    idle = at.idle;
    table = at.table;
    closed = λ j below. elim (ℤ-cases (pos j) (pos i)) [
      | inl e ↦ rw e shut
      | inr e ↦ at.closed j (below_next i j below e)
    ];
  }

  get_device-slot :
      (ds : List Device) (i : ℕ) (d : Device)
      → i < max_open_devices
      → get_elem? ds i ≡ some d
      → get_device ds (pos i) ≡ (if d.in_use then some i else none)
  unfolding get_device
  get_device-slot ds i d small slot = ground arith

  get_device-no_slot :
      (ds : List Device) (i : ℕ) → get_elem? ds i ≡ none → get_device ds (pos i) ≡ none
  unfolding get_device
  get_device-no_slot ds i e = ground arith

  close_all-Closing :
      (fuel n i : ℕ) (s : Sys R P W)
      → Laws
      → i + n ≡ max_open_devices
      → Closing i s
      → Closing max_open_devices (close_all spdk (suc fuel) n i s)
  unfolding close_all
  close_all-Closing fuel zero i s laws e at =
      let last : i ≡ max_open_devices = omega arith in rw last at at
  close_all-Closing fuel (suc n) i s laws e at = elim (Option-cases (get_elem? s.devices i)) [
    | inl gone ↦
        let next = skip-Closing i s at (get_device-no_slot s.devices i gone) in
        rw (close_all, gone) (close_all-Closing fuel n (i + 1) s laws (omega arith) next)
    | inr (d, slot) ↦
        let found = get_device-slot s.devices i d (omega arith) slot in
        elim (Bool-cases d.in_use) [
          | inl used ↦
              let next = close-Closing fuel i d s laws at (rw used at found) slot used in
              rw (close_all, slot, used)
                (close_all-Closing fuel n (i + 1) _ laws (omega arith) next)
          | inr free ↦
              let next = skip-Closing i s at (rw free at found) in
              rw (close_all, slot, free)
                (close_all-Closing fuel n (i + 1) s laws (omega arith) next)
        ]
  ]

  all_closed :
      (fd : ℤ) (s : Sys R P W) → Closing max_open_devices s → get_device s.devices fd ≡ none
  all_closed fd s at = elim (Option-cases (get_device s.devices fd)) [
    | inl e ↦ e
    | inr (j, e) ↦
        let (_, same, small, _, _) = get_device-some s.devices fd j e in
        let shut : get_device s.devices fd ≡ none = rw same (at.closed j small) in shut
  ]

  -- `xpdk_cleanup` of an idle library, with whatever devices open, returns: the library is not
  -- initialised any more, its thread has stopped, the pool and the ring are gone, and no descriptor
  -- is open. One round of the SPDK thread is enough for each call that it makes.
  pub cleanup_ends :
      (fuel : ℕ) (s : Sys R P W)
      → Laws
      → s.initialized ≡ true
      → IsIdle spdk queued available s
      → IsTable s.devices
      → (s' : Sys R P W) × (cleanup spdk (suc fuel) s ≡ some s')
        × (s'.initialized ≡ false)
        × (s'.spdk_thread_running ≡ false)
        × (s'.msg_pool ≡ none)
        × (s'.msg_ring ≡ none)
        × ((fd : ℤ) → get_device s'.devices fd ≡ none)
  unfolding cleanup
  cleanup_ends fuel s laws init idle table =
      let begin : Closing 0 s = record {
        initialized = init;
        idle = idle;
        table = table;
        closed = λ j below. ground arith;
      } in
      let s₁ = close_all spdk (suc fuel) max_open_devices 0 s in
      let at = close_all-Closing fuel max_open_devices 0 s laws (omega arith) begin in
      let v = IsIdle-Serves spdk queued available s₁ laws.fifo laws.roomy laws.counted at.idle in
      let (s₂, ends, running, pool, ring, devices) =
        cleanup_spdk_thread_ends spdk queued fuel s₁ v.m v.p v.p' v.r v.r' v.r'' v.ready in
      let guard : not s.initialized ≡ false = rw init refl in
      (
        record s₂ { initialized = false },
        rw (guard, ends) refl,
        refl,
        running,
        pool,
        ring,
        λ fd. ap (λ ds. get_device ds fd) devices ∙ all_closed fd s₁ at,
      )

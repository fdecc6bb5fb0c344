-- ===== src/Events/Frame.antt =====
-- What completions leave alone: the ring, the options and the state of the library, and the shape
-- of the device table.
use libxpdk.Prelude.{
  ℕ, ◌≡◌, refl, ◌∙◌, inl, inr, Bool, Option, none, some, List, [], ◌∷◌, arith, ◌==◌, if◌then◌else◌,
  Bool-cases, Option-cases, get_elem?, ℤ,
}
use libxpdk.Api.{
  Opts, Callback, null, user, batch_completion, vectored_completion, success, error_io,
}
use libxpdk.State.{Sys, Event, sync_io, async_io, opened, qos_set, Device}
use libxpdk.Spdk.{Spdk}
use libxpdk.Dma.{free_buffer, dma_free}
use libxpdk.Core.Devices.{IsTable, modify_device}
use libxpdk.Core.Devices.Table.{IsTable-set}
use libxpdk.Core.Messages.{msg_free}
use libxpdk.Perf.Stats.{perf_stats_init}
use libxpdk.Events.{
  run_callback, deliver, wait_events, wait_sync, sync_io_completion_cb, async_io_completion_cb,
  bdev_open_complete, qos_set_limits_complete, open_slot,
}

-- What only the application and the shutdown change.
pub record Settings (R : Type 0) : Type 0 where
  pub ring : Option R
  pub opts : Opts
  pub initialized : Bool
  pub running : Bool

abbrev pub settings : {R P W : Type 0} → Sys R P W → Settings R
settings s = record {
  ring = s.msg_ring;
  opts = s.opts;
  initialized = s.initialized;
  running = s.spdk_thread_running;
}

-- Nothing that runs on the SPDK thread but the shutdown touches these, and the table stays a table.
pub record Keeps {R P W : Type 0} (s s' : Sys R P W) : Type 0 where
  pub same : settings s' ≡ settings s
  pub table : IsTable s.devices → IsTable s'.devices

module _ {R P W : Type 0} where
  pub Keeps-refl : (s : Sys R P W) → Keeps s s
  Keeps-refl s = record { same = refl; table = λ t. t }

  pub Keeps-trans : (s t u : Sys R P W) → Keeps s t → Keeps t u → Keeps s u
  Keeps-trans s t u h k = record { same = k.same ∙ h.same; table = λ x. k.table (h.table x) }

-- A change of a slot that keeps its number keeps the table.
pub IsTable-modify_device :
    (ds : List Device) (i : ℕ) (f : Device → Device)
    → ((d : Device) → (f d).fd ≡ d.fd)
    → IsTable ds
    → IsTable (modify_device ds i f)
IsTable-modify_device ds i f same t = elim (Option-cases (get_elem? ds i)) [
  | inl e ↦ ground (arith, e, t)
  | inr (d, e) ↦ ground (arith, e, IsTable-set ds i d (f d) e (same d) t)
]

module _ {R P W : Type 0} (spdk : Spdk R P W) where
  Keeps-run_callback :
      (f : Callback) (ctx : ℕ) (status : ℤ) (s : Sys R P W)
      → Keeps s (run_callback spdk f ctx status s)
  unfolding run_callback free_buffer
  Keeps-run_callback null ctx status s = Keeps-refl s
  Keeps-run_callback (user f) ctx status s = record { same = refl; table = λ t. t }
  Keeps-run_callback batch_completion ctx status s = record { same = refl; table = λ t. t }
  Keeps-run_callback vectored_completion ctx status s = record {
    same = ground arith;
    table = λ t. ground arith;
  }

  pub Keeps-msg_free : (m : ℕ) (s : Sys R P W) → Keeps s (msg_free spdk m s)
  unfolding msg_free
  Keeps-msg_free m s = record { same = ground arith; table = λ t. ground arith }

  Keeps-freed : (p : ℕ) (s : Sys R P W) → Keeps s (if p == 0 then s else dma_free spdk p s)
  Keeps-freed p s = record { same = ground arith; table = λ t. ground arith }

  Keeps-async_io_completion_cb :
      (m : ℕ) (ok : Bool) (s : Sys R P W) → Keeps s (async_io_completion_cb spdk m ok s)
  unfolding async_io_completion_cb
  Keeps-async_io_completion_cb m ok s =
      let msg = s.msgs m in
      let status : ℤ = if ok then success else error_io in
      let s₁ = run_callback spdk msg.callback msg.user_ctx status s in
      let s₂ : Sys R P W = if msg.ctx == 0 then s₁ else dma_free spdk msg.ctx s₁ in
      Keeps-trans s s₁ (msg_free spdk m s₂) (Keeps-run_callback msg.callback msg.user_ctx status s)
        (Keeps-trans s₁ s₂ (msg_free spdk m s₂) (Keeps-freed msg.ctx s₁) (Keeps-msg_free m s₂))

  Keeps-bdev_open_complete :
      (m : ℕ) (result : Option ℕ) (s : Sys R P W) → Keeps s (bdev_open_complete spdk m result s)
  unfolding bdev_open_complete perf_stats_init
  Keeps-bdev_open_complete m none s = record { same = refl; table = λ t. t }
  Keeps-bdev_open_complete m (some desc) s =
      let fd = (s.msgs m).result_fd in
      let (channel, w) = spdk.bdev_get_io_channel s.world desc in
      record {
        same = ground arith;
        table = λ t. elim (Option-cases channel) [
          | inl e ↦
              rw (bdev_open_complete, e)
                (IsTable-modify_device s.devices fd (λ d. record d { desc = none; channel = none })
                  (λ d. refl) t)
          | inr (c, e) ↦
              rw (bdev_open_complete, e)
                (IsTable-modify_device s.devices fd (open_slot spdk (spdk.time_us w) desc c)
                  (λ d. refl) t)
        ];
      }

  pub Keeps-deliver : (e : Event) (s : Sys R P W) → Keeps s (deliver spdk e s)
  unfolding deliver sync_io_completion_cb qos_set_limits_complete
  Keeps-deliver (sync_io req m bytes) s = record { same = refl; table = λ t. t }
  Keeps-deliver (async_io req m) s =
      let (ok, memory, w) = spdk.perform s.world s.memory req in
      let c = Keeps-async_io_completion_cb m ok (record s { memory = memory; world = w }) in
      record { same = c.same; table = c.table }
  Keeps-deliver (opened m) s =
      let (result, w) = spdk.bdev_open_result s.world (s.msgs m).bdev_name in
      let c = Keeps-bdev_open_complete m result (record s { world = w }) in
      record { same = c.same; table = c.table }
  Keeps-deliver (qos_set m) s = record { same = refl; table = λ t. t }

  Keeps-wait_events : (m : ℕ) (es : List Event) (s : Sys R P W) → Keeps s (wait_events spdk m es s)
  unfolding wait_events
  Keeps-wait_events m [] s = Keeps-refl s
  Keeps-wait_events m (e ∷ es) s =
      let s₁ = record s { inflight = es } in
      let s₂ = deliver spdk e s₁ in
      let d = Keeps-deliver e s₁ in
      let first : Keeps s s₂ = record { same = d.same; table = d.table } in
      elim (Bool-cases (s.sync_completed m)) [
        | inl h ↦ rw h (Keeps-refl s)
        | inr h ↦ rw h (Keeps-trans s s₂ _ first (Keeps-wait_events m es s₂))
      ]

  pub Keeps-wait_sync : (m : ℕ) (s : Sys R P W) → Keeps s (wait_sync spdk m s)
  unfolding wait_sync
  Keeps-wait_sync m s = Keeps-wait_events m s.inflight s

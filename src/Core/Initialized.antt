-- ===== src/Core/Initialized.antt =====
-- `xpdk_init_opts`: its result and the state that it leaves.
use libxpdk.Prelude.{
  ◌≡◌, ◌↔◌, ◌⊎◌, inl, inr, true, false, ◌||◌, not, Option, none, some, arith, if◌then◌else◌,
  Bool-cases, Option-cases, ℤ, pos, negsuc, eq_ℤ,
}
use libxpdk.Core.Devices.Table.{init_devices-IsTable}
use libxpdk.State.{max_open_devices, Sys}
use libxpdk.Api.{error_nomem, success, Opts}
use libxpdk.Spdk.{Spdk}
use libxpdk.Core.Lifecycle.{cleared, init_opts, Pthreads, thread_start, init_spdk_thread}
use libxpdk.Core.Devices.{open_count, IsTable, init_devices}
use libxpdk.Core.Options.{set_defaults}

module _ {R P W : Type 0} (spdk : Spdk R P W) where
  pub init_spdk_thread_keeps :
      (pthreads : Pthreads) (opts : Opts) (s : Sys R P W) (rc : ℤ) (s' : Sys R P W)
      → init_spdk_thread spdk pthreads opts s ≡ some (rc, s')
      → (s'.initialized ≡ s.initialized) × (s'.devices ≡ s.devices)
  unfolding init_spdk_thread thread_start
  init_spdk_thread_keeps pthreads opts s rc s' e = (ground arith, ground arith)

  init_spdk_thread-success :
      (pthreads : Pthreads) (opts : Opts) (s : Sys R P W) (rc : ℤ) (s' : Sys R P W)
      → init_spdk_thread spdk pthreads opts s ≡ some (rc, s')
      → rc ≡ success
      → (s'.spdk_thread_running ≡ true) × (s'.opts ≡ s.opts)
  unfolding init_spdk_thread thread_start
  init_spdk_thread-success pthreads opts s rc s' e ok = (ground (arith, ok), ground arith)

  pub is_success : (rc : ℤ) → (eq_ℤ rc success ≡ true) ↔ (rc ≡ success)
  is_success (pos n) = ground arith
  is_success (negsuc n) = ground arith

  -- The state in which `xpdk_init_opts` starts the thread.
  unfoldable pub prepared_ctx : Opts → Sys R P W → Sys R P W
  prepared_ctx o s = record (cleared spdk (set_defaults o) s) {
    devices = init_devices 0 max_open_devices;
  }

  -- What a call with options on a library that is not initialised can come to.
  pub init_opts_cases :
      (pthreads : Pthreads) (o : Opts) (s : Sys R P W) (rc : ℤ) (s' : Sys R P W)
      → s.initialized ≡ false
      → init_opts spdk pthreads (some o) s ≡ some (rc, s')
      → ((rc ≡ error_nomem) × (s'.initialized ≡ false))
        ⊎ (q : ℤ × Sys R P W) × (init_spdk_thread spdk pthreads (set_defaults o) (prepared_ctx o s)
            ≡ some q)
          × ((rc, s')
              ≡ (if eq_ℤ q.0 success then (success, record q.1 { initialized = true }) else q))
  unfolding init_opts prepared_ctx cleared
  init_opts_cases pthreads o s rc s' new e =
      elim (Bool-cases (not pthreads.mutex_init || not pthreads.cond_init)) [
        | inl bad ↦ inl (ground arith, ground arith)
        | inr good ↦
            elim (Option-cases
              (init_spdk_thread spdk pthreads (set_defaults o) (prepared_ctx o s))) [
                | inl h ↦ absurd (ground arith)
                | inr (q, h) ↦ inr (q, h, ground arith)
              ]
      ]

  init_opts_flag :
      (pthreads : Pthreads) (o : Opts) (s : Sys R P W) (rc : ℤ) (s' : Sys R P W)
      → s.initialized ≡ false
      → init_opts spdk pthreads (some o) s ≡ some (rc, s')
      → (rc ≡ success) ↔ (s'.initialized ≡ true)
  unfolding prepared_ctx cleared
  init_opts_flag pthreads o s rc s' new e = elim (init_opts_cases pthreads o s rc s' new e) [
    | inl (failed, off) ↦ ground arith
    | inr ((rc₁, s₁), h, result) ↦
        let kept = init_spdk_thread_keeps pthreads (set_defaults o) (prepared_ctx o s) rc₁ s₁ h in
        ground (arith, is_success rc₁, kept)
  ]

  -- Whenever `xpdk_init_opts` returns, it reports success exactly if the library is initialised then.
  pub init_opts_reports :
      (pthreads : Pthreads) (opts : Option Opts) (s : Sys R P W) (rc : ℤ) (s' : Sys R P W)
      → init_opts spdk pthreads opts s ≡ some (rc, s')
      → (rc ≡ success) ↔ (s'.initialized ≡ true)
  unfolding init_opts
  init_opts_reports pthreads none s rc s' e = ground arith
  init_opts_reports pthreads (some o) s rc s' e = elim (Bool-cases s.initialized) [
    | inl on ↦ ground arith
    | inr off ↦ init_opts_flag pthreads o s rc s' off e
  ]

  -- A library that was not initialised and is after a call of `xpdk_init_opts` has a well-formed
  -- table of devices with nothing open, a running thread, and the options with their defaults.
  pub init_opts_ready :
      (pthreads : Pthreads) (o : Opts) (s s' : Sys R P W)
      → s.initialized ≡ false
      → init_opts spdk pthreads (some o) s ≡ some (success, s')
      → IsTable s'.devices
        × (open_count s'.devices ≡ 0)
        × (s'.spdk_thread_running ≡ true)
        × (s'.opts ≡ set_defaults o)
  unfolding prepared_ctx cleared
  init_opts_ready pthreads o s s' new e = elim (init_opts_cases pthreads o s success s' new e) [
    | inl (failed, off) ↦ cc
    | inr ((rc₁, s₁), h, result) ↦
        let kept = init_spdk_thread_keeps pthreads (set_defaults o) (prepared_ctx o s) rc₁ s₁ h in
        let ok : rc₁ ≡ success = ground (arith, is_success rc₁) in
        let (running, opts) =
          init_spdk_thread-success pthreads (set_defaults o) (prepared_ctx o s) rc₁ s₁ h ok in
        let table : s'.devices ≡ init_devices 0 max_open_devices = ground (arith, kept.1) in
        (
          rw table init_devices-IsTable.0,
          rw table init_devices-IsTable.1,
          ground (arith, running),
          ground (arith, opts),
        )
  ]

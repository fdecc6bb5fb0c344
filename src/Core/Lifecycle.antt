-- ===== src/Core/Lifecycle.antt =====
-- xpdk_core.c: initialisation, the start and the end of the SPDK thread, and shutdown.
use libxpdk.Prelude.{
  replicate, ℕ, zero, suc, ◌+◌, Bool, true, false, ◌||◌, not, Option, none, some, leb,
  if◌then◌else◌, get_elem?, ℤ, pos, negsuc, eq_ℤ,
}
use libxpdk.Api.{Opts, Name, success, error_invalid, error_nomem, error_io}
use libxpdk.State.{shutdown_msg, Sys, max_open_devices}
use libxpdk.Spdk.{Spdk}
use libxpdk.Core.Devices.{fresh_device, init_devices}
use libxpdk.Core.Messages.{msg_alloc, msg_free}
use libxpdk.Core.Options.{opts_init, set_defaults, default_ring_size, default_pool_size}
use libxpdk.Core.Poller.{msg_send_sync}
use libxpdk.Bdev.Calls.{close}

-- Which of the calls of pthreads succeed: `pthread_mutex_init`, `pthread_cond_init` and
-- `pthread_create`.
pub record Pthreads : Type 0 where
  pub mutex_init : Bool
  pub cond_init : Bool
  pub create : Bool

module _ {R P W : Type 0} (spdk : Spdk R P W) where
  -- `xpdk_set_cpu_affinity` on Linux
  unfoldable pub set_cpu_affinity : ℤ → W → ℤ × W
  set_cpu_affinity (negsuc n) w = (success, w)
  set_cpu_affinity (pos core) w =
      let (ok, w') = spdk.set_affinity w core in (if ok then success else error_io, w')

  -- The start of `xpdk_spdk_thread_main`: the thread runs unless SPDK refuses to make it.
  unfoldable pub thread_start : Sys R P W → Sys R P W
  unfolding set_cpu_affinity
  thread_start s =
      let (_, w) = set_cpu_affinity s.opts.cpu_core s.world in
      let (ok, w') = spdk.thread_create w in record s { world = w'; spdk_thread_running = ok }

  -- `xpdk_init_spdk_thread`. `none` is the wait for a thread that never gets to run.
  unfoldable pub init_spdk_thread : Pthreads → Opts → Sys R P W → Option (ℤ × Sys R P W)
  unfolding thread_start
  init_spdk_thread pthreads opts s =
      let (env_ok, w) = spdk.env_init s.world in
      let ring_size = if leb 1 opts.msg_ring_size then opts.msg_ring_size else default_ring_size in
      let pool_size = if leb 1 opts.msg_pool_size then opts.msg_pool_size else default_pool_size in
      let s₀ = record s { world = w } in
      if not env_ok then some (error_io, s₀) else elim (spdk.ring_create ring_size) [
        | none ↦ some (error_nomem, s₀)
        | some ring ↦ elim (spdk.mempool_create pool_size) [
          | none ↦ some (error_nomem, record s₀ { msg_ring = some ring })
          | some pool ↦
              let s₁ = record s₀ { msg_ring = some ring; msg_pool = some pool } in
              let s₂ = thread_start s₁ in
              if not pthreads.create
              then some (error_io, s₁)
              else if s₂.spdk_thread_running
              then some (success, s₂)
              else none
        ]
      ]

  -- The context after `memset`, with the options: every slot is zero
  unfoldable pub cleared : Opts → Sys R P W → Sys R P W
  cleared opts s = record s {
    initialized = false;
    devices = replicate max_open_devices (fresh_device 0);
    opts = opts;
    spdk_thread_running = false;
    msg_ring = none;
    msg_pool = none;
    total_messages_processed = 0;
    total_io_operations = 0;
  }

  -- `xpdk_init_opts`; the options are `none` for NULL.
  unfoldable pub init_opts : Pthreads → Option Opts → Sys R P W → Option (ℤ × Sys R P W)
  unfolding init_spdk_thread cleared
  init_opts pthreads opts s = if s.initialized then some (success, s) else elim opts [
    | none ↦ some (error_invalid, s)
    | some o ↦
        let s₀ = cleared (set_defaults o) s in
        let s₁ = record s₀ { devices = init_devices 0 max_open_devices } in
        if not pthreads.mutex_init || not pthreads.cond_init
        then some (error_nomem, s₀)
        else elim (init_spdk_thread pthreads s₁.opts s₁) [
          | none ↦ none
          | some (rc, s₂) ↦
              some
                (if eq_ℤ rc success then (success, record s₂ { initialized = true }) else (rc, s₂))
        ]
  ]

  -- `xpdk_init`
  unfoldable pub init : Pthreads → Option Name → Sys R P W → Option (ℤ × Sys R P W)
  unfolding init_opts
  init pthreads config_file s =
      init_opts pthreads (some (record opts_init { config_file = config_file })) s

  -- `xpdk_cleanup_spdk_thread`; `none` is a wait for a thread that goes on.
  unfoldable pub cleanup_spdk_thread : ℕ → Sys R P W → Option (Sys R P W)
  cleanup_spdk_thread fuel s =
      let asked : Option ℤ × Sys R P W = elim (msg_alloc spdk shutdown_msg s) [
        | none ↦ (some error_nomem, s)
        | some (m, s₁) ↦ let (rc, s₂) = msg_send_sync spdk fuel m s₁ in (rc, msg_free spdk m s₂)
      ] in
      if not s.spdk_thread_running
      then some s
      else if asked.1.spdk_thread_running
      then none
      else some (record asked.1 { msg_pool = none; msg_ring = none })

  -- The loop of `xpdk_cleanup` over the slots from `i` on
  unfoldable pub close_all : ℕ → ℕ → ℕ → Sys R P W → Sys R P W
  close_all fuel zero i s = s
  close_all fuel (suc n) i s = close_all fuel n (i + 1) (elim (get_elem? s.devices i) [
    | none ↦ s
    | some d ↦ if d.in_use then (close spdk fuel (pos i) s).1 else s
  ])

  -- `xpdk_cleanup`
  unfoldable pub cleanup : ℕ → Sys R P W → Option (Sys R P W)
  unfolding cleanup_spdk_thread close_all
  cleanup fuel s =
      if not s.initialized
      then some s
      else elim (cleanup_spdk_thread fuel (close_all fuel max_open_devices 0 s)) [
        | none ↦ none
        | some s' ↦ some (record s' { initialized = false })
      ]

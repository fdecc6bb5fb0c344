-- ===== src/Core/Life.antt =====
-- The life of the library: `xpdk_init_opts` leaves it idle, and `xpdk_cleanup` ends it.
use libxpdk.Prelude.{
  ◌<◌, refl, ℤ, none, suc, false, ℕ, ◌≡◌, ◌∙◌, inl, inr, true, some, List, [], arith, leb,
  if◌then◌else◌, Option-cases,
}
use libxpdk.State.{Sys}
use libxpdk.Api.{success, Opts}
use libxpdk.Spdk.{IsFresh, Spdk}
use libxpdk.Core.Lifecycle.{cleanup, init_opts, cleared, thread_start, init_spdk_thread, Pthreads}
use libxpdk.Core.Options.{set_defaults, default_pool_size, default_ring_size}
use libxpdk.Core.Idle.{IsIdle}
use libxpdk.Core.Cleanup.{cleanup_ends, Laws}
use libxpdk.Core.Initialized.{init_opts_ready, is_success, init_opts_cases, prepared_ctx}
use libxpdk.Core.Devices.{get_device}

module _ {R P W : Type 0} (spdk : Spdk R P W) (queued : R → List ℕ) (available : P → ℕ) where
  pool_size : Opts → ℕ
  pool_size o = if leb 1 o.msg_pool_size then o.msg_pool_size else default_pool_size

  ring_size : Opts → ℕ
  ring_size o = if leb 1 o.msg_ring_size then o.msg_ring_size else default_ring_size

  -- A start that succeeds has made a ring and a pool, and its thread runs.
  init_spdk_thread-made :
      (pthreads : Pthreads) (opts : Opts) (s s' : Sys R P W)
      → init_spdk_thread spdk pthreads opts s ≡ some (success, s')
      → (r : R) × (p : P) × (spdk.ring_create (ring_size opts) ≡ some r)
        × (spdk.mempool_create (pool_size opts) ≡ some p)
        × (s'.msg_ring ≡ some r)
        × (s'.msg_pool ≡ some p)
        × (s'.spdk_thread_running ≡ true)
        × (s'.inflight ≡ s.inflight)
  unfolding init_spdk_thread thread_start ring_size pool_size
  init_spdk_thread-made pthreads opts s s' e =
      elim (Option-cases (spdk.ring_create (ring_size opts))) [
        | inl h ↦ absurd (ground arith)
        | inr (r, h) ↦ elim (Option-cases (spdk.mempool_create (pool_size opts))) [
          | inl k ↦ absurd (ground arith)
          | inr (p, k) ↦ (r, p, h, k, ground arith, ground arith, ground arith, ground arith)
        ]
      ]

  init_spdk_thread-IsIdle :
      (pthreads : Pthreads) (opts : Opts) (s s' : Sys R P W)
      → IsFresh spdk queued available
      → s.inflight ≡ []
      → init_spdk_thread spdk pthreads opts s ≡ some (success, s')
      → IsIdle spdk queued available s'
  unfolding pool_size
  init_spdk_thread-IsIdle pthreads opts s s' fresh quiet e =
      let (r, p, made_ring, made_pool, ring, pool, running, flight) =
        init_spdk_thread-made pthreads opts s s' e in
      let some_size : 0 < pool_size opts = ground arith in
      record {
        pool = p;
        ring = r;
        has_pool = pool;
        has_ring = ring;
        left = fresh.new_pool (pool_size opts) p some_size made_pool;
        empty = fresh.new_ring (ring_size opts) r made_ring;
        running = running;
        quiet = flight ∙ quiet;
      }

  -- After an `xpdk_init_opts` that succeeds the library is initialised and idle.
  pub init_opts-IsIdle :
      (pthreads : Pthreads) (o : Opts) (s s' : Sys R P W)
      → IsFresh spdk queued available
      → s.initialized ≡ false
      → s.inflight ≡ []
      → init_opts spdk pthreads (some o) s ≡ some (success, s')
      → (s'.initialized ≡ true) × IsIdle spdk queued available s'
  unfolding prepared_ctx cleared
  init_opts-IsIdle pthreads o s s' fresh new quiet e =
      elim (init_opts_cases spdk pthreads o s success s' new e) [
        | inl (failed, off) ↦ cc
        | inr ((rc, s₁), h, result) ↦
            let ok : rc ≡ success = ground (arith, is_success spdk rc) in
            let shape : s' ≡ record s₁ { initialized = true } = ground (arith, ok) in
            let idle =
              init_spdk_thread-IsIdle pthreads (set_defaults o) (prepared_ctx spdk o s) s₁ fresh
                quiet (rw ok at h) in
            rw shape (
              refl,
              record {
                pool = idle.pool;
                ring = idle.ring;
                has_pool = idle.has_pool;
                has_ring = idle.has_ring;
                left = idle.left;
                empty = idle.empty;
                running = idle.running;
                quiet = idle.quiet;
              },
            )
      ]

  -- A library that `xpdk_init_opts` has made, with nothing in flight before, can be ended:
  -- `xpdk_cleanup` returns, and leaves it not initialised, with no thread, no pool, no ring and no
  -- open descriptor.
  pub init_cleanup :
      (fuel : ℕ) (pthreads : Pthreads) (o : Opts) (s s' : Sys R P W)
      → Laws spdk queued available
      → IsFresh spdk queued available
      → s.initialized ≡ false
      → s.inflight ≡ []
      → init_opts spdk pthreads (some o) s ≡ some (success, s')
      → (s'' : Sys R P W) × (cleanup spdk (suc fuel) s' ≡ some s'')
        × (s''.initialized ≡ false)
        × (s''.spdk_thread_running ≡ false)
        × (s''.msg_pool ≡ none)
        × (s''.msg_ring ≡ none)
        × ((fd : ℤ) → get_device s''.devices fd ≡ none)
  init_cleanup fuel pthreads o s s' laws fresh new quiet e =
      let (init, idle) = init_opts-IsIdle pthreads o s s' fresh new quiet e in
      let (table, _, _, _) = init_opts_ready spdk pthreads o s s' new e in
      cleanup_ends spdk queued available fuel s' laws init idle table

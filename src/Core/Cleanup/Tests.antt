-- ===== src/Core/Cleanup/Tests.antt =====
-- The theorems on the end of the library, at concrete runs.
use libxpdk.Prelude.{ℕ, ◌≡◌, refl, true, false, none, some, List, [], ◌∷◌, arith, length, ℤ}
use libxpdk.State.{Sys}
use libxpdk.Api.{success}
use libxpdk.Core.Lifecycle.{
  cleared, set_cpu_affinity, thread_start, init_spdk_thread, cleanup, init_opts, Pthreads,
}
use libxpdk.Core.Idle.{IsIdle}
use libxpdk.Core.Cleanup.{cleanup_ends, Laws}
use libxpdk.Rig.{rig-IsFresh, rig-IsCounted, rig-IsRoomy, rig-IsFifo, rig_opts, ready, rig, World}
use libxpdk.Core.Devices.{get_device}
use libxpdk.Core.Life.{init_cleanup}
use libxpdk.Rig.Ready.{ready-IsTable}
use libxpdk.Core.Options.{set_defaults}

rig-Laws : Laws rig (λ r. r) length
rig-Laws = record { fifo = rig-IsFifo; roomy = rig-IsRoomy; counted = rig-IsCounted }

ready-IsIdle : IsIdle rig (λ r. r) length ready
ready-IsIdle = record {
  pool = 1 ∷ 2 ∷ 3 ∷ [];
  ring = [];
  has_pool = refl;
  has_ring = refl;
  left = omega arith;
  empty = refl;
  running = refl;
  quiet = refl;
}

cleanup_ends_example :
    (s' : Sys (List ℕ) (List ℕ) World) × (cleanup rig 1 ready ≡ some s')
    × (s'.initialized ≡ false)
    × (s'.spdk_thread_running ≡ false)
    × (s'.msg_pool ≡ none)
    × (s'.msg_ring ≡ none)
    × ((fd : ℤ) → get_device s'.devices fd ≡ none)
cleanup_ends_example =
    cleanup_ends rig (λ r. r) length 0 ready rig-Laws refl ready-IsIdle ready-IsTable

-- The rig before its library is initialised, and after
abbrev all_ok : Pthreads
all_ok = record { mutex_init = true; cond_init = true; create = true }

abbrev uninitialised : Sys (List ℕ) (List ℕ) World
uninitialised = record ready { initialized = false }

abbrev initialised : Sys (List ℕ) (List ℕ) World
initialised = elim (init_opts rig all_ok (some rig_opts) uninitialised) [
  | none ↦ uninitialised
  | some (rc, s) ↦ s
]

initialised_result :
    init_opts rig all_ok (some rig_opts) uninitialised ≡ some (success, initialised)
unfolding init_opts init_spdk_thread thread_start set_cpu_affinity cleared set_defaults
initialised_result = refl

init_cleanup_example :
    (s' : Sys (List ℕ) (List ℕ) World) × (cleanup rig 1 initialised ≡ some s')
    × (s'.initialized ≡ false)
    × (s'.spdk_thread_running ≡ false)
    × (s'.msg_pool ≡ none)
    × (s'.msg_ring ≡ none)
    × ((fd : ℤ) → get_device s'.devices fd ≡ none)
init_cleanup_example =
    init_cleanup rig (λ r. r) length 0 all_ok rig_opts uninitialised initialised rig-Laws
      rig-IsFresh refl refl initialised_result

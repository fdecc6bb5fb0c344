-- ===== src/Core/Tests.antt =====
-- The SPDK thread and its messages on the rig.
use libxpdk.Prelude.{arith, ℕ, ◌≡◌, refl, ◌↔◌, true, false, none, some, List, pos}
use libxpdk.State.{trim_msg, Sys, get_perf_stats_msg}
use libxpdk.Core.Lifecycle.{
  Pthreads, init_opts, init_spdk_thread, thread_start, set_cpu_affinity, cleared,
}
use libxpdk.Core.Initialized.{init_opts_reports}
use libxpdk.Core.Answered.{Answered}
use libxpdk.Core.Answered.Handlers.{dispatch-Answered, Usable}
use libxpdk.Rig.{open_device, rig_opts, World, rig, ready}
use libxpdk.Core.Devices.{get_device}
use libxpdk.Core.Messages.{fresh_msg, set_msg}
use libxpdk.Core.Poller.{dispatch}
use libxpdk.Api.{success}
use libxpdk.Core.Options.{set_defaults}

-- A message that asks for the statistics of slot 0
abbrev asking : Sys (List ℕ) (List ℕ) World
asking = set_msg 1 (record (fresh_msg get_perf_stats_msg) { fd = pos 0; stats = 50 }) ready

-- The rig before its library is initialised, and after
abbrev all_ok : Pthreads
all_ok = record { mutex_init = true; cond_init = true; create = true }

abbrev uninitialised : Sys (List ℕ) (List ℕ) World
uninitialised = record ready { initialized = false }

abbrev initialised : Sys (List ℕ) (List ℕ) World
initialised = elim (init_opts rig all_ok (some rig_opts) uninitialised) [
  | none ↦ uninitialised
  | some (rc, s) ↦ s
]

initialised_result :
    init_opts rig all_ok (some rig_opts) uninitialised ≡ some (success, initialised)
unfolding init_opts init_spdk_thread thread_start set_cpu_affinity cleared set_defaults
initialised_result = refl

init_opts_reports_example : (success ≡ success) ↔ (initialised.initialized ≡ true)
init_opts_reports_example =
    init_opts_reports rig all_ok (some rig_opts) uninitialised success initialised
      initialised_result

-- Slot 0 of the rig has its device and its descriptor.
asking-Usable : Usable rig 1 asking
unfolding get_device
asking-Usable j d found at =
    let j_0 : 0 ≡ j = ground (arith, found) in
    let d_disk : some open_device ≡ some d = rw (← j_0) at at in
    ((5, ground (arith, d_disk)), 1, ground (arith, d_disk))

dispatch-Answered_example : Answered 1 (dispatch rig trim_msg 1 asking)
dispatch-Answered_example = dispatch-Answered rig trim_msg 1 asking refl asking-Usable

-- ===== src/Core/Fifo/Tests.antt =====
-- The theorems on the order of messages, at a concrete ring.
use libxpdk.Prelude.{ℕ, ◌+◌, ◌≤◌, ◌≡◌, refl, some, List, [], ◌∷◌}
use libxpdk.State.{get_perf_stats_msg, Sys}
use libxpdk.Core.Poller.{dispatch, dequeue, poll_rounds}
use libxpdk.Rig.{rig-IsFifo, ready, rig, World}
use libxpdk.Core.Fifo.{poll_rounds-single_runs, single_runs, poll_rounds-Served}
use libxpdk.Core.Messages.{fresh_msg}
use libxpdk.Perf.Handlers.{handle_get_perf_stats}
use libxpdk.Core.Devices.{init_devices, get_device}
use libxpdk.Perf.Stats.{overall_rates}

-- Three requests for statistics in the ring
abbrev crowded : Sys (List ℕ) (List ℕ) World
crowded = record ready {
  msg_ring = some (1 ∷ 2 ∷ 3 ∷ []);
  msgs = λ m. record (fresh_msg get_perf_stats_msg) { stats = 40 + m };
}

poll_rounds-Served_example : (poll_rounds rig 2 crowded).0 ≤ 2
poll_rounds-Served_example = (poll_rounds-Served rig (λ r. r) rig-IsFifo 2 crowded).4

poll_rounds-single_runs_example : (poll_rounds rig 2 crowded).1 ≡ single_runs rig 2 crowded
unfolding poll_rounds dequeue dispatch handle_get_perf_stats get_device init_devices overall_rates
poll_rounds-single_runs_example = poll_rounds-single_runs rig 2 crowded refl

-- ===== src/Perf/Tests.antt =====
-- Statistics at concrete counts.
use libxpdk.Prelude.{◌≡◌, true, false, List, [], ◌∷◌, arith}
use libxpdk.Api.{io_read, io_write}
use libxpdk.Perf.Rates.{record_all_exact, tally_all, record_all, totals, Done, HasRoom}
use libxpdk.Core.Devices.{fresh_device}

abbrev history : List Done
history =
    record { kind = io_read; bytes = 8; latency = 3; ok = true; at = 10 }
    ∷ record { kind = io_write; bytes = 16; latency = 4; ok = false; at = 20 }
    ∷ []

history-HasRoom : HasRoom 2 24 (totals (fresh_device 0).perf_stats)
history-HasRoom = record {
  reads = omega arith;
  writes = omega arith;
  bytes_in = omega arith;
  bytes_out = omega arith;
  failures = omega arith;
}

record_all_exact_example :
    totals (record_all history (fresh_device 0)).perf_stats
    ≡ tally_all history (totals (fresh_device 0).perf_stats)
record_all_exact_example = record_all_exact history (fresh_device 0) history-HasRoom

-- ===== src/Perf/Rates.antt =====
-- Laws of the statistics of one device.
use libxpdk.Prelude.{
  ap, ◌∙◌, refl, length, ℕ, suc, ◌+◌, ◌*◌, ◌^◌, ◌≤◌, ◌<◌, min, ◌≡◌, ◌≢◌, Bool, true, false, List,
  [], ◌∷◌, arith,
}
use Prim.Native.Nat.{max}
use libxpdk.Api.{IoType, io_read, io_write, io_flush, other, PerfStats}
use libxpdk.State.{Device}
use libxpdk.Perf.Stats.{next_average, count_io, close_window, perf_stats_update}

-- From the second sample on, the moving average lies between the old average and the new sample,
-- while the weighted sum fits in 64 bits.
pub next_average_bounds :
    (ops avg latency : ℕ)
    → avg * 7 + latency < 2 ^ 64
    → ops ≢ 1
    → (min avg latency ≤ next_average ops avg latency)
      × (next_average ops avg latency ≤ max avg latency)
unfolding next_average
next_average_bounds ops avg latency fits later = ground arith

-- What the counters have seen: operations and bytes that succeeded, and failures.
pub record Totals : Type 0 where
  pub reads : ℕ
  pub writes : ℕ
  pub bytes_in : ℕ
  pub bytes_out : ℕ
  pub failures : ℕ

abbrev pub totals : PerfStats → Totals
totals st = record {
  reads = st.total_read_ops;
  writes = st.total_write_ops;
  bytes_in = st.total_bytes_read;
  bytes_out = st.total_bytes_written;
  failures = st.errors;
}

-- One finished operation: its kind, its bytes and whether it succeeded.
pub record Done : Type 0 where
  pub kind : IoType
  pub bytes : ℕ
  pub latency : ℕ
  pub ok : Bool
  pub at : ℕ

abbrev pub tally : Done → Totals → Totals
tally d t = elim d.ok [
  | false ↦ record t { failures = t.failures + 1 }
  | true ↦ elim d.kind [
    | io_read ↦ record t { reads = t.reads + 1; bytes_in = t.bytes_in + d.bytes }
    | io_write ↦ record t { writes = t.writes + 1; bytes_out = t.bytes_out + d.bytes }
    | io_flush ↦ t
    | other ↦ t
  ]
]

abbrev pub tally_all : List Done → Totals → Totals
tally_all [] t = t
tally_all (d ∷ ds) t = tally_all ds (tally d t)

abbrev pub record_all : List Done → Device → Device
record_all [] dev = dev
record_all (d ∷ ds) dev = record_all ds (perf_stats_update d.at d.kind d.bytes d.latency d.ok dev)

abbrev pub sum_bytes : List Done → ℕ
sum_bytes [] = 0
sum_bytes (d ∷ ds) = d.bytes + sum_bytes ds

-- Every counter leaves room for `k` more operations and `b` more bytes.
pub record HasRoom (k b : ℕ) (t : Totals) : Type 0 where
  pub reads : t.reads + k < 2 ^ 64
  pub writes : t.writes + k < 2 ^ 64
  pub bytes_in : t.bytes_in + b < 2 ^ 64
  pub bytes_out : t.bytes_out + b < 2 ^ 64
  pub failures : t.failures + k < 2 ^ 64

totals-close_window :
    (now : ℕ) (dev : Device) → totals (close_window now dev).perf_stats ≡ totals dev.perf_stats
unfolding close_window
totals-close_window now dev = ground arith

totals-count_io :
    (d : Done) (k b : ℕ) (st : PerfStats)
    → HasRoom (suc k) (d.bytes + b) (totals st)
    → (totals (count_io d.kind d.bytes d.latency d.ok st) ≡ tally d (totals st))
      × HasRoom k b (tally d (totals st))
unfolding count_io
totals-count_io d k b st room = ground arith

totals-perf_stats_update :
    (d : Done) (dev : Device)
    → totals (perf_stats_update d.at d.kind d.bytes d.latency d.ok dev).perf_stats
      ≡ totals (count_io d.kind d.bytes d.latency d.ok dev.perf_stats)
unfolding perf_stats_update
totals-perf_stats_update d dev = totals-close_window d.at _

-- Over any history of operations that `xpdk_perf_stats_update` is told of and that fits in the
-- counters, the five counters are exact: reads, writes, bytes read, bytes written, and failures.
pub record_all_exact :
    (ds : List Done) (dev : Device)
    → HasRoom (length ds) (sum_bytes ds) (totals dev.perf_stats)
    → totals (record_all ds dev).perf_stats ≡ tally_all ds (totals dev.perf_stats)
record_all_exact [] dev room = refl
record_all_exact (d ∷ ds) dev room =
    let (counted, left) = totals-count_io d (length ds) (sum_bytes ds) dev.perf_stats room in
    let dev' = perf_stats_update d.at d.kind d.bytes d.latency d.ok dev in
    let e : totals dev'.perf_stats ≡ tally d (totals dev.perf_stats) =
      totals-perf_stats_update d dev ∙ counted in
    record_all_exact ds dev' (rw e left) ∙ ap (tally_all ds) e

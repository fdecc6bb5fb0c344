-- ===== src/Perf/Stats.antt =====
-- xpdk_perf.c: the statistics of one device. Every sum, difference and product is one of
-- `uint64_t`, and the time of the call is an argument.
use libxpdk.Prelude.{ℕ, ◌+◌, ◌-◌, ◌*◌, ◌/◌, ◌%◌, ◌^◌, Bool, true, false, leb, ◌==◌, if◌then◌else◌}
use libxpdk.Api.{u64, IoType, io_read, io_write, io_flush, other, PerfStats, zero_stats}
use libxpdk.State.{Device}

-- `a - b`
abbrev pub sub64 : ℕ → ℕ → ℕ
sub64 a b = (a % 2 ^ 64 + 2 ^ 64 - b % 2 ^ 64) % 2 ^ 64

-- The window of `xpdk_perf_stats_update`, in microseconds
abbrev pub window_us : ℕ
window_us = 1000000

-- `get_time_us`, from the two fields that `gettimeofday` fills
unfoldable pub get_time_us : ℕ → ℕ → ℕ
get_time_us tv_sec tv_usec = u64 (tv_sec * 1000000 + tv_usec)

-- `xpdk_perf_stats_init`
unfoldable pub perf_stats_init : ℕ → Device → Device
perf_stats_init now dev = record dev { perf_stats = zero_stats; stats_start_time = now }

-- The new average after a sample, where `ops` counts that sample
unfoldable pub next_average : ℕ → ℕ → ℕ → ℕ
next_average ops avg latency = if ops == 1 then latency else u64 (avg * 7 + latency) / 8

-- The counters part of `xpdk_perf_stats_update`
unfoldable pub count_io : IoType → ℕ → ℕ → Bool → PerfStats → PerfStats
unfolding next_average
count_io io bytes latency false st = record st { errors = u64 (st.errors + 1) }
count_io io_read bytes latency true st =
    let ops = u64 (st.total_read_ops + 1) in
    record st {
      total_read_ops = ops;
      total_bytes_read = u64 (st.total_bytes_read + bytes);
      avg_read_latency_us = next_average ops st.avg_read_latency_us latency;
    }
count_io io_write bytes latency true st =
    let ops = u64 (st.total_write_ops + 1) in
    record st {
      total_write_ops = ops;
      total_bytes_written = u64 (st.total_bytes_written + bytes);
      avg_write_latency_us = next_average ops st.avg_write_latency_us latency;
    }
count_io io_flush bytes latency true st = st
count_io other bytes latency true st = st

abbrev pub total_ops : PerfStats → ℕ
total_ops st = u64 (st.total_read_ops + st.total_write_ops)

abbrev pub total_bytes : PerfStats → ℕ
total_bytes st = u64 (st.total_bytes_read + st.total_bytes_written)

-- `count * 1000000 / elapsed`
abbrev pub rate : ℕ → ℕ → ℕ
rate count elapsed = u64 (count * 1000000) / elapsed

-- The window part of `xpdk_perf_stats_update`
unfoldable pub close_window : ℕ → Device → Device
close_window now dev =
    let st = dev.perf_stats in
    let elapsed = sub64 now dev.stats_window_start in
    if leb window_us elapsed
    then record dev {
      perf_stats = record st {
        current_iops = rate (sub64 (total_ops st) dev.last_total_ops) elapsed;
        current_bandwidth = rate (sub64 (total_bytes st) dev.last_total_bytes) elapsed;
      };
      last_total_ops = total_ops st;
      last_total_bytes = total_bytes st;
      stats_window_start = now;
    }
    else dev

-- `xpdk_perf_stats_update`, at a device that is not NULL
unfoldable pub perf_stats_update : ℕ → IoType → ℕ → ℕ → Bool → Device → Device
unfolding count_io close_window
perf_stats_update now io bytes latency ok dev =
    close_window now (record dev { perf_stats = count_io io bytes latency ok dev.perf_stats })

-- The averages that `xpdk_spdk_handle_get_perf_stats` writes before it copies the statistics out
unfoldable pub overall_rates : ℕ → Device → Device
overall_rates now dev =
    let st = dev.perf_stats in
    let uptime = sub64 now dev.stats_start_time in
    if leb 1 uptime
    then record dev {
      perf_stats = record st {
        current_iops = if leb 1 (total_ops st) then rate (total_ops st) uptime else st.current_iops;
        current_bandwidth =
            if leb 1 (total_bytes st) then rate (total_bytes st) uptime else st.current_bandwidth;
      };
    }
    else dev

-- What `xpdk_spdk_handle_reset_perf_stats` does to the device
unfoldable pub perf_stats_reset : ℕ → Device → Device
perf_stats_reset now dev = record dev {
  perf_stats = zero_stats;
  stats_start_time = now;
  stats_window_start = now;
  last_total_ops = 0;
  last_total_bytes = 0;
}

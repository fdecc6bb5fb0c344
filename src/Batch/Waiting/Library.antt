-- ===== src/Batch/Waiting/Library.antt =====
-- `xpdk_batch_wait` on an idle library, with its own poll.
use libxpdk.Prelude.{
  Option, ℕ, zero, suc, ◌+◌, ◌*◌, ◌≤◌, ◌<◌, ◌≡◌, refl, ap, true, false, not, some, List, [], pos, ℤ,
}
use libxpdk.State.{Sys}
use libxpdk.Spdk.{IsFifo, Spdk}
use libxpdk.Batch.Wait.{batch_wait, Timespec}
use libxpdk.Batch.Timeout.{nanoseconds}
use libxpdk.Batch.Waiting.{Idles, batch_wait_times_out_in, idle_rounds}
use libxpdk.Core.Late.{thread_poll_quiet}
use libxpdk.Io.Calls.{poll}

module _ {R P W : Type 0} (spdk : Spdk R P W) (queued : R → List ℕ) (now : W → Timespec)
    (pass : W → W) where
  -- The clock and the short sleep of the call, which only lets time pass
  abbrev pub clock : Sys R P W → Timespec
  clock s = now s.world

  abbrev pub sleep : Sys R P W → Sys R P W
  sleep s = record s { world = pass s.world }

  -- `xpdk_batch_wait` of the library: it polls by `xpdk_poll`.
  abbrev pub library_wait : ℕ → ℤ → ℤ → Sys R P W → Option ℤ × Sys R P W
  library_wait fuel max_completions timeout s =
      batch_wait (poll spdk) clock sleep fuel max_completions timeout s

  -- The world after `k` sleeps
  abbrev pub passes : ℕ → W → W
  passes zero w = w
  passes (suc k) w = passes k (pass w)

  -- A library with nothing in its ring and nothing in flight.
  pub record IsQuiet (r : R) (s : Sys R P W) : Type 0 where
    pub initialized : s.initialized ≡ true
    pub ring : s.msg_ring ≡ some r
    pub empty : queued r ≡ []
    pub quiet : s.inflight ≡ []

  poll_quiet :
      (n : ℤ) (r : R) (s : Sys R P W)
      → IsFifo spdk queued
      → IsQuiet r s
      → poll spdk n s ≡ (pos 0, s)
  unfolding poll
  poll_quiet n r s fifo q =
      let off : not s.initialized ≡ false = rw q.initialized refl in
      let round = thread_poll_quiet spdk queued s r fifo q.ring q.empty q.quiet in
      rw (off, round) refl

  idle_rounds_quiet :
      (n k : ℕ) (r : R) (s : Sys R P W)
      → IsFifo spdk queued
      → IsQuiet r s
      → (poll spdk (pos n) (idle_rounds (poll spdk) clock sleep n k s)).1
        ≡ record s { world = passes k s.world }
  idle_rounds_quiet n zero r s fifo q = ap (λ c. c.1) (poll_quiet (pos n) r s fifo q)
  idle_rounds_quiet n (suc k) r s fifo q =
      let still = ap (λ c. c.1) (poll_quiet (pos n) r s fifo q) in
      let q' : IsQuiet r (sleep s) = record {
        initialized = q.initialized;
        ring = q.ring;
        empty = q.empty;
        quiet = q.quiet;
      } in
      rw still (idle_rounds_quiet n k r (sleep s) fifo q')

  -- On an initialised library with nothing in its ring and nothing in flight, where nobody else acts,
  -- `xpdk_batch_wait` with a timeout, which polls by `xpdk_poll`, returns 0 when the clock is past the
  -- timeout after `k` sleeps, to the nanosecond, for a clock whose nanoseconds are below a second at
  -- the start and then. `k` rounds and one more are enough.
  pub batch_wait_idle :
      (k fuel max_completions timeout : ℕ) (r : R) (s : Sys R P W)
      → IsFifo spdk queued
      → IsQuiet r s
      → 0 < max_completions
      → 0 < timeout
      → nanoseconds (now s.world) + timeout * 1000000 ≤ nanoseconds (now (passes k s.world))
      → (now s.world).tv_nsec < 1000000000
      → (now (passes k s.world)).tv_nsec < 1000000000
      → (library_wait (suc k + fuel) (pos max_completions) (pos timeout) s).0 ≡ some (pos 0)
  batch_wait_idle k fuel max_completions timeout r s fifo q some_max some_timeout past norm norm' =
      let end = idle_rounds_quiet max_completions k r s fifo q in
      let idles : Idles (poll spdk) clock sleep (IsQuiet r) max_completions = λ t q_t.
        let same = poll_quiet (pos max_completions) r t fifo q_t in
        (
          ap (λ c. c.0) same,
          rw same (record {
            initialized = q_t.initialized;
            ring = q_t.ring;
            empty = q_t.empty;
            quiet = q_t.quiet;
          }),
        ) in
      batch_wait_times_out_in (poll spdk) clock sleep (IsQuiet r) k fuel max_completions timeout s
        some_max some_timeout idles q (rw end past) norm (rw end norm')

-- ===== src/Batch/Timeout.antt =====
-- The deadline of `xpdk_batch_wait`, in nanoseconds.
use libxpdk.Prelude.{ℕ, ◌+◌, ◌*◌, ◌≤◌, ◌<◌, ◌≡◌, ◌↔◌, true, arith}
use libxpdk.Batch.Wait.{Timespec, is_due, deadline}

-- A time as one number, and the bound on its second field.
abbrev pub nanoseconds : Timespec → ℕ
nanoseconds t = t.tv_sec * 1000000000 + t.tv_nsec

deadline_exact :
    (start : Timespec) (timeout_ms : ℕ)
    → start.tv_nsec < 1000000000
    → (nanoseconds (deadline start timeout_ms) ≡ nanoseconds start + timeout_ms * 1000000)
      × ((deadline start timeout_ms).tv_nsec < 1000000000)
unfolding deadline
deadline_exact start timeout_ms h = ground arith

is_due_iff :
    (now limit : Timespec)
    → now.tv_nsec < 1000000000
    → limit.tv_nsec < 1000000000
    → (is_due now limit ≡ true) ↔ (nanoseconds limit ≤ nanoseconds now)
unfolding is_due
is_due_iff now limit h k = ground arith

-- `xpdk_batch_wait` finds its deadline due exactly when the timeout has passed since its start, to
-- the nanosecond, for times whose nanoseconds are below a second.
pub deadline_due :
    (start now : Timespec) (timeout_ms : ℕ)
    → start.tv_nsec < 1000000000
    → now.tv_nsec < 1000000000
    → (is_due now (deadline start timeout_ms) ≡ true)
      ↔ (nanoseconds start + timeout_ms * 1000000 ≤ nanoseconds now)
deadline_due start now timeout_ms h k =
    let (exact, bound) = deadline_exact start timeout_ms h in
    let iff = is_due_iff now (deadline start timeout_ms) k bound in rw exact at iff

-- ===== src/Batch/Wait.antt =====
-- xpdk_batch.c: `xpdk_batch_wait`, over any way to poll and any clock.
use libxpdk.Prelude.{
  ℕ, zero, suc, ◌+◌, ◌-◌, ◌*◌, ◌/◌, ◌%◌, Bool, ◌&&◌, ◌||◌, not, Option, none, some, ltb, leb, ◌==◌,
  if◌then◌else◌, ℤ, pos, is_neg, is_pos, eq_ℤ, pos_part,
}
use libxpdk.Api.{error_invalid}

-- `struct timespec`
pub record Timespec : Type 0 where
  pub tv_sec : ℕ
  pub tv_nsec : ℕ

-- The deadline: `timeout_ms` after now, with the carry of nanoseconds
unfoldable pub deadline : Timespec → ℕ → Timespec
deadline now timeout_ms =
    let sec = now.tv_sec + timeout_ms / 1000 in
    let nsec = now.tv_nsec + timeout_ms % 1000 * 1000000 in
    if leb 1000000000 nsec
    then record { tv_sec = sec + 1; tv_nsec = nsec - 1000000000 }
    else record { tv_sec = sec; tv_nsec = nsec }

-- The test that the deadline has come
unfoldable pub is_due : Timespec → Timespec → Bool
is_due now limit =
    ltb limit.tv_sec now.tv_sec || (now.tv_sec == limit.tv_sec && leb limit.tv_nsec now.tv_nsec)

module _ {S : Type 0} (poll : ℤ → S → ℤ × S) (clock : S → Timespec) (sleep : S → S) where
  -- The loop, with the rounds that are left; `none` is a wait that has not ended.
  unfoldable pub wait_loop : ℕ → ℕ → ℕ → ℕ → Timespec → S → Option ℤ × S
  wait_loop zero total limit timeout_ms until s = (none, s)
  wait_loop (suc fuel) total limit timeout_ms until s =
      let (completions, s₁) = poll (pos (limit - total)) s in
      let total' = total + pos_part completions in
      let more =
        wait_loop fuel total' limit timeout_ms until
          (if eq_ℤ completions (pos 0) then sleep s₁ else s₁) in
      if not (ltb total limit)
      then (some (pos total), s)
      else if is_neg completions
      then (some completions, s₁)
      else if eq_ℤ completions (pos 0) && ltb 0 timeout_ms && is_due (clock s₁) until
      then (some (pos total'), s₁)
      else more

  -- `xpdk_batch_wait`; a timeout that is not positive is none at all.
  unfoldable pub batch_wait : ℕ → ℤ → ℤ → S → Option ℤ × S
  unfolding wait_loop
  batch_wait fuel max_completions timeout s =
      if not (is_pos max_completions)
      then (some error_invalid, s)
      else wait_loop fuel 0 (pos_part max_completions) (pos_part timeout)
          (deadline (clock s) (pos_part timeout)) s

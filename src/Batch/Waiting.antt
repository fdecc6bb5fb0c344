-- ===== src/Batch/Waiting.antt =====
-- When xpdk_batch_wait returns, and with what.
pub mod Library
use libxpdk.Prelude.{
  ℕ, zero, suc, ◌+◌, ◌-◌, ◌*◌, ◌≤◌, ◌<◌, ◌≡◌, refl, ap, ◌∙◌, inl, inr, true, false, some, arith,
  ltb, Bool-cases, ℤ, pos, is_pos, pos_part,
}
use libxpdk.Batch.Wait.{is_due, deadline, wait_loop, batch_wait, Timespec}
use libxpdk.Batch.Timeout.{deadline_due, nanoseconds}

module _ {S : Type 0} (poll : ℤ → S → ℤ × S) (clock : S → Timespec) (sleep : S → S) where
  batch_wait_starts :
      (fuel n : ℕ) (timeout : ℤ) (s : S)
      → 0 < n
      → batch_wait poll clock sleep fuel (pos n) timeout s
        ≡ wait_loop poll clock sleep fuel 0 n
            (pos_part timeout)
            (deadline (clock s) (pos_part timeout))
            s
  unfolding batch_wait
  batch_wait_starts fuel n timeout s some_max =
      let ok : is_pos (pos n) ≡ true = ground (arith, some_max) in rw ok refl

  -- The state after `k` rounds that brought nothing
  abbrev pub idle_rounds : ℕ → ℕ → S → S
  idle_rounds n zero s = s
  idle_rounds n (suc k) s = idle_rounds n k (sleep (poll (pos n) s).1)

  -- A round that brings nothing ends the wait if the deadline has come, and is slept over if not.
  idle_round_due :
      (fuel limit timeout_ms : ℕ) (until : Timespec) (s : S)
      → 0 < limit
      → 0 < timeout_ms
      → (poll (pos limit) s).0 ≡ pos 0
      → is_due (clock (poll (pos limit) s).1) until ≡ true
      → (wait_loop poll clock sleep (suc fuel) 0 limit timeout_ms until s).0 ≡ some (pos 0)
  unfolding wait_loop
  idle_round_due fuel limit timeout_ms until s some_limit some_timeout nothing due =
      let more : ltb 0 limit ≡ true = ground arith in
      let timed : ltb 0 timeout_ms ≡ true = ground arith in
      let all : limit - 0 ≡ limit = omega arith in rw (more, all, nothing, timed, due) refl

  idle_round_later :
      (fuel limit timeout_ms : ℕ) (until : Timespec) (s : S)
      → 0 < limit
      → (poll (pos limit) s).0 ≡ pos 0
      → is_due (clock (poll (pos limit) s).1) until ≡ false
      → wait_loop poll clock sleep (suc fuel) 0 limit timeout_ms until s
        ≡ wait_loop poll clock sleep fuel 0 limit timeout_ms until (sleep (poll (pos limit) s).1)
  unfolding wait_loop
  idle_round_later fuel limit timeout_ms until s some_limit nothing early =
      let more : ltb 0 limit ≡ true = ground arith in
      let all : limit - 0 ≡ limit = omega arith in
      elim (Bool-cases (ltb 0 timeout_ms)) [
        | inl timed ↦ rw (more, all, nothing, timed, early) refl
        | inr ever ↦ rw (more, all, nothing, ever) refl
      ]

  -- In the states of `Q` a poll brings nothing, and a sleep after it stays in them.
  abbrev pub Idles : (S → Type 0) → ℕ → Type 0
  Idles Q limit =
      (t : S) → Q t → ((poll (pos limit) t).0 ≡ pos 0) × Q (sleep (poll (pos limit) t).1)

  wait_loop_times_out :
      (Q : S → Type 0) (k fuel limit timeout_ms : ℕ) (until : Timespec) (s : S)
      → 0 < limit
      → 0 < timeout_ms
      → Idles Q limit
      → Q s
      → is_due (clock (poll (pos limit) (idle_rounds limit k s)).1) until ≡ true
      → (wait_loop poll clock sleep (suc k + fuel) 0 limit timeout_ms until s).0 ≡ some (pos 0)
  wait_loop_times_out Q zero fuel limit timeout_ms until s some_limit some_timeout nothing quiet
        due =
      let e : suc zero + fuel ≡ suc fuel = omega arith in
      rw e (
        idle_round_due fuel limit timeout_ms until s some_limit some_timeout (nothing s quiet).0
          due)
  wait_loop_times_out Q (suc k) fuel limit timeout_ms until s some_limit some_timeout nothing quiet
        due =
      let e : suc (suc k) + fuel ≡ suc (suc k + fuel) = omega arith in
      elim (Bool-cases (is_due (clock (poll (pos limit) s).1) until)) [
        | inl now ↦ rw e (
            idle_round_due (suc k + fuel) limit timeout_ms until s some_limit some_timeout
              (nothing s quiet).0 now)
        | inr later ↦ rw e (
            ap (λ q. q.0)
              (idle_round_later (suc k + fuel) limit timeout_ms until s some_limit
                (nothing s quiet).0 later)
            ∙ wait_loop_times_out Q k fuel limit timeout_ms until (sleep (poll (pos limit) s).1)
                some_limit some_timeout nothing (nothing s quiet).1 due)
      ]

  -- A wait in states in which no poll brings anything: once the clock is past the deadline, it returns
  -- 0.
  pub batch_wait_times_out_in :
      (Q : S → Type 0) (k fuel max_completions timeout : ℕ) (s : S)
      → 0 < max_completions
      → 0 < timeout
      → Idles Q max_completions
      → Q s
      → nanoseconds (clock s) + timeout * 1000000
        ≤ nanoseconds (clock (poll (pos max_completions) (idle_rounds max_completions k s)).1)
      → (clock s).tv_nsec < 1000000000
      → (clock (poll (pos max_completions) (idle_rounds max_completions k s)).1).tv_nsec
        < 1000000000
      → (batch_wait poll clock sleep (suc k + fuel) (pos max_completions) (pos timeout) s).0
        ≡ some (pos 0)
  batch_wait_times_out_in Q k fuel max_completions timeout s some_max some_timeout nothing quiet
        past norm norm' =
      let start = clock s in
      let end = clock (poll (pos max_completions) (idle_rounds max_completions k s)).1 in
      let due = (deadline_due start end timeout norm norm').1 past in
      ap (λ q. q.0) (batch_wait_starts (suc k + fuel) max_completions (pos timeout) s some_max)
      ∙ wait_loop_times_out Q k fuel max_completions timeout (deadline start timeout) s some_max
          some_timeout nothing quiet due

  -- When no poll brings anything, `xpdk_batch_wait` with a timeout returns 0 as soon as the deadline
  -- has come at the end of a poll, at the latest in the round in which the clock is known to be past
  -- it, to the nanosecond, for a clock whose nanoseconds are below a second at the start and then.
  pub batch_wait_times_out :
      (k fuel max_completions timeout : ℕ) (s : S)
      → 0 < max_completions
      → 0 < timeout
      → ((t : S) → (poll (pos max_completions) t).0 ≡ pos 0)
      → nanoseconds (clock s) + timeout * 1000000
        ≤ nanoseconds (clock (poll (pos max_completions) (idle_rounds max_completions k s)).1)
      → (clock s).tv_nsec < 1000000000
      → (clock (poll (pos max_completions) (idle_rounds max_completions k s)).1).tv_nsec
        < 1000000000
      → (batch_wait poll clock sleep (suc k + fuel) (pos max_completions) (pos timeout) s).0
        ≡ some (pos 0)
  batch_wait_times_out k fuel max_completions timeout s some_max some_timeout nothing past norm
        norm' =
      batch_wait_times_out_in (λ _. Unit {0}) k fuel max_completions timeout s some_max some_timeout
        (λ t _. (nothing t, tt)) tt past norm norm'

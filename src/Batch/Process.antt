-- ===== src/Batch/Process.antt =====
-- What `xpdk_batch_process_completions` delivers, and what happens when nobody calls it.
use libxpdk.Prelude.{
  take-take_of_le, ℕ, zero, suc, ◌+◌, ◌-◌, ◌≤◌, ◌<◌, min, ◌≡◌, refl, sym, ap, ◌∙◌, true, false,
  ◌&&◌, none, some, List, [], ◌∷◌, map, arith, ltb, if◌then◌else◌, length, get_elem?, set, take,
  drop, length-set, get_elem?-set_self, length-take, drop-take, ℤ, pos_part,
}
use libxpdk.Api.{BatchIo, BatchCtx, Callback, is_null}
use libxpdk.State.{Call}
use libxpdk.Batch.Queues.{
  add_pending, shift_down, completion_callback, completion_call, process_completions,
}
use libxpdk.Batch.View.{
  pending_view, completed_view, IsValid, calls_from, process_loop_lem, take-shift_down,
  length-shift_down,
}

-- The call that reports one entry.
abbrev pub call_of : Callback → BatchIo → Call
call_of f io = record { function = f; context = io.user_ctx; status = io.status }

drop-get_elem? :
    (q : List BatchIo) (i : ℕ)
    → i < length q
    → (io : BatchIo) × (get_elem? q i ≡ some io) × (drop i q ≡ io ∷ drop (i + 1) q)
drop-get_elem? [] i h = absurd (omega arith)
drop-get_elem? (x ∷ q) zero h = (x, refl, refl)
drop-get_elem? (x ∷ q) (suc i) h =
    let (io, found, rest) = drop-get_elem? q i (omega arith) in
    let e : suc i + 1 ≡ suc (i + 1) = omega arith in (io, found, rw e rest)

calls_from-map :
    (c : BatchCtx) (from n : ℕ)
    → is_null c.global_callback ≡ false
    → from + n ≤ length c.completed_queue
    → calls_from c from n ≡ map (call_of c.global_callback) (take n (drop from c.completed_queue))
unfolding completion_call
calls_from-map c from zero set h = refl
calls_from-map c from (suc n) set h =
    let (io, found, rest) = drop-get_elem? c.completed_queue from (omega arith) in
    ground (arith, calls_from-map c (from + 1) n)

calls_from-null :
    (c : BatchCtx) (from n : ℕ) → is_null c.global_callback ≡ true → calls_from c from n ≡ []
unfolding completion_call
calls_from-null c from zero unset = refl
calls_from-null c from (suc n) unset = ground (arith, calls_from-null c (from + 1) n)

-- What one call of `xpdk_batch_process_completions` owes: it takes the oldest completed entries, as
-- many as asked for and there are, and reports those, in order, to a callback that is set.
pub record Delivers (c : BatchCtx) (limit : ℤ) (done : ℕ) (c' : BatchCtx) (calls : List Call)
    : Type 0 where
  pub count : done ≡ min (pos_part limit) (length (completed_view c))
  pub left : completed_view c' ≡ drop done (completed_view c)
  pub pending : pending_view c' ≡ pending_view c
  pub valid : IsValid c'
  pub silent : is_null c.global_callback ≡ true → calls ≡ []
  pub reported :
      is_null c.global_callback ≡ false
      → calls ≡ map (call_of c.global_callback) (take done (completed_view c))

-- The completed queue after a call that took `done` entries and left `left`.
moved : List BatchIo → ℕ → ℕ → List BatchIo
moved q done left = if ltb 0 left && ltb 0 done then shift_down q done left else q

take-moved :
    (q : List BatchIo) (done left : ℕ)
    → done + left ≤ length q
    → (take left (moved q done left) ≡ drop done (take (done + left) q))
      × (length (moved q done left) ≡ length q)
unfolding moved
take-moved q zero left h = ground (arith, drop-take 0 left q)
take-moved q (suc done) zero h = ground (arith, drop-take (suc done) 0 q)
take-moved q (suc done) (suc left) h = ground (
  arith,
  drop-take (suc done) (suc left) q,
  take-shift_down q (suc done) (suc left),
  length-shift_down q (suc done) (suc left),
)

process_completions_run :
    (c : BatchCtx) (limit : ℤ) (n : ℕ)
    → n ≡ min (pos_part limit) c.completed_ios
    → process_completions c limit ≡ (
      n,
      record c {
        completed_ios = c.completed_ios - n;
        completed_queue = moved c.completed_queue n (c.completed_ios - n);
      },
      calls_from c 0 n,
    )
unfolding process_completions moved
process_completions_run c limit n e =
    let loop = process_loop_lem c limit 0 c.completed_ios n (omega arith) in
    let e' : 0 + n ≡ n = omega arith in rw (loop, e')

-- `xpdk_batch_process_completions` takes the oldest completed entries, as many as asked for and
-- there are, and reports exactly those, in order, to a callback that is set; what is pending stays.
pub process_completions-Delivers :
    (c : BatchCtx) (limit : ℤ)
    → IsValid c
    → let (done, c', calls) = process_completions c limit in Delivers c limit done c' calls
process_completions-Delivers c limit v = rw (process_completions_run c limit n refl) (record {
  count = omega (arith, length-take c.completed_ios q);
  left = (take-moved q n left fits).0 ∙ ap (λ k. drop n (take k q)) all;
  pending = refl;
  valid = record {
    pending_size = v.pending_size;
    completed_size = (take-moved q n left fits).1 ∙ v.completed_size;
    pending_fits = v.pending_fits;
    completed_fits = omega (arith, v.completed_fits);
  };
  silent = calls_from-null c 0 n;
  reported = λ nonnull.
      calls_from-map c 0 n nonnull (omega (arith, v.completed_size, v.completed_fits))
      ∙ ap (map (call_of c.global_callback))
          (sym (take-take_of_le n c.completed_ios q (omega arith)));
})
  where
    q : List BatchIo
    q = c.completed_queue

    n : ℕ
    n = min (pos_part limit) c.completed_ios

    left : ℕ
    left = c.completed_ios - n

    all : n + left ≡ c.completed_ios
    all = omega arith

    fits : n + left ≤ length q
    fits = omega (arith, v.completed_size, v.completed_fits)

-- One submission and its completion, with nobody taking completions away.
abbrev pub round : BatchIo → ℤ → BatchCtx → BatchCtx
round io status c = elim (add_pending io c) [ none ↦ c | some c' ↦ completion_callback status c' ]

abbrev pub rounds : ℕ → BatchIo → ℤ → BatchCtx → BatchCtx
rounds zero io status c = c
rounds (suc n) io status c = rounds n io status (round io status c)

round_idle :
    (io : BatchIo) (status : ℤ) (c : BatchCtx)
    → 0 < c.max_ios
    → c.pending_ios ≡ 0
    → length c.pending_queue ≡ c.max_ios
    → let c' = round io status c in
      (c'.completed_ios ≡ c.completed_ios + 1)
      × (c'.pending_ios ≡ 0)
      × (c'.max_ios ≡ c.max_ios)
      × (length c'.pending_queue ≡ c.max_ios)
unfolding add_pending completion_callback
round_idle io status c room idle size = ground (
  arith,
  get_elem?-set_self c.pending_queue 0 io,
  length-set c.pending_queue 0 io,
  length-shift_down (set c.pending_queue 0 io) 1 0,
)

-- Nothing bounds the number of completed requests: on a context with nothing pending, `n`
-- submissions that complete, one after the other, and are not taken away add `n` to it, whatever
-- `max_ios` is.
pub rounds_overrun :
    (n : ℕ) (io : BatchIo) (status : ℤ) (c : BatchCtx)
    → 0 < c.max_ios
    → c.pending_ios ≡ 0
    → length c.pending_queue ≡ c.max_ios
    → (rounds n io status c).completed_ios ≡ c.completed_ios + n
rounds_overrun zero io status c room idle size = omega arith
rounds_overrun (suc n) io status c room idle size =
    let (one, idle', cap, size') = round_idle io status c room idle size in
    rounds_overrun n io status (round io status c) (rw cap room) idle' (size' ∙ sym cap)
    ∙ omega (arith, one)

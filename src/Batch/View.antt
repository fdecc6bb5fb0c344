-- ===== src/Batch/View.antt =====
-- A batch context as two queues: what is pending, oldest first, and what is complete, oldest first.
use libxpdk.Prelude.{
  min, pos_part, zero, take-take, ◌∙◌, take-append_of_le, length-drop, suc, drop, length-append,
  ◌<◌, ◌-◌, ℤ, ◌+◌, get_elem?, ℕ, ◌≤◌, ◌≡◌, ◌↔◌, none, some, List, [], ◌∷◌, ◌++◌, arith, length,
  take, length-set, length-take, take-set_next,
}
use libxpdk.Api.{BatchIo, BatchCtx}
use libxpdk.Batch.Queues.{
  completion_call, process_loop, shift_down, completion_callback, add_pending,
}
use libxpdk.State.{Call}

abbrev pub pending_view : BatchCtx → List BatchIo
pending_view c = take c.pending_ios c.pending_queue

abbrev pub completed_view : BatchCtx → List BatchIo
completed_view c = take c.completed_ios c.completed_queue

pub record IsValid (c : BatchCtx) : Type 0 where
  pub pending_size : length c.pending_queue ≡ c.max_ios
  pub completed_size : length c.completed_queue ≡ c.max_ios
  pub pending_fits : c.pending_ios ≤ c.max_ios
  pub completed_fits : c.completed_ios ≤ c.max_ios

-- A submission is refused exactly when `max_ios` are pending.
pub add_pending-none :
    (io : BatchIo) (c : BatchCtx)
    → IsValid c
    → (add_pending io c ≡ none) ↔ (length (pending_view c) ≡ c.max_ios)
unfolding add_pending
add_pending-none io c v = ground (arith, length-take c.pending_ios c.pending_queue)

-- One that is taken joins the pending queue at its end, and changes nothing else.
pub add_pending-some :
    (io : BatchIo) (c c' : BatchCtx)
    → IsValid c
    → add_pending io c ≡ some c'
    → (pending_view c' ≡ pending_view c ++ io ∷ [])
      × (completed_view c' ≡ completed_view c)
      × IsValid c'
unfolding add_pending
add_pending-some io c c' v e = ground (
  arith,
  take-set_next c.pending_queue c.pending_ios io,
  length-set c.pending_queue c.pending_ios io,
)

pub take-shift_down :
    (q : List BatchIo) (from n : ℕ)
    → from + n ≤ length q
    → take n (shift_down q from n) ≡ take n (drop from q)
take-shift_down q from n h =
    take-append_of_le n (take n (drop from q)) (drop n q)
      (omega (arith, length-take n (drop from q), length-drop from q))
    ∙ take-take n (drop from q)

pub length-shift_down :
    (q : List BatchIo) (from n : ℕ) → from + n ≤ length q → length (shift_down q from n) ≡ length q
length-shift_down q from n h = omega (
  arith,
  length-append (take n (drop from q)) (drop n q),
  length-take n (drop from q),
  length-drop from q,
  length-drop n q,
)

take-first :
    (q : List BatchIo) (n : ℕ) (io : BatchIo) (rest : List BatchIo)
    → take n q ≡ io ∷ rest
    → (get_elem? q 0 ≡ some io) × (take (n - 1) (drop 1 q) ≡ rest) × (0 < n)
take-first q zero io rest e = ground arith
take-first [] (suc n) io rest e = ground arith
take-first (x ∷ q) (suc n) io rest e =
    let e' : suc n - 1 ≡ n = omega arith in (ground arith, rw e' (cc), omega arith)

-- A completion moves the oldest pending request to the end of the completed ones, under the status
-- it came with, as long as the completed queue has room.
pub completion_callback-move :
    (status : ℤ) (c : BatchCtx) (io : BatchIo) (rest : List BatchIo)
    → IsValid c
    → pending_view c ≡ io ∷ rest
    → c.completed_ios < c.max_ios
    → let c' = completion_callback status c in
      (pending_view c' ≡ rest)
      × (completed_view c' ≡ completed_view c ++ record io { status = status } ∷ [])
      × IsValid c'
unfolding completion_callback
completion_callback-move status c io rest v e room =
    let (first, tail, some_pending) = take-first c.pending_queue c.pending_ios io rest e in
    let done : BatchIo = record io { status = status } in
    ground (
      arith,
      tail,
      first,
      some_pending,
      take-shift_down c.pending_queue 1 (c.pending_ios - 1),
      length-shift_down c.pending_queue 1 (c.pending_ios - 1),
      take-set_next c.completed_queue c.completed_ios done,
      length-set c.completed_queue c.completed_ios done,
    )

-- How many entries a call may take that has taken `processed` so far.
abbrev pub budget : ℤ → ℕ → ℕ
budget limit processed = pos_part limit - processed

-- The calls for the entries `from`, `from + 1`, …, `n` of them.
abbrev pub calls_from : BatchCtx → ℕ → ℕ → List Call
calls_from c from zero = []
calls_from c from (suc n) = completion_call c from ++ calls_from c (from + 1) n

pub process_loop_lem :
    (c : BatchCtx) (limit : ℤ) (processed left n : ℕ)
    → n ≡ min (budget limit processed) left
    → process_loop c limit processed left ≡ (processed + n, left - n, calls_from c processed n)
unfolding process_loop
process_loop_lem c limit processed zero zero e = ground arith
process_loop_lem c limit processed zero (suc n) e = absurd (omega arith)
process_loop_lem c limit processed (suc left) zero e = ground arith
process_loop_lem c limit processed (suc left) (suc n) e =
    ground (arith, process_loop_lem c limit (processed + 1) left n)

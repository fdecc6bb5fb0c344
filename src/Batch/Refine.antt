-- ===== src/Batch/Refine.antt =====
-- A batch context refines two queues without bounds or indices, over any history of its operations.
use libxpdk.Prelude.{
  ◌-◌, ℕ, ◌<◌, min, ◌≡◌, refl, none, some, List, [], ◌∷◌, ◌++◌, map, arith, ltb, if◌then◌else◌,
  length, take, drop, ℤ, pos_part,
}
use libxpdk.State.{Call}
use libxpdk.Api.{is_null, Callback, BatchIo, BatchCtx}
use libxpdk.Batch.View.{completed_view, IsValid, pending_view}
use libxpdk.Batch.Queues.{drop_pending, process_completions, add_pending, completion_callback}
use libxpdk.Batch.Process.{call_of}

-- What happens to a batch context: the two critical sections of `xpdk_batch_submit_one`, which takes
-- a request in and, after an asynchronous call that failed, out again; the completion of a request
-- under a status; and a call of `xpdk_batch_process_completions`.
pub data Op : Type 0 where
  submit : BatchIo → Op
  withdraw : Op
  complete : ℤ → Op
  process : ℤ → Op

-- One operation on the context, with the calls of the global callback.
abbrev pub step : Op → BatchCtx → BatchCtx × List Call
step (submit io) c = elim (add_pending io c) [ none ↦ (c, []) | some c' ↦ (c', []) ]
step withdraw c = (drop_pending c, [])
step (complete status) c = (completion_callback status c, [])
step (process limit) c = let (_, c', calls) = process_completions c limit in (c', calls)

abbrev pub run : List Op → BatchCtx → BatchCtx × List Call
run [] c = (c, [])
run (op ∷ ops) c =
    let (c₁, calls) = step op c in let (c₂, later) = run ops c₁ in (c₂, calls ++ later)

-- The specification: requests that wait, and requests that have finished, both oldest first.
pub record BatchQueues : Type 0 where
  pub waiting : List BatchIo
  pub finished : List BatchIo

abbrev pub view : BatchCtx → BatchQueues
view c = record { waiting = pending_view c; finished = completed_view c }

-- A completion finishes the oldest request that waits.
abbrev pub finish_first : ℤ → List BatchIo → List BatchIo → BatchQueues
finish_first status [] done = record { waiting = []; finished = done }
finish_first status (io ∷ rest) done = record {
  waiting = rest;
  finished = done ++ record io { status = status } ∷ [];
}

abbrev pub spec_step : ℕ → Callback → Op → BatchQueues → BatchQueues × List Call
spec_step max f (submit io) q =
    if ltb (length q.waiting) max
    then (record q { waiting = q.waiting ++ io ∷ [] }, [])
    else (q, [])
spec_step max f withdraw q = (record q { waiting = take (length q.waiting - 1) q.waiting }, [])
spec_step max f (complete status) q = (finish_first status q.waiting q.finished, [])
spec_step max f (process limit) q =
    let n = min (pos_part limit) (length q.finished) in
    (
      record q { finished = drop n q.finished },
      if is_null f then [] else map (call_of f) (take n q.finished),
    )

abbrev pub spec_run : ℕ → Callback → List Op → BatchQueues → BatchQueues × List Call
spec_run max f [] q = (q, [])
spec_run max f (op ∷ ops) q =
    let (q₁, calls) = spec_step max f op q in
    let (q₂, later) = spec_run max f ops q₁ in (q₂, calls ++ later)

-- The completed queue has room for each completion that comes in, and a request is taken out again
-- only while one waits.
abbrev pub RoomFor : ℕ → Op → BatchQueues → Type 0
RoomFor max (submit io) q = Unit {0}
RoomFor max withdraw q = 0 < length q.waiting
RoomFor max (complete status) q = length q.finished < max
RoomFor max (process limit) q = Unit {0}

abbrev pub RoomAlong : ℕ → Callback → List Op → BatchQueues → Type 0
RoomAlong max f [] q = Unit {0}
RoomAlong max f (op ∷ ops) q = RoomFor max op q × RoomAlong max f ops (spec_step max f op q).0

-- One operation of the context is one of the queues.
record Simulates (op : Op) (c : BatchCtx) : Type 0 where
  queues : view (step op c).0 ≡ (spec_step c.max_ios c.global_callback op (view c)).0
  calls : (step op c).1 ≡ (spec_step c.max_ios c.global_callback op (view c)).1
  valid : IsValid (step op c).0
  max : (step op c).0.max_ios ≡ c.max_ios
  callback : (step op c).0.global_callback ≡ c.global_callback

same_view :
    (q : BatchQueues) (a b : List BatchIo)
    → a ≡ q.waiting
    → b ≡ q.finished
    → record { waiting = a; finished = b } ≡ q
same_view q a b e e' = rw (e, e') refl

pub completion_callback-keeps :
    (status : ℤ) (c : BatchCtx)
    → ((completion_callback status c).max_ios ≡ c.max_ios)
      × ((completion_callback status c).global_callback ≡ c.global_callback)
unfolding completion_callback
completion_callback-keeps status c = (ground arith, ground arith)

pub add_pending-keeps :
    (io : BatchIo) (c c' : BatchCtx)
    → add_pending io c ≡ some c'
    → (c'.max_ios ≡ c.max_ios) × (c'.global_callback ≡ c.global_callback)
unfolding add_pending
add_pending-keeps io c c' e = (ground arith, ground arith)

-- ===== src/Batch/Queues.antt =====
-- xpdk_batch.c: the two queues of a batch context. The lock makes each of these one step.
use libxpdk.Prelude.{
  ℕ, zero, suc, ◌+◌, ◌-◌, Bool, true, false, ◌&&◌, ◌||◌, not, Option, none, some, List, [], ◌∷◌,
  ◌++◌, ltb, leb, if◌then◌else◌, get_elem?, set, take, drop, ℤ, is_neg, is_pos, pos_part,
}
use libxpdk.Api.{BatchIo, BatchCtx, is_null, null}
use libxpdk.State.{Call}

-- The largest `max_ios` that `xpdk_batch_init` takes
abbrev pub max_batch_ios : ℕ
max_batch_ios = 1024

-- The context that `xpdk_batch_init` fills in, over two arrays of `max_ios` cells that `malloc` gave
abbrev pub empty_ctx : ℕ → List BatchIo → List BatchIo → BatchCtx
empty_ctx max_ios pending completed = record {
  max_ios = max_ios;
  pending_ios = 0;
  completed_ios = 0;
  pending_queue = pending;
  completed_queue = completed;
  global_callback = null;
}

-- `xpdk_batch_init`: the arguments beside `max_ios` are the contents of what `malloc` gave for the
-- context and the two arrays, and whether the lock and the condition could be made.
unfoldable pub batch_init :
    ℤ → Bool → Option (List BatchIo) → Option (List BatchIo) → Bool → Bool → Option BatchCtx
batch_init max_ios ctx_ok pending completed lock_ok cond_ok =
    if not (is_pos max_ios) || ltb max_batch_ios (pos_part max_ios)
    then none
    else if not ctx_ok
    then none
    else elim pending [
      | none ↦ none
      | some p ↦ elim completed [
        | none ↦ none
        | some c ↦ if lock_ok && cond_ok then some (empty_ctx (pos_part max_ios) p c) else none
      ]
    ]

-- The first critical section of `xpdk_batch_submit_one`; `none` is XPDK_ERROR_BUSY.
unfoldable pub add_pending : BatchIo → BatchCtx → Option BatchCtx
add_pending io c =
    if leb c.max_ios c.pending_ios
    then none
    else some (record c {
      pending_queue = set c.pending_queue c.pending_ios io;
      pending_ios = c.pending_ios + 1;
    })

-- The second one, after a submission that failed: `pending_ios--`
unfoldable pub drop_pending : BatchCtx → BatchCtx
drop_pending c = record c { pending_ios = c.pending_ios - 1 }

-- `memmove(&q[0], &q[from], n cells)`
abbrev pub shift_down : List BatchIo → ℕ → ℕ → List BatchIo
shift_down q from n = take n (drop from q) ++ drop n q

-- `xpdk_batch_completion_callback`: its loop stops at the first entry. A write past the end of the
-- array is undefined in C and no write here; `View` says when it is in range.
unfoldable pub completion_callback : ℤ → BatchCtx → BatchCtx
completion_callback status c = elim (ltb 0 c.pending_ios) [
  | false ↦ c
  | true ↦ elim (get_elem? c.pending_queue 0) [
    | none ↦ c
    | some io ↦ record c {
      completed_queue = set c.completed_queue c.completed_ios (record io { status = status });
      completed_ios = c.completed_ios + 1;
      pending_queue = shift_down c.pending_queue 1 (c.pending_ios - 1);
      pending_ios = c.pending_ios - 1;
    }
  ]
]

-- The call of the global callback for the entry at an index, if there is a callback
unfoldable pub completion_call : BatchCtx → ℕ → List Call
completion_call c i =
    if is_null c.global_callback then [] else elim (get_elem? c.completed_queue i) [
      | none ↦ []
      | some io ↦
          record { function = c.global_callback; context = io.user_ctx; status = io.status } ∷ []
    ]

-- The loop of `xpdk_batch_process_completions`: it goes on while `completed_ios > 0` and
-- `processed < max_completions`. The result is `processed`, `completed_ios` and the calls.
unfoldable pub process_loop : BatchCtx → ℤ → ℕ → ℕ → ℕ × ℕ × List Call
unfolding completion_call
process_loop c limit processed zero = (processed, zero, [])
process_loop c limit processed (suc left) =
    let (done, left', calls) = process_loop c limit (processed + 1) left in
    if not (is_neg limit) && ltb processed (pos_part limit)
    then (done, left', completion_call c processed ++ calls)
    else (processed, suc left, [])

-- `xpdk_batch_process_completions`, at a context that is not NULL, when no completion comes in
-- while a callback runs: the count, the context and the calls
unfoldable pub process_completions : BatchCtx → ℤ → ℕ × BatchCtx × List Call
unfolding process_loop
process_completions c limit =
    let (done, left, calls) = process_loop c limit 0 c.completed_ios in
    let queue =
      if ltb 0 left && ltb 0 done
      then shift_down c.completed_queue done left
      else c.completed_queue in
    (done, record c { completed_ios = left; completed_queue = queue }, calls)

-- The wait of `xpdk_batch_cleanup`, while completions with these statuses come in; `none` is a wait
-- that goes on. The context is as it is freed.
unfoldable pub batch_cleanup : List ℤ → BatchCtx → Option BatchCtx
batch_cleanup [] c = if ltb 0 c.pending_ios then none else some c
batch_cleanup (status ∷ later) c =
    let rest = batch_cleanup later (completion_callback status c) in
    if ltb 0 c.pending_ios then rest else some c

-- ===== src/Batch/Cleanup.antt =====
-- When `xpdk_batch_cleanup` returns.
use libxpdk.Prelude.{
  suc, ◌+◌, ◌≤◌, ◌≡◌, refl, sym, ap, ◌∙◌, true, some, List, [], ◌∷◌, ◌++◌, arith, ltb, length,
  length-append, length-take, append-nil, append_assoc, ℤ,
}
use libxpdk.Api.{BatchCtx, BatchIo}
use libxpdk.Batch.Queues.{completion_callback, batch_cleanup}
use libxpdk.Batch.Refine.{completion_callback-keeps}
use libxpdk.Batch.View.{IsValid, completed_view, completion_callback-move, pending_view}

-- The requests that finish, each under its status.
abbrev pub finished : List BatchIo → List ℤ → List BatchIo
finished [] statuses = []
finished (io ∷ ios) [] = []
finished (io ∷ ios) (status ∷ statuses) = record io { status = status } ∷ finished ios statuses

length-pending_view : (c : BatchCtx) → IsValid c → length (pending_view c) ≡ c.pending_ios
length-pending_view c v =
    omega (arith, length-take c.pending_ios c.pending_queue, v.pending_fits, v.pending_size)

length-completed_view : (c : BatchCtx) → IsValid c → length (completed_view c) ≡ c.completed_ios
length-completed_view c v =
    omega (arith, length-take c.completed_ios c.completed_queue, v.completed_fits, v.completed_size)

cleanup_nothing :
    (statuses : List ℤ) (c : BatchCtx) → c.pending_ios ≡ 0 → batch_cleanup statuses c ≡ some c
unfolding batch_cleanup
cleanup_nothing [] c e = ground (arith, e)
cleanup_nothing (status ∷ later) c e = ground (arith, e)

cleanup_some :
    (statuses : List ℤ) (c : BatchCtx) (waiting : List BatchIo)
    → IsValid c
    → pending_view c ≡ waiting
    → c.completed_ios + c.pending_ios ≤ c.max_ios
    → c.pending_ios ≤ length statuses
    → (c' : BatchCtx) × (batch_cleanup statuses c ≡ some c')
      × (pending_view c' ≡ [])
      × (completed_view c' ≡ completed_view c ++ finished waiting statuses)
      × IsValid c'
unfolding batch_cleanup
cleanup_some statuses c [] v e room enough =
    let none_left : c.pending_ios ≡ 0 = omega (arith, length-pending_view c v, ap length e) in
    (c, cleanup_nothing statuses c none_left, e, sym (append-nil (completed_view c)), v)
cleanup_some [] c (io ∷ rest) v e room enough =
    absurd (omega (arith, length-pending_view c v, ap length e, enough))
cleanup_some (status ∷ later) c (io ∷ rest) v e room enough =
    let size : c.pending_ios ≡ suc (length rest) = sym (length-pending_view c v) ∙ ap length e in
    let (waiting, moved, valid) =
      completion_callback-move status c io rest v e (omega (arith, room, size)) in
    let c₁ = completion_callback status c in
    let (max, _) = completion_callback-keeps status c in
    let left : c₁.pending_ios ≡ length rest =
      sym (length-pending_view c₁ valid) ∙ ap length waiting in
    let one = length-append (completed_view c) (record io { status = status } ∷ []) in
    let done : c₁.completed_ios ≡ c.completed_ios + 1 =
      omega
        (arith, length-completed_view c₁ valid, length-completed_view c v, ap length moved, one) in
    let (c', ends, empty, all, v') =
      cleanup_some later c₁ rest valid waiting (omega (arith, room, max, left, done, size))
        (omega (arith, enough, left, size)) in
    let more : ltb 0 c.pending_ios ≡ true = ground (arith, size) in
    (
      c',
      rw (batch_cleanup, more) ends,
      empty,
      all
          ∙ ap (λ l. l ++ finished rest later) moved
          ∙ append_assoc (completed_view c) (record io { status = status } ∷ [])
              (finished rest later),
      v',
    )

-- `xpdk_batch_cleanup` returns, when as many completions have come in as there were requests pending
-- and the completed queue has room for them: nothing is pending any more, and the requests stand
-- behind those that had finished before, in order, each under the status of its completion.
pub batch_cleanup_ends :
    (statuses : List ℤ) (c : BatchCtx)
    → IsValid c
    → c.completed_ios + c.pending_ios ≤ c.max_ios
    → c.pending_ios ≤ length statuses
    → (c' : BatchCtx) × (batch_cleanup statuses c ≡ some c')
      × (pending_view c' ≡ [])
      × (completed_view c' ≡ completed_view c ++ finished (pending_view c) statuses)
      × IsValid c'
batch_cleanup_ends statuses c v room enough =
    cleanup_some statuses c (pending_view c) v refl room enough

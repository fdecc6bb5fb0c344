-- ===== src/Interleaving/Owners.antt =====
-- Where a message is, in an interleaving in which no synchronous call ends.
use libxpdk.Prelude.{
  ℕ, zero, suc, ◌+◌, ◌≤◌, ◌≡◌, refl, ap, inl, inr, Bool, true, false, ◌||◌, not, none, some, List,
  [], ◌∷◌, ◌++◌, arith, ◌==◌, if◌then◌else◌, Bool-cases, Option-cases, ℤ, eq_ℤ,
}
use libxpdk.State.{MsgType, batch_submit_msg, Msg, Event, Sys}
use libxpdk.Api.{success, is_null, Callback, BatchIo}
use libxpdk.Core.Owners.{
  in_flight, in_pool, busy, in_flight-append, deliver-owners, in_pool-msg_free, in_pool_ext,
}
use libxpdk.Core.Owners.Handlers.{dispatch-owners}
use libxpdk.Core.Fifo.{waiting, waiting-dequeue, dispatch_ring}
use libxpdk.Core.Frame.Thread.{dequeue-some}
use libxpdk.Interleaving.{Step, called, submitted, started, polled, reported, Reach, start, next}
use libxpdk.Spdk.{IsPool, IsFifo, Spdk, here}
use libxpdk.Core.Messages.{set_msg, msg_send_async, msg_alloc, msg_free, enqueue}
use libxpdk.Events.{deliver}
use libxpdk.Batch.Calls.{batch_submit}
use libxpdk.Core.Poller.{
  is_shutdown, count_message, dispatch, dequeue, poll_rounds, msg_process_poller,
}
use libxpdk.Io.Calls.{fill_io, async_io_call}
use libxpdk.Events.Frame.{Keeps-deliver}
use libxpdk.Core.Options.{max_batch}

-- How often a number stands in a list.
abbrev pub count : ℕ → List ℕ → ℕ
count x [] = 0
count x (y ∷ ys) = here y x + count x ys

count-append : (x : ℕ) (ys zs : List ℕ) → count x (ys ++ zs) ≡ count x ys + count x zs
count-append x [] zs = omega arith
count-append x (y ∷ ys) zs = omega (arith, count-append x ys zs)

module _ {R P W : Type 0} (spdk : Spdk R P W) (queued : R → List ℕ) (holds : P → ℕ → ℕ)
    (fifo : IsFifo spdk queued) (pool : IsPool spdk holds) where
  -- In how many places message `x` is: free in the pool, waiting in the ring, or in flight.
  abbrev pub owners : Sys R P W → ℕ → ℕ
  owners s x = busy spdk holds pool s x + count x (waiting spdk queued fifo s)

  waiting_ext :
      (s t : Sys R P W)
      → s.msg_ring ≡ t.msg_ring
      → waiting spdk queued fifo s ≡ waiting spdk queued fifo t
  waiting_ext s t e = ap (λ o. elim o as (λ _. List ℕ) [ none ↦ [] | some r ↦ queued r ]) e

  msg_free-ring : (m : ℕ) (s : Sys R P W) → (msg_free spdk m s).msg_ring ≡ s.msg_ring
  unfolding msg_free
  msg_free-ring m s = ground arith

  -- An allocation takes the message from the pool alone.
  msg_alloc-owners :
      (type : MsgType) (m x : ℕ) (s s₁ : Sys R P W)
      → msg_alloc spdk type s ≡ some (m, s₁)
      → (owners s x ≡ owners s₁ x + here m x)
        × (s₁.inflight ≡ s.inflight)
        × (s₁.msg_ring ≡ s.msg_ring)
  unfolding msg_alloc
  msg_alloc-owners type m x s s₁ e = elim (Option-cases s.msg_pool) [
    | inl h ↦ cc (rw (h, msg_alloc) at e)
    | inr (p, h) ↦ elim (Option-cases (spdk.mempool_get p)) [
      | inl h₁ ↦ cc (rw (msg_alloc, h, h₁) at e)
      | inr ((k, p'), h₁) ↦
          let k_m : k ≡ m = ground (arith, h, h₁) in
          let left : s₁.msg_pool ≡ some p' = ground (arith, h, h₁) in
          let events : s₁.inflight ≡ s.inflight = ground (arith, h, h₁) in
          let ring : s₁.msg_ring ≡ s.msg_ring = ground (arith, h, h₁) in
          let before : in_pool spdk holds pool s x ≡ holds p x = rw h refl in
          let after : in_pool spdk holds pool s₁ x ≡ holds p' x = rw left refl in
          let took = pool.taken p p' m x (rw (← k_m) h₁) in
          (
            omega (
              arith,
              before,
              after,
              took,
              ap (λ l. in_flight spdk holds pool l x) events,
              ap (count x) (waiting_ext s₁ s ring),
            ),
            events,
            ring,
          )
    ]
  ]

  enqueue-owners :
      (m x : ℕ) (s s₁ : Sys R P W)
      → enqueue spdk m s ≡ some s₁
      → owners s₁ x ≡ owners s x + here m x
  unfolding enqueue
  enqueue-owners m x s s₁ e = elim (Option-cases s.msg_ring) [
    | inl h ↦ cc (rw (h, enqueue) at e)
    | inr (r, h) ↦ elim (Option-cases (spdk.ring_enqueue r m)) [
      | inl h₁ ↦ cc (rw (enqueue, h, h₁) at e)
      | inr (r', h₁) ↦
          let ring : s₁.msg_ring ≡ some r' = ground (arith, h, h₁) in
          let events : s₁.inflight ≡ s.inflight = ground (arith, h, h₁) in
          let same : s₁.msg_pool ≡ s.msg_pool = ground (arith, h, h₁) in
          let before : waiting spdk queued fifo s ≡ queued r = rw h refl in
          let after : waiting spdk queued fifo s₁ ≡ queued r ++ m ∷ [] =
            rw (ring, fifo.enqueued r r' m h₁) refl in
          omega (
            arith,
            ap (count x) before,
            ap (count x) after,
            count-append x (queued r) (m ∷ []),
            in_pool_ext spdk holds pool s₁ s x same,
            ap (λ l. in_flight spdk holds pool l x) events,
          )
    ]
  ]

  msg_free-owners : (m x : ℕ) (s : Sys R P W) → owners (msg_free spdk m s) x ≤ owners s x + here m x
  msg_free-owners m x s =
      let (le, events) = in_pool-msg_free spdk holds pool m x s in
      omega (
        arith,
        le,
        ap (λ l. in_flight spdk holds pool l x) events,
        ap (count x) (waiting_ext (msg_free spdk m s) s (msg_free-ring m s)),
      )

  -- A message that is allocated, filled in and sent without waiting, or freed when the ring is full.
  send-owners :
      (type : MsgType) (v : Msg) (m x : ℕ) (s s₁ : Sys R P W)
      → msg_alloc spdk type s ≡ some (m, s₁)
      → let (rc, s₂) = msg_send_async spdk m (set_msg m v s₁) in
        owners (if eq_ℤ rc success then s₂ else msg_free spdk m s₂) x ≤ owners s x
  unfolding msg_send_async
  send-owners type v m x s s₁ e =
      let (alloc, events, ring) = msg_alloc-owners type m x s s₁ e in
      elim (Option-cases (enqueue spdk m (set_msg m v s₁))) [
        | inl full ↦
            rw (msg_send_async, full) (omega (arith, alloc, msg_free-owners m x (set_msg m v s₁)))
        | inr (s₂, sent) ↦
            rw (msg_send_async, sent)
              (omega (arith, alloc, enqueue-owners m x (set_msg m v s₁) s₂ sent))
      ]

  poll_rounds-owners : (n x : ℕ) (s : Sys R P W) → owners (poll_rounds spdk n s).1 x ≤ owners s x
  unfolding poll_rounds
  poll_rounds-owners zero x s = omega arith
  poll_rounds-owners (suc n) x s = elim (Option-cases (dequeue spdk s)) [
    | inl e ↦ rw (poll_rounds, e) (omega arith)
    | inr ((m, s₁), e) ↦
        let t = (s₁.msgs m).type in
        let s₂ = dispatch spdk t m (count_message spdk s₁) in
        let (_, r', _, _, shape) = dequeue-some spdk s s₁ m e in
        let same : s₁.msg_pool ≡ s.msg_pool = rw shape refl in
        let events : s₁.inflight ≡ s.inflight = rw shape refl in
        let first = waiting-dequeue spdk queued fifo s s₁ m e in
        let ring = waiting_ext s₂ s₁ (dispatch_ring spdk t m (count_message spdk s₁)) in
        let gain = dispatch-owners spdk holds pool t m x (count_message spdk s₁) in
        let step : owners s₂ x ≤ owners s x = omega (
          arith,
          gain,
          ap (count x) first,
          ap (count x) ring,
          in_pool_ext spdk holds pool s₁ s x same,
          ap (λ l. in_flight spdk holds pool l x) events,
        ) in
        elim (Bool-cases (is_shutdown t)) [
          | inl last ↦ rw (poll_rounds, e, last) step
          | inr more ↦ rw (poll_rounds, e, more) (omega (arith, step, poll_rounds-owners n x s₂))
        ]
  ]

  if-owners :
      (b : Bool) (i j : ℤ) (u v s : Sys R P W) (x : ℕ)
      → owners (if b then u else v) x ≤ owners s x
      → owners (if◌then◌else◌ {A = ℤ × Sys R P W} b (i, u) (j, v)).1 x ≤ owners s x
  if-owners true i j u v s x h = h
  if-owners false i j u v s x h = h

  async_io_call-owners :
      (type : MsgType) (fd : ℤ) (buffer count offset : ℕ) (f : Callback) (ctx x : ℕ) (s : Sys R P W)
      → owners (async_io_call spdk type fd buffer count offset f ctx s).1 x ≤ owners s x
  unfolding async_io_call
  async_io_call-owners type fd buffer count offset f ctx x s =
      elim (Bool-cases (not s.initialized || buffer == 0 || count == 0 || is_null f)) [
        | inl bad ↦ rw bad (omega arith)
        | inr good ↦ elim (Option-cases (msg_alloc spdk type s)) [
          | inl e ↦ rw (good, e) (omega arith)
          | inr ((m, s₁), e) ↦
              let v = fill_io fd buffer count offset f ctx (s₁.msgs m) in
              let sent = send-owners type v m x s s₁ e in
              let (rc, s₂) = msg_send_async spdk m (set_msg m v s₁) in
              rw (good, e) (if-owners (eq_ℤ rc success) success rc s₂ (msg_free spdk m s₂) s x sent)
        ]
      ]

  batch_submit-owners :
      (ios : List BatchIo) (f : Callback) (x : ℕ) (s : Sys R P W)
      → owners (batch_submit spdk ios f s).1 x ≤ owners s x
  unfolding batch_submit
  batch_submit-owners [] f x s = omega arith
  batch_submit-owners (io ∷ ios) f x s = elim (Option-cases (msg_alloc spdk batch_submit_msg s)) [
    | inl e ↦ rw (batch_submit, e) (omega arith)
    | inr ((m, s₁), e) ↦
        let v : Msg = record (s₁.msgs m) { ios = io ∷ ios; callback = f } in
        let sent = send-owners batch_submit_msg v m x s s₁ e in
        let (rc, s₂) = msg_send_async spdk m (set_msg m v s₁) in
        rw (batch_submit, e) (if-owners (eq_ℤ rc success) rc rc s₂ (msg_free spdk m s₂) s x sent)
  ]

  reported-owners :
      (before : List Event) (e : Event) (after : List Event) (x : ℕ) (s : Sys R P W)
      → s.inflight ≡ before ++ e ∷ after
      → owners (deliver spdk e (record s { inflight = before ++ after })) x ≤ owners s x
  reported-owners before e after x s shape =
      let s₁ = record s { inflight = before ++ after } in
      let (le, events) = deliver-owners spdk holds pool e x s₁ in
      let ring =
        waiting_ext (deliver spdk e s₁) s (ap (λ q. q.ring) (Keeps-deliver spdk e s₁).same) in
      let split = in_flight-append spdk holds pool before (e ∷ after) x in
      let split₁ = in_flight-append spdk holds pool before after x in
      let split₂ = in_flight-append spdk holds pool (e ∷ []) after x in
      omega (
        arith,
        le,
        split,
        split₁,
        split₂,
        ap (λ l. in_flight spdk holds pool l x) events,
        ap (λ l. in_flight spdk holds pool l x) shape,
        ap (count x) ring,
      )

  Step-owners : {s t : Sys R P W} → Step spdk s t → (x : ℕ) → owners t x ≤ owners s x
  unfolding msg_process_poller
  Step-owners {s} (called type fd buffer count offset f ctx e) x =
      rw e (async_io_call-owners type fd buffer count offset f ctx x s)
  Step-owners {s} (submitted ios f e) x = rw e (batch_submit-owners ios f x s)
  Step-owners {s} (started type fill m s₁ got sent) x =
      let (alloc, _, _) = msg_alloc-owners type m x s s₁ got in
      let queue = enqueue-owners m x (set_msg m (fill (s₁.msgs m)) s₁) _ sent in
      omega (arith, alloc, queue)
  Step-owners {s} (polled e) x = rw e (poll_rounds-owners (max_batch s.opts) x s)
  Step-owners {s} (reported before ev after shape e) x =
      rw e (reported-owners before ev after x s shape)

  Reach-owners : {s t : Sys R P W} → Reach spdk s t → (x : ℕ) → owners t x ≤ owners s x
  Reach-owners start x = omega arith
  Reach-owners (next r st) x = omega (arith, Reach-owners r x, Step-owners st x)

  -- Whatever the interleaving of asynchronous calls, bulk submissions, starts of synchronous calls,
  -- runs of the poller and completions, as long as no synchronous call ends, a message that a call
  -- gets from the pool is not in the ring, no asynchronous request in flight will put it back, and it
  -- is not in the pool a second time, if at the start it was in one place at most.
  pub allocated_is_free :
      {s t : Sys R P W} (type : MsgType) (m : ℕ) (t₁ : Sys R P W)
      → Reach spdk s t
      → owners s m ≤ 1
      → msg_alloc spdk type t ≡ some (m, t₁)
      → (in_pool spdk holds pool t₁ m ≡ 0)
        × (in_flight spdk holds pool t₁.inflight m ≡ 0)
        × (count m (waiting spdk queued fifo t₁) ≡ 0)
  allocated_is_free {t} type m t₁ r one got =
      let (alloc, _, _) = msg_alloc-owners type m m t t₁ got in
      let self : here m m ≡ 1 = ground arith in
      let all = Reach-owners r m in
      (
        omega (arith, alloc, self, all, one),
        omega (arith, alloc, self, all, one),
        omega (arith, alloc, self, all, one),
      )

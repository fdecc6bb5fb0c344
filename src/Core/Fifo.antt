-- ===== src/Core/Fifo.antt =====
-- The order in which the poller takes messages, and what its batch size changes.
mod Tests
use libxpdk.Prelude.{
  ℕ, zero, suc, ◌≤◌, ◌≡◌, refl, sym, ap, ◌∙◌, ◌⊎◌, inl, inr, true, false, none, some, List, [], ◌∷◌,
  ◌++◌, arith, Bool-cases, Option-cases, length,
}
use libxpdk.State.{MsgType, shutdown_msg, Sys}
use libxpdk.Core.Frame.Thread.{dequeue-some, dispatch-Keeps}
use libxpdk.Spdk.{IsFifo, Spdk}
use libxpdk.Core.Poller.{is_shutdown, count_message, poll_rounds, dequeue, dispatch}

module _ {R P W : Type 0} (spdk : Spdk R P W) where
  -- A run of the poller with a batch of at most `n`, over some messages: each is taken from the ring
  -- and dispatched, in turn. It ends at the bound, at a ring with nothing to take, or right after a
  -- shutdown message, and goes on after any other.
  pub data Served : ℕ → Sys R P W → List ℕ → Sys R P W → Type 0 where
    full : (s : Sys R P W) → Served 0 s [] s
    empty : (n : ℕ) (s : Sys R P W) → dequeue spdk s ≡ none → Served (suc n) s [] s
    last :
        (n : ℕ) (s s₁ : Sys R P W) (m : ℕ)
        → dequeue spdk s ≡ some (m, s₁)
        → is_shutdown (s₁.msgs m).type ≡ true
        → Served (suc n) s (m ∷ []) (dispatch spdk (s₁.msgs m).type m (count_message spdk s₁))
    serve :
        (n : ℕ) (s s₁ s' : Sys R P W) (m : ℕ) (ms : List ℕ)
        → dequeue spdk s ≡ some (m, s₁)
        → is_shutdown (s₁.msgs m).type ≡ false
        → Served n (dispatch spdk (s₁.msgs m).type m (count_message spdk s₁)) ms s'
        → Served (suc n) s (m ∷ ms) s'

  dispatch_shutdown :
      (t : MsgType) (m : ℕ) (s : Sys R P W)
      → is_shutdown t ≡ true
      → ((dispatch spdk t m s).msg_ring ≡ s.msg_ring)
        × ((dispatch spdk t m s).spdk_thread_running ≡ false)
  unfolding dispatch
  dispatch_shutdown shutdown_msg m s e = (refl, refl)
  dispatch_shutdown _ m s e = cc

  pub dispatch_ring :
      (t : MsgType) (m : ℕ) (s : Sys R P W) → (dispatch spdk t m s).msg_ring ≡ s.msg_ring
  dispatch_ring t m s = elim (Bool-cases (is_shutdown t)) [
    | inl e ↦ (dispatch_shutdown t m s e).0
    | inr e ↦ ap (λ q. q.ring) (dispatch-Keeps spdk t m s e).same
  ]

  module _ (queued : R → List ℕ) (fifo : IsFifo spdk queued) where
    -- The messages that wait in the ring, oldest first.
    abbrev pub waiting : Sys R P W → List ℕ
    waiting s = elim s.msg_ring [ none ↦ [] | some r ↦ queued r ]

    pub waiting-dequeue :
        (s s₁ : Sys R P W) (m : ℕ) → dequeue spdk s ≡ some (m, s₁) → waiting s ≡ m ∷ waiting s₁
    waiting-dequeue s s₁ m e =
        let (r, r', ring, out, shape) = dequeue-some spdk s s₁ m e in
        let after : s₁.msg_ring ≡ some r' = rw shape in
        rw (ring, after) (fifo.dequeued_some r r' m out)

    waiting-none : (s : Sys R P W) → dequeue spdk s ≡ none → waiting s ≡ []
    unfolding dequeue
    waiting-none s e = elim (Option-cases s.msg_ring) [
      | inl h ↦ rw h refl
      | inr (r, h) ↦ elim (Option-cases (spdk.ring_dequeue r)) [
        | inl out ↦ rw h (fifo.dequeued_none r out)
        | inr ((m, r'), out) ↦ cc (rw (h, dequeue, out) at e)
      ]
    ]

    later_stop :
        (k n : ℕ) (s : Sys R P W)
        → ((k ≡ n) ⊎ (waiting s ≡ []) ⊎ (s.spdk_thread_running ≡ false))
        → ((suc k ≡ suc n) ⊎ (waiting s ≡ []) ⊎ (s.spdk_thread_running ≡ false))
    later_stop k n s (inl e) = inl (ap suc e)
    later_stop k n s (inr h) = inr h

    -- A run of the poller with a batch of `n`: it takes the oldest messages of the ring, in order,
    -- and dispatches each. It goes on until `n` are taken, the ring is empty, or a shutdown message has
    -- been dispatched, and not beyond; the number that it reports is that of the messages.
    pub poll_rounds-Served :
        (n : ℕ) (s : Sys R P W)
        → let (k, s') = poll_rounds spdk n s in
          (ms : List ℕ) × Served n s ms s'
          × (waiting s ≡ ms ++ waiting s')
          × (length ms ≡ k)
          × (k ≤ n)
          × ((k ≡ n) ⊎ (waiting s' ≡ []) ⊎ (s'.spdk_thread_running ≡ false))
    unfolding poll_rounds
    poll_rounds-Served zero s = ([], full s, refl, refl, omega arith, inl refl)
    poll_rounds-Served (suc n) s = elim (Option-cases (dequeue spdk s)) [
      | inl e ↦
          rw (poll_rounds, e)
            ([], empty n s e, refl, refl, omega arith, inr (inl (waiting-none s e)))
      | inr ((m, s₁), e) ↦
          let t = (s₁.msgs m).type in
          let s₂ = dispatch spdk t m (count_message spdk s₁) in
          let first = waiting-dequeue s s₁ m e in
          let same : waiting s₂ ≡ waiting s₁ =
            ap (λ o. elim o as (λ _. List ℕ) [ none ↦ [] | some r ↦ queued r ])
              (dispatch_ring t m (count_message spdk s₁)) in
          elim (Bool-cases (is_shutdown t)) [
            | inl last_one ↦
                rw (poll_rounds, e, last_one)
                  (
                    m ∷ [],
                    last n s s₁ m e last_one,
                    first ∙ ap (◌∷◌ m) (sym same),
                    refl,
                    omega arith,
                    inr (inr (dispatch_shutdown t m (count_message spdk s₁) last_one).1),
                  )
            | inr more ↦
                let (ms, served, order, count, le, stop) = poll_rounds-Served n s₂ in
                rw (poll_rounds, e, more)
                  (
                    m ∷ ms,
                    serve n s s₁ _ m ms e more served,
                    first ∙ ap (◌∷◌ m) (sym same ∙ order),
                    ap suc count,
                    omega (arith, le),
                    later_stop (poll_rounds spdk n s₂).0 n (poll_rounds spdk n s₂).1 stop,
                  )
          ]
    ]

  -- `n` runs of a poller that takes one message at a time.
  abbrev pub single_runs : ℕ → Sys R P W → Sys R P W
  single_runs zero s = s
  single_runs (suc n) s = single_runs n (poll_rounds spdk 1 s).1

  single_runs_idle : (n : ℕ) (s : Sys R P W) → dequeue spdk s ≡ none → single_runs n s ≡ s
  unfolding poll_rounds
  single_runs_idle zero s e = refl
  single_runs_idle (suc n) s e =
      let one : (poll_rounds spdk 1 s).1 ≡ s = rw (poll_rounds, e) refl in
      rw one (single_runs_idle n s e)

  -- The batch size is an optimisation: where no shutdown ends it early, a run with a batch of `n`,
  -- as in turbo mode, leaves the state of `n` runs with a batch of one.
  pub poll_rounds-single_runs :
      (n : ℕ) (s : Sys R P W)
      → (poll_rounds spdk n s).1.spdk_thread_running ≡ true
      → (poll_rounds spdk n s).1 ≡ single_runs n s
  unfolding poll_rounds
  poll_rounds-single_runs zero s on = refl
  poll_rounds-single_runs (suc n) s on = elim (Option-cases (dequeue spdk s)) [
    | inl e ↦
        let still : (poll_rounds spdk (suc n) s).1 ≡ s = rw (poll_rounds, e) refl in
        still ∙ sym (single_runs_idle (suc n) s e)
    | inr ((m, s₁), e) ↦
        let t = (s₁.msgs m).type in
        let s₂ = dispatch spdk t m (count_message spdk s₁) in
        elim (Bool-cases (is_shutdown t)) [
          | inl halt ↦
              let off : (poll_rounds spdk (suc n) s).1.spdk_thread_running ≡ false =
                rw (poll_rounds, e, halt) (dispatch_shutdown t m (count_message spdk s₁) halt).1 in
              cc
          | inr more ↦
              let one : (poll_rounds spdk 1 s).1 ≡ s₂ = rw (poll_rounds, e, more) refl in
              let rest : (poll_rounds spdk (suc n) s).1 ≡ (poll_rounds spdk n s₂).1 =
                rw (poll_rounds, e, more) refl in
              rest ∙ poll_rounds-single_runs n s₂ (rw rest at on) ∙ ap (single_runs n) (sym one)
        ]
  ]

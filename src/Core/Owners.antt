-- ===== src/Core/Owners.antt =====
-- Who has a message: the pool, or an asynchronous request in flight. What completions do to that.
pub mod Handlers
use libxpdk.Prelude.{
  ℕ, ◌+◌, ◌≤◌, ◌≡◌, refl, ap, ◌∙◌, inl, inr, Bool, none, some, List, [], ◌∷◌, ◌++◌, arith, ◌==◌,
  if◌then◌else◌, Bool-cases, Option-cases, ℤ,
}
use libxpdk.State.{Event, sync_io, async_io, opened, qos_set, Sys}
use libxpdk.Api.{error_io, success, Callback, null, user, batch_completion, vectored_completion}
use libxpdk.Spdk.{here, IsPool, Spdk}
use libxpdk.Events.{
  qos_set_limits_complete, bdev_open_complete, sync_io_completion_cb, run_callback, deliver,
  wait_sync, wait_events, async_io_completion_cb,
}
use libxpdk.Core.Messages.{msg_free}
use libxpdk.Dma.{dma_free, free_buffer}

module _ {R P W : Type 0} (spdk : Spdk R P W) (holds : P → ℕ → ℕ) (pool : IsPool spdk holds) where
  -- How often message `x` is among the free elements of the pool.
  abbrev pub in_pool : Sys R P W → ℕ → ℕ
  in_pool s x = elim s.msg_pool [ none ↦ 0 | some p ↦ holds p x ]

  -- How many asynchronous requests in flight will put message `x` back.
  abbrev pub in_flight : List Event → ℕ → ℕ
  in_flight [] x = 0
  in_flight (async_io req m ∷ es) x = here m x + in_flight es x
  in_flight (sync_io req m bytes ∷ es) x = in_flight es x
  in_flight (opened m ∷ es) x = in_flight es x
  in_flight (qos_set m ∷ es) x = in_flight es x

  pub in_pool_ext : (s t : Sys R P W) (x : ℕ) → s.msg_pool ≡ t.msg_pool → in_pool s x ≡ in_pool t x
  in_pool_ext s t x e = ap (λ o. elim o as (λ _. ℕ) [ none ↦ 0 | some p ↦ holds p x ]) e

  pub in_flight-append :
      (es fs : List Event) (x : ℕ) → in_flight (es ++ fs) x ≡ in_flight es x + in_flight fs x
  in_flight-append [] fs x = omega arith
  in_flight-append (async_io req m ∷ es) fs x = omega (arith, in_flight-append es fs x)
  in_flight-append (sync_io req m bytes ∷ es) fs x = in_flight-append es fs x
  in_flight-append (opened m ∷ es) fs x = in_flight-append es fs x
  in_flight-append (qos_set m ∷ es) fs x = in_flight-append es fs x

  -- The pool and the work in flight stay as they are.
  abbrev Idles : Sys R P W → Sys R P W → Type 0
  Idles s s' = (s'.msg_pool ≡ s.msg_pool) × (s'.inflight ≡ s.inflight)

  run_callback-Idles :
      (f : Callback) (ctx : ℕ) (status : ℤ) (s : Sys R P W)
      → Idles s (run_callback spdk f ctx status s)
  unfolding run_callback free_buffer
  run_callback-Idles null ctx status s = (refl, refl)
  run_callback-Idles (user f) ctx status s = (refl, refl)
  run_callback-Idles batch_completion ctx status s = (refl, refl)
  run_callback-Idles vectored_completion ctx status s = (ground arith, ground arith)

  pub in_pool-msg_free :
      (m x : ℕ) (s : Sys R P W)
      → (in_pool (msg_free spdk m s) x ≤ in_pool s x + here m x)
        × ((msg_free spdk m s).inflight ≡ s.inflight)
  unfolding msg_free
  in_pool-msg_free m x s = elim (Option-cases s.msg_pool) [
    | inl e ↦ (ground (arith, e), ground arith)
    | inr (p, e) ↦ (ground (arith, e, pool.put p m x), ground arith)
  ]

  async_completion_owners :
      (m x : ℕ) (ok : Bool) (s : Sys R P W)
      → let s' = async_io_completion_cb spdk m ok s in
        (in_pool s' x ≤ in_pool s x + here m x) × (s'.inflight ≡ s.inflight)
  unfolding async_io_completion_cb
  async_completion_owners m x ok s =
      let msg = s.msgs m in
      let s₁ = run_callback spdk msg.callback msg.user_ctx (if ok then success else error_io) s in
      let s₂ : Sys R P W = if msg.ctx == 0 then s₁ else dma_free spdk msg.ctx s₁ in
      let (same, left) =
        run_callback-Idles msg.callback msg.user_ctx (if ok then success else error_io) s in
      let freed = in_pool-msg_free m x s₂ in
      let pool₂ : s₂.msg_pool ≡ s.msg_pool = ground (arith, same) in
      let left₂ : s₂.inflight ≡ s.inflight = ground (arith, left) in
      (omega (arith, freed.0, in_pool_ext s₂ s x pool₂), freed.1 ∙ left₂)

  -- A completion puts at most its own message back, and starts no work.
  pub deliver-owners :
      (e : Event) (x : ℕ) (s : Sys R P W)
      → let s' = deliver spdk e s in
        (in_pool s' x ≤ in_pool s x + in_flight (e ∷ []) x) × (s'.inflight ≡ s.inflight)
  unfolding deliver sync_io_completion_cb bdev_open_complete qos_set_limits_complete
  deliver-owners (sync_io req m bytes) x s = (omega arith, refl)
  deliver-owners (async_io req m) x s =
      let (ok, memory, w) = spdk.perform s.world s.memory req in
      let (le, same) = async_completion_owners m x ok (record s { memory = memory; world = w }) in
      (omega (arith, le), same)
  deliver-owners (opened m) x s = (ground arith, ground arith)
  deliver-owners (qos_set m) x s = (omega arith, refl)

  wait_events-owners :
      (m x : ℕ) (es : List Event) (s : Sys R P W)
      → s.inflight ≡ es
      → let s' = wait_events spdk m es s in
        in_pool s' x + in_flight s'.inflight x ≤ in_pool s x + in_flight es x
  unfolding wait_events
  wait_events-owners m x [] s e = rw e (omega arith)
  wait_events-owners m x (ev ∷ es) s e = elim (Bool-cases (s.sync_completed m)) [
    | inl h ↦ rw h (omega (arith, ap (λ l. in_flight l x) e))
    | inr h ↦
        let s₁ = record s { inflight = es } in
        let (le, same) = deliver-owners ev x s₁ in
        let rest = wait_events-owners m x es (deliver spdk ev s₁) same in
        let split : in_flight (ev ∷ es) x ≡ in_flight (ev ∷ []) x + in_flight es x =
          in_flight-append (ev ∷ []) es x in
        rw h (omega (arith, le, rest, split))
  ]

  -- What the pool and the work in flight have of message `x` together.
  abbrev pub busy : Sys R P W → ℕ → ℕ
  busy s x = in_pool s x + in_flight s.inflight x

  pub wait_sync-owners : (m x : ℕ) (s : Sys R P W) → busy (wait_sync spdk m s) x ≤ busy s x
  unfolding wait_sync
  wait_sync-owners m x s = wait_events-owners m x s.inflight s refl

-- ===== src/Core/Answered.antt =====
-- No handler loses its message: when the dispatch is over, the message is complete or work is in
-- flight for it.
pub mod Handlers
use libxpdk.Prelude.{
  ℕ, ◌+◌, ◌<◌, ◌≡◌, refl, ◌⊎◌, inl, inr, Bool, true, false, List, [], ◌∷◌, ◌++◌, arith,
  if◌then◌else◌, Bool-cases, ℤ,
}
use libxpdk.State.{Sys, Event, sync_io, async_io, opened, qos_set, Request}
use libxpdk.Api.{success, error_io, Callback, null, user, batch_completion, vectored_completion}
use libxpdk.Spdk.{here, Spdk}
use libxpdk.Dma.{dma_free, free_buffer}
use libxpdk.Core.Messages.{msg_free}
use libxpdk.Events.{
  run_callback, deliver, wait_events, wait_sync, sync_io_completion_cb, async_io_completion_cb,
  bdev_open_complete, qos_set_limits_complete,
}
use libxpdk.Io.Wait.{sync_completed-async_io_completion_cb, wait_sync-completed}

-- How many pieces of work in flight are for message `m`.
abbrev pub works : ℕ → List Event → ℕ
works m [] = 0
works m (sync_io req n bytes ∷ es) = here n m + works m es
works m (async_io req n ∷ es) = here n m + works m es
works m (opened n ∷ es) = here n m + works m es
works m (qos_set n ∷ es) = here n m + works m es

pub works-append : (m : ℕ) (es fs : List Event) → works m (es ++ fs) ≡ works m es + works m fs
works-append m [] fs = omega arith
works-append m (sync_io req n bytes ∷ es) fs = omega (arith, works-append m es fs)
works-append m (async_io req n ∷ es) fs = omega (arith, works-append m es fs)
works-append m (opened n ∷ es) fs = omega (arith, works-append m es fs)
works-append m (qos_set n ∷ es) fs = omega (arith, works-append m es fs)

module _ {R P W : Type 0} where
  -- The message is complete, or work is in flight for it.
  abbrev pub Answered : ℕ → Sys R P W → Type 0
  Answered m s = ((s.msgs m).completed ≡ true) ⊎ (0 < works m s.inflight)

module _ {R P W : Type 0} (spdk : Spdk R P W) where
  -- A wait that is over has left its message complete.
  abbrev Seen : ℕ → Sys R P W → Type 0
  Seen m s = s.sync_completed m ≡ true → (s.msgs m).completed ≡ true

  msgs-run_callback :
      (f : Callback) (ctx : ℕ) (status : ℤ) (s : Sys R P W)
      → (run_callback spdk f ctx status s).msgs ≡ s.msgs
  unfolding run_callback free_buffer
  msgs-run_callback null ctx status s = refl
  msgs-run_callback (user f) ctx status s = refl
  msgs-run_callback batch_completion ctx status s = refl
  msgs-run_callback vectored_completion ctx status s = ground arith

  msgs-msg_free : (m : ℕ) (s : Sys R P W) → (msg_free spdk m s).msgs ≡ s.msgs
  unfolding msg_free
  msgs-msg_free m s = ground arith

  msgs-async_io_completion_cb :
      (m : ℕ) (ok : Bool) (s : Sys R P W) → (async_io_completion_cb spdk m ok s).msgs ≡ s.msgs
  unfolding async_io_completion_cb
  msgs-async_io_completion_cb m ok s =
      let status : ℤ = if ok then success else error_io in
      let s₁ = run_callback spdk (s.msgs m).callback (s.msgs m).user_ctx status s in
      ground (
        arith,
        msgs-run_callback (s.msgs m).callback (s.msgs m).user_ctx status s,
        msgs-msg_free m s₁,
        msgs-msg_free m (dma_free spdk (s.msgs m).ctx s₁),
      )

  deliver-Seen : (m : ℕ) (e : Event) (s : Sys R P W) → Seen m s → Seen m (deliver spdk e s)
  unfolding deliver sync_io_completion_cb bdev_open_complete qos_set_limits_complete
  deliver-Seen m (sync_io req n bytes) s seen = λ over. ground (arith, seen, over)
  deliver-Seen m (async_io req n) s seen =
      let (ok, memory, w) = spdk.perform s.world s.memory req in
      let s₁ = record s { memory = memory; world = w } in
      rw (sync_completed-async_io_completion_cb spdk n ok s₁, msgs-async_io_completion_cb n ok s₁)
        seen
  deliver-Seen m (opened n) s seen = λ over. ground (arith, seen, over)
  deliver-Seen m (qos_set n) s seen = λ over. ground (arith, seen, over)

  wait_events-Seen :
      (m : ℕ) (es : List Event) (s : Sys R P W) → Seen m s → Seen m (wait_events spdk m es s)
  unfolding wait_events
  wait_events-Seen m [] s seen = seen
  wait_events-Seen m (e ∷ es) s seen = elim (Bool-cases (s.sync_completed m)) [
    | inl over ↦ rw (wait_events, over) (λ _. seen over)
    | inr more ↦
        let s₁ = deliver spdk e (record s { inflight = es }) in
        rw (wait_events, more)
          (wait_events-Seen m es s₁ (deliver-Seen m e (record s { inflight = es }) seen))
  ]

  -- The wait for a request that was accepted last ends with its message complete.
  pub wait_sync-answers :
      (m : ℕ) (req : Request) (bytes : ℕ) (es : List Event) (s : Sys R P W)
      → s.inflight ≡ es ++ sync_io req m bytes ∷ []
      → s.sync_completed m ≡ false
      → ((wait_sync spdk m s).msgs m).completed ≡ true
  unfolding wait_sync
  wait_sync-answers m req bytes es s e new =
      wait_events-Seen m s.inflight s (λ over. cc) (wait_sync-completed spdk m req bytes es s e)

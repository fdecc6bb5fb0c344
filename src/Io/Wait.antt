-- ===== src/Io/Wait.antt =====
-- The wait of the synchronous handlers ends: SPDK reports all that it has accepted, the handler's
-- own request among it.
use libxpdk.Prelude.{
  ℕ, ◌≡◌, refl, ap, ◌∙◌, Bool, true, false, List, [], ◌∷◌, ◌++◌, arith, if◌then◌else◌, ℤ,
}
use libxpdk.Api.{error_io, Callback, null, user, batch_completion, vectored_completion, success}
use libxpdk.State.{Sys, Event, sync_io, async_io, opened, qos_set, Request}
use libxpdk.Spdk.{Spdk}
use libxpdk.Dma.{dma_free, free_buffer}
use libxpdk.Core.Messages.{msg_free}
use libxpdk.Events.{
  run_callback, deliver, wait_events, wait_sync, sync_io_completion_cb, async_io_completion_cb,
  bdev_open_complete, qos_set_limits_complete,
}

module _ {R P W : Type 0} (spdk : Spdk R P W) where
  sync_completed-run_callback :
      (f : Callback) (ctx : ℕ) (status : ℤ) (s : Sys R P W)
      → (run_callback spdk f ctx status s).sync_completed ≡ s.sync_completed
  unfolding run_callback free_buffer
  sync_completed-run_callback null ctx status s = refl
  sync_completed-run_callback (user f) ctx status s = refl
  sync_completed-run_callback batch_completion ctx status s = refl
  sync_completed-run_callback vectored_completion ctx status s = ground arith

  sync_completed-msg_free :
      (m : ℕ) (s : Sys R P W) → (msg_free spdk m s).sync_completed ≡ s.sync_completed
  unfolding msg_free
  sync_completed-msg_free m s = ground arith

  pub sync_completed-async_io_completion_cb :
      (m : ℕ) (ok : Bool) (s : Sys R P W)
      → (async_io_completion_cb spdk m ok s).sync_completed ≡ s.sync_completed
  unfolding async_io_completion_cb
  sync_completed-async_io_completion_cb m ok s =
      let status : ℤ = if ok then success else error_io in
      let s₁ = run_callback spdk (s.msgs m).callback (s.msgs m).user_ctx status s in
      ground (
        arith,
        sync_completed-run_callback (s.msgs m).callback (s.msgs m).user_ctx status s,
        sync_completed-msg_free m s₁,
        sync_completed-msg_free m (dma_free spdk (s.msgs m).ctx s₁),
      )

  -- No completion takes back that a wait is over.
  deliver-sync_completed :
      (m : ℕ) (e : Event) (s : Sys R P W)
      → s.sync_completed m ≡ true
      → (deliver spdk e s).sync_completed m ≡ true
  unfolding deliver sync_io_completion_cb bdev_open_complete qos_set_limits_complete
  deliver-sync_completed m (sync_io req n bytes) s h = ground arith
  deliver-sync_completed m (async_io req n) s h =
      let (ok, memory, w) = spdk.perform s.world s.memory req in
      rw (sync_completed-async_io_completion_cb n ok (record s { memory = memory; world = w })) h
  deliver-sync_completed m (opened n) s h = ground arith
  deliver-sync_completed m (qos_set n) s h = ground arith

  wait_events_done :
      (m : ℕ) (es : List Event) (s : Sys R P W)
      → s.sync_completed m ≡ true
      → wait_events spdk m es s ≡ s
  unfolding wait_events
  wait_events_done m [] s h = refl
  wait_events_done m (e ∷ es) s h = rw h

  deliver_own :
      (m : ℕ) (req : Request) (bytes : ℕ) (s : Sys R P W)
      → (deliver spdk (sync_io req m bytes) s).sync_completed m ≡ true
  unfolding deliver sync_io_completion_cb
  deliver_own m req bytes s = ground arith

  wait_events-completed :
      (m : ℕ) (req : Request) (bytes : ℕ) (es : List Event) (s : Sys R P W)
      → (wait_events spdk m (es ++ sync_io req m bytes ∷ []) s).sync_completed m ≡ true
  unfolding wait_events
  wait_events-completed m req bytes [] s =
      ground (arith, deliver_own m req bytes (record s { inflight = [] }))
  wait_events-completed m req bytes (e ∷ es) s =
      let es' = es ++ sync_io req m bytes ∷ [] in
      ground
        (arith, wait_events-completed m req bytes es (deliver spdk e (record s { inflight = es' })))

  -- However much is in flight, the wait for a request that was accepted last comes to its end.
  pub wait_sync-completed :
      (m : ℕ) (req : Request) (bytes : ℕ) (es : List Event) (s : Sys R P W)
      → s.inflight ≡ es ++ sync_io req m bytes ∷ []
      → (wait_sync spdk m s).sync_completed m ≡ true
  unfolding wait_sync
  wait_sync-completed m req bytes es s e =
      ap (λ l. (wait_events spdk m l s).sync_completed m) e ∙ wait_events-completed m req bytes es s

  -- With nothing else in flight, the wait is the completion of the request.
  pub wait_sync_one :
      (m : ℕ) (req : Request) (bytes : ℕ) (s : Sys R P W)
      → s.inflight ≡ sync_io req m bytes ∷ []
      → s.sync_completed m ≡ false
      → wait_sync spdk m s ≡ deliver spdk (sync_io req m bytes) (record s { inflight = [] })
  unfolding wait_sync wait_events
  wait_sync_one m req bytes s e h = ap (λ l. wait_events spdk m l s) e ∙ rw h

-- ===== src/Io/Requests.antt =====
-- What the proofs about synchronous reads and writes share.
use libxpdk.Prelude.{ℕ, ◌≡◌, Bool, true, false, some, [], arith, if◌then◌else◌, Memory, update}
use libxpdk.Api.{null, success, error_io}
use libxpdk.State.{Sys, sync_io, Request}
use libxpdk.Spdk.{Spdk}
use libxpdk.BlockMath.Bounds.{Fits}
use libxpdk.Events.{deliver, sync_io_completion_cb}
use libxpdk.Io.{Handles, io_device}

module _ {R P W : Type 0} where
  -- How a synchronous request ends, in the message.
  pub record Ends (m : ℕ) (ok : Bool) (bytes : ℕ) (s s' : Sys R P W) : Type 0 where
    pub completed : (s'.msgs m).completed ≡ true
    pub status : (s'.msgs m).status ≡ (if ok then success else error_io)
    pub transferred : (s'.msgs m).bytes_transferred ≡ (if ok then bytes else 0)
    pub live : s'.dma_live ≡ s.dma_live
    pub inflight : s'.inflight ≡ []

  -- The state in which SPDK does a request that it took at once.
  abbrev pub armed : ℕ → W → Sys R P W → Sys R P W
  armed m w s = record s {
    world = w;
    sync_completed = update s.sync_completed m false;
    sync_status = update s.sync_status m success;
    inflight = [];
  }

module _ {R P W : Type 0} (spdk : Spdk R P W) where
  -- A synchronous request that can be served: its device is open, nothing else is in flight, and
  -- its size fits the block arithmetic.
  pub record Servable (m : ℕ) (h : Handles) (s : Sys R P W) : Type 0 where
    pub device : io_device s.devices (s.msgs m).fd ≡ some h
    pub sync : (s.msgs m).callback ≡ null
    pub quiet : s.inflight ≡ []
    pub fits : Fits (s.msgs m).count (spdk.bdev_get_block_size h.bdev)

  pub deliver_sync :
      (m : ℕ) (req : Request) (bytes : ℕ) (s : Sys R P W) (ok : Bool) (mem : Memory) (w : W)
      → spdk.perform s.world s.memory req ≡ (ok, mem, w)
      → deliver spdk (sync_io req m bytes) s
        ≡ sync_io_completion_cb m bytes ok (record s { memory = mem; world = w })
  unfolding deliver
  deliver_sync m req bytes s ok mem w done = ground arith

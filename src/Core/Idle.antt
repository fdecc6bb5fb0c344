-- ===== src/Core/Idle.antt =====
-- A library with nothing to do: it can serve a call, and after a call it is idle again.
use libxpdk.Prelude.{ℕ, ◌<◌, ◌≡◌, inl, inr, true, some, List, [], arith, Option-cases}
use libxpdk.State.{Sys}
use libxpdk.Spdk.{IsCounted, IsRoomy, IsFifo, Spdk}
use libxpdk.Core.Call.{Ready}
use libxpdk.Core.Answer.{only_dequeue}

module _ {R P W : Type 0} (spdk : Spdk R P W) (queued : R → List ℕ) (available : P → ℕ) where
  -- A running thread with nothing in flight, an empty ring, and a message in the pool.
  pub record IsIdle (s : Sys R P W) : Type 0 where
    pub pool : P
    pub ring : R
    pub has_pool : s.msg_pool ≡ some pool
    pub has_ring : s.msg_ring ≡ some ring
    pub left : 0 < available pool
    pub empty : queued ring ≡ []
    pub running : s.spdk_thread_running ≡ true
    pub quiet : s.inflight ≡ []

  -- What an idle library serves the next call with.
  pub record Serves (s : Sys R P W) : Type 0 where
    pub m : ℕ
    pub p : P
    pub p' : P
    pub r : R
    pub r' : R
    pub r'' : R
    pub ready : Ready spdk queued s m p p' r r' r''
    pub empty : queued r'' ≡ []

  pub IsIdle-Serves :
      (s : Sys R P W)
      → IsFifo spdk queued
      → IsRoomy spdk queued
      → IsCounted spdk available
      → IsIdle s
      → Serves s
  IsIdle-Serves s fifo roomy counted idle = elim (Option-cases (spdk.mempool_get idle.pool)) [
    | inl none_left ↦
        let zero_left : available idle.pool ≡ 0 = counted.refused idle.pool none_left in
        ground (arith, idle.left)
    | inr ((m, p'), got) ↦
        let (r', room) = roomy.room idle.ring m idle.empty in
        let (r'', out, empty) = only_dequeue spdk queued idle.ring r' m fifo idle.empty room in
        record {
          m = m;
          p = idle.pool;
          p' = p';
          r = idle.ring;
          r' = r';
          r'' = r'';
          ready = record {
            pool = idle.has_pool;
            message = got;
            idle = record {
              ring = idle.has_ring;
              empty = idle.empty;
              room = room;
              running = idle.running;
              quiet = idle.quiet;
            };
            out = out;
          };
          empty = empty;
        }
  ]

-- ===== src/Interleaving/Tests.antt =====
-- The theorems on interleavings, at a concrete run.
use libxpdk.Interleaving.{Reach, called, polled, start, next}
use libxpdk.Prelude.{ℕ, ◌≡◌, refl, some, List, [], arith, pos}
use libxpdk.State.{read_msg, flush_msg, Sys}
use libxpdk.Api.{user}
use libxpdk.Rig.{rig-IsFifo, rig-IsPool, ready, count_in, rig, World}
use libxpdk.Core.Messages.{msg_send_async, fresh_msg, set_msg, msg_alloc}
use libxpdk.Core.Devices.{init_devices, get_device}
use libxpdk.Core.Owners.{in_flight}
use libxpdk.Io.Calls.{async_io_call}
use libxpdk.Core.Poller.{dispatch, msg_process_poller}
use libxpdk.Interleaving.Owners.{allocated_is_free}
use libxpdk.Core.Options.{max_batch}
use libxpdk.Io.{submit_io, read_submit, io_device, handle_read}

-- Two asynchronous reads are called, the first message is handled, and a completion is reported,
-- each from the state before.
abbrev after_calls : Sys (List ℕ) (List ℕ) World
after_calls =
    (async_io_call rig read_msg (pos 0) 300 5 16 (user 7) 2
      (async_io_call rig read_msg (pos 0) 200 5 0 (user 7) 1 ready).1).1

abbrev after_poll : Sys (List ℕ) (List ℕ) World
after_poll = (msg_process_poller rig after_calls).1

two_calls : Reach rig ready after_poll
two_calls =
    next
      (next (next start (called read_msg (pos 0) 200 5 0 (user 7) 1 refl))
        (called read_msg (pos 0) 300 5 16 (user 7) 2 refl))
      (polled refl)

third :
    msg_alloc rig flush_msg after_poll
    ≡ some (3, set_msg 3 (fresh_msg flush_msg) (record after_poll { msg_pool = some [] }))
unfolding msg_alloc msg_process_poller max_batch async_io_call msg_send_async dispatch handle_read
    io_device get_device read_submit submit_io init_devices
third = refl

allocated_is_free_example : in_flight rig count_in rig-IsPool after_poll.inflight 3 ≡ 0
allocated_is_free_example =
    (allocated_is_free rig (λ r. r) count_in rig-IsFifo rig-IsPool flush_msg 3 _ two_calls
      (omega arith) third).1

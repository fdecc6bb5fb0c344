-- ===== src/Lib.antt =====
-- libxpdk: POSIX-like calls over SPDK block devices, in C. A call of the application becomes a
-- message that goes through a lock-free ring to one SPDK thread; a poller there takes messages from
-- the ring and hands each to a handler, which works on the table of open devices and on SPDK. A
-- synchronous call waits until its message is complete; an asynchronous one gets a callback.
--
-- The parts, and the code that they are about:
--   Prelude     lists, bytes of memory, signed integers and flags over the native numbers.
--   Api         include/xpdk.h: error codes, enumerations, structures; `Callback` is a value of
--               xpdk_io_callback_t: NULL, a function of the application, or one of the two that the
--               library passes itself.
--   State       src/xpdk_internal.h: struct xpdk_msg, xpdk_device, xpdk_context. `Sys` is the global
--               context with what the code reaches through pointers: messages by address, memory,
--               result structures, DMA buffers that are live, accepted work of SPDK, and a log of
--               the calls of application callbacks.
--   Spdk        SPDK itself, the clock and the allocators, as a record of functions, with laws for a
--               ring (`IsFifo`, `IsRoomy`), a pool (`IsCounted`, `IsPool`), both when they are new
--               (`IsFresh`), a disk (`IsDisk`) and rate limits (`IsLimiter`).
--   Dma         spdk_dma_malloc and spdk_dma_free, and the buffers of src/xpdk_vectored.c.
--   Core        src/xpdk_core.c: Devices (the table of open devices), Messages, Options, Poller
--               (xpdk_msg_process_poller, xpdk_msg_send_sync), Sync (the shape of a synchronous
--               call), Lifecycle (xpdk_init_opts, xpdk_cleanup). Frame and Frame/Thread have the
--               invariants of the SPDK thread, Fifo the order in which the poller takes
--               messages, Owners where a message is, Answered what a handler leaves of its message,
--               Answer, Call and Late the answer that a call gets in the first or the second round, Initialized what
--               initialisation leaves, Idle, Shutdown and Cleanup the way of an idle library to its
--               end, Life both together.
--   Interleaving  the system as a step relation: asynchronous calls, bulk submissions, starts of
--               synchronous calls, runs of the poller and completions, in any order. Owners has
--               its invariant.
--   Events      completion callbacks (sync_io_completion_cb, async_io_completion_cb,
--               bdev_open_complete, xpdk_qos_set_limits_complete), and the loops that poll for one.
--   BlockMath   the block arithmetic of the handlers, with the wrap of its 32-bit products.
--   Io          src/xpdk_io.c and src/xpdk_async.c. Write, Read, Bounce, Early and Wait are about
--               the handlers, Whole and Async about the calls of the application from beginning to end, and
--               Whole/RoundTrip about a write and a read after it.
--   Bdev        src/xpdk_bdev.c: open, close, list and describe. Slots and Listing are about the
--               handlers, Whole about xpdk_close, Whole/Waits about xpdk_open.
--   Perf        src/xpdk_perf.c: statistics, trim and write-zeros. Rates is about the counters.
--   Qos         src/xpdk_qos.c: rate limits; Whole is about the calls.
--   Vectored    src/xpdk_vectored.c: Copy has the two copies, Gather what they do, Calls the calls,
--               Whole is about the synchronous calls from beginning to end.
--   Batch       src/xpdk_batch.c: Queues has the two arrays of a context, View their abstraction as
--               lists, Process the delivery, Refine whole histories against two
--               plain queues, Calls and Wait the calls; Timeout is about the
--               deadline of xpdk_batch_wait, Waiting about its return, with its own poll in
--               Waiting/Library, Whole about a read from its submission to the callback, Lost about bulk submissions, Cleanup about the wait
--               of xpdk_batch_cleanup.
--   Rig         a concrete SPDK for the modules named Tests.
--
-- How the code is represented. Numbers are natural numbers, and a sum or product of a w-bit type is
-- reduced modulo 2 ^ w where the source computes it. A pointer is its address, 0 is NULL, and memory
-- is a function from addresses to bytes; handles of SPDK are optional numbers. A descriptor is a
-- signed number, as in the source. The union in struct xpdk_msg is laid out flat.
--
-- Loops and fuel. The poller runs for as many rounds as the source allows (1, or 32 in turbo mode).
-- The thread that a client waits for runs for `fuel` rounds; one is enough when nothing else is
-- queued (Core.Answer), two when the handler leaves its work to SPDK, as that of rate limits does
-- (Core.Late), and `xpdk_cleanup` needs one for each of its calls (Core.Cleanup). A handler that
-- waits for its own completion runs over the work that is in flight, which ends (Io.Wait). The loop
-- of xpdk_batch_wait has fuel, and `none` is a wait that has not ended.
--
-- What is left out. In the rounds of the thread, work of SPDK is reported in the order in which it
-- was accepted; Interleaving has any order. While a handler waits for its completion, the poller
-- does not run again inside that wait, and while a client waits in a run of the thread, no second
-- client acts; in Interleaving others may act, but the end of a synchronous call is no step. A
-- waiting client looks at its message between rounds of the SPDK thread; in the source it looks all
-- the time, and may go on while the handler that has completed its message still runs. This matters
-- for a bounced read, whose copy comes last (Io.Early), so that the theorems on whole reads are
-- about reads of whole blocks; after the completion the other handlers only free a DMA buffer or
-- return. An open is reported by the callback of spdk_bdev_open_ext if SPDK calls that
-- (`bdev_open_calls_back`), as the source expects and the documented function does not. A write
-- past the completed queue of a batch, undefined in C, is none here; the theorems that depend on
-- what is written there ask for room. Locks and condition variables make a critical section one
-- step. Callbacks of the application are logged, and do not act. Printed messages, the parsing of
-- options of the examples, and the release of memory by free() are not modelled.
pub mod Prelude
pub mod Api
pub mod State
pub mod Spdk
pub mod Core
pub mod Perf
pub mod Vectored
pub mod Batch
pub mod Dma
pub mod Events
pub mod BlockMath
pub mod Io
pub mod Bdev
pub mod Qos
pub mod Interleaving
pub mod Rig

-- ===== src/Lib.antt =====
-- Verification of the InfiniBand memory-swap experiments: kernel modules in C that move memory
-- between machines by RDMA, trace the kernel's swapping, and exchange the heaps of two processes.
--
-- The parts of the program, and the files that model them:
--   * client/megaVM_client.c and server/megaVM_server.c are two kernel modules. The client puts a text
--     into a buffer and sends an advertisement of it; the server reads the buffer by RDMA and writes it
--     back, ten times. Either has a main thread, which makes blocking calls, and two event handlers,
--     which set the field `state` and wake it.
--     - Ib/Types: enum test_state (TestState), struct ib_context (IbContext; the server's declaration
--       has all but the four fields start_…), struct megaVM_rdma_info and struct megaVM_stats.
--     - Ib/Calls: the calls of the kernel, the verbs library and the connection manager (Call), and
--       what is outside of the repository (Env): the answer of each call, the handlers that run while
--       it is under way, the conversions of byte order. Errors are answers. Integers and pointers
--       are bit patterns on natural numbers, int -1 being 2^32 - 1, and counters wrap at 2^64.
--     - Ib/Machine: the state of a run (Sys: the context, the calls made, newest first, and the number
--       of wake-ups), commands with their outcomes (done, asleep for ever, oops), and wait_until for
--       wait_event_interruptible.
--     - Ib/Events: megaVM_cma_event_handler and megaVM_cq_event_handler, which the two modules have
--       alike but for the treatment of a received message and what is printed, a parameter; Ib/Steps: what else they share.
--     - Client/Events (client_recv), Client/Setup (megaVM_setup_qp, megaVM_setup_buffers and the rest
--       of set-up and teardown), Client/Ping (megaVM_test_client, megaVM_format_send), Client/Session
--       (megaVM_bind_client to megaVM_doit).
--     - Server/Events (server_recv), Server/Setup, Server/Transfer (megaVM_rdma_read,
--       megaVM_rdma_write, start_MegaVM_server), Server/Session (bind_server to initialisation).
--   * SharedPageExperiment/pteStore.c: PteStore. Rows of numbers; currentIndex + 1 is next_index.
--   * SharedPageExperiment/kernelFiles/memory.c and vmscan.c: SwapTrace, the globals, functions and
--     blocks that the experiment adds to the kernel's do_swap_page and shrink_page_list. The store of
--     entries is PteStore with other sizes.
--   * SharedPageExperiment/pteExp.c: PteCompare, over the two traces.
--   * SharedPageExperiment/forkCall.c and heap copy/mult.c: ForkCall and Mult, two small programs that
--     have their memory observed.
--   * heap copy/file_fault.c: HeapSwap. Page tables and page flags are parameters (Mm, PageInfo).
--
-- Proofs: Ib/Ledger says which resources a sequence of calls holds, Ib/Frame and Ib/Completions what
-- the handlers leave alone, Ib/Wake whom they wake, Ib/Guard which conditions on the context they
-- keep, Ib/Posts that they post no transfer, Ib/Buffer what a read leaves in the buffer, and Ib/Mild
-- which runs report no RDMA transfer; Ib/Invariant, Ib/Rules and Ib/Follow follow a run of the main
-- thread call by call, the last one behind an interface (Follows) that Client/Quiet, Server/Quiet
-- and Server/Served fill. Client/Ledger, Client/Queues, Client/Buffers, Client/Connect,
-- Client/Converse and Client/Life are about the client's main thread, bottom up, and Client/Faults
-- about an error that it overlooks; Server/Live, Server/Guards, Server/Served, Server/Queues,
-- Server/Buffers, Server/Serve, Server/Posts, Server/TenRounds, Server/Teardown, Server/Start,
-- Server/Life and Server/Mappings about the server's. Client/Wake and Server/Wake are about the
-- handlers of the two, Ib/Tally and Counters about the statistics. Client/Text, Server/Rounds and
-- Advert are about what travels, Server/Echo, with Server/Echo/Overrun, and Advert/Echo about the
-- whole service. PteStore/Grid, PteStore/Holding, PteStore/Refinement and PteStore/Print,
-- SwapTrace/Rows, SwapTrace/Pages, SwapTrace/Begin, SwapTrace/History, SwapTrace/Out and
-- SwapTrace/OutHistory, PteCompare/Matches, PteCompare/Count and PteCompare/Experiment,
-- HeapSwap/Bytes, HeapSwap/Pages and HeapSwap/Endless, and ForkCall/Bounds are about the others.
-- Examples holds runs on concrete inputs.
--
-- Bounds and fuel: HeapSwap.swap_loop takes fuel, one unit for each test of the loop's condition, and
-- min(n, n2) + 1 units are enough for heaps of n and n2 pages. All other loops are by structure, on the
-- rounds left. An access that the C code makes out of bounds or through a null pointer is `none` or
-- `oops`.
--
-- Not modelled: printing, but for the server's reading of its buffer where a read has completed; a
-- process named twice to file_fault.c, which would take one lock twice; the fields verbose,
-- validate and addr_str; BUG_ON(cq != cb->cq), as a handler only ever gets the queue that it was
-- created with; a handler that interrupts another; the fault handler and VM_BUG_ON_PAGE of
-- file_fault.c, and its loops that only count areas; the kernel's own code in memory.c, vmscan.c
-- and swap.h, which is a copy; the sleeping of the two programs.
mod Common
pub mod Ib
pub mod Server
pub mod Client
pub mod Advert
pub mod Counters
pub mod PteStore
pub mod SwapTrace
pub mod PteCompare
pub mod HeapSwap
pub mod ForkCall
pub mod Mult
pub mod Examples

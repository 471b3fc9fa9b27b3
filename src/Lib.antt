-- ===== src/Lib.antt =====
-- The server of the RFID system, checked.
--
-- The program reads tags from RFID readers, buffers and deduplicates what was read, stores it in a
-- PostgreSQL database, and runs a "self-proving" runtime over the frames of its analysis: each frame is
-- checked for consistency, proved from a ledger of proof records, and scored; a low score makes the
-- runtime heal itself, and failures that components publish are answered by recovery actions. Most
-- components are singletons whose methods take one mutex; a component here is a record of the object's
-- state with a function for each method, which returns the new record, what the method returns, and the
-- calls of callbacks it makes. The mutex is why a method is one step. Histories are lists of calls.
--
-- The runtime (Runtime)
--   Runtime/StateMachine   server/runtime/runtime_state_machine.*: RuntimeStateMachine, the states, the
--                          table of transitions, the permissions of each state, the callbacks.
--   Runtime/FailureBus     server/runtime/runtime_failure_bus.*: RuntimeFailureBus, the window of recent
--                          failures, the counters, the flag for critical failures.
--   Runtime/Recovery       server/runtime/runtime_recovery_engine.*: RuntimeRecoveryEngine, which decides
--                          on an action for a failure of the bus and executes it through callbacks.
--   Runtime/Consistency    server/runtime/system_consistency_checker.*: SystemConsistencyChecker and
--                          TruthConsistencyGate, which compare the hashes of a frame.
--   Runtime/ProofLedger    server/runtime/proof_ledger.*: ProofLedger, the records sorted by frame.
--   Runtime/ProofEngine    server/runtime/system_proof_engine.*: SystemProofEngine, which proves a frame
--                          from the ledger and from what it hears of the checker.
--   Runtime/Kernel         server/runtime/kernel/runtime_kernel.*: RuntimeKernel, whose tick passes a
--                          frame through checker and proof engine, lowers the trust score, and heals
--                          through the recovery engine.
--   Runtime/MicroKernel    server/runtime/kernel/microkernel.*, kernel_pipeline.cpp and
--                          kernel_policy_router.cpp, with the types of kernel_abi.h,
--                          kernel_tick_context.h and kernel_tick_result.h: the smaller kernel.
--   Runtime/ControlPlane   server/runtime/runtime_control_plane.*: RuntimeControlPlane, the operators'
--                          switches.
--   Runtime/FrameLocking   server/runtime/ai_frame_locking.*: AIFrameLocking, which binds the result of the
--                          AI to the frame it was computed for.
--   Runtime/Causal         server/runtime/causal_chain_tracker.*: CausalChainTracker, the nodes and their
--                          parents, and the search for what led to a decision.
--   Runtime/Dispatcher     server/runtime/multi_subscriber_dispatcher.*: MultiSubscriberDispatcher, which
--                          hands each frame to its subscribers.
-- The recordings (Replay)
--   Replay/Bytes           server/runtime/spatial_frame_recorder.cpp: numbers as bytes, the checksum.
--   Replay/SpatialFrame    server/runtime/spatial_frame.*: SpatialFrame with its parts, and its hash.
--   Replay/Recorder        server/runtime/spatial_frame_recorder.*: SpatialFrameRecorder, which appends frames
--                          to a file.
--   Replay/Stream          server/runtime/spatial_frame_player.cpp: the stream of a file and its index.
--   Replay/Player          server/runtime/spatial_frame_player.*: SpatialFramePlayer.
-- The edge runtime (Edge), which runs on a reader's host
--   Edge/Cache             edge_runtime/edge_cache.*: EdgeCache, a cache with a limit on its bytes.
--   Edge/Scheduler         edge_runtime/edge_scheduler.*: EdgeScheduler, tasks by priority and deadline.
--   Edge/SyncEngine        edge_runtime/edge_sync_engine.*: EdgeSyncEngine, data to be synchronised.
--   Edge/ReplayQueue       edge_runtime/offline_replay_queue.*: OfflineReplayQueue.
-- The data path
--   Rfid/Reader            server/rfid/reader.*: the loops of SerialReader and TcpReader and their parser.
--   Rfid/EpcProcessor      server/rfid/epc_processor.*: EPCProcessor, the filter of repeated tags between the
--                          readers and their clients.
--   Core/EpcValidator      server/core/epc_validator.*: EPCValidator, the normal form of a tag's code.
--   Core/EpcBuffer         server/core/epc_buffer.*: EPCBuffer, the buffer of tags read, for each task.
--   Core/RateLimiter       server/core/rate_limiter.*: RateLimiter, the sliding window over requests.
--   Core/IdempotencyManager  server/core/idempotency_manager.*: IdempotencyManager, the tags done for a task.
--   Db/DbPool              server/db/db_pool.*: DBPool, the pool of database connections. A step relation
--                          interleaves the clients' calls.
--
-- Shared: Prelude passes on the names of the libraries; Prelude/Tests has the Boolean tests and unsigned
-- 64-bit arithmetic, Prelude/Lists the lists' functions and lemmas, Prelude/Int the integers.
--
-- Conventions. A method `doThis` of the source is `do_this` here. `size_t` and `uint64_t` counters wrap
-- at 2^64 (`u64`); `int` and `int64_t` are integers without overflow, where the values stay far from it
-- or are a clock's. `double` and `float` are parameters with the comparisons the code makes, except that
-- a confidence that is one of a few constants is given in thirds or hundredths. The reading of a clock is
-- an argument. A callback is a number, and the calls made are listed; the recovery engine's callbacks,
-- whose answers matter, are functions into what they do. What a callback throws is caught by the code.
-- All loops are over finite lists and are structural recursions, but for these, on fuel: the evictions of
-- EPCProcessor and of EdgeCache, where each round erases one entry, so as many rounds as there are entries
-- (and one for the last test) are enough; the starts of EdgeScheduler, where each round takes a pending
-- task; the search for causes, where each round takes an id that was put on the stack as the decision or
-- as a parent of a node visited once, so two rounds more than there are parents are enough; and the index
-- of a recorded file, where each round reads 24 bytes, so one round more than there are bytes is enough.
--
-- Not modelled: the singletons' construction, logging, memory allocation failing, callbacks that call
-- back into the object that calls them (a deadlock of its mutex), data races of the few unlocked
-- accesses. Protocol Buffers (serialize and parse) and std::hash of integers are parameters of Replay,
-- std::stoi one of Rfid/Reader, and libpqxx one of DbPool: which connections are open, which answer, and
-- what making one gives. The other parts of the server (analytics, agents, spatial computations in floating
-- point, SQL repositories, RPC services, the readers' sockets and threads), the client, the web console, the
-- tools and the generated protocol code are not modelled.
pub mod Prelude
pub mod Core
pub mod Db
pub mod Edge
pub mod Replay
pub mod Rfid
pub mod Runtime

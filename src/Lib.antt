-- ===== src/Lib.antt =====
-- GemPBA (generic massive parallelisation of branching algorithms), modelled and verified.
--
-- The program runs a user's recursive branching algorithm in parallel. Each call of the algorithm is a
-- node. A load balancer decides for each node whether its function is called on this thread, handed to
-- the thread pool, sent to another process or discarded. In a multi-process run an MPI scheduler moves the
-- tasks between the ranks, rank 0 being the center, and finds out when all work is done. Telemetry
-- records what the ranks do and streams it to clients.
--
-- Which file models what:
-- - Termination: private/impl/schedulers/termination_detector.hpp (Detector: the class), its use by
--   private/impl/schedulers/mpi_semi_centralized_scheduler.hpp and mpi_centralized_scheduler.hpp
--   (Handlers: process_task_received_ack, release_parent_if_passive, send_task, process_termination), and
--   all ranks together (Network: a step relation on the detectors, the local work and the messages on
--   their way). Owing counts what is owed to a rank, Invariant states the invariant, Moves proves it for
--   each step, Safety and Progress draw the conclusions.
-- - Outbox: private/impl/telemetry/client_outbox.hpp (Box: the class; Push and Flush: its operations).
-- - Clock: private/impl/telemetry/scheduler_clock.hpp (Defs: the class, with its arithmetic modulo 2^64;
--   Reading, Bounds and Latency: what it reports).
-- - Node: include/gempba/detail/nodes/node_core_impl.hpp (Life: arguments, state and consumption of one
--   node; Branching, Consumption) and
--   private/impl/load_balancing/work_stealing_load_balancer.hpp (WorkStealing, Submission).
-- - Links: the pointers between the nodes in include/gempba/detail/nodes/node_core_impl.hpp and the roots of
--   the threads, on a store of nodes (Store; Distinct: lists of children; Linked: the agreement of the
--   pointers; Creation).
-- - Horizontal: private/impl/load_balancing/quasi_horizontal_load_balancer.hpp (Roots: try_correct_root;
--   Sending and Submission: the loops of send, forward and the submissions; Descent and Lowering: what the loop
--   of try_correct_root does; Agreement and Steps: the pointers under all operations; Spine, Parting, Trimming
--   and Fixing: the way down to a node with what is pending beside it, and what a round leaves of it; Order,
--   Handing and Sent: what send hands over).
-- - Tree: include/gempba/utils/tree.hpp and src/utils/tree.cpp (Nodes: the class on a vector of nodes that
--   point to one another; Shape: the list of children that the pointers describe; Frame, AddNext,
--   Extended and Insertion: what add_next does to it; Removal, Popping and Front: pop_front and clear).
-- - Ranks: shift_left in include/gempba/utils/utils.hpp, on a worker's list of next processes (Shift).
-- - Memory: private/impl/telemetry/cgroup_memory.hpp (Walk: resolve_cgroup_memory with the contents of the
--   files as its environment; Limit: what it reports).
-- - Score: include/gempba/utils/score.hpp, get_default_score in include/gempba/utils/utils.hpp (Defs, Raw,
--   Order, Start) and the best result of include/gempba/node_manager.hpp (Manager, Best).
-- - Central: private/impl/schedulers/mpi_centralized_scheduler.hpp and centralized_utils.hpp (Tasks: the
--   queue; Dispatch: dispatch_to_available; Center: the state of the center and each of its handlers; Loop:
--   its main loop as a step relation; Counts, Invariant and Statistics: its counters; Notices, Told and Status: what
--   the workers have been told; Worker and Drain: what a worker drains at its end; Run: center and worker
--   together; Results: the collection of the results, with the copying of a score to a message and back as
--   a parameter).
-- - Semi: private/impl/schedulers/mpi_semi_centralized_scheduler.hpp (Center: the state of the center and
--   each of its handlers, on the process tree of Tree; Loop: its main loop; Notices, Told and Ending: what
--   the workers have been told; Search and Available: process_available; Announcing: whom the
--   handlers announce to whom; Worker and Drain: what a worker
--   receives from the center alone, to its end). The topology of the start is an
--   argument, and so is the random offset of each search. Channel is the channel of a worker, opened by the
--   threads of its pool and emptied by its funneling thread, also in
--   src/schedulers/mpi/mpi_semi_centralized_scheduler.cpp and include/gempba/utils/transmission_guard.hpp
--   (Cells, Quiet, Funneling): the parts under the mutex are one step each, and the thread that takes the
--   task out of the queue may do so at any time, as the main loop may receive next processes, which it does
--   without the mutex. What the center announces to the worker is a parameter there.
-- - Json: escape_quoted in src/telemetry/json_serializer.cpp (Strings, with a reader that follows the grammar
--   of a string in RFC 8259; RoundTrip).
-- - Topology: src/telemetry/topology_builder.cpp (Bytes: the writers and the reader; Codec, RoundTrip,
--   Latch and Cut: the layout of a host as bytes; Hosts, Grouping and Snapshot: build_mpi_snapshot, with the
--   collectives of MPI as documented, so that every rank gets the contributions of all in their order).
-- - Telemetry: src/telemetry/telemetry_hub.cpp and include/gempba/telemetry/telemetry_hub.hpp (Counters: what
--   the recording functions count; Traffic: the edges of a frame; Hub and Tick: the state of a hub,
--   tick_if_due and apply_control_from_client; World: the hubs of all ranks, with the frames and the controls
--   on their way; Requests, Delivery, Effects, Parts, Invariant, Ticking and Answering: how a request for a snapshot
--   gets to all ranks and comes back; Notes and Annotations: the annotations and markers of a run), and
--   private/impl/telemetry/worker_frame_codec.hpp (FrameCodec).
-- - Base: lists, tests and tables over the native numbers; integers (Int); messages to a range of ranks
--   (Messages).
--
-- Effects that leave the program are values: the messages that a rank sends are a list, a call of the
-- user's function and a task handed to the pool are effects in the result. What the program calls but does
-- not implement is a parameter: the sender of an outbox (with its documented contract as a law), the
-- user's initializer, serializers and runnable, what a call of it does to the nodes and whether it throws, the
-- thread pool's load and the mutex as an environment. The user's initializer, serializers and deserializers
-- are taken not to throw. The calls on one node do not overlap.
-- The floating types of a score are bit patterns, and their conversion to long double and its order are a
-- parameter (Floats); where scores of two integer types are compared, it is a hypothesis that long doubles
-- hold the integers of 64 bits exactly. The memory in use and the time are arguments of the center's handlers. The queue of
-- the center is a list in the order of priority; std::priority_queue promises no order between tasks of
-- one priority. The limits 0.9 * 10240 and 0.8 * 1000 are 9216 and 800, exact as doubles too. A state
-- message is taken to come from a worker that is not held for available (Expected in Loop).
-- Exceptions (utils::log_and_throw, and that of the user's function) are the value none or a constructor of
-- their own. Messages are delivered in any order, which
-- includes the order that MPI guarantees. The controls and the frames of the telemetry, and what the center
-- alone sends a worker, are taken in the order of their sender, which MPI promises on one communicator for one
-- tag.
-- A call of tick_if_due is four steps of its rank, between which other ranks and the thread that serves the
-- clients may act; a request of a client is one step, whose stores are not taken apart. A client asks for
-- fewer than 2^32 - 1 snapshots (the step client in World): at the limit of one in 50 ms, more take over six
-- years.
--
-- Loops: the loop of push has fuel for a round for each line, the loop of flush for a round for each byte
-- that is to go out and one more, the loop to the last child for a round for each child counted, the loop of
-- clear for a round for each child and one more, the loop of try_correct_root for a round for each node on
-- the way down and one more, the walk of resolve_cgroup_memory for a round for each character of the path and
-- one more; all are shown to be enough.
-- The iterator over the children of a node in the process tree has fuel for each node of the tree, the most
-- children that a node can have.
--
-- Not modelled: MPI itself, the end of the telemetry in shutdown with its final frames, the transport for a
-- run of one process, the stream to the dashboard, the calls of the telemetry that only read the state of the
-- center, the C and Java bindings, logging, the sockets of the telemetry server, the probes of the operating
-- system. An int counter (a deficit, a count of messages) is a number with no upper bound.
pub mod Base
pub mod Termination
pub mod Outbox
pub mod Clock
pub mod Node
pub mod Tree
pub mod Memory
pub mod Ranks
pub mod Score
pub mod Central
pub mod Semi
pub mod Json
pub mod Links
pub mod Horizontal
pub mod Topology
pub mod Telemetry

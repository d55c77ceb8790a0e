-- ===== src/Lib.antt =====
-- AF-Stream: a stream processing engine whose workers back up the state of their operators only when it
-- has drifted too far from the last backup. Source paths below are those of the repository.
--
-- How the parts interact. A worker starts its threads and ends when they have. Its upstream
-- thread deals the records of a trace, or what the network engine hands over, to the compute threads,
-- whose output the engine pulls for each neighbour. A compute thread takes tuples from its upstream
-- thread and feedback from its downstream thread, hands them to the program's handlers, and at the end
-- of each round compares the divergence of each of its fault-tolerant operators with a threshold. An
-- operator beyond it is serialised into a backup item, which the worker sends to the backup server. A
-- worker that starts after a crash asks the server for its items and restores its operators from them.
--
-- Files and what they model.
--   Prelude, Memory      shared types and lemmas; C arrays as lists, `memcpy`, little-endian integers
--   Fault/Item           src/fault_tolerance/backup_item.hpp, src/params.hpp
--   Fault/Content        `BackupContent` of src/fault_tolerance/backup_server.cpp: one operator's
--                        backups (SelectSlot, Expand, SaveBackup, AppendRecoveryItem)
--   Fault/RecoveryItem   src/fault_tolerance/recovery_item.hpp
--   Fault/Server         the request loop of backup_server.cpp: MAKE_OP_KEY, `ops`, `worker_ops_new`
--   Fault/Client         `RetriveBackups` of src/fault_tolerance/backup_client.cpp
--   Fault/Tracker        src/fault_tolerance/operator_tracker.cpp
--   Fault/AdapterRecovery  src/fault_tolerance/adapter_recovery.hpp
--   Operators/Interface  `FTInterface` of src/operator/ft_interface.hpp, with `FTOperator`'s threshold
--   Operators/MaxArray   `NumericArray_MAX` of src/operator/array_max.hpp
--   Operators/SumArray   `NumericArray_L1`, `NumericArray_L2` of src/operator/array_l1.hpp, array_l2.hpp;
--                        Operators/Norms gives each class its measure
--   Operators/Hash       src/operator/hash.cpp
--   Queues/Ring          `ZeroRingBuffer` of src/queues/zerocopy_ringbuffer.hpp
--   Queues/LockFree      `LockFreeQueue` of src/queues/mpsc_queue_mesh_zerocopy.hpp
--   Queues/Channel       `MPSCObject`, `MPSCWriter` and `MPSCReader` of src/queues/mpsc_*_indirect_mesh.hpp;
--                        a mesh of them moves one call at a time
--   Threads/Item         src/wrap_item.hpp
--   Threads/Check        the divergence check of src/thread/compute_thread.hpp
--   Threads/Loop         `ThreadMainHandler` of compute_thread.hpp
--   Threads/AdapterRam   src/thread/adapter_ram.hpp
--   Threads/AdapterDisk  src/thread/adapter_disk.hpp
--   Threads/OutQueue     the writer's view of a ring
--   Threads/InCallback   src/thread/in_callback_simple.hpp
--   Threads/OutCallback  src/thread/out_callback_simple.hpp
--   Threads/UpTrace      src/thread/up_thread_trace.hpp with src/thread/router_rr.hpp
--   Threads/Address      the listen address in src/thread/up_thread_net.hpp
--   Worker               a thread of src/thread/thread.cpp and its mailboxes of
--                        src/control_channel/command.hpp; Worker/Start is `Worker::Start` of
--                        src/thread/worker.hpp, and the modules beside it its invariant
--   Tolerance            an operator, the check of its thread and the server's content, put together
--   Sketch               `CountMin` of apps/count_min/cm_sketch.hpp
--   Window               the count-min program: cm_item.hpp, cm_thread.hpp and merge_thread.hpp
--   Tests                runs on concrete inputs, and each theorem applied at one
--
-- How state and operations correspond. A class is a record of its fields and a method a function from
-- the record to the record after the call, with its result if it has one. Of a C array of known size
-- only the elements are kept; what `malloc` and `realloc` leave in memory is the parameter `fill`, and
-- nothing is assumed of it but the size of an item. A `std::unordered_map` is an association list with
-- `find` (Fault/Content) or a function (Fault/Server). `none` stands for the end of the process (LOG_ERR,
-- `at` out of range), for a read through NULL, or, in the ring, for a call that spins.
--
-- Integers. Counts, indices and sizes are natural numbers, with `% 2 ^ w` written out where a w-bit
-- unsigned value can go round. A counter of type `long long` is an integer without bounds: signed
-- overflow is undefined in C++, and where the bytes of a counter matter a hypothesis says that it is
-- in range, or that totals and differences are. A `double` divergence is the integer that `to_double`
-- (Memory/Double) rounds to 53 bits; a threshold is an integer. Accesses past the end of a block are
-- undefined in C++ and without effect in the model; the theorems have hypotheses that exclude them: the
-- size of a RecoveryItem, a uint32_t, has room for 14913080 items, a backup item for 256 bytes, and the
-- buffer of AdapterRecovery for 2 ^ 32 - 4096 bytes.
--
-- Bounds and fuel. Loops are recursions over the list that they go through or over the number of
-- rounds that are left, which is the loop's own bound in each case. The loop of UpThreadTrace ends when
-- its adapter does; it has fuel, and the theorem on it takes more than there are records.
-- BackupContent doubles a uint32_t capacity, and its theorems take fewer than 2 ^ 31 used slots.
--
-- Concurrency. The ring is a sequence of whole calls of the writer and the reader in any order; each
-- side has a stale copy of the other's index. Orderings of single memory accesses are not modelled.
-- A round of a compute thread takes what its two queues give in it as input. A worker is a system of
-- processes, the main thread and the others, with a mailbox in each direction between the main thread
-- and each other; a step is what one of them does up to its next message, in any interleaving. That a
-- mailbox delivers every command once and in order is what is used of src/control_channel.
--
-- Not modelled. src/net and src/control_channel are 0MQ's engine and signalling, and third_party,
-- include are vendored; what is used of ZeroMQ is that a message arrives whole and once, in order.
-- The ZooKeeper clients and the controller, configuration, the ids and processors of threads, logging
-- and timing are input and output around the modelled parts. DownThreadNet, the connection of the
-- queues, AttemptClean and Clean of MPSCWriter, and the other upstream threads are not modelled; those
-- with minibatches, upstream backup and errors include headers that the repository does not have.
-- What the assignment of a tuple's type copies from a record is a parameter of UpThreadTrace. The operators over hash maps and sets (hashmap_*.hpp, set_cnt.hpp)
-- do not compile when they are instantiated.
pub mod Prelude
pub mod Memory
pub mod Fault
pub mod Operators
pub mod Threads
pub mod Tolerance
pub mod Worker
pub mod Queues
pub mod Sketch
pub mod Window
pub mod Tests

-- ===== src/Lib.antt =====
-- The transaction services of the CICS emulation: temporary storage queues, named counters, units of
-- work with their syncpoints, key-sequenced VSAM files, transient data queues, resource locks between
-- tasks, timed requests and events, program calls, channels and their containers, storage control, the
-- catalog of datasets, generation data groups, dates and times, the EBCDIC number formats, and data compression.
--
-- Parts, and the files that model them:
--   Base, Base/…      lists, byte strings, ordered maps (std::map, std::unordered_map), signed integers
--   Result            libs/common: ErrorCode, Result<T>, AtomicCounter
--   Text              libs/common: FixedString
--   Tsq               libs/tsq/src/tsq_manager.cpp: TSQItem, TSQStatistics, TemporaryStorageQueue.
--                     `write`, `rewrite`, `read`, `read_next`, `delete_item` and `delete_all` are the
--                     methods of the same names.
--   Tsq/Spec          the abstract queue, a list of texts; Tsq/Refines relates the two
--   Tsq/Manager       TSQManager and exec_cics_writeq_ts, exec_cics_readq_ts, exec_cics_deleteq_ts
--   Counter           libs/named-counter/src/counter.cpp: NamedCounter
--   Counter/Pool      CounterPool
--   Counter/Manager   CounterManager; get(pool, name) and put(pool, name, value) are `get_in`, `put_in`
--   Syncpoint         libs/syncpoint/src/syncpoint.cpp: SimpleRecoveryResource, UnitOfWork
--   Syncpoint/Script  resources whose callbacks write a log, and the protocol that the log must show
--   Syncpoint/Manager SyncpointManager; Syncpoint/Manager/Guard: SyncpointGuard and the EXEC CICS calls
--   Vsam              libs/vsam/include/cics/vsam/vsam_types.hpp, libs/vsam/src/vsam_file.cpp
--   Vsam/Ksds         libs/vsam/src/ksds_file.cpp: KsdsFile; Vsam/Ksds/Spec is the table of its texts
--   Tdq               libs/tdq/src/tdq_manager.cpp: IntrapartitionQueue; Tdq/Fifo is the queue of texts
--   Tdq/Manager       TDQManager; an ExtrapartitionQueue is a parameter, the operations FileQueues
--   Task              libs/task-control/src/task_control.cpp: TaskControlManager, its tasks
--   Task/Locks        enq, deq and ResourceLock; `wake` is what a waiting enq does when it is woken
--   Interval          libs/interval-control/src/interval_control.cpp: IntervalSpec, start, cancel,
--                     retrieve and the events; Interval/Times has the times that a spec comes to
--   Interval/Scheduler scheduler_loop: `round` is one pass; Interval/Scheduler/Waits: wait_event, wait_any
--   Gdg               libs/gdg/src/gdg_manager.cpp: GdgManager and the names of generations
--   Program           libs/program-control/src/program_control.cpp: ProgramControlManager; `run` is what the
--                     entry point of a program does, a sequence of calls of the manager
--   Channel           libs/channel/src/channel.cpp: Container and Channel; Channel/Manager: ChannelManager,
--                     where `put_current`, `get_current` and `delete_current` are the calls without a
--                     channel, with the EXEC CICS calls in Channel/Manager/Commands;
--                     Channel/Manager/Spec is the table of tables of bytes
--   Catalog           libs/master-catalog/src/master_catalog.cpp: MasterCatalog
--   Storage           libs/storage-control/src/storage_control.cpp: StorageControlManager, StoragePool;
--                     Storage/Blocks has the blocks and pools, Storage/Runs the sequences of calls, and
--                     Storage/Guard StorageGuard
--   Datetime          libs/datetime/src/datetime.cpp: DateTime and the packed forms; Datetime/Duration:
--                     TimeDuration and the system's times; Datetime/Iso: to_iso8601, format and parse
--   Compression       libs/compression/include/cics/compression/compression.hpp: rle, lz77, Compressor
--   Ebcdic            libs/ebcdic/src/ebcdic.cpp: the tables and classes of characters; Ebcdic/Packed,
--                     Ebcdic/Zoned and Ebcdic/Binary are the formats of numbers
--
-- How they interact: a manager is a singleton that finds an object by name and calls it. Here a manager
-- is a record that every operation takes and returns, and the pointer that a lookup gives is the name
-- under which the object is stored again. Queue names go through to_upper, counter names do not. A unit
-- of work calls the callbacks of its resources, and a transient data queue that of its trigger; what these
-- act on is a parameter, the world `W`. A channel or container pointer is the object and its name, under
-- which a write stores it again. Addresses come from the allocator of the C++ library: what it returns is
-- an argument, and the sequences of calls take a function that never returns an address in use. The system
-- functions mktime and localtime are parameters of the times. The scheduler hands a request to a callback: here it returns it.
--
-- Threads: in Task and Interval, what a thread does under the mutex is one step, and a run is any sequence
-- of steps of any threads. A call that waits on a condition variable is cut at the wait: each time it is
-- woken is a step, and between two such steps any others may come. In which order the queue of the scheduler
-- gives requests of one time is not said by std::priority_queue: it is an argument of `start`.
--
-- Numbers: a UInt64 or UInt32 counter wraps (`% 2 ^ 64`, `% 2 ^ 32`), except that a 32-bit item number is
-- formed from a size below the limit of the queue. An Int64 of a counter is an integer, and every sum and
-- difference is checked, as are those of a packed or zoned number: one that leaves the range makes the
-- result `undefined`, which stands for undefined behaviour. Sizes are natural numbers.
--
-- Fuel: `digits` prints a UInt64 of at most 20 digits on fuel 20. The callers that read a queue or a file
-- to its end run on fuel: one more than there is to read, since every successful call moves on by one.
-- `resolve_destination`, a recursion without bound in the source, runs on one more than there are indirect
-- destinations: a resolution that ends meets no name twice. int64_to_packed divides by 10 until nothing is
-- left: fuel 20 is more than the digits of an Int64. A UInt16 has at most 5 digits, the fuel of its printer.
-- The loop over the months has one step for each month. The coders and decoders of Compression run on the
-- length of their input: every round takes at least one byte of it.
--
-- Not modelled: time stamps and I/O times; the text of error messages and statistics; locks, and, outside
-- Task and Interval, threads that run between two calls (each method runs under its lock, so a call is one
-- step); the random id of a browse and the time in the id of a unit of work, which are arguments; a
-- resource that two units of work share, callbacks that call the unit of work itself, and extrapartition
-- queues; the clocks and the sleeping calls; numbers with a fraction. The other libraries of the
-- repository, among them the parsers, security, spool files and journals, are not modelled.
pub mod Base
pub mod Result
pub mod Text
pub mod Tsq
pub mod Catalog
pub mod Channel
pub mod Compression
pub mod Counter
pub mod Datetime
pub mod Storage
pub mod Syncpoint
pub mod Vsam
pub mod Ebcdic
pub mod Task
pub mod Interval
pub mod Gdg
pub mod Program
pub mod Tdq

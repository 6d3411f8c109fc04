-- ===== src/Lib.antt =====
-- A model of mod_event_kafka, the FreeSWITCH module that stores events in a durable outbox and
-- sends them to Kafka in the order of their calls.
--
-- The program has three layers. The module (mod_event_kafka.cpp) turns FreeSWITCH events into
-- payloads and hands them to the pipeline (src/kafka_pipeline.cpp), which commits each to the outbox
-- (src/kafka_outbox.cpp) and, in one worker thread, fetches due events, claims each, produces it and
-- settles it by its delivery report. The outbox keeps the order: a call's events carry a sequence,
-- the cursor `next_seq` of the call names the only one that may be sent, and it moves when that one
-- is acknowledged.
--
-- Outbox/Schema has the four tables of Outbox::open and the record of include/kafka_outbox.hpp.
-- A `Store` is the database with the limits of Outbox::Impl; a list is a table in rowid order.
-- Outbox/Engine has `Statement` and `Transaction` over an explicit store. What SQLite answers is an
-- argument: `Faults` says for each statement in turn whether it fails, and with which message, so a
-- theorem for all faults holds wherever SQLite fails. A statement is taken to be atomic, a rolled
-- back transaction to restore the store, as SQLite documents. A store that is not open answers with
-- the exceptions or the early returns of the source.
-- Outbox/Admission is insert_pending; Outbox/Transitions has mark_in_flight, mark_acked, mark_retry,
-- mark_dead, retry_dead, requeue_in_flight and expire_ttl; Outbox/Queries has fetch_due, get, stats
-- and oldest_pending_age_ms. `true` with no exception is `done`, `false` with a message is `thrown`.
-- Wall-clock readings and event ids are arguments. Times, counts and stored sequences are the
-- naturals: the source has int64_t, and the places where it tests the range test it here. A string
-- stands for its bytes.
-- Outbox/Invariant is the well-formedness of a store and its preservation; Outbox/History runs any
-- sequence of calls, each with its own faults, and follows a call's cursor, the contents of the rows
-- (Outbox/History/Contents, Outbox/History/Fixed) and retired calls (Outbox/History/Retired);
-- Outbox/Fifo follows a call's queue of events; Outbox/Laws has what holds of single calls.
--
-- Outbox/EventId is make_event_id, from two draws of its generator.
-- Outbox/Database is the file as open may find it, of any version, with the statements that open runs
-- on it, and Outbox/Opening is Outbox::open and close: the lock, the checks, the journal mode, which
-- is set outside the transaction, the upgrade in the transaction, and the rollback. Outbox/Reach says
-- which stores a client of the outbox can bring about, what clients that admit nothing do to a call's
-- queue, and what calls that only settle leave standing (Outbox/Reach/Standing).
--
-- Pipeline/State is the state of KafkaPipeline, and an exception that leaves a call is `escaped`;
-- Pipeline/Calls has enqueue and on_delivery, Pipeline/Failure settle_send_failure, with each outbox
-- call's `catch` as `reported`, Pipeline/Backoff attempt_backoff_ms, and Pipeline/Producer
-- create_producer_unlocked and produce_record. librdkafka's error codes are the names in the source;
-- what librdkafka answers is an argument, as are the delivery reports, which may come at any poll or
-- flush, for any event, doubled or never. Pipeline/Worker is worker_loop as a machine, whose steps
-- other threads' calls may fall between; Pipeline/System interleaves enqueue, worker steps,
-- request_rebuild and the flags of stop in any order; Pipeline/Lifecycle is start and stop, whose
-- join is of a worker that takes so many steps. The other modules of Pipeline have the theorems: on the parts, on the worker (in Pipeline/Worker: Serving,
-- Ending, Idle, Handing for what a step hands to librdkafka, Hands and Contents for the rows that it
-- holds), on the whole (in Pipeline/System: Queue, Safety, Claims, Sent for the order of the
-- messages, Genuine for what they contain, with Stutters and Kept) and on restarts
-- (Pipeline/Lifecycle/Restart). In Pipeline/Lifecycle/Lifetimes a process is stopped, or killed
-- between two calls, and another starts on its file: a kill leaves what is committed.
--
-- Module/Settings, Module/Publisher, Module/Subscriptions, Module/Loading and Module/Unloading are
-- mod_event_kafka.cpp: the configuration, with the table of settings in Module/Settings/Table,
-- KafkaEventPublisher with PublishEvent, the handlers that KafkaModule binds and unbinds, and the
-- load and shutdown functions; what FreeSWITCH answers is an argument, and so is what the worker and
-- the handlers do while the module loads. Module/Ordering and Module/Relaying join them to the
-- pipeline.
-- Queue is BoundedQueue of include/bounded_queue.hpp: threads are sequences of calls in the order in
-- which they hold the lock.
--
-- The backoff's loop has fuel, seven rounds, since its counter stops at 8. The steps of the worker
-- are counted where it is to end; there is no bound on them but the reports that it meets. Statements
-- run over finite tables.
--
-- Not modelled: the random generator and the clock, how FreeSWITCH reads the settings, the logging,
-- the sizes of C buffers, the purges, which only cause reports, the waiting of threads, the inside of
-- librdkafka and of FreeSWITCH, and the Python and shell tools around the program. SQLite is taken
-- by its documentation, as said above.
pub mod Common
pub mod Outbox
pub mod Module
pub mod Pipeline
pub mod Queue

-- ===== src/Pipeline/Lifecycle.antt =====
-- start and stop of KafkaPipeline (src/kafka_pipeline.cpp): the outbox is opened and recovered, the
-- producer created and the worker started; and all of it is taken down again.
pub mod Restart
pub mod Lifetimes
mod Tests
use mod_event_kafka.Common.{ℕ, String, Bool, true, false, ◌||◌, Option, none, some, if◌then◌else◌}
use mod_event_kafka.Outbox.Schema.{Store}
use mod_event_kafka.Outbox.Engine.{Faults}
use mod_event_kafka.Outbox.Transitions.{requeue_in_flight}
use mod_event_kafka.Outbox.Opening.{
  Host, Handle, open_outbox, close_outbox, store_of_handle, handle_of,
}
use mod_event_kafka.Pipeline.State.{
  KafkaPipeline, Step, returned, escaped, Act, ◌>>=◌, return, on_outbox,
}
use mod_event_kafka.Pipeline.Failure.{Report, ok, failed, reported, Clock}
use mod_event_kafka.Pipeline.Producer.{Kafka, create_producer}
use mod_event_kafka.Pipeline.Worker.{Worker, loop_head, ended, aborted, drop_producer}
use mod_event_kafka.Pipeline.Worker.Ending.{Course, run_worker}
use mod_event_kafka.Pipeline.System.{stop_flags}

-- The object: `worker` is the thread, if it is joinable; `file` is the outbox while it is closed.
pub record Instance : Type 0 where
  pub pipeline : KafkaPipeline
  pub file : Handle
  pub worker : Option Worker

-- What start meets: the files, the engine while it opens and after, the clock, and librdkafka.
pub record Startup : Type 0 where
  pub host : Host
  pub opening_faults : Faults
  pub faults : Faults
  pub clock : Clock
  pub kafka : Kafka

abbrev pub has_thread : Option Worker → Bool
has_thread none = false
has_thread (some w) = true

abbrev pub create_after : Kafka → Report (Unit {0}) → Act (Report (Unit {0}))
create_after kafka (ok u) = create_producer kafka
create_after kafka (failed err) = λ fs p. returned (failed err) fs p

-- `outbox_->requeue_in_flight(err)` and `create_producer_unlocked(err)`
unfoldable pub recover : Startup → Act (Report (Unit {0}))
unfolding ◌>>=◌ on_outbox reported create_producer
recover up = do
  requeued ← on_outbox (λ p. reported (requeue_in_flight up.clock.due up.clock.update))
  create_after up.kafka requeued

abbrev pub set_running : KafkaPipeline → KafkaPipeline
set_running p = record p { running = true; accept = true; rebuild_requested = false }

abbrev pub without_outbox : KafkaPipeline → KafkaPipeline
without_outbox p = record p { outbox = record p.outbox { is_open = false } }

-- The object after its outbox is closed. The file is what the operations have made of it, or, if it was
-- not open, as it was.
abbrev pub closed_with : KafkaPipeline → Instance → Instance
closed_with p s = record s {
  pipeline = without_outbox p;
  file = close_outbox (if p.outbox.is_open then handle_of p.outbox else s.file);
}

-- `none` for true, or the `err` of a refusal. Nothing in recover throws, so that the last clause is
-- not reached.
abbrev pub recovered : Instance → Step (Report (Unit {0})) → Option String × Instance
recovered s (returned (ok u) fs p) =
    (none, record s { pipeline = set_running p; worker = some loop_head })
recovered s (returned (failed err) fs p) = (some err, closed_with p s)
recovered s (escaped err fs p) = (some err, closed_with p s)

abbrev pub opened_pipeline : Instance → Handle → KafkaPipeline
opened_pipeline s h = record s.pipeline { outbox = store_of_handle h }

abbrev pub after_open : Startup → Instance → Option String × Handle → Option String × Instance
after_open up s (none, h) = recovered s (recover up up.faults (opened_pipeline s h))
after_open up s (some err, h) = (some err, record s { file = h })

unfoldable pub start : Startup → Instance → Option String × Instance
unfolding open_outbox close_outbox recover
start up s =
    if has_thread s.worker || s.pipeline.running
    then (some "pipeline already started", s)
    else after_open up s (open_outbox up.host up.opening_faults s.file)

-- What stop does once the worker has ended and is joined.
unfoldable pub taken_down : Instance → Instance
unfolding close_outbox
taken_down s =
    let p = drop_producer (record s.pipeline { accept = false; running = false }) in
    record (closed_with p s) { worker = none }

-- A worker that is to be joined takes n steps more.
abbrev pub advanced : Course → ℕ → KafkaPipeline → Option Worker → Instance → Instance
advanced course n p none s = record s { pipeline = p }
advanced course n p (some w) s =
    let (w', p') = run_worker course n (w, p) in record s { pipeline = p'; worker = some w' }

-- How far stop has come: it waits in the join for a worker that still runs, or the process has been
-- terminated by an exception that left worker_loop, or it has returned.
pub data Stopping : Type 0 where
  joining : Instance → Stopping
  terminated : Stopping
  stopped : Instance → Stopping

-- The join, and what follows it.
abbrev pub joined : Option Worker → Instance → Stopping
joined none s = stopped (taken_down s)
joined (some ended) s = stopped (taken_down s)
joined (some aborted) s = terminated
joined (some _) s = joining s

unfoldable pub stop : Course → ℕ → Instance → Stopping
unfolding taken_down run_worker
stop course n s =
    let left = advanced course n (stop_flags s.pipeline) s.worker s in joined left.worker left

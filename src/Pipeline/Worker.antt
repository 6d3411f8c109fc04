-- ===== src/Pipeline/Worker.antt =====
-- worker_loop and rebuild_producer as a machine: each step is what the worker does between two
-- moments at which another thread may call the outbox. The get and the UPDATE of a settlement are one
-- step, since an admission between them changes neither.
pub mod Serving
pub mod Leads
pub mod Idle
pub mod Handing
pub mod Hands
pub mod Contents
pub mod Ending
use mod_event_kafka.Common.{
  ℕ, ◌+◌, ◌%◌, ◌^◌, String, Bool, true, false, not, ◌&&◌, ◌||◌, Option, none, some, List, [], ◌∷◌,
  is_empty, if◌then◌else◌, ℤ, pos, negsuc, text_starts_with, text_append,
}
use mod_event_kafka.Outbox.Schema.{OutboxRecord, Store}
use mod_event_kafka.Outbox.Engine.{Faults, Outcome, done, thrown, Sql}
use mod_event_kafka.Outbox.Transitions.{mark_in_flight, requeue_in_flight, expire_ttl}
use mod_event_kafka.Outbox.Queries.{fetch_due}
use mod_event_kafka.Pipeline.State.{
  PipelineMetrics, KafkaPipeline, Step, returned, escaped, Act, bump, ◌>>=◌, ◌>>◌, return, modify,
  raise, observe, on_outbox,
}
use mod_event_kafka.Pipeline.Failure.{
  Report, ok, failed, reported, SendFailureResult, to_retry, to_dead, not_settled, Clock,
  settle_send_failure,
}
use mod_event_kafka.Pipeline.Calls.{RespErr, count_settled, halt, on_delivery}
use mod_event_kafka.Pipeline.Producer.{Kafka, create_producer, produce_record}

-- One delivery report: the code of the message and its DrOpaque.
pub record Delivery : Type 0 where
  pub err : RespErr
  pub context : Option String

-- What the worker meets during one step: the clock, the answers of librdkafka, and the reports that
-- its next poll or flush dispatches.
pub record World : Type 0 where
  pub now : ℕ
  pub clock : Clock
  pub kafka : Kafka
  pub reports : List Delivery

-- Where the worker goes after the reports of a poll or of a flush.
pub data Next : Type 0 where
  to_rebuild to_loop to_exit : Next

-- The places of worker_loop.
pub data Worker : Type 0 where
  loop_head rebuilding expiring : Worker
  fetching : ℕ → Worker
  sending : List OutboxRecord → Worker
  producing : OutboxRecord → List OutboxRecord → Worker
  settling : OutboxRecord → String → List OutboxRecord → Worker
  reporting : List Delivery → Next → Worker
  ended aborted : Worker

abbrev pub after_reports : Next → Worker
after_reports to_rebuild = rebuilding
after_reports to_loop = loop_head
after_reports to_exit = ended

-- `if (rk_)` around a poll, or around a purge and flush.
abbrev pub dispatch : World → Next → KafkaPipeline → Worker
dispatch w next p = if p.producer then reporting w.reports next else after_reports next

abbrev pub clear_rebuild : KafkaPipeline → KafkaPipeline
clear_rebuild p = record p { rebuild_requested = false }

unfoldable pub at_head : World → Act Worker
unfolding ◌>>◌ modify observe
at_head w fs p =
    if not p.running
    then observe (dispatch w to_exit) fs p
    else if p.rebuild_requested
    then (do modify clear_rebuild; observe (dispatch w to_rebuild)) fs p
    else returned expiring fs p

-- `true` or the exception that the worker makes of an `err`.
abbrev pub or_raise {ℓ} : {A : Type ℓ} → String → Report A → Act A
or_raise note (ok a) = λ fs p. returned a fs p
or_raise note (failed err) = λ fs p. escaped (text_append note err) fs p

abbrev pub drop_producer : KafkaPipeline → KafkaPipeline
drop_producer p = record p { producer = false }

abbrev pub count_rebuild : KafkaPipeline → KafkaPipeline
count_rebuild p = record p {
  metrics = record p.metrics { producer_rebuilds = bump p.metrics.producer_rebuilds };
}

-- rebuild_producer after its purge and flush.
unfoldable pub rebuild : World → Act Worker
unfolding ◌>>=◌ ◌>>◌ return modify on_outbox reported create_producer text_append
rebuild w = do
  modify drop_producer
  requeued ← on_outbox (λ p. reported (requeue_in_flight w.clock.due w.clock.update))
  or_raise "producer rebuild: " requeued
  made ← create_producer w.kafka
  or_raise "producer rebuild: " made
  modify count_rebuild
  return expiring

abbrev pub count_expired : ℕ → KafkaPipeline → KafkaPipeline
count_expired n p = record p {
  metrics = record p.metrics { outbox_expired = (p.metrics.outbox_expired + n) % 2 ^ 64 };
}

unfoldable pub expire_old : World → Act Worker
unfolding ◌>>=◌ ◌>>◌ return modify on_outbox reported text_append
expire_old w = do
  expired ← on_outbox (λ p. reported (expire_ttl w.now p.cfg.outbox_ttl_ms))
  n ← or_raise "" expired
  modify (count_expired n)
  return (fetching w.now)

unfoldable pub at_expiry : World → Act Worker
unfolding observe expire_old
at_expiry w fs p = if not p.running then observe (dispatch w to_exit) fs p else expire_old w fs p

unfoldable pub fetch : ℕ → Act Worker
unfolding ◌>>=◌ return on_outbox
fetch now = do due ← on_outbox (λ p. fetch_due now (pos 32)); return (sending due)

unfoldable pub claim_next : World → OutboxRecord → List OutboxRecord → Act Worker
unfolding ◌>>=◌ ◌>>◌ return on_outbox reported text_append
claim_next w rec rest = do
  claimed ← on_outbox (λ p. reported (mark_in_flight w.now rec.event_id))
  or_raise "" claimed
  return (producing rec rest)

unfoldable pub send_next : World → List OutboxRecord → Act Worker
unfolding observe claim_next
send_next w [] = observe (dispatch w to_loop)
send_next w (rec ∷ rest) = λ fs p.
    if not p.running || p.rebuild_requested
    then observe (dispatch w to_loop) fs p
    else claim_next w rec rest fs p

abbrev pub count_produced : KafkaPipeline → KafkaPipeline
count_produced p = record p {
  metrics = record p.metrics { produce_ok = bump p.metrics.produce_ok };
}

abbrev pub count_refused : String → KafkaPipeline → KafkaPipeline
count_refused err p = record p {
  metrics = record p.metrics { produce_fail = bump p.metrics.produce_fail };
  rebuild_requested = text_starts_with err "FATAL:" || p.rebuild_requested;
}

unfoldable pub after_produce : OutboxRecord → List OutboxRecord → Report (Unit {0}) → Act Worker
unfolding ◌>>◌ return modify text_starts_with
after_produce rec rest (ok u) = do modify count_produced; return (sending rest)
after_produce rec rest (failed err) = do modify (count_refused err); return (settling rec err rest)

unfoldable pub produce_next : World → OutboxRecord → List OutboxRecord → Act Worker
unfolding ◌>>=◌ produce_record after_produce
produce_next w rec rest = do r ← produce_record w.kafka rec; after_produce rec rest r

unfoldable pub after_settle : List OutboxRecord → SendFailureResult → Act Worker
unfolding ◌>>◌ return modify
after_settle rest (not_settled err) = λ fs p. escaped err fs p
after_settle rest to_retry = return (sending rest)
after_settle rest to_dead = do modify (count_settled to_dead); return (sending rest)

unfoldable pub settle_next : World → OutboxRecord → String → List OutboxRecord → Act Worker
unfolding ◌>>=◌ on_outbox after_settle text_starts_with
settle_next w rec why rest = do
  settled ← on_outbox (λ p.
      settle_send_failure p.cfg.max_attempts_before_dead rec.event_id why
        (text_starts_with why "PERMANENT:") w.clock)
  after_settle rest settled

unfoldable pub report_next : World → List Delivery → Next → Act Worker
unfolding ◌>>◌ return on_delivery
report_next w [] next = return (after_reports next)
report_next w (r ∷ reports) next = do
  on_delivery w.kafka.err2str r.err w.clock r.context
  return (reporting reports next)

-- One step of worker_loop.
unfoldable pub advance_worker : World → Worker → Act Worker
unfolding return at_head rebuild at_expiry fetch send_next produce_next settle_next report_next
advance_worker w loop_head = at_head w
advance_worker w rebuilding = rebuild w
advance_worker w expiring = at_expiry w
advance_worker w (fetching now) = fetch now
advance_worker w (sending due) = send_next w due
advance_worker w (producing rec rest) = produce_next w rec rest
advance_worker w (settling rec why rest) = settle_next w rec why rest
advance_worker w (reporting reports next) = report_next w reports next
advance_worker w ended = return ended
advance_worker w aborted = return aborted

-- An exception inside the loop stops the pipeline; one out of the last flush ends the process.
abbrev pub handled : World → Worker → KafkaPipeline → Worker × KafkaPipeline
handled w (reporting reports to_exit) p = (aborted, p)
handled w s p = (dispatch w to_exit p, halt p)

abbrev pub caught_by_loop : World → Worker → Step Worker → Worker × KafkaPipeline
caught_by_loop w s (returned s' fs p) = (s', p)
caught_by_loop w s (escaped err fs p) = handled w s p

unfoldable pub worker_step : World → Faults → Worker × KafkaPipeline → Worker × KafkaPipeline
unfolding advance_worker
worker_step w fs (s, p) = caught_by_loop w s (advance_worker w s fs p)

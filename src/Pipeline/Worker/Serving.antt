-- ===== src/Pipeline/Worker/Serving.antt =====
-- A step of the worker changes the outbox by calls that serving events, and by nothing else.
use mod_event_kafka.Common.{
  ℕ, String, Bool, true, false, refl, not, ◌||◌, List, [], ◌∷◌, if◌then◌else◌, pos,
  text_starts_with,
}
use mod_event_kafka.Outbox.Schema.{OutboxRecord}
use mod_event_kafka.Outbox.Engine.{Faults}
use mod_event_kafka.Outbox.Reach.{Serving, stays}
use mod_event_kafka.Outbox.Reach.Clients.{
  Calling-fetch_due, Calling-mark_in_flight, Calling-requeue_in_flight, Calling-expire_ttl,
}
use mod_event_kafka.Outbox.Transitions.{mark_in_flight, requeue_in_flight, expire_ttl}
use mod_event_kafka.Pipeline.State.{
  Message, KafkaPipeline, Step, returned, escaped, modify, observe, ◌>>◌,
}
use mod_event_kafka.Pipeline.Failure.{
  Report, ok, failed, SendFailureResult, to_retry, to_dead, not_settled,
}
use mod_event_kafka.Pipeline.Calls.{is_error, count_settled}
use mod_event_kafka.Pipeline.Producer.{
  Kafka, set_producer, create_producer, message_of, hand_over, produce_ready, produce_record,
}
use mod_event_kafka.Pipeline.Worker.{
  Delivery, World, Next, to_exit, to_loop, to_rebuild, Worker, loop_head, rebuilding, expiring,
  fetching, sending, producing, settling, reporting, ended, aborted, dispatch, clear_rebuild,
  at_head, or_raise, drop_producer, count_rebuild, rebuild, count_expired, expire_old, at_expiry,
  fetch, claim_next, send_next, count_produced, count_refused, after_produce, produce_next,
  after_settle, settle_next, report_next, advance_worker, handled, caught_by_loop, worker_step,
}
use mod_event_kafka.Pipeline.Serving.{
  pipeline_of, Served, Served-self, Served-trans, Untouched, Untouched-Served, Serves, Serves->>=,
  Serves->>, Serves-return, Serves-observe, Serves-modify, Serves-on_outbox, Serves-if,
  Serves-choice, Serves-on_delivery, Calling-reported, Calling-settle_send_failure,
}

set_producer-Untouched :
    (r : Report (Unit {0})) (p : KafkaPipeline) → Untouched p (set_producer r p)
set_producer-Untouched (ok u) p = (refl, refl, (λ e. e), refl)
set_producer-Untouched (failed e) p = (refl, refl, (λ e. e), refl)

module _ {sends : Bool} where
  Serves-or_raise {ℓ} : {A : Type ℓ} (note : String) (r : Report A) → Serves sends (or_raise note r)
  Serves-or_raise note (ok a) = record { serving = λ fs p. Served-self p }
  Serves-or_raise note (failed e) = record { serving = λ fs p. Served-self p }

  Serves-create_producer : (kafka : Kafka) → Serves sends (create_producer kafka)
  unfolding create_producer
  Serves-create_producer kafka = Serves->>= _ _ (Serves-observe _) (λ r.
      Serves->> _ _ (Serves-modify (set_producer r) (set_producer-Untouched r)) (Serves-return r))

  Serves-at_head : (w : World) → Serves sends (at_head w)
  unfolding at_head
  Serves-at_head w =
      Serves-choice (λ p. not p.running) _
        (λ fs p.
          if p.rebuild_requested
          then (modify clear_rebuild >> observe (dispatch w to_rebuild)) fs p
          else returned expiring fs p)
        (Serves-observe (dispatch w to_exit))
        (Serves-choice (λ p. p.rebuild_requested) _ (λ fs p. returned expiring fs p)
          (Serves->> _ _ (Serves-modify clear_rebuild (λ p. (refl, refl, (λ e. e), refl)))
            (Serves-observe (dispatch w to_rebuild)))
          (record { serving = λ fs p. Served-self p }))

  Serves-rebuild : (w : World) → Serves sends (rebuild w)
  unfolding rebuild
  Serves-rebuild w =
      Serves->> _ _ (Serves-modify drop_producer (λ p. (refl, refl, (λ e. e), refl))) (
        Serves->>= _ _
          (Serves-on_outbox _ (λ p.
            Calling-reported Serving (requeue_in_flight w.clock.due w.clock.update)
              (Calling-requeue_in_flight w.clock.due w.clock.update)))
          (λ r. Serves->> _ _ (Serves-or_raise "producer rebuild: " r) (
            Serves->>= _ _ (Serves-create_producer w.kafka) (λ made.
              Serves->> _ _ (Serves-or_raise "producer rebuild: " made) (
                Serves->> _ _ (Serves-modify count_rebuild (λ p. (refl, refl, (λ e. e), refl)))
                  (Serves-return expiring))))))

  Serves-at_expiry : (w : World) → Serves sends (at_expiry w)
  unfolding at_expiry expire_old
  Serves-at_expiry w =
      Serves-choice (λ p. not p.running) _ (expire_old w) (Serves-observe (dispatch w to_exit))
        (Serves->>= _ _
          (Serves-on_outbox _ (λ p.
            Calling-reported Serving (expire_ttl w.now p.cfg.outbox_ttl_ms)
              (Calling-expire_ttl w.now p.cfg.outbox_ttl_ms)))
          (λ r. Serves->>= _ _ (Serves-or_raise "" r) (λ n.
            Serves->> _ _ (Serves-modify (count_expired n) (λ p. (refl, refl, (λ e. e), refl)))
              (Serves-return (fetching w.now)))))

  Serves-fetch : (now : ℕ) → Serves sends (fetch now)
  unfolding fetch
  Serves-fetch now =
      Serves->>= _ _ (Serves-on_outbox _ (λ p. Calling-fetch_due Serving now (pos 32)))
        (λ due. Serves-return (sending due))

  Serves-send_next : (w : World) (due : List OutboxRecord) → Serves sends (send_next w due)
  unfolding send_next claim_next
  Serves-send_next w [] = Serves-observe (dispatch w to_loop)
  Serves-send_next w (rec ∷ rest) =
      Serves-choice (λ p. not p.running || p.rebuild_requested) _ (claim_next w rec rest)
        (Serves-observe (dispatch w to_loop))
        (Serves->>= _ _
          (Serves-on_outbox _ (λ p.
            Calling-reported Serving (mark_in_flight w.now rec.event_id)
              (Calling-mark_in_flight w.now rec.event_id)))
          (λ r. Serves->> _ _ (Serves-or_raise "" r) (Serves-return (producing rec rest))))

  Serves-after_produce :
      (rec : OutboxRecord) (rest : List OutboxRecord) (r : Report (Unit {0}))
      → Serves sends (after_produce rec rest r)
  unfolding after_produce
  Serves-after_produce rec rest (ok u) =
      Serves->> _ _ (Serves-modify count_produced (λ p. (refl, refl, (λ e. e), refl)))
        (Serves-return (sending rest))
  Serves-after_produce rec rest (failed err) =
      Serves->> _ _ (Serves-modify (count_refused err) (λ p. (refl, refl, (λ e. e), refl)))
        (Serves-return (settling rec err rest))

  Serves-after_settle :
      (rest : List OutboxRecord) (r : SendFailureResult) → Serves sends (after_settle rest r)
  unfolding after_settle
  Serves-after_settle rest (not_settled err) = record { serving = λ fs p. Served-self p }
  Serves-after_settle rest to_retry = Serves-return (sending rest)
  Serves-after_settle rest to_dead =
      Serves->> _ _ (Serves-modify (count_settled to_dead) (λ p. (refl, refl, (λ e. e), refl)))
        (Serves-return (sending rest))

  Serves-settle_next :
      (w : World) (rec : OutboxRecord) (why : String) (rest : List OutboxRecord)
      → Serves sends (settle_next w rec why rest)
  unfolding settle_next
  Serves-settle_next w rec why rest =
      Serves->>= _ _
        (Serves-on_outbox _ (λ p.
          Calling-settle_send_failure Serving (λ _ _ _ _. tt) (λ _ _ _. tt)
            p.cfg.max_attempts_before_dead rec.event_id why (text_starts_with why "PERMANENT:")
            w.clock))
        (Serves-after_settle rest)

  Serves-report_next :
      (w : World) (reports : List Delivery) (next : Next)
      → Serves sends (report_next w reports next)
  unfolding report_next
  Serves-report_next w [] next = Serves-return _
  Serves-report_next w (r ∷ reports) next =
      Serves->> _ _ (Serves-on_delivery w.kafka.err2str r.err w.clock r.context)
        (Serves-return (reporting reports next))

-- librdkafka takes a message.
Serves-hand_over : (msg : Message) → Serves true (modify (hand_over msg))
unfolding modify
Serves-hand_over msg = record {
  serving = λ fs p. record { calls = stays; config = refl; stopped = λ e. e; unsent = λ e. cc };
}

Serves-produce_ready : (kafka : Kafka) (msg : Message) → Serves true (produce_ready kafka msg)
unfolding produce_ready
Serves-produce_ready kafka msg =
    Serves-if (is_error (kafka.producev msg)) _ _ (Serves-return _)
      (Serves->> _ _ (Serves-hand_over msg) (Serves-return _))

Serves-produce_record :
    (kafka : Kafka) (rec : OutboxRecord) → Serves true (produce_record kafka rec)
unfolding produce_record produce_ready
Serves-produce_record kafka rec =
    Serves-choice (λ p. not p.producer) (λ fs p. returned (failed "producer not ready") fs p)
      (λ fs p. produce_ready kafka (message_of p.cfg.topic rec) fs p)
      (record { serving = λ fs p. Served-self p })
      (record {
        serving = λ fs p. (Serves-produce_ready kafka (message_of p.cfg.topic rec)).serving fs p;
      })

Serves-produce_next :
    (w : World) (rec : OutboxRecord) (rest : List OutboxRecord)
    → Serves true (produce_next w rec rest)
unfolding produce_next
Serves-produce_next w rec rest =
    Serves->>= _ _ (Serves-produce_record w.kafka rec) (Serves-after_produce rec rest)

-- The one place where the worker hands messages to librdkafka.
abbrev pub may_send : Worker → Bool
may_send (producing rec rest) = true
may_send _ = false

Serves-advance_worker : (w : World) (s : Worker) → Serves (may_send s) (advance_worker w s)
unfolding advance_worker
Serves-advance_worker w loop_head = Serves-at_head w
Serves-advance_worker w rebuilding = Serves-rebuild w
Serves-advance_worker w expiring = Serves-at_expiry w
Serves-advance_worker w (fetching now) = Serves-fetch now
Serves-advance_worker w (sending due) = Serves-send_next w due
Serves-advance_worker w (producing rec rest) = Serves-produce_next w rec rest
Serves-advance_worker w (settling rec why rest) = Serves-settle_next w rec why rest
Serves-advance_worker w (reporting reports next) = Serves-report_next w reports next
Serves-advance_worker w ended = Serves-return ended
Serves-advance_worker w aborted = Serves-return aborted

handled-Untouched : (w : World) (s : Worker) (p : KafkaPipeline) → Untouched p (handled w s p).1
handled-Untouched w loop_head p = (refl, refl, (λ e. refl), refl)
handled-Untouched w rebuilding p = (refl, refl, (λ e. refl), refl)
handled-Untouched w expiring p = (refl, refl, (λ e. refl), refl)
handled-Untouched w (fetching now) p = (refl, refl, (λ e. refl), refl)
handled-Untouched w (sending due) p = (refl, refl, (λ e. refl), refl)
handled-Untouched w (producing rec rest) p = (refl, refl, (λ e. refl), refl)
handled-Untouched w (settling rec why rest) p = (refl, refl, (λ e. refl), refl)
handled-Untouched w (reporting reports to_rebuild) p = (refl, refl, (λ e. refl), refl)
handled-Untouched w (reporting reports to_loop) p = (refl, refl, (λ e. refl), refl)
handled-Untouched w (reporting reports to_exit) p = (refl, refl, (λ e. e), refl)
handled-Untouched w ended p = (refl, refl, (λ e. refl), refl)
handled-Untouched w aborted p = (refl, refl, (λ e. refl), refl)

caught_by_loop-Served :
    {sends : Bool} (w : World) (s : Worker) (p : KafkaPipeline) (o : Step Worker)
    → Served sends p (pipeline_of o)
    → Served sends p (caught_by_loop w s o).1
caught_by_loop-Served w s p (returned s' fs q) h = h
caught_by_loop-Served w s p (escaped e fs q) h =
    Served-trans p q _ h (Untouched-Served q _ (handled-Untouched w s q))

-- Whatever the worker meets, one step of it changes the outbox by a sequence of calls none of which
-- admits an event, keeps the configuration, and hands librdkafka nothing elsewhere.
pub worker_step-Served :
    (w : World) (fs : Faults) (s : Worker) (p : KafkaPipeline)
    → Served (may_send s) p (worker_step w fs (s, p)).1
unfolding worker_step
worker_step-Served w fs s p =
    caught_by_loop-Served w s p (advance_worker w s fs p) ((Serves-advance_worker w s).serving fs p)

-- ===== src/Pipeline/Worker/Leads.antt =====
-- Where the parts of worker_loop lead: what holds of the place that a step comes to.
use mod_event_kafka.Common.{ℕ, String, List, [], ◌∷◌}
use mod_event_kafka.Outbox.Schema.{OutboxRecord}
use mod_event_kafka.Outbox.Engine.{Faults}
use mod_event_kafka.Outbox.Transitions.{mark_in_flight, requeue_in_flight, expire_ttl}
use mod_event_kafka.Pipeline.State.{
  KafkaPipeline, Step, Act, returned, escaped, proceed, ◌>>=◌, ◌>>◌, return, modify, on_outbox,
}
use mod_event_kafka.Pipeline.Failure.{
  reported, Report, ok, failed, SendFailureResult, to_retry, to_dead, not_settled,
}
use mod_event_kafka.Pipeline.Calls.{count_settled, on_delivery}
use mod_event_kafka.Pipeline.Producer.{create_producer}
use mod_event_kafka.Pipeline.Worker.{
  Delivery, World, Next, Worker, expiring, fetching, sending, producing, settling, claim_next,
  reporting, after_reports, count_produced, count_refused, count_expired, drop_producer,
  count_rebuild, or_raise, fetch, after_produce, after_settle, settle_next, rebuild, expire_old,
  produce_next, report_next,
}

-- The place that a step returns satisfies P.
abbrev pub Leads : (Worker → Type 0) → Step Worker → Type 0
Leads P (returned s fs p) = P s
Leads P (escaped e fs p) = Unit

module _ (P : Worker → Type 0) where
  proceed-Leads {κ} :
      {A : Type κ} (o : Step A) (k : A → Act Worker)
      → ((a : A) (fs : Faults) (p : KafkaPipeline) → Leads P (k a fs p))
      → Leads P (proceed o k)
  proceed-Leads (returned a fs p) k h = h a fs p
  proceed-Leads (escaped e fs p) k h = tt

  pub record Leading (m : Act Worker) : Type 0 where
    pub lead : (fs : Faults) (p : KafkaPipeline) → Leads P (m fs p)

  Leading->>= {ℓ} :
      {A : Type ℓ} (m : Act A) (k : A → Act Worker) → ((a : A) → Leading (k a)) → Leading (m >>= k)
  unfolding ◌>>=◌
  Leading->>= m k h = record {
    lead = λ fs p. proceed-Leads (m fs p) k (λ a fs' p'. (h a).lead fs' p');
  }

  Leading->> : (m : Act (Unit {0})) (k : Act Worker) → Leading k → Leading (m >> k)
  unfolding ◌>>◌
  Leading->> m k h = Leading->>= m (λ _. k) (λ _. h)

  Leading-return : (s : Worker) → P s → Leading (return s)
  unfolding return
  Leading-return s h = record { lead = λ fs p. h }

  pub report_next-Leading :
      (w : World) (d : Delivery) (reports : List Delivery) (next : Next)
      → P (reporting reports next)
      → Leading (report_next w (d ∷ reports) next)
  unfolding report_next
  report_next-Leading w d reports next h =
      Leading->> (on_delivery w.kafka.err2str d.err w.clock d.context) _
        (Leading-return (reporting reports next) h)

  pub reported-Leading :
      (w : World) (next : Next) → P (after_reports next) → Leading (report_next w [] next)
  unfolding report_next
  reported-Leading w next h = Leading-return (after_reports next) h

  settled-Leading :
      (rest : List OutboxRecord) (a : SendFailureResult)
      → P (sending rest)
      → Leading (after_settle rest a)
  unfolding after_settle
  settled-Leading rest (not_settled err) h = record { lead = λ fs p. tt }
  settled-Leading rest to_retry h = Leading-return (sending rest) h
  settled-Leading rest to_dead h =
      Leading->> (modify (count_settled to_dead)) _ (Leading-return (sending rest) h)

  pub settle_next-Leading :
      (w : World) (rec : OutboxRecord) (why : String) (rest : List OutboxRecord)
      → P (sending rest)
      → Leading (settle_next w rec why rest)
  unfolding settle_next
  settle_next-Leading w rec why rest h = Leading->>= _ _ (λ a. settled-Leading rest a h)

  produced-Leading :
      (rec : OutboxRecord) (rest : List OutboxRecord) (a : Report (Unit {0}))
      → P (sending rest)
      → ((err : String) → P (settling rec err rest))
      → Leading (after_produce rec rest a)
  unfolding after_produce
  produced-Leading rec rest (ok u) h k =
      Leading->> (modify count_produced) _ (Leading-return (sending rest) h)
  produced-Leading rec rest (failed err) h k =
      Leading->> (modify (count_refused err)) _ (Leading-return (settling rec err rest) (k err))

  pub produce_next-Leading :
      (w : World) (rec : OutboxRecord) (rest : List OutboxRecord)
      → P (sending rest)
      → ((err : String) → P (settling rec err rest))
      → Leading (produce_next w rec rest)
  unfolding produce_next
  produce_next-Leading w rec rest h k = Leading->>= _ _ (λ a. produced-Leading rec rest a h k)

  pub fetch-Leading :
      (now : ℕ) → ((due : List OutboxRecord) → P (sending due)) → Leading (fetch now)
  unfolding fetch
  fetch-Leading now h = Leading->>= _ _ (λ due. Leading-return (sending due) (h due))

  pub claim_next-Leading :
      (w : World) (rec : OutboxRecord) (rest : List OutboxRecord)
      → P (producing rec rest)
      → Leading (claim_next w rec rest)
  unfolding claim_next
  claim_next-Leading w rec rest h =
      Leading->>= (on_outbox (λ p. reported (mark_in_flight w.now rec.event_id))) _
        (λ r. Leading->> (or_raise "" r) _ (Leading-return (producing rec rest) h))

  pub expire_old-Leading : (w : World) → P (fetching w.now) → Leading (expire_old w)
  unfolding expire_old
  expire_old-Leading w h =
      Leading->>= (on_outbox (λ p. reported (expire_ttl w.now p.cfg.outbox_ttl_ms))) _ (λ r.
        Leading->>= (or_raise "" r) _
          (λ n. Leading->> (modify (count_expired n)) _ (Leading-return (fetching w.now) h)))

  pub rebuild-Leading : (w : World) → P expiring → Leading (rebuild w)
  unfolding rebuild
  rebuild-Leading w h = Leading->> (modify drop_producer) _ (
      Leading->>= (on_outbox (λ p. reported (requeue_in_flight w.clock.due w.clock.update))) _ (λ r.
        Leading->> (or_raise "producer rebuild: " r) _ (
          Leading->>= (create_producer w.kafka) _ (λ made.
            Leading->> (or_raise "producer rebuild: " made) _
              (Leading->> (modify count_rebuild) _ (Leading-return expiring h))))))

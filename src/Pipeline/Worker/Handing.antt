-- ===== src/Pipeline/Worker/Handing.antt =====
-- What a step of the worker hands to librdkafka.
use mod_event_kafka.Common.{◌≡◌, refl, not, List, [], ◌∷◌, ◌++◌, map, if◌then◌else◌, arith}
use mathlib.Core.List.{reverse}
use mod_event_kafka.Outbox.Schema.{OutboxRecord}
use mod_event_kafka.Outbox.Engine.{Faults}
use mod_event_kafka.Pipeline.State.{KafkaPipeline, ◌>>=◌, ◌>>◌, return, modify}
use mod_event_kafka.Pipeline.Calls.{is_error}
use mod_event_kafka.Pipeline.Producer.{message_of, produce_ready, produce_record}
use mod_event_kafka.Pipeline.Worker.{
  World, Worker, producing, produce_next, after_produce, advance_worker, worker_step,
}
use mod_event_kafka.Pipeline.Worker.Serving.{worker_step-Served}

-- The event that a step of the worker hands to librdkafka, if librdkafka accepts it.
abbrev pub handed : World → Worker → KafkaPipeline → List OutboxRecord
handed w (producing rec rest) p =
    if not p.producer
    then []
    else if is_error (w.kafka.producev (message_of p.cfg.topic rec))
    then []
    else rec ∷ []
handed w _ p = []

-- What a step of the worker hands over.
pub worker_step-produced :
    (w : World) (fs : Faults) (s : Worker) (p : KafkaPipeline)
    → (worker_step w fs (s, p)).1.produced
      ≡ reverse (map (message_of p.cfg.topic) (handed w s p)) ++ p.produced
unfolding worker_step advance_worker produce_next produce_record produce_ready after_produce ◌>>=◌
    ◌>>◌ modify return
worker_step-produced w fs (producing rec rest) p = ground arith
worker_step-produced w fs s p = (worker_step-Served w fs s p).unsent refl

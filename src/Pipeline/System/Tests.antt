-- ===== src/Pipeline/System/Tests.antt =====
-- Runs of the whole pipeline.
use mod_event_kafka.Common.{
  ℕ, ◌≡◌, refl, none, some, List, [], ◌∷◌, arith, All, Pairwise, is_empty, text_eq,
}
use mod_event_kafka.Outbox.Admission.{insert_pending}
use mod_event_kafka.Outbox.Transitions.{expire_ttl, mark_in_flight}
use mod_event_kafka.Outbox.Queries.{fetch_due}
use mod_event_kafka.Outbox.History.{empty_store}
use mod_event_kafka.Outbox.History.Validity.{empty-IsValid}
use mod_event_kafka.Outbox.Fifo.Queue.{empty-Contiguous}
use mod_event_kafka.Outbox.Laws.Exclusion.{InFlightTogether}
use mod_event_kafka.Pipeline.Tests.{clock, pipeline, event}
use mod_event_kafka.Pipeline.Calls.{no_error}
use mod_event_kafka.Pipeline.Producer.{Kafka}
use mod_event_kafka.Pipeline.Worker.{World, loop_head, rebuilding}
use mod_event_kafka.Pipeline.Worker.Ending.{Course}
use mod_event_kafka.Pipeline.Worker.Ending.Places.{Ended, run_worker-ends}
use mod_event_kafka.Pipeline.System.{
  System, Action, enqueues, works, stops, act, act_all, stop_flags,
}
use mod_event_kafka.Pipeline.System.Queue.{Unnumbered, Queues, act_all-Queues}
use mod_event_kafka.Pipeline.System.Claims.{InHand, act_all-InHand}
use mod_event_kafka.Pipeline.System.Stutters.{sent_of}
use mod_event_kafka.Pipeline.System.Sent.{Sends, sent, act_all-Sends}
use mod_event_kafka.Pipeline.System.Genuine.{Genuine, act_all-Genuine}
use mod_event_kafka.Pipeline.System.Safety.{act_all-one_in_flight}

-- A broker that accepts everything.
abbrev pub kafka : Kafka
kafka = record {
  conf_set = λ key value. none;
  new_producer = λ settings. none;
  topic_conf_set = λ key value. none;
  new_topic = λ topic. none;
  producev = λ msg. no_error;
  err2str = λ e. "";
}

-- The event "e2" is acknowledged as soon as something is dispatched.
abbrev world : World
world = record {
  now = 200;
  clock = clock;
  kafka = kafka;
  reports = record { err = no_error; context = some "e2" } ∷ [];
}

abbrev pub start : System
start = record {
  pipeline = record pipeline { outbox = empty_store 10 1000 };
  worker = loop_head;
  stored_events = [];
}

-- The event comes, is sent and acknowledged, and another thread stops the pipeline.
abbrev pub day : List Action
day =
    enqueues event 8 []
    ∷ works world []
    ∷ works world []
    ∷ works world []
    ∷ works world []
    ∷ works world []
    ∷ works world []
    ∷ works world []
    ∷ stops
    ∷ []

abbrev pub asks : All Unnumbered day
asks = (tt, (tt, (tt, (tt, (tt, (tt, (tt, (tt, (tt, tt)))))))))

act_all-Queues_example : Queues "cdr" "c1" start (act_all day start)
unfolding is_empty
act_all-Queues_example =
    act_all-Queues "cdr" "c1" refl day start asks refl (empty-IsValid 10 1000)
      (empty-Contiguous "cdr" "c1" 10 1000)

act_all-one_in_flight_example :
    Pairwise (λ a b. ¬ InFlightTogether a b) (act_all day start).pipeline.outbox.rows
act_all-one_in_flight_example =
    act_all-one_in_flight day start
      (omega arith, (tt, (tt, (tt, (tt, (tt, (tt, (tt, (tt, tt))))))))) (empty-IsValid 10 1000)

abbrev course : Course
course n = (world, [])

run_worker-ends_example : (n : ℕ) × Ended course n (rebuilding, stop_flags start.pipeline)
run_worker-ends_example = run_worker-ends rebuilding (stop_flags start.pipeline) course refl

act_all-InHand_example : InHand (act_all day start).worker (act_all day start).pipeline.outbox
act_all-InHand_example = act_all-InHand day start tt

act_all-Genuine_example : Genuine "cdr" (act_all day start)
act_all-Genuine_example =
    act_all-Genuine "cdr" day start (record { topic = refl; rows = tt; hands = tt; messages = tt })

act_all-Sends_example : Sends "cdr" "c1" (sent day start) start (act_all day start)
unfolding is_empty
act_all-Sends_example =
    act_all-Sends "cdr" "c1" refl day start asks refl (empty-IsValid 10 1000)
      (empty-Contiguous "cdr" "c1" 10 1000) tt

-- The event of that day is sent.
sends_once : sent_of "cdr" "c1" (sent day start) ≡ "e2" ∷ []
unfolding sent act insert_pending is_empty expire_ttl fetch_due text_eq mark_in_flight
sends_once = refl

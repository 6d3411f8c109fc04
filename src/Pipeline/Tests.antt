-- ===== src/Pipeline/Tests.antt =====
-- Runs of the pipeline on concrete events and reports.
use mod_event_kafka.Common.{
  ℕ, ◌+◌, ◌-◌, ◌*◌, ◌%◌, ◌^◌, ◌<◌, min, ◌≡◌, ◌↔◌, Bool, update_where, refl, true, false, none, some,
  [], ◌∷◌, arith, pos, negsuc, here, is_empty, text_eq,
}
use mod_event_kafka.Outbox.Schema.{in_flight, Row, Store, admission}
use mod_event_kafka.Outbox.Engine.{Faults, done, store_of}
use mod_event_kafka.Outbox.Transitions.{has_id, is_null}
use mod_event_kafka.Outbox.Transitions.Effects.{acked}
use mod_event_kafka.Outbox.Invariant.{IsValid, in_call}
use mod_event_kafka.Outbox.Queries.{to_record}
use mod_event_kafka.Outbox.History.{empty_store}
use mod_event_kafka.Pipeline.Backoff.{doubled, attempt_backoff_ms, attempt_backoff_lem}
use mod_event_kafka.Pipeline.Failure.{Clock, settle_send_failure}
use mod_event_kafka.Pipeline.Settling.{settled_row, GivesUp, verdict, settle_send_failure_lem}
use mod_event_kafka.Pipeline.State.{PipelineConfig, PipelineMetrics, KafkaPipeline, returned}
use mod_event_kafka.Pipeline.Calls.{Event, Enqueued, enqueue}
use mod_event_kafka.Pipeline.Enqueuing.{Answered, enqueue_lem}
use mod_event_kafka.Pipeline.Keeping.{KeepsEvents, settle_send_failure-KeepsEvents}

abbrev sent_row : Row
sent_row = record {
  event_id = "e1";
  topic = "cdr";
  msg_key = "k1";
  payload = "{}";
  state = in_flight;
  attempts = 1;
  next_attempt_at_ms = 5;
  last_error = "";
  created_at_ms = 5;
  updated_at_ms = 6;
  call_uuid = "c1";
  call_seq = some 0;
  eligible_at_ms = some 5;
}

-- An outbox whose only event has been sent.
abbrev pub sent : Store
sent = record (empty_store 10 1000) {
  rows = sent_row ∷ [];
  streams =
      record {
        topic = "cdr";
        call_uuid = "c1";
        msg_key = "k1";
        mode = admission;
        next_seq = 0;
        admit_seq = 1;
        last_served_ms = 1;
      }
      ∷ [];
  turn = 1;
}

abbrev pub clock : Clock
clock = record { due = 100; jitter = 100; update = 101 }

abbrev pub config : PipelineConfig
config = record {
  brokers = "localhost:9092";
  topic = "cdr";
  username = "";
  password = "";
  security_protocol = "";
  ssl_ca_location = "";
  compression = "snappy";
  outbox_path = "/tmp/event_kafka_outbox.db";
  buffer_size = pos 100000;
  mem_queue_max = 10000;
  outbox_max_rows = 10;
  outbox_max_bytes = 1000;
  message_timeout_ms = pos 30000;
  enable_idempotence = true;
  require_source_sequence = false;
  max_attempts_before_dead = pos 3;
  outbox_ttl_ms = pos 120000;
}

abbrev pub no_metrics : PipelineMetrics
no_metrics = record {
  enqueued = 0;
  rejected_mem_full = 0;
  rejected_disk_full = 0;
  state_errors = 0;
  produce_ok = 0;
  produce_fail = 0;
  delivery_fail = 0;
  acked = 0;
  producer_rebuilds = 0;
  permanent_errors = 0;
  outbox_expired = 0;
}

abbrev pub pipeline : KafkaPipeline
pipeline = record {
  cfg = config;
  metrics = no_metrics;
  outbox = sent;
  producer = true;
  produced = [];
  running = true;
  accept = true;
  rebuild_requested = false;
}

abbrev pub event : Event
event = record {
  event_id = "e2";
  payload = "{}";
  msg_key = "k1";
  call_uuid = "c1";
  source_sequence = negsuc 0;
  created_at_ms = 7;
}

pub sent-IsValid : IsValid sent
unfolding is_empty text_eq is_null
sent-IsValid = record {
  rows_ok = (
    in_call _ 0 refl (record {
      named = refl;
      seq = refl;
      low = omega arith;
      high = omega arith;
      flying = λ e. refl;
      stamp = refl;
      key = refl;
    }),
    tt,
  );
  ids = (tt, tt);
  slots = (tt, tt);
  streams_ok =
      (record { ordered = omega arith; bounded = omega arith; named = refl; keyed = refl }, tt);
  calls = (tt, tt);
  turns = omega arith;
}

attempt_backoff_lem_example :
    (attempt_backoff_ms (pos 3) 100 ≡ 200 * 2 ^ min (3 - 1) 7 + 100 % 97)
    × (attempt_backoff_ms (pos 3) 100 < 30000)
    × ((k : ℕ) → doubled (k + 7) (pos 3) 1 200 ≡ doubled 7 (pos 3) 1 200)
attempt_backoff_lem_example = attempt_backoff_lem (pos 3) 100

settle_send_failure_lem_example :
    (given_up : Bool) × ((given_up ≡ true) ↔ GivesUp (pos 3) false sent_row)
    × (settle_send_failure (pos 3) "e1" "timed out" false clock [] sent
        ≡ done (verdict given_up) [] (record sent {
          rows =
              update_where
                (has_id "e1")
                (settled_row given_up "timed out"
                  (clock.due + attempt_backoff_ms (to_record sent_row).attempts clock.jitter)
                  clock.update)
                sent.rows;
        }))
settle_send_failure_lem_example =
    settle_send_failure_lem (pos 3) "timed out" false clock sent sent_row sent-IsValid refl here
      refl

settle_send_failure-KeepsEvents_example : KeepsEvents sent (
    store_of (
      settle_send_failure
        (pos 3)
        "e1"
        "timed out"
        true
        clock
        (none ∷ some "disk I/O error" ∷ [])
        sent))
settle_send_failure-KeepsEvents_example =
    settle_send_failure-KeepsEvents (pos 3) "e1" "timed out" true clock
      (none ∷ some "disk I/O error" ∷ []) sent

enqueue_lem_example :
    (answer : Enqueued) × (fs' : Faults) × (p' : KafkaPipeline) × (enqueue event 7 [] pipeline
      ≡ returned answer fs' p')
    × Answered pipeline event answer p'
enqueue_lem_example = enqueue_lem event 7 [] pipeline

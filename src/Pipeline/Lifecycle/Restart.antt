-- ===== src/Pipeline/Lifecycle/Restart.antt =====
-- A pipeline that is stopped and started again.
use mod_event_kafka.Common.{◌≡◌, refl, ap, if◌then◌else◌, true, false, none, some, List, [], All}
use mod_event_kafka.Outbox.Schema.{Store, Row}
use mod_event_kafka.Outbox.Invariant.{IsValid}
use mod_event_kafka.Outbox.Laws.Recovery.{Requeued, requeue_in_flight-Requeued}
use mod_event_kafka.Outbox.Engine.{done}
use mod_event_kafka.Outbox.Transitions.{requeue_in_flight}
use mod_event_kafka.Outbox.Opening.{handle_of, close_outbox, is_active}
use mod_event_kafka.Outbox.Opening.Reopening.{open_outbox-close_outbox}
use mod_event_kafka.Pipeline.State.{
  KafkaPipeline, returned, ◌>>=◌, ◌>>◌, return, on_outbox, modify, observe,
}
use mod_event_kafka.Pipeline.Failure.{ok, reported}
use mod_event_kafka.Pipeline.Producer.{create_result, create_producer}
use mod_event_kafka.Pipeline.Worker.{loop_head, drop_producer}
use mod_event_kafka.Pipeline.Lifecycle.{
  Instance, Startup, recover, start, taken_down, opened_pipeline, set_running, without_outbox,
}

-- The host grants the files, the engine refuses nothing, and librdkafka creates the producer.
pub record Fair (up : Startup) (p : KafkaPipeline) : Type 0 where
  pub lock : up.host.lock_granted ≡ true
  pub file : up.host.file_opens ≡ true
  pub opening : up.opening_faults ≡ []
  pub calls : up.faults ≡ []
  pub producer : create_result up.kafka p.cfg ≡ ok tt

-- A running pipeline over the outbox d, in which what was in flight waits again.
pub record Restarted (d : Store) (s : Instance) : Type 0 where
  pub starts : s.worker ≡ some loop_head
  pub running : s.pipeline.running ≡ true
  pub accepts : s.pipeline.accept ≡ true
  pub producer : s.pipeline.producer ≡ true
  pub streams : s.pipeline.outbox.streams ≡ d.streams
  pub requeued : Requeued d.rows s.pipeline.outbox.rows

recover-done :
    (up : Startup) (p : KafkaPipeline)
    → Fair up p
    → p.outbox.is_open ≡ true
    → (rows : List Row) × (recover up up.faults p
        ≡ returned
            (ok tt)
            []
            (record p { outbox = record p.outbox { rows = rows }; producer = true }))
      × Requeued p.outbox.rows rows
      × (requeue_in_flight up.clock.due up.clock.update [] p.outbox
          ≡ done tt [] (record p.outbox { rows = rows }))
unfolding recover ◌>>=◌ ◌>>◌ on_outbox reported create_producer observe modify return
recover-done up p fair opened =
    let (rows, e, h) = requeue_in_flight-Requeued up.clock.due up.clock.update p.outbox opened in
    (rows, rw (fair.calls, e, fair.producer) refl, h, e)

-- The object after such a start over the given rows.
abbrev pub resumed : Instance → List Row → Instance
resumed s rows = record s {
  pipeline = set_running (record s.pipeline {
    outbox = record s.pipeline.outbox { rows = rows };
    producer = true;
    accept = false;
    running = false;
  });
  file = close_outbox (handle_of s.pipeline.outbox);
  worker = some loop_head;
}

-- The object after it has been taken down with its outbox open.
abbrev closed_down : Instance → Instance
closed_down s = record {
  pipeline = without_outbox (drop_producer (record s.pipeline { accept = false; running = false }));
  file = close_outbox (handle_of s.pipeline.outbox);
  worker = none;
}

taken_down-open : (s : Instance) → s.pipeline.outbox.is_open ≡ true → taken_down s ≡ closed_down s
unfolding taken_down
taken_down-open s opened =
    ap
      (λ b. record (closed_down s) {
        file = close_outbox (if b then handle_of s.pipeline.outbox else s.file);
      })
      opened

-- What start does after the object has been taken down: the requeue, and nothing else in the outbox.
pub start-resumed :
    (up : Startup) (s : Instance)
    → Fair up s.pipeline
    → s.pipeline.outbox.is_open ≡ true
    → IsValid s.pipeline.outbox
    → All (λ c. is_active s.pipeline.outbox.streams c ≡ false) s.pipeline.outbox.retired
    → (rows : List Row) × (start up (taken_down s) ≡ (none, resumed s rows))
      × (requeue_in_flight up.clock.due up.clock.update [] s.pipeline.outbox
          ≡ done tt [] (record s.pipeline.outbox { rows = rows }))
      × Requeued s.pipeline.outbox.rows rows
unfolding start
start-resumed up s fair opened v idle =
    let again =
      open_outbox-close_outbox up.host s.pipeline.outbox fair.lock fair.file opened v idle in
    let fresh : Fair up (opened_pipeline (closed_down s) (handle_of s.pipeline.outbox)) = record {
      lock = fair.lock;
      file = fair.file;
      opening = fair.opening;
      calls = fair.calls;
      producer = fair.producer;
    } in
    let (rows, e, h, k) =
      recover-done up (opened_pipeline (closed_down s) (handle_of s.pipeline.outbox)) fresh
        opened in
    (rows, rw (taken_down-open s opened, fair.opening, again, e) refl, k, h)

-- ===== src/Pipeline/Calls.antt =====
-- The calls that change KafkaPipeline: enqueue and on_delivery.
use mod_event_kafka.Common.{
  ℕ, String, Bool, true, false, not, ◌&&◌, ◌||◌, Option, none, some, is_empty, if◌then◌else◌, ℤ,
  pos, negsuc,
}
use mod_event_kafka.Outbox.Schema.{pending, OutboxRecord}
use mod_event_kafka.Outbox.Admission.{insert_pending}
use mod_event_kafka.Outbox.Transitions.{mark_acked}
use mod_event_kafka.Pipeline.State.{
  KafkaPipeline, Act, bump, ◌>>=◌, ◌>>◌, return, modify, on_outbox,
}
use mod_event_kafka.Pipeline.Backoff.{int_lt}
use mod_event_kafka.Pipeline.Failure.{
  Report, ok, failed, reported, SendFailureResult, to_dead, not_settled, Clock, settle_send_failure,
}

-- The result of `enqueue` with its out-parameters: the sequence, or the id that was set and `err`.
pub data Enqueued : Type 0 where
  stored : String → ℤ → Enqueued
  rejected : String → String → Enqueued

abbrev pub count_enqueued : KafkaPipeline → KafkaPipeline
count_enqueued p = record p { metrics = record p.metrics { enqueued = bump p.metrics.enqueued } }

abbrev pub count_rejected : KafkaPipeline → KafkaPipeline
count_rejected p = record p {
  metrics = record p.metrics { rejected_disk_full = bump p.metrics.rejected_disk_full };
}

-- What a caller hands to `enqueue`, with the event id and the time that it takes for it.
pub record Event : Type 0 where
  pub event_id : String
  pub payload : String
  pub msg_key : String
  pub call_uuid : String
  pub source_sequence : ℤ
  pub created_at_ms : ℕ

-- The other fields have the defaults of `OutboxRecord`.
abbrev pub record_of_event : String → Event → OutboxRecord
record_of_event topic ev = record {
  event_id = ev.event_id;
  topic = topic;
  msg_key = ev.msg_key;
  payload = ev.payload;
  state = pending;
  attempts = pos 0;
  next_attempt_at_ms = 0;
  last_error = "";
  created_at_ms = ev.created_at_ms;
  updated_at_ms = 0;
  call_uuid = ev.call_uuid;
  call_seq = ev.source_sequence;
}

abbrev pub lacks_sequence : KafkaPipeline → Event → Bool
lacks_sequence p ev =
    int_lt ev.source_sequence (negsuc 0)
    || p.cfg.require_source_sequence
      && not (is_empty ev.call_uuid)
      && int_lt ev.source_sequence (pos 0)

unfoldable pub conclude : String → Report ℤ → Act Enqueued
unfolding ◌>>◌ modify return
conclude id (ok seq) = do modify count_enqueued; return (stored id seq)
conclude id (failed err) = do modify count_rejected; return (rejected id err)

unfoldable pub commit_event : Event → ℕ → Act Enqueued
unfolding ◌>>=◌ on_outbox reported conclude
commit_event ev wall = do
  r ← on_outbox (λ p. reported (insert_pending (record_of_event p.cfg.topic ev) wall))
  conclude ev.event_id r

unfoldable pub enqueue : Event → ℕ → Act Enqueued
unfolding return commit_event
enqueue ev wall fs p =
    if not p.accept
    then return (rejected "" "pipeline not accepting") fs p
    else if lacks_sequence p ev
    then return (rejected "" "contiguous per-call source sequence required (starts at zero)") fs p
    else commit_event ev wall fs p

-- The codes of rd_kafka_resp_err_t that the source names, and all others.
pub data RespErr : Type 0 where
  no_error fatal topic_authorization_failed cluster_authorization_failed : RespErr
  invalid_msg msg_size_too_large invalid_record : RespErr
  other : ℕ → RespErr

unfoldable pub is_permanent_error : RespErr → Bool
is_permanent_error topic_authorization_failed = true
is_permanent_error cluster_authorization_failed = true
is_permanent_error invalid_msg = true
is_permanent_error msg_size_too_large = true
is_permanent_error invalid_record = true
is_permanent_error _ = false

abbrev pub is_error : RespErr → Bool
is_error no_error = false
is_error _ = true

abbrev pub is_fatal : RespErr → Bool
is_fatal fatal = true
is_fatal _ = false

abbrev pub note_failure : RespErr → KafkaPipeline → KafkaPipeline
note_failure e p = record p {
  metrics = record p.metrics { delivery_fail = bump p.metrics.delivery_fail };
  rebuild_requested = is_fatal e || p.rebuild_requested;
}

abbrev pub count_settled : SendFailureResult → KafkaPipeline → KafkaPipeline
count_settled to_dead p = record p {
  metrics = record p.metrics { permanent_errors = bump p.metrics.permanent_errors };
}
count_settled _ p = p

abbrev pub is_settled : SendFailureResult → Bool
is_settled (not_settled err) = false
is_settled _ = true

unfoldable pub failed_delivery : (RespErr → String) → RespErr → Clock → String → Act Bool
unfolding ◌>>=◌ ◌>>◌ modify on_outbox return is_permanent_error
failed_delivery err2str e clock id = do
  modify (note_failure e)
  settled ← on_outbox (λ p.
      settle_send_failure p.cfg.max_attempts_before_dead id (err2str e) (is_permanent_error e)
        clock)
  modify (count_settled settled)
  return (is_settled settled)

abbrev pub count_acked : KafkaPipeline → KafkaPipeline
count_acked p = record p { metrics = record p.metrics { acked = bump p.metrics.acked } }

unfoldable pub conclude_ack : Report (Unit {0}) → Act Bool
unfolding ◌>>◌ modify return
conclude_ack (ok u) = do modify count_acked; return true
conclude_ack (failed err) = return false

unfoldable pub acked_delivery : ℕ → String → Act Bool
unfolding ◌>>=◌ on_outbox reported conclude_ack
acked_delivery now id = do r ← on_outbox (λ p. reported (mark_acked now id)); conclude_ack r

-- Do not proceed past an uncertain durable transition.
abbrev pub halt : KafkaPipeline → KafkaPipeline
halt p = record p {
  metrics = record p.metrics { state_errors = bump p.metrics.state_errors };
  accept = false;
  running = false;
}

unfoldable pub report_delivery : (RespErr → String) → RespErr → Clock → String → Act (Unit {0})
unfolding ◌>>=◌ modify return failed_delivery acked_delivery
report_delivery err2str e clock id = do
  sure ← (if is_error e then failed_delivery err2str e clock id else acked_delivery clock.update id)
  if sure then return tt else modify halt

-- A report without its context is dropped.
unfoldable pub on_delivery : (RespErr → String) → RespErr → Clock → Option String → Act (Unit {0})
unfolding return report_delivery
on_delivery err2str e clock none = return tt
on_delivery err2str e clock (some id) = report_delivery err2str e clock id

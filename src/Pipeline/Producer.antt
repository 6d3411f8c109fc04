-- ===== src/Pipeline/Producer.antt =====
-- The producer: create_producer_unlocked and produce_record. What librdkafka answers is an argument.
use mod_event_kafka.Common.{
  ℕ, String, Bool, true, false, not, Option, none, some, List, [], ◌∷◌, ◌++◌, is_empty,
  if◌then◌else◌, ℤ, pos, negsuc, text_append,
}
use mod_event_kafka.Outbox.Schema.{OutboxRecord}
use mod_event_kafka.Pipeline.State.{
  PipelineConfig, KafkaPipeline, Message, Act, ◌>>=◌, ◌>>◌, return, modify, observe,
}
use mod_event_kafka.Pipeline.Failure.{Report, ok, failed}
use mod_event_kafka.Pipeline.Calls.{RespErr, is_permanent_error, is_error, is_fatal}

-- The value of a setting: a text, or the decimal text of a number (std::to_string).
pub data Value : Type 0 where
  text : String → Value
  number : ℤ → Value

-- The answers of librdkafka during one step of the worker, by the arguments of the calls: an error
-- text where a call is refused.
pub record Kafka : Type 0 where
  pub conf_set : String → Value → Option String
  pub new_producer : List (String × Value) → Option String
  pub topic_conf_set : String → Value → Option String
  pub new_topic : String → Option String
  pub producev : Message → RespErr
  pub err2str : RespErr → String

abbrev pub on_off : Bool → String
on_off true = "true"
on_off false = "false"

-- The protocol, chosen by the user name if none is configured.
unfoldable pub security_protocol_of : PipelineConfig → String
security_protocol_of cfg =
    if is_empty cfg.security_protocol
    then (if is_empty cfg.username then "PLAINTEXT" else "SASL_PLAINTEXT")
    else cfg.security_protocol

abbrev pub when {ℓ} : {A : Type ℓ} → Bool → List A → List A
when b xs = if b then xs else []

-- The settings of the producer in the order in which they are made.
unfoldable pub settings : PipelineConfig → List (String × Value)
unfolding security_protocol_of
settings cfg =
    ("bootstrap.servers", text cfg.brokers)
    ∷ ("queue.buffering.max.messages", number cfg.buffer_size)
    ∷ ("compression.codec", text cfg.compression)
    ∷ ("acks", text "all")
    ∷ ("enable.idempotence", text (on_off cfg.enable_idempotence))
    ∷ ("security.protocol", text (security_protocol_of cfg))
    ∷ (when (not (is_empty cfg.username)) (
          ("sasl.mechanisms", text "PLAIN")
          ∷ ("sasl.username", text cfg.username)
          ∷ ("sasl.password", text cfg.password)
          ∷ [])
        ++ when (not (is_empty cfg.ssl_ca_location))
            (("ssl.ca.location", text cfg.ssl_ca_location) ∷ []))

-- The first refused setting stops the chain, and its key opens the message.
unfoldable pub set_all :
    (String → Value → Option String) → List (String × Value) → Report (Unit {0})
unfolding text_append
set_all set [] = ok tt
set_all set ((key, value) ∷ rest) = elim (set key value) [
  | none ↦ set_all set rest
  | some errstr ↦ failed (text_append key (text_append ": " errstr))
]

abbrev pub refusal_of : Option String → Report (Unit {0})
refusal_of none = ok tt
refusal_of (some err) = failed err

abbrev pub and_then {ℓ} : {A : Type ℓ} → Report (Unit {0}) → Report A → Report A
and_then (ok u) r = r
and_then (failed err) r = failed err

-- The `err` of create_producer_unlocked, if it fails.
unfoldable pub create_result : Kafka → PipelineConfig → Report (Unit {0})
unfolding settings set_all
create_result kafka cfg = and_then (set_all kafka.conf_set (settings cfg)) (
    and_then (refusal_of (kafka.new_producer (settings cfg))) (
      and_then
        (refusal_of (kafka.topic_conf_set "message.timeout.ms" (number cfg.message_timeout_ms)))
        (refusal_of (kafka.new_topic cfg.topic))))

abbrev pub set_producer : Report (Unit {0}) → KafkaPipeline → KafkaPipeline
set_producer (ok u) p = record p { producer = true }
set_producer (failed err) p = p

unfoldable pub create_producer : Kafka → Act (Report (Unit {0}))
unfolding ◌>>=◌ ◌>>◌ return modify observe create_result
create_producer kafka = do
  r ← observe (λ p. create_result kafka p.cfg)
  modify (set_producer r)
  return r

abbrev pub sequence_header : ℤ → Option ℕ
sequence_header (pos n) = some n
sequence_header (negsuc n) = none

abbrev pub key_of : String → Option String
key_of key = if is_empty key then none else some key

unfoldable pub message_of : String → OutboxRecord → Message
message_of topic rec = record {
  topic = topic;
  key = key_of rec.msg_key;
  payload = rec.payload;
  call_sequence = sequence_header rec.call_seq;
  event_id = rec.event_id;
}

-- The `err` of a refused message, with the prefix by which worker_loop tells its kind.
unfoldable pub produce_error : (RespErr → String) → RespErr → String
unfolding is_permanent_error text_append
produce_error err2str e =
    if is_fatal e
    then text_append "FATAL:" (err2str e)
    else if is_permanent_error e
    then text_append "PERMANENT:" (err2str e)
    else err2str e

abbrev pub hand_over : Message → KafkaPipeline → KafkaPipeline
hand_over msg p = record p { produced = msg ∷ p.produced }

unfoldable pub produce_ready : Kafka → Message → Act (Report (Unit {0}))
unfolding ◌>>◌ return modify produce_error
produce_ready kafka msg =
    if is_error (kafka.producev msg)
    then return (failed (produce_error kafka.err2str (kafka.producev msg)))
    else do modify (hand_over msg); return (ok tt)

unfoldable pub produce_record : Kafka → OutboxRecord → Act (Report (Unit {0}))
unfolding return produce_ready message_of
produce_record kafka rec fs p =
    if not p.producer
    then return (failed "producer not ready") fs p
    else produce_ready kafka (message_of p.cfg.topic rec) fs p

-- ===== src/Pipeline/State.antt =====
-- The state of KafkaPipeline (include/kafka_pipeline.hpp), and the sequencing of calls on it.
use mod_event_kafka.Common.{ℕ, ◌+◌, ◌%◌, ◌^◌, String, Bool, Option, List, ℤ}
use mod_event_kafka.Outbox.Schema.{Store}
use mod_event_kafka.Outbox.Engine.{Faults, Outcome, done, thrown, Sql}

-- `PipelineConfig`.
pub record PipelineConfig : Type 0 where
  pub brokers : String
  pub topic : String
  pub username : String
  pub password : String
  pub security_protocol : String
  pub ssl_ca_location : String
  pub compression : String
  pub outbox_path : String
  pub buffer_size : ℤ
  pub mem_queue_max : ℕ
  pub outbox_max_rows : ℕ
  pub outbox_max_bytes : ℕ
  pub message_timeout_ms : ℤ
  pub enable_idempotence : Bool
  pub require_source_sequence : Bool
  pub max_attempts_before_dead : ℤ
  pub outbox_ttl_ms : ℤ

-- `PipelineMetrics`.
pub record PipelineMetrics : Type 0 where
  pub enqueued : ℕ
  pub rejected_mem_full : ℕ
  pub rejected_disk_full : ℕ
  pub state_errors : ℕ
  pub produce_ok : ℕ
  pub produce_fail : ℕ
  pub delivery_fail : ℕ
  pub acked : ℕ
  pub producer_rebuilds : ℕ
  pub permanent_errors : ℕ
  pub outbox_expired : ℕ

-- What produce_record hands to rd_kafka_producev: the topic of `rkt_`, the key (none if it is empty),
-- the payload, and the headers x-fs-call-sequence (its decimal text as a number) and x-fs-event-id.
pub record Message : Type 0 where
  pub topic : String
  pub key : Option String
  pub payload : String
  pub call_sequence : Option ℕ
  pub event_id : String

-- `KafkaPipeline`. `producer` says whether `rk_` and `rkt_` are set, which are set and cleared
-- together; `produced` lists what librdkafka has accepted so far, the newest first.
pub record KafkaPipeline : Type 0 where
  pub cfg : PipelineConfig
  pub metrics : PipelineMetrics
  pub outbox : Store
  pub producer : Bool
  pub produced : List Message
  pub running : Bool
  pub accept : Bool
  pub rebuild_requested : Bool

-- `fetch_add(1)` on a uint64_t.
abbrev pub bump : ℕ → ℕ
bump n = (n + 1) % 2 ^ 64

-- What a call of the pipeline leaves: its result, or an exception that leaves it.
pub data Step {ℓ} (A : Type ℓ) : Type ℓ where
  returned : A → Faults → KafkaPipeline → Step A
  escaped : String → Faults → KafkaPipeline → Step A

abbrev pub Act {ℓ} : Type ℓ → Type ℓ
Act A = Faults → KafkaPipeline → Step A

abbrev pub proceed {ℓ κ} : {A : Type ℓ} {B : Type κ} → Step A → (A → Act B) → Step B
proceed (returned a fs p) k = k a fs p
proceed (escaped e fs p) k = escaped e fs p

infixl 5 ◌>>=◌ ◌>>◌
unfoldable pub ◌>>=◌ {ℓ κ} : {A : Type ℓ} {B : Type κ} → Act A → (A → Act B) → Act B
◌>>=◌ m k fs p = proceed (m fs p) k

unfoldable pub ◌>>◌ {ℓ} : {B : Type ℓ} → Act (Unit {0}) → Act B → Act B
unfolding ◌>>=◌
◌>>◌ m k = m >>= λ _. k

unfoldable pub return {ℓ} : {A : Type ℓ} → A → Act A
return a fs p = returned a fs p

unfoldable pub modify : (KafkaPipeline → KafkaPipeline) → Act (Unit {0})
modify f fs p = returned tt fs (f p)

abbrev pub with_outbox {ℓ} : {A : Type ℓ} → KafkaPipeline → Outcome A → Step A
with_outbox p (done a fs d) = returned a fs (record p { outbox = d })
with_outbox p (thrown e fs d) = escaped e fs (record p { outbox = d })

-- `throw std::runtime_error(e)`
unfoldable pub raise {ℓ} : {A : Type ℓ} → String → Act A
raise e fs p = escaped e fs p

unfoldable pub observe {ℓ} : {A : Type ℓ} → (KafkaPipeline → A) → Act A
observe f fs p = returned (f p) fs p

-- A call of the outbox.
unfoldable pub on_outbox {ℓ} : {A : Type ℓ} → (KafkaPipeline → Sql A) → Act A
on_outbox m fs p = with_outbox p (m p fs p.outbox)

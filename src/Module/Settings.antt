-- ===== src/Module/Settings.antt =====
-- The settings of the module, and the configuration that the constructor of KafkaEventPublisher
-- makes of them.
mod Tests
pub mod Table
use mod_event_kafka.Common.{
  ℕ, ◌≤◌, String, ◌≡◌, refl, Bool, true, false, Option, none, some, if◌then◌else◌, arith, ℤ, pos,
  negsuc, pos_part, is_empty, text_append, ltb, ltb→lt,
}
use mod_event_kafka.Pipeline.Failure.{Report, ok, failed}
use mod_event_kafka.Pipeline.State.{PipelineConfig}

-- `globals`; a null pointer is none.
pub record Globals : Type 0 where
  pub brokers : Option String
  pub topic_prefix : Option String
  pub topic : Option String
  pub username : Option String
  pub password : Option String
  pub buffer_size : ℤ
  pub compression : Option String
  pub event_filter : Option String
  pub outbox_path : Option String
  pub security_protocol : Option String
  pub ssl_ca_location : Option String
  pub mem_queue_max : ℤ
  pub outbox_max_rows : ℤ
  pub message_timeout_ms : ℤ
  pub enable_idempotence : ℤ
  pub require_source_sequence : ℤ
  pub outbox_ttl_ms : ℤ

-- `memset(&globals, 0, sizeof(globals))`
abbrev pub no_settings : Globals
no_settings = record {
  brokers = none;
  topic_prefix = none;
  topic = none;
  username = none;
  password = none;
  buffer_size = pos 0;
  compression = none;
  event_filter = none;
  outbox_path = none;
  security_protocol = none;
  ssl_ca_location = none;
  mem_queue_max = pos 0;
  outbox_max_rows = pos 0;
  message_timeout_ms = pos 0;
  enable_idempotence = pos 0;
  require_source_sequence = pos 0;
  outbox_ttl_ms = pos 0;
}

-- load_config, whose status the constructor ignores. `parse` stands for
-- switch_xml_config_parse_module_settings: what it writes into `globals`, whether or not it succeeds.
abbrev pub load_config : (Globals → Globals) → Globals
load_config parse = parse no_settings

-- `p ? p : d` of a pointer.
abbrev pub text_or : String → Option String → String
text_or d none = d
text_or d (some s) = s

-- `n > 0 ? n : d`
abbrev pub positive_or : ℕ → ℤ → ℕ
positive_or d (negsuc n) = d
positive_or d (pos n) = if ltb 0 n then n else d

-- `n < 0 ? d : n`
abbrev pub natural_or : ℕ → ℤ → ℕ
natural_or d (negsuc n) = d
natural_or d (pos n) = n

abbrev pub is_set : ℤ → Bool
is_set (pos n) = ltb 0 n
is_set (negsuc n) = true

-- An empty topic becomes the prefix and the name of the switch. A std::string of a null prefix
-- throws.
unfoldable pub name_topic : String → Globals → Report Globals
unfolding is_empty text_append
name_topic switch_name g = in_place g.topic g.topic_prefix
  where
    in_place : Option String → Option String → Report Globals
    in_place none prefix = ok g
    in_place (some t) (some prefix) =
        if is_empty t
        then ok (record g { topic = some (text_append (text_append prefix "_") switch_name) })
        else ok g
    in_place (some t) none =
        if is_empty t then failed "basic_string: construction from null is not valid" else ok g

-- The fields that it does not set have the defaults of `PipelineConfig`.
unfoldable pub config_of : Globals → PipelineConfig
config_of g = record {
  brokers = text_or "localhost:9092" g.brokers;
  topic = text_or "fs_events" g.topic;
  username = text_or "" g.username;
  password = text_or "" g.password;
  security_protocol = text_or "" g.security_protocol;
  ssl_ca_location = text_or "" g.ssl_ca_location;
  compression = text_or "snappy" g.compression;
  outbox_path = text_or "/var/lib/freeswitch/event_kafka_outbox.db" g.outbox_path;
  buffer_size = pos (positive_or 100000 g.buffer_size);
  mem_queue_max = positive_or 10000 g.mem_queue_max;
  outbox_max_rows = positive_or 100000 g.outbox_max_rows;
  outbox_max_bytes = 536870912;
  message_timeout_ms = pos (positive_or 30000 g.message_timeout_ms);
  enable_idempotence = is_set g.enable_idempotence;
  require_source_sequence = false;
  max_attempts_before_dead = pos 50;
  outbox_ttl_ms = pos (natural_or 120000 g.outbox_ttl_ms);
}

-- What the pipeline may rely on.
pub record Usable (cfg : PipelineConfig) : Type 0 where
  pub buffers : 1 ≤ pos_part cfg.buffer_size
  queues : 1 ≤ cfg.mem_queue_max
  pub rows : 1 ≤ cfg.outbox_max_rows
  pub timeout : 1 ≤ pos_part cfg.message_timeout_ms
  pub admits : cfg.require_source_sequence ≡ false

positive_or-pos : (d : ℕ) (z : ℤ) → 1 ≤ d → 1 ≤ positive_or d z
positive_or-pos d (negsuc n) h = h
positive_or-pos d (pos n) h = ground (arith, ltb→lt 0 n)

-- Whatever the file of settings holds, and if it cannot be read: the buffer, the queue, the table
-- and the timeout have room, and no source sequence is required.
pub config_of-Usable : (g : Globals) → Usable (config_of g)
unfolding config_of
config_of-Usable g = record {
  buffers = positive_or-pos 100000 g.buffer_size (omega arith);
  queues = positive_or-pos 10000 g.mem_queue_max (omega arith);
  rows = positive_or-pos 100000 g.outbox_max_rows (omega arith);
  timeout = positive_or-pos 30000 g.message_timeout_ms (omega arith);
  admits = refl;
}

-- ===== src/Module/Settings/Table.antt =====
-- `instructions`, the module's table of settings, and the configuration that the constructor of
-- KafkaEventPublisher makes when FreeSWITCH fills `globals` by it.
use mod_event_kafka.Common.{
  String, ◌≡◌, false, Option, none, some, List, [], ◌∷◌, if◌then◌else◌, ℤ, pos, is_empty,
  text_append,
}
use mod_event_kafka.Pipeline.Failure.{Report, ok}
use mod_event_kafka.Pipeline.State.{PipelineConfig}
use mod_event_kafka.Module.Settings.{
  Globals, no_settings, config_of, positive_or, natural_or, is_set,
}

-- SWITCH_CONFIG_ITEM: the name, the field of `globals` that `ptr` points to, and the default, for a
-- SWITCH_CONFIG_STRING or a SWITCH_CONFIG_INT.
pub data Item : Type 0 where
  text_item : String → (Globals → Option String) → String → Item
  int_item : String → (Globals → ℤ) → ℤ → Item

abbrev pub instructions : List Item
instructions =
    text_item "bootstrap-servers" (λ g. g.brokers) "localhost:9092"
    ∷ text_item "username" (λ g. g.username) ""
    ∷ text_item "password" (λ g. g.password) ""
    ∷ text_item "topic" (λ g. g.topic) ""
    ∷ text_item "topic-prefix" (λ g. g.topic_prefix) "fs"
    ∷ int_item "buffer-size" (λ g. g.buffer_size) (pos 10)
    ∷ text_item "compression" (λ g. g.compression) "snappy"
    ∷ text_item "event-filter" (λ g. g.event_filter) ""
    ∷ text_item "outbox-path" (λ g. g.outbox_path) "/var/lib/freeswitch/event_kafka_outbox.db"
    ∷ int_item "mem-queue-max" (λ g. g.mem_queue_max) (pos 10000)
    ∷ int_item "outbox-max-rows" (λ g. g.outbox_max_rows) (pos 100000)
    ∷ int_item "outbox-ttl-ms" (λ g. g.outbox_ttl_ms) (pos 120000)
    ∷ int_item "message-timeout-ms" (λ g. g.message_timeout_ms) (pos 30000)
    ∷ int_item "enable-idempotence" (λ g. g.enable_idempotence) (pos 1)
    ∷ int_item "require-source-sequence" (λ g. g.require_source_sequence) (pos 0)
    ∷ text_item "security-protocol" (λ g. g.security_protocol) ""
    ∷ text_item "ssl-ca-location" (λ g. g.ssl_ca_location) ""
    ∷ []

-- What event_kafka.conf gives under a name, of each kind.
pub record File : Type 0 where
  pub texts : String → Option String
  pub ints : String → Option ℤ

abbrev pub value_or {ℓ} : {A : Type ℓ} → A → Option A → A
value_or d none = d
value_or d (some a) = a

-- The field of an item has the value that the file gives, or else its default.
abbrev pub Filled : File → Globals → Item → Type 0
Filled f g (text_item name ptr default) = ptr g ≡ some (value_or default (f.texts name))
Filled f g (int_item name ptr default) = ptr g ≡ value_or default (f.ints name)

abbrev pub AllFilled : File → Globals → List Item → Type 0
AllFilled f g [] = Unit {0}
AllFilled f g (item ∷ items) = Filled f g item × AllFilled f g items

-- What FreeSWITCH documents of switch_xml_config_parse_module_settings: without the file it writes
-- nothing, and with it it fills the field of every item.
abbrev pub Parses : (Globals → Globals) → Option File → Type 0
Parses parse none = parse no_settings ≡ no_settings
Parses parse (some f) = AllFilled f (parse no_settings) instructions

module _ (f : File) where
  abbrev text_of : String → String → String
  text_of name default = value_or default (f.texts name)

  abbrev int_of : String → ℤ → ℤ
  int_of name default = value_or default (f.ints name)

  abbrev pub filled : Globals
  filled = record {
    brokers = some (text_of "bootstrap-servers" "localhost:9092");
    topic_prefix = some (text_of "topic-prefix" "fs");
    topic = some (text_of "topic" "");
    username = some (text_of "username" "");
    password = some (text_of "password" "");
    buffer_size = int_of "buffer-size" (pos 10);
    compression = some (text_of "compression" "snappy");
    event_filter = some (text_of "event-filter" "");
    outbox_path = some (text_of "outbox-path" "/var/lib/freeswitch/event_kafka_outbox.db");
    security_protocol = some (text_of "security-protocol" "");
    ssl_ca_location = some (text_of "ssl-ca-location" "");
    mem_queue_max = int_of "mem-queue-max" (pos 10000);
    outbox_max_rows = int_of "outbox-max-rows" (pos 100000);
    message_timeout_ms = int_of "message-timeout-ms" (pos 30000);
    enable_idempotence = int_of "enable-idempotence" (pos 1);
    require_source_sequence = int_of "require-source-sequence" (pos 0);
    outbox_ttl_ms = int_of "outbox-ttl-ms" (pos 120000);
  }

-- The configuration of the pipeline by what the file holds.
abbrev pub topic_of : String → File → String
topic_of switch_name f =
    if is_empty (text_of f "topic" "")
    then text_append (text_append (text_of f "topic-prefix" "fs") "_") switch_name
    else text_of f "topic" ""

abbrev pub configured : String → Option File → PipelineConfig
configured switch_name none = record {
  brokers = "localhost:9092";
  topic = "fs_events";
  username = "";
  password = "";
  security_protocol = "";
  ssl_ca_location = "";
  compression = "snappy";
  outbox_path = "/var/lib/freeswitch/event_kafka_outbox.db";
  buffer_size = pos 100000;
  mem_queue_max = 10000;
  outbox_max_rows = 100000;
  outbox_max_bytes = 536870912;
  message_timeout_ms = pos 30000;
  enable_idempotence = false;
  require_source_sequence = false;
  max_attempts_before_dead = pos 50;
  outbox_ttl_ms = pos 0;
}
configured switch_name (some f) = record {
  brokers = text_of f "bootstrap-servers" "localhost:9092";
  topic = topic_of switch_name f;
  username = text_of f "username" "";
  password = text_of f "password" "";
  security_protocol = text_of f "security-protocol" "";
  ssl_ca_location = text_of f "ssl-ca-location" "";
  compression = text_of f "compression" "snappy";
  outbox_path = text_of f "outbox-path" "/var/lib/freeswitch/event_kafka_outbox.db";
  buffer_size = pos (positive_or 100000 (int_of f "buffer-size" (pos 10)));
  mem_queue_max = positive_or 10000 (int_of f "mem-queue-max" (pos 10000));
  outbox_max_rows = positive_or 100000 (int_of f "outbox-max-rows" (pos 100000));
  outbox_max_bytes = 536870912;
  message_timeout_ms = pos (positive_or 30000 (int_of f "message-timeout-ms" (pos 30000)));
  enable_idempotence = is_set (int_of f "enable-idempotence" (pos 1));
  require_source_sequence = false;
  max_attempts_before_dead = pos 50;
  outbox_ttl_ms = pos (natural_or 120000 (int_of f "outbox-ttl-ms" (pos 120000)));
}

-- The settings that the constructor goes on with.
abbrev pub Configures : String → PipelineConfig → Report Globals → Type 0
Configures switch_name cfg r =
    (g : Globals) × (r ≡ ok g) × (config_of g ≡ cfg) × (is_empty cfg.topic ≡ false)

-- ===== src/Module/Publisher.antt =====
-- KafkaEventPublisher and the functions through which FreeSWITCH calls it: construction,
-- PublishEvent, the event handler and Shutdown.
use mod_event_kafka.Common.{
  ℕ, String, Bool, true, false, Option, none, some, List, [], ◌∷◌, negsuc, text_append,
}
use mod_event_kafka.Outbox.Engine.{Faults}
use mod_event_kafka.Outbox.Database.{Database}
use mod_event_kafka.Outbox.Opening.{Handle, store_of_handle}
use mod_event_kafka.Pipeline.Failure.{Report, ok, failed}
use mod_event_kafka.Pipeline.State.{PipelineConfig, PipelineMetrics}
use mod_event_kafka.Pipeline.Calls.{Event, enqueue}
use mod_event_kafka.Pipeline.Worker.{World, loop_head}
use mod_event_kafka.Pipeline.System.{System, works, stops, answered, act}
use mod_event_kafka.Pipeline.Lifecycle.{Instance, Startup, start}
use mod_event_kafka.Module.Settings.{Globals, load_config, name_topic, config_of}

abbrev pub no_metrics : PipelineMetrics
no_metrics = record {
  enqueued = 0;
  rejected_mem_full = 0;
  rejected_disk_full = 0;
  state_errors = 0;
  produce_ok = 0;
  produce_fail = 0;
  delivery_fail = 0;
  acked = 0;
  producer_rebuilds = 0;
  permanent_errors = 0;
  outbox_expired = 0;
}

-- The database files, by path.
abbrev pub Files : Type 0
Files = String → Database

abbrev pub new_outbox : PipelineConfig → Files → Handle
new_outbox cfg files = record {
  max_rows = cfg.outbox_max_rows;
  max_bytes = cfg.outbox_max_bytes;
  is_open = false;
  holds_lock = false;
  database = files cfg.outbox_path;
}

-- The constructor of KafkaPipeline.
abbrev pub new_pipeline : PipelineConfig → Files → Instance
new_pipeline cfg files = record {
  pipeline = record {
    cfg = cfg;
    metrics = no_metrics;
    outbox = store_of_handle (new_outbox cfg files);
    producer = false;
    produced = [];
    running = false;
    accept = false;
    rebuild_requested = false;
  };
  file = new_outbox cfg files;
  worker = none;
}

-- `KafkaEventPublisher`, with the pipeline that it owns and the worker of it.
pub record Publisher : Type 0 where
  pub initialized : Bool
  pub system : Option System

abbrev pub started_with : Option String × Instance → Report System
started_with (none, s) =
    ok (record { pipeline = s.pipeline; worker = loop_head; stored_events = [] })
started_with (some err, s) = failed (text_append "KafkaPipeline start failed: " err)

abbrev pub start_pipeline : Startup → Files → Report Globals → Report System
start_pipeline up files (failed err) = failed err
start_pipeline up files (ok g) = started_with (start up (new_pipeline (config_of g) files))

abbrev pub publisher_of : Report System → Report Publisher
publisher_of (failed err) = failed err
publisher_of (ok s) = ok (record { initialized = true; system = some s })

-- The constructor; `failed` is the exception that leaves it.
unfoldable pub construct_publisher :
    String → (Globals → Globals) → Startup → Files → Report Publisher
unfolding name_topic config_of start
construct_publisher switch_name parse up files =
    publisher_of (start_pipeline up files (name_topic switch_name (load_config parse)))

-- A FreeSWITCH event: its header Channel-Call-UUID, and the text that switch_event_serialize_json
-- makes of it (none if that returns SWITCH_STATUS_FALSE).
pub record SwitchEvent : Type 0 where
  pub channel_call_uuid : Option String
  pub json : Option String

-- What enqueue takes for an event: its id and its time of creation, and the clock of the admission.
pub record Moment : Type 0 where
  pub event_id : String
  pub now : ℕ
  pub wall : ℕ

abbrev pub key_of_call : Option String → String
key_of_call none = ""
key_of_call (some uuid) = uuid

-- The arguments of enqueue: the call is the key, and no sequence is asked for.
abbrev pub event_of : SwitchEvent → Moment → String → Event
event_of e m json = record {
  event_id = m.event_id;
  payload = json;
  msg_key = key_of_call e.channel_call_uuid;
  call_uuid = key_of_call e.channel_call_uuid;
  source_sequence = negsuc 0;
  created_at_ms = m.now;
}

abbrev pub offered : Event → Moment → Faults → Bool → Option System → Option System
offered ev m fs initialized none = none
offered ev m fs false (some s) = some s
offered ev m fs true (some s) = some (answered ev s (enqueue ev m.wall fs s.pipeline))

unfoldable pub publish_event : SwitchEvent → Moment → Faults → Publisher → Publisher
unfolding enqueue
publish_event e m fs p = serialized e.json
  where
    serialized : Option String → Publisher
    serialized none = p
    serialized (some json) = record p {
      system = offered (event_of e m json) m fs p.initialized p.system;
    }

-- What happens to a loaded module: FreeSWITCH delivers an event, the worker takes a step, or
-- Shutdown begins to stop the pipeline.
pub data Happening : Type 0 where
  delivers : SwitchEvent → Moment → Faults → Happening
  advances : World → Faults → Happening
  shuts_down : Happening

abbrev pub on_system : (System → System) → Publisher → Publisher
on_system f p = record p { system = mapped p.system }
  where
    mapped : Option System → Option System
    mapped none = none
    mapped (some s) = some (f s)

unfoldable pub happen : Happening → Publisher → Publisher
unfolding publish_event act
happen (delivers e m fs) p = publish_event e m fs p
happen (advances w fs) p = on_system (act (works w fs)) p
happen shuts_down p = on_system (act stops) p

unfoldable pub happen_all : List Happening → Publisher → Publisher
happen_all [] p = p
happen_all (h ∷ hs) p = happen_all hs (happen h p)

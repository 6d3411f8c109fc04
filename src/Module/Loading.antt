-- ===== src/Module/Loading.antt =====
-- mod_event_kafka_load.
use mod_event_kafka.Common.{ℕ, String, ◌≡◌, Bool, true, false, Option, none, some, List, []}
use mod_event_kafka.Pipeline.Failure.{Report, ok, failed}
use mod_event_kafka.Pipeline.Worker.{loop_head}
use mod_event_kafka.Pipeline.System.{System, act_all}
use mod_event_kafka.Pipeline.Lifecycle.{Instance, Startup}
use mod_event_kafka.Module.Settings.{Globals, load_config}
use mod_event_kafka.Module.Publisher.{Files, Publisher, Happening, happen_all, construct_publisher}
use mod_event_kafka.Module.Ordering.{live, actions_of}
use mod_event_kafka.Module.Subscriptions.{FreeSwitch, Binding, subscribe, name_events}
use mod_event_kafka.Module.Subscriptions.Bindings.{wanted}

-- What FreeSWITCH and the machine answer while the module loads; `meanwhile` is what the worker thread,
-- once start has made it, and the handlers that are already bound do until the load returns.
pub record Loading : Type 0 where
  pub switch_name : String
  pub parse : Globals → Globals
  pub startup : Startup
  pub files : Files
  pub switch : FreeSwitch
  pub held : ℕ → ℕ
  pub accepts : Binding → Bool
  pub meanwhile : List Happening

-- `event_filter`, separated.
abbrev pub filter_of : Loading → List String
filter_of l = l.switch.separate (load_config l.parse).event_filter

-- The object `module`, if it is there, and the handlers that are bound.
pub record Loaded : Type 0 where
  pub publisher : Option Publisher
  pub bound : List Binding

-- true is SWITCH_STATUS_SUCCESS, false SWITCH_STATUS_GENERR. A constructor that throws destroys the
-- publisher.
abbrev pub loaded_with : Publisher → Report (Unit {0}) × List Binding → Bool × Loaded
loaded_with p (ok u, bound) = (true, record { publisher = some p; bound = bound })
loaded_with p (failed err, bound) = (false, record { publisher = none; bound = bound })

abbrev pub load_module : Loading → Report Publisher → Bool × Loaded
load_module l (failed err) = (false, record { publisher = none; bound = [] })
load_module l (ok p) =
    loaded_with (happen_all l.meanwhile p)
      (subscribe l.switch l.accepts (name_events l.switch l.held 0 (filter_of l)) [])

unfoldable pub load : Loading → Bool × Loaded
unfolding construct_publisher subscribe name_events happen_all
load l = load_module l (construct_publisher l.switch_name l.parse l.startup l.files)

-- What a successful load leaves: `started` is what start left, to which nothing but `meanwhile` has
-- happened since, and the handlers are those that the filter asks for.
pub record Ready (l : Loading) (m : Loaded) : Type 0 where
  pub system : System
  pub publishes : m.publisher ≡ some (live system)
  pub started : System
  pub since : system ≡ act_all (actions_of l.meanwhile) started
  pub worker : started.worker ≡ loop_head
  pub running : started.pipeline.running ≡ true
  pub accepts : started.pipeline.accept ≡ true
  pub bound : m.bound ≡ wanted l.switch (name_events l.switch l.held 0 (filter_of l))

-- Either the instance runs, or start has refused.
abbrev Runs : Option String × Instance → Type 0
Runs (none, s) = (s.pipeline.running ≡ true) × (s.pipeline.accept ≡ true)
Runs (some err, s) = Unit

abbrev Started : Report Publisher → Type 0
Started (failed err) = Unit
Started (ok p) =
    (s : System) × (p ≡ live s)
    × (s.worker ≡ loop_head)
    × (s.pipeline.running ≡ true)
    × (s.pipeline.accept ≡ true)

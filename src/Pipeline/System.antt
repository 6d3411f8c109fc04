-- ===== src/Pipeline/System.antt =====
-- The pipeline with its worker thread and the threads that call it, as a sequence of actions.
pub mod Entry
pub mod Tests
pub mod Queue
pub mod Safety
pub mod Claims
pub mod Stutters
pub mod Sent
pub mod Genuine
pub mod Kept
use mod_event_kafka.Common.{
  ℕ, String, Bool, true, false, not, ◌&&◌, ◌||◌, Option, none, some, List, [], ◌∷◌, if◌then◌else◌,
  ◌++◌,
}
use mod_event_kafka.Outbox.Engine.{Faults}
use mod_event_kafka.Pipeline.State.{KafkaPipeline, Step, returned, escaped}
use mod_event_kafka.Pipeline.Calls.{Event, Enqueued, stored, rejected, enqueue}
use mod_event_kafka.Pipeline.Worker.{World, Worker, worker_step}

-- `stored_events` lists the events that enqueue has reported as stored, the oldest first.
pub record System : Type 0 where
  pub pipeline : KafkaPipeline
  pub worker : Worker
  pub stored_events : List Event

-- What happens next: a thread enqueues, the worker takes a step, stop clears the flags, or a thread
-- calls request_rebuild.
pub data Action : Type 0 where
  enqueues : Event → ℕ → Faults → Action
  works : World → Faults → Action
  stops : Action
  requests_rebuild : Action

abbrev pub noted : Enqueued → Event → List Event → List Event
noted (stored id seq) ev evs = evs ++ ev ∷ []
noted (rejected id err) ev evs = evs

abbrev pub answered : Event → System → Step Enqueued → System
answered ev s (returned r fs p) = record s {
  pipeline = p;
  stored_events = noted r ev s.stored_events;
}
answered ev s (escaped err fs p) = record s { pipeline = p }

abbrev pub moved : System → Worker × KafkaPipeline → System
moved s (w, p) = record s { pipeline = p; worker = w }

-- The first two lines of KafkaPipeline::stop.
abbrev pub stop_flags : KafkaPipeline → KafkaPipeline
stop_flags p = record p { accept = false; running = false }

abbrev pub request_rebuild : KafkaPipeline → KafkaPipeline
request_rebuild p = record p { rebuild_requested = true }

unfoldable pub act : Action → System → System
unfolding enqueue worker_step
act (enqueues ev wall fs) s = answered ev s (enqueue ev wall fs s.pipeline)
act (works w fs) s = moved s (worker_step w fs (s.worker, s.pipeline))
act stops s = record s { pipeline = stop_flags s.pipeline }
act requests_rebuild s = record s { pipeline = request_rebuild s.pipeline }

unfoldable pub act_all : List Action → System → System
act_all [] s = s
act_all (a ∷ actions) s = act_all actions (act a s)

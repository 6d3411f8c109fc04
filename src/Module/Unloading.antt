-- ===== src/Module/Unloading.antt =====
-- mod_event_kafka_shutdown, and the destructors behind it.
use mod_event_kafka.Common.{length, ℕ, ◌≡◌, false, ◌⊎◌, Option, none, some, List, []}
use mod_event_kafka.Pipeline.System.{System, stop_flags}
use mod_event_kafka.Pipeline.Worker.{Worker, ended, aborted}
use mod_event_kafka.Pipeline.Lifecycle.{Instance}
use mod_event_kafka.Outbox.Opening.{handle_of}
use mod_event_kafka.Pipeline.Worker.Ending.{Course, run_worker}
use mod_event_kafka.Pipeline.Worker.Ending.Aborting.{Flushed}
use mod_event_kafka.Pipeline.Lifecycle.{Stopping, stopped, terminated, stop}
use mod_event_kafka.Module.Publisher.{Publisher, Happening, happen_all}
use mod_event_kafka.Module.Subscriptions.{unsubscribe}
use mod_event_kafka.Module.Loading.{Loading, Loaded, filter_of}

-- The instance of the pipeline behind a publisher.
abbrev pub instance_of : System → Instance
instance_of s = record {
  pipeline = s.pipeline;
  file = handle_of s.pipeline.outbox;
  worker = some s.worker;
}

-- The publisher's Shutdown, whose stop joins a worker that takes n steps more; the stop of its
-- destructor finds nothing left to do.
abbrev pub shut_down : Course → ℕ → Option Publisher → Option Stopping
shut_down course n none = none
shut_down course n (some p) = stops_of p.system
  where
    stops_of : Option System → Option Stopping
    stops_of none = none
    stops_of (some s) = some (stop course n (instance_of s))

-- mod_event_kafka_shutdown: how far the stop has come, and, if it has returned, the module without its
-- object.
unfoldable pub shutdown : Course → ℕ → Loading → Loaded → Option Stopping × Loaded
unfolding stop unsubscribe
shutdown course n l m = (
  shut_down course n m.publisher,
  record { publisher = none; bound = unsubscribe (length (filter_of l)) m.bound },
)

-- A loaded module to which some things have happened.
abbrev pub happened : List Happening → Loaded → Loaded
happened hs m = record m { publisher = after m.publisher }
  where
    after : Option Publisher → Option Publisher
    after none = none
    after (some p) = some (happen_all hs p)

-- What a shutdown leaves: a worker that has been joined, a closed outbox without its lock, and no
-- handler.
pub record ShutDown (o : Option Stopping) (m : Loaded) : Type 0 where
  instance_left : Instance
  pub left : o ≡ some (stopped instance_left)
  joined_worker : instance_left.worker ≡ none
  pub closed : instance_left.file.is_open ≡ false
  unlocked : instance_left.file.holds_lock ≡ false
  pub refuses : instance_left.pipeline.accept ≡ false
  unbound : m.bound ≡ []

-- The object when its worker has taken n steps after the flags of stop.
abbrev worked : Course → ℕ → System → Worker → Instance
worked course n s w = record (instance_of s) {
  pipeline = (run_worker course n (s.worker, stop_flags s.pipeline)).1;
  worker = some w;
}

-- How a shutdown ends that begins when the system is `s`: the worker has returned and all is shut down,
-- or an exception has left it and terminated the process.
abbrev pub ShutsDown : Course → ℕ → System → Option Stopping → Loaded → Type 0
ShutsDown course n s o m =
    (((run_worker course n (s.worker, stop_flags s.pipeline)).0 ≡ ended) × ShutDown o m)
    ⊎ (((run_worker course n (s.worker, stop_flags s.pipeline)).0 ≡ aborted)
        × Flushed course n (s.worker, stop_flags s.pipeline)
        × (o ≡ some terminated))

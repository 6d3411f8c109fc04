-- ===== src/Queue/Tests.antt =====
-- A run of the queue on concrete calls.
use mod_event_kafka.Common.{◌≤◌, ◌≡◌, false, List, [], ◌∷◌, ◌++◌, arith, length, String}
use mod_event_kafka.Queue.{
  QueuedEvent, BoundedQueue, QueueCall, pushes, pops, run, all_accepted, all_handed_out,
  first_in_first_out,
}

abbrev named : String → QueuedEvent
named id = record {
  event_id = id;
  topic = "cdr";
  msg_key = "k1";
  payload = "{}";
  call_uuid = "c1";
  enqueued_at_ms = 5;
}

abbrev empty : BoundedQueue
empty = record { max_depth = 1; events = []; rejected = 0 }

-- The second push finds the queue full.
abbrev calls : List QueueCall
calls = pushes (named "e1") ∷ pushes (named "e2") ∷ pops false ∷ pushes (named "e3") ∷ []

first_in_first_out_example :
    (all_handed_out calls empty ++ (run calls empty).events ≡ [] ++ all_accepted calls empty)
    × (length (run calls empty).events ≤ 1)
first_in_first_out_example = first_in_first_out calls empty (omega arith)

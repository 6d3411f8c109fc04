-- ===== src/Queue.antt =====
-- BoundedQueue of include/bounded_queue.hpp.
mod Tests
use mod_event_kafka.Common.{
  ℕ, suc, ◌+◌, ◌-◌, ◌%◌, ◌^◌, ◌≤◌, min, String, ◌≡◌, refl, Bool, true, false, Option, none, some,
  List, [], ◌∷◌, ◌++◌, arith, leb, if◌then◌else◌, length, length-append, append_steps, Bool-cases,
  inl, inr, not, ◌||◌, ◌∙◌, ap, sym,
}
use mathlib.Core.List.{append-nil}

pub record QueuedEvent : Type 0 where
  pub event_id : String
  pub topic : String
  pub msg_key : String
  pub payload : String
  pub call_uuid : String
  pub enqueued_at_ms : ℕ

-- The deque front first; `max_depth` is `max_`.
pub record BoundedQueue : Type 0 where
  pub max_depth : ℕ
  pub events : List QueuedEvent
  pub rejected : ℕ

unfoldable pub try_push : QueuedEvent → BoundedQueue → Bool × BoundedQueue
try_push ev q =
    if leb q.max_depth (length q.events)
    then (false, record q { rejected = (q.rejected + 1) % 2 ^ 64 })
    else (true, record q { events = q.events ++ ev ∷ [] })

abbrev pub take_front : List QueuedEvent → BoundedQueue → Option QueuedEvent × BoundedQueue
take_front [] q = (none, q)
take_front (ev ∷ events) q = (some ev, record q { events = events })

abbrev pub is_idle : List QueuedEvent → Bool
is_idle [] = true
is_idle (ev ∷ events) = false

-- `pop_wait_for_ms` from the end of its wait on: the predicate of the wait, then the queue.
unfoldable pub pop_wait_for_ms : Bool → BoundedQueue → Option QueuedEvent × BoundedQueue
pop_wait_for_ms stopping q =
    if not (stopping || not (is_idle q.events)) then (none, q) else take_front q.events q

-- The calls of the threads that share a queue, in the order in which they hold its lock.
pub data QueueCall : Type 0 where
  pushes : QueuedEvent → QueueCall
  pops : Bool → QueueCall

abbrev pub listed : Option QueuedEvent → List QueuedEvent
listed none = []
listed (some ev) = ev ∷ []

unfoldable pub step : QueueCall → BoundedQueue → BoundedQueue
step (pushes ev) q = (try_push ev q).1
step (pops stopping) q = (pop_wait_for_ms stopping q).1

-- What a call adds to the queue, and what it hands out.
unfoldable pub accepted : QueueCall → BoundedQueue → List QueuedEvent
accepted (pushes ev) q = if (try_push ev q).0 then ev ∷ [] else []
accepted (pops stopping) q = []

unfoldable pub handed_out : QueueCall → BoundedQueue → List QueuedEvent
handed_out (pushes ev) q = []
handed_out (pops stopping) q = listed (pop_wait_for_ms stopping q).0

unfoldable pub run : List QueueCall → BoundedQueue → BoundedQueue
run [] q = q
run (c ∷ cs) q = run cs (step c q)

unfoldable pub all_accepted : List QueueCall → BoundedQueue → List QueuedEvent
all_accepted [] q = []
all_accepted (c ∷ cs) q = accepted c q ++ all_accepted cs (step c q)

unfoldable pub all_handed_out : List QueueCall → BoundedQueue → List QueuedEvent
all_handed_out [] q = []
all_handed_out (c ∷ cs) q = handed_out c q ++ all_handed_out cs (step c q)

pops_lem :
    (stopping : Bool) (q : BoundedQueue) (events : List QueuedEvent)
    → q.events ≡ events
    → length q.events ≤ q.max_depth
    → (handed_out (pops stopping) q ++ (step (pops stopping) q).events
        ≡ q.events ++ accepted (pops stopping) q)
      × (length (step (pops stopping) q).events ≤ (step (pops stopping) q).max_depth)
      × ((step (pops stopping) q).max_depth ≡ q.max_depth)
unfolding step accepted handed_out pop_wait_for_ms
pops_lem true q [] e h = rw e (refl, omega arith, refl)
pops_lem false q [] e h = rw e (refl, omega arith, refl)
pops_lem true q (ev ∷ events) e h = rw e (sym (append-nil (ev ∷ events)), ground arith, refl)
pops_lem false q (ev ∷ events) e h = rw e (sym (append-nil (ev ∷ events)), ground arith, refl)

push_full :
    (ev : QueuedEvent) (q : BoundedQueue)
    → leb q.max_depth (length q.events) ≡ true
    → try_push ev q ≡ (false, record q { rejected = (q.rejected + 1) % 2 ^ 64 })
unfolding try_push
push_full ev q e = rw e refl

push_fits :
    (ev : QueuedEvent) (q : BoundedQueue)
    → leb q.max_depth (length q.events) ≡ false
    → try_push ev q ≡ (true, record q { events = q.events ++ ev ∷ [] })
unfolding try_push
push_fits ev q e = rw e refl

-- One call takes from the front and adds at the back, and keeps the depth.
step_lem :
    (c : QueueCall) (q : BoundedQueue)
    → length q.events ≤ q.max_depth
    → (handed_out c q ++ (step c q).events ≡ q.events ++ accepted c q)
      × (length (step c q).events ≤ (step c q).max_depth)
      × ((step c q).max_depth ≡ q.max_depth)
unfolding step accepted handed_out
step_lem (pushes ev) q h = elim (Bool-cases (leb q.max_depth (length q.events))) [
  | inl e ↦
      let after : step (pushes ev) q ≡ _ = ap (λ x. x.1) (push_full ev q e) in
      let none_in : accepted (pushes ev) q ≡ [] = rw (push_full ev q e) refl in
      rw (after, none_in) (sym (append-nil q.events), h, refl)
  | inr e ↦
      let after : step (pushes ev) q ≡ _ = ap (λ x. x.1) (push_fits ev q e) in
      let one_in : accepted (pushes ev) q ≡ ev ∷ [] = rw (push_fits ev q e) refl in
      let more = length-append q.events (ev ∷ []) in rw (after, one_in) (refl, ground arith, refl)
]
step_lem (pops stopping) q h = pops_lem stopping q q.events refl h

-- Of a queue within its depth, any sequence of calls hands out events in the order in which they
-- came, loses and doubles none that it accepted, and leaves the queue within its depth.
pub first_in_first_out :
    (cs : List QueueCall) (q : BoundedQueue)
    → length q.events ≤ q.max_depth
    → (all_handed_out cs q ++ (run cs q).events ≡ q.events ++ all_accepted cs q)
      × (length (run cs q).events ≤ q.max_depth)
unfolding run all_accepted all_handed_out
first_in_first_out [] q h = (sym (append-nil q.events), h)
first_in_first_out (c ∷ cs) q h =
    let (flow, fits, same) = step_lem c q h in
    let (rest, deep) = first_in_first_out cs (step c q) fits in
    (
      append_steps (handed_out c q) q.events (step c q).events (accepted c q)
          (all_handed_out cs (step c q)) (run cs (step c q)).events (all_accepted cs (step c q))
          flow rest,
      omega (arith, deep, same),
    )

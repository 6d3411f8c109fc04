-- ===== src/Pipeline/System/Queue.antt =====
-- The pipeline as a queue: what act and act_all do to the events of one call.
use mod_event_kafka.Common.{
  ℕ, ◌≤◌, String, ◌≡◌, refl, sym, ap, ◌∙◌, Bool, false, some, List, [], ◌∷◌, ◌++◌, map, arith, ℤ,
  pos, negsuc, All, is_empty, select_where, text_eq, text_eq_self, append_steps, pos_part,
}
use mathlib.Core.List.{append-nil, append_assoc, map-append}
use mod_event_kafka.Common.Tables.Select.{select_where-append}
use mod_event_kafka.Outbox.Schema.{int64_max}
use mod_event_kafka.Outbox.Engine.{Faults}
use mod_event_kafka.Outbox.Invariant.{IsValid}
use mod_event_kafka.Outbox.History.{inserts, after, accepted, acknowledged}
use mod_event_kafka.Outbox.History.Validity.{after-IsValid}
use mod_event_kafka.Outbox.Fifo.{waiting, Contiguous, added}
use mod_event_kafka.Outbox.Fifo.Admitting.{AsksAdmission}
use mod_event_kafka.Outbox.Fifo.Queue.{after-Flows}
use mod_event_kafka.Outbox.Reach.Steps.{Reaches-Drains}
use mod_event_kafka.Pipeline.State.{Step}
use mod_event_kafka.Pipeline.Calls.{Event, Enqueued, record_of_event}
use mod_event_kafka.Pipeline.Serving.{Served, Untouched}
use mod_event_kafka.Pipeline.Worker.Serving.{worker_step-Served}
use mod_event_kafka.Pipeline.System.{
  System, Action, enqueues, works, stops, requests_rebuild, answered, act, act_all,
}
use mod_event_kafka.Pipeline.System.Entry.{Entry, admits, turns_away, enqueue-Entry}

-- An event that is handed in without a sequence of its own, as PublishEvent does.
abbrev pub Unnumbered : Action → Type 0
Unnumbered (enqueues ev wall fs) = AsksAdmission ev.source_sequence
Unnumbered _ = Unit

-- The events of a call, in the order of a list.
abbrev pub events_of : String → List Event → List String
events_of u evs = map (λ ev. ev.event_id) (select_where (λ ev. text_eq ev.call_uuid u) evs)

pub events_of-append :
    (u : String) (xs ys : List Event) → events_of u (xs ++ ys) ≡ events_of u xs ++ events_of u ys
events_of-append u xs ys =
    ap (map (λ ev. ev.event_id)) (select_where-append (λ ev. text_eq ev.call_uuid u) xs ys)
    ∙ map-append (λ ev. ev.event_id) (select_where (λ ev. text_eq ev.call_uuid u) xs)
        (select_where (λ ev. text_eq ev.call_uuid u) ys)

-- What a run leaves of the queue of a call: the events stored meanwhile have come at the back, and
-- those that are gone have left at the front.
pub record Queues (t u : String) (s s' : System) : Type 0 where
  pub valid : IsValid s'.pipeline.outbox
  pub queue : Contiguous t u s'.pipeline.outbox
  pub topic : s'.pipeline.cfg.topic ≡ t
  pub fresh : List Event
  pub noted : s'.stored_events ≡ s.stored_events ++ fresh
  pub gone : List String
  pub order :
      gone ++ waiting t u s'.pipeline.outbox ≡ waiting t u s.pipeline.outbox ++ events_of u fresh

module _ (t u : String) (nonempty : is_empty u ≡ false) where
  same-Queues :
      (s s' : System)
      → s'.stored_events ≡ s.stored_events
      → Untouched s.pipeline s'.pipeline
      → s.pipeline.cfg.topic ≡ t
      → IsValid s.pipeline.outbox
      → Contiguous t u s.pipeline.outbox
      → Queues t u s s'
  same-Queues s s' e (o, c, h, k) topic v q = record {
    valid = rw o v;
    queue = rw o q;
    topic = rw c topic;
    fresh = [];
    noted = e ∙ sym (append-nil s.stored_events);
    gone = [];
    order = rw o (sym (append-nil (waiting t u s.pipeline.outbox)));
  }

  Served-Queues :
      {sends : Bool} (s s' : System)
      → s'.stored_events ≡ s.stored_events
      → Served sends s.pipeline s'.pipeline
      → s.pipeline.cfg.topic ≡ t
      → IsValid s.pipeline.outbox
      → Contiguous t u s.pipeline.outbox
      → Queues t u s s'
  Served-Queues s s' e h topic v q =
      let drained = Reaches-Drains t u nonempty h.calls v q in
      record {
        valid = drained.valid;
        queue = drained.queue;
        topic = rw h.config topic;
        fresh = [];
        noted = e ∙ sym (append-nil s.stored_events);
        gone = drained.gone;
        order = drained.front ∙ sym (append-nil (waiting t u s.pipeline.outbox));
      }

  added-event :
      (ev : Event) (topic : String)
      → topic ≡ t
      → added t u (some (record_of_event topic ev)) ≡ events_of u (ev ∷ [])
  added-event ev topic e = rw (e, text_eq_self t) (ground arith)

  unnumbered_part : (z : ℤ) → AsksAdmission z → pos_part z ≡ 0
  unnumbered_part (negsuc n) asks = refl
  unnumbered_part (pos n) asks = absurd asks

  admitted-Queues :
      (ev : Event) (wall : ℕ) (fs : Faults) (s s' : System)
      → AsksAdmission ev.source_sequence
      → s'.stored_events ≡ s.stored_events ++ ev ∷ []
      → accepted (inserts (record_of_event s.pipeline.cfg.topic ev) wall) fs s.pipeline.outbox
        ≡ some (record_of_event s.pipeline.cfg.topic ev)
      → s'.pipeline.outbox
        ≡ after (inserts (record_of_event s.pipeline.cfg.topic ev) wall) fs s.pipeline.outbox
      → s'.pipeline.cfg ≡ s.pipeline.cfg
      → s.pipeline.cfg.topic ≡ t
      → IsValid s.pipeline.outbox
      → Contiguous t u s.pipeline.outbox
      → Queues t u s s'
  unfolding acknowledged
  admitted-Queues ev wall fs s s' asks noted ok o c topic v q =
      let rec = record_of_event s.pipeline.cfg.topic ev in
      let fits : pos_part ev.source_sequence ≤ int64_max =
        rw (unnumbered_part ev.source_sequence asks) (omega arith) in
      let (kept, flow) =
        after-Flows t u nonempty (inserts rec wall) fs s.pipeline.outbox v (λ _. asks) q in
      record {
        valid = rw o (after-IsValid (inserts rec wall) fs s.pipeline.outbox fits v);
        queue = rw o kept;
        topic = rw c topic;
        fresh = ev ∷ [];
        noted = noted;
        gone = [];
        order = rw o (
            (rw ok at flow)
            ∙ ap (λ l. waiting t u s.pipeline.outbox ++ l)
                (added-event ev s.pipeline.cfg.topic topic));
      }

  answered-Queues :
      (ev : Event) (wall : ℕ) (s : System) (o : Step Enqueued)
      → Entry ev wall s.pipeline o
      → AsksAdmission ev.source_sequence
      → s.pipeline.cfg.topic ≡ t
      → IsValid s.pipeline.outbox
      → Contiguous t u s.pipeline.outbox
      → Queues t u s (answered ev s o)
  answered-Queues ev wall s _ (turns_away id err fs' p' same) asks topic v q =
      same-Queues s _ refl same topic v q
  answered-Queues ev wall s _ (admits id seq fs fs' p' ok o c m) asks topic v q =
      admitted-Queues ev wall fs s _ asks refl ok o c topic v q

  pub act-Queues :
      (a : Action) (s : System)
      → Unnumbered a
      → s.pipeline.cfg.topic ≡ t
      → IsValid s.pipeline.outbox
      → Contiguous t u s.pipeline.outbox
      → Queues t u s (act a s)
  unfolding act
  act-Queues (enqueues ev wall fs) s asks topic v q =
      answered-Queues ev wall s _ (enqueue-Entry ev wall fs s.pipeline) asks topic v q
  act-Queues (works w fs) s asks topic v q =
      Served-Queues s _ refl (worker_step-Served w fs s.worker s.pipeline) topic v q
  act-Queues stops s asks topic v q = same-Queues s _ refl (refl, refl, (λ e. refl), refl) topic v q
  act-Queues requests_rebuild s asks topic v q =
      same-Queues s _ refl (refl, refl, (λ e. e), refl) topic v q

  Queues-trans : (a b c : System) → Queues t u a b → Queues t u b c → Queues t u a c
  Queues-trans a b c h k = record {
    valid = k.valid;
    queue = k.queue;
    topic = k.topic;
    fresh = h.fresh ++ k.fresh;
    noted = k.noted ∙ ap (λ l. l ++ k.fresh) h.noted ∙ append_assoc a.stored_events h.fresh k.fresh;
    gone = h.gone ++ k.gone;
    order =
        append_steps h.gone (waiting t u a.pipeline.outbox) _ (events_of u h.fresh) k.gone
          (waiting t u c.pipeline.outbox) _ h.order k.order
        ∙ ap (λ l. waiting t u a.pipeline.outbox ++ l) (sym (events_of-append u h.fresh k.fresh));
  }

  -- Whatever sequence of events handed in without a sequence of their own, of steps of the
  -- worker, of stops and of requests to rebuild the producer runs on a well-formed outbox where
  -- the call's queue is contiguous: the events of the call that enqueue has reported as stored
  -- come at the back of the call's queue in the order of those reports, and events leave it at
  -- the front only, so that what is left is the end of that order without a gap, whichever
  -- statements the engine refuses, whatever librdkafka answers, and whichever delivery reports
  -- come. The outbox stays well formed, and the queue contiguous.
  pub act_all-Queues :
      (actions : List Action) (s : System)
      → All Unnumbered actions
      → s.pipeline.cfg.topic ≡ t
      → IsValid s.pipeline.outbox
      → Contiguous t u s.pipeline.outbox
      → Queues t u s (act_all actions s)
  unfolding act_all
  act_all-Queues [] s asks topic v q = same-Queues s s refl (refl, refl, (λ e. e), refl) topic v q
  act_all-Queues (a ∷ actions) s asks topic v q =
      let h = act-Queues a s asks.0 topic v q in
      Queues-trans s (act a s) _ h (act_all-Queues actions (act a s) asks.1 h.topic h.valid h.queue)

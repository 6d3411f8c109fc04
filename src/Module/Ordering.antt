-- ===== src/Module/Ordering.antt =====
-- What the module promises for the events that FreeSWITCH delivers to it.
use mod_event_kafka.Common.{
  String, ◌≡◌, refl, ◌⊎◌, inl, inr, true, false, Option, none, some, List, [], ◌∷◌, ◌++◌, is_empty,
  All, Memᴰ,
}
use mod_event_kafka.Outbox.Engine.{Faults}
use mod_event_kafka.Outbox.Schema.{Row}
use mod_event_kafka.Outbox.Invariant.{IsValid}
use mod_event_kafka.Outbox.Fifo.{Contiguous}
use mod_event_kafka.Pipeline.State.{KafkaPipeline, returned}
use mod_event_kafka.Pipeline.Calls.{Event, Enqueued, stored, rejected}
use mod_event_kafka.Pipeline.Enqueuing.{Holds, Answered, enqueue_lem}
use mod_event_kafka.Pipeline.System.{System, Action, enqueues, works, stops, answered, act, act_all}
use mod_event_kafka.Pipeline.System.Queue.{Unnumbered, Queues, act_all-Queues}
use mod_event_kafka.Module.Publisher.{
  Publisher, SwitchEvent, Moment, key_of_call, event_of, publish_event, Happening, delivers,
  advances, shuts_down, happen, happen_all,
}

-- A module that is loaded.
abbrev pub live : System → Publisher
live s = record { initialized = true; system = some s }

abbrev pub delivered : SwitchEvent → Moment → Faults → Option String → List Action
delivered e m fs none = []
delivered e m fs (some json) = enqueues (event_of e m json) m.wall fs ∷ []

abbrev action_of : Happening → List Action
action_of (delivers e m fs) = delivered e m fs e.json
action_of (advances w fs) = works w fs ∷ []
action_of shuts_down = stops ∷ []

abbrev pub actions_of : List Happening → List Action
actions_of [] = []
actions_of (h ∷ hs) = action_of h ++ actions_of hs

happen-live : (h : Happening) (s : System) → happen h (live s) ≡ live (act_all (action_of h) s)
unfolding happen publish_event act act_all
happen-live (delivers e m fs) s = serialized e.json refl
  where
    serialized :
        (o : Option String)
        → e.json ≡ o
        → publish_event e m fs (live s) ≡ live (act_all (delivered e m fs e.json) s)
    serialized none x = rw x refl
    serialized (some json) x = rw x refl
happen-live (advances w fs) s = refl
happen-live shuts_down s = refl

act_all-append :
    (xs ys : List Action) (s : System) → act_all (xs ++ ys) s ≡ act_all ys (act_all xs s)
unfolding act_all
act_all-append [] ys s = refl
act_all-append (a ∷ xs) ys s = act_all-append xs ys (act a s)

pub happen_all-live :
    (hs : List Happening) (s : System) → happen_all hs (live s) ≡ live (act_all (actions_of hs) s)
unfolding happen_all act_all
happen_all-live [] s = refl
happen_all-live (h ∷ hs) s =
    rw (happen-live h s, act_all-append (action_of h) (actions_of hs) s)
      (happen_all-live hs (act_all (action_of h) s))

delivered-Unnumbered :
    (e : SwitchEvent) (m : Moment) (fs : Faults) (o : Option String) (rest : List Action)
    → All Unnumbered rest
    → All Unnumbered (delivered e m fs o ++ rest)
delivered-Unnumbered e m fs none rest h = h
delivered-Unnumbered e m fs (some json) rest h = (tt, h)

pub actions_of-Unnumbered : (hs : List Happening) → All Unnumbered (actions_of hs)
actions_of-Unnumbered [] = tt
actions_of-Unnumbered (delivers e m fs ∷ hs) =
    delivered-Unnumbered e m fs e.json (actions_of hs) (actions_of-Unnumbered hs)
actions_of-Unnumbered (advances w fs ∷ hs) = (tt, actions_of-Unnumbered hs)
actions_of-Unnumbered (shuts_down ∷ hs) = (tt, actions_of-Unnumbered hs)

-- Whatever happens to a loaded module whose outbox is well formed, with a contiguous queue of the
-- call: the module stays loaded, the call's events that it has reported as stored come at the back
-- of the call's queue in the order of those reports, and events leave the queue at the front only.
-- This holds for every event that FreeSWITCH delivers, since none asks for a sequence of its own.
pub happen_all-Queues :
    (t u : String) (hs : List Happening) (s : System)
    → is_empty u ≡ false
    → s.pipeline.cfg.topic ≡ t
    → IsValid s.pipeline.outbox
    → Contiguous t u s.pipeline.outbox
    → (s' : System) × (happen_all hs (live s) ≡ live s') × Queues t u s s'
happen_all-Queues t u hs s nonempty topic v q = (
  act_all (actions_of hs) s,
  happen_all-live hs s,
  act_all-Queues t u nonempty (actions_of hs) s (actions_of-Unnumbered hs) topic v q,
)

-- What the module does with an event that it has serialized.
abbrev pub Published : System → Event → System → Type 0
Published s ev s' =
    ((s'.stored_events ≡ s.stored_events ++ ev ∷ [])
      × (r : Row) × Memᴰ r s'.pipeline.outbox.rows
      × Holds s.pipeline.cfg.topic ev r)
    ⊎ ((s'.stored_events ≡ s.stored_events) × (s'.pipeline.outbox ≡ s.pipeline.outbox))

answered-Published :
    (s : System) (ev : Event) (answer : Enqueued) (fs : Faults) (p : KafkaPipeline)
    → Answered s.pipeline ev answer p
    → Published s ev (answered ev s (returned answer fs p))
answered-Published s ev (stored id seq) fs p h = inl (refl, h.1, h.2, h.3)
answered-Published s ev (rejected id err) fs p h = inr (refl, h)

-- The identifier of a call, from the header Channel-Call-UUID; without it, the text is empty.
abbrev pub Names : Option String → String → Type 0
Names none s = s ≡ ""
Names (some uuid) s = s ≡ uuid

-- An event for the outbox that stands for an event of FreeSWITCH and its JSON text.
pub record Conveys (e : SwitchEvent) (m : Moment) (json : String) (ev : Event) : Type 0 where
  pub id : ev.event_id ≡ m.event_id
  pub payload : ev.payload ≡ json
  pub key : Names e.channel_call_uuid ev.msg_key
  pub call : Names e.channel_call_uuid ev.call_uuid

key_of_call-Names : (uuid : Option String) → Names uuid (key_of_call uuid)
key_of_call-Names none = refl
key_of_call-Names (some uuid) = refl

pub event_of-Conveys :
    (e : SwitchEvent) (m : Moment) (json : String) → Conveys e m json (event_of e m json)
event_of-Conveys e m json = record {
  id = refl;
  payload = refl;
  key = key_of_call-Names e.channel_call_uuid;
  call = key_of_call-Names e.channel_call_uuid;
}

-- PublishEvent of an event that can be serialized always returns, and the module stays loaded.
-- Either the outbox now holds a pending row with the JSON text as its payload and the event's
-- Channel-Call-UUID, or the empty text without it, as its key and its call, and the event is reported
-- as stored; or the event is reported as rejected and the outbox is as before.
pub publish_event-Published :
    (e : SwitchEvent) (m : Moment) (fs : Faults) (s : System) (json : String)
    → e.json ≡ some json
    → (ev : Event) × Conveys e m json ev
      × (s' : System) × (publish_event e m fs (live s) ≡ live s')
      × Published s ev s'
unfolding publish_event
publish_event-Published e m fs s json given =
    let (answer, fs', p', returns, h) = enqueue_lem (event_of e m json) m.wall fs s.pipeline in
    (
      event_of e m json,
      event_of-Conveys e m json,
      answered (event_of e m json) s (returned answer fs' p'),
      rw (given, returns) refl,
      answered-Published s (event_of e m json) answer fs' p' h,
    )

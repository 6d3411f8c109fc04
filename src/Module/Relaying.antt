-- ===== src/Module/Relaying.antt =====
-- What reaches librdkafka of the events that FreeSWITCH delivers to the module.
use mod_event_kafka.Common.{
  String, here, there, ◌⊎◌, inl, inr, ◌≡◌, refl, false, none, some, Option, List, [], ◌∷◌, ◌++◌,
  is_empty, All, Memᴰ, All-mono, All-append, All-members, All-Mem, Memᴰ-append_left,
  Memᴰ-append_right,
}
use mod_event_kafka.Outbox.Engine.{Faults}
use mod_event_kafka.Outbox.Invariant.{IsValid}
use mod_event_kafka.Outbox.Fifo.{Contiguous}
use mod_event_kafka.Pipeline.State.{Message, Step, returned, escaped}
use mod_event_kafka.Pipeline.Calls.{Event, Enqueued, stored, rejected}
use mod_event_kafka.Pipeline.Worker.Hands.{Hands}
use mod_event_kafka.Pipeline.System.{
  System, Action, enqueues, works, stops, requests_rebuild, answered, act, act_all,
}
use mod_event_kafka.Pipeline.System.Sent.{sent, Sends, act_all-Sends}
use mod_event_kafka.Pipeline.System.Genuine.{Tells, ToldBy, Genuine, act_all-Genuine}
use mod_event_kafka.Module.Publisher.{
  SwitchEvent, Moment, event_of, Happening, delivers, advances, shuts_down, happen_all,
}
use mod_event_kafka.Module.Ordering.{
  live, Conveys, event_of-Conveys, delivered, actions_of, happen_all-live, actions_of-Unnumbered,
}

Memᴰ-append-cases {ℓ} :
    {A : Type ℓ} (a : A) (xs ys : List A) → Memᴰ a (xs ++ ys) → Memᴰ a xs ⊎ Memᴰ a ys
Memᴰ-append-cases a [] ys m = inr m
Memᴰ-append-cases a (a' ∷ xs) ys here = inl here
Memᴰ-append-cases a (x ∷ xs) ys (there m) = elim (Memᴰ-append-cases a xs ys m) [
  | inl h ↦ inl (there h)
  | inr h ↦ inr h
]

-- The events that FreeSWITCH delivers and that can be serialized.
abbrev serialized : SwitchEvent → Moment → Option String → List Event
serialized e m none = []
serialized e m (some json) = event_of e m json ∷ []

abbrev pub offers : List Happening → List Event
offers [] = []
offers (delivers e m fs ∷ hs) = serialized e m e.json ++ offers hs
offers (advances w fs ∷ hs) = offers hs
offers (shuts_down ∷ hs) = offers hs

module _ (all : List Event) where
  -- All the events are among `all`.
  abbrev Within : List Event → Type 0
  Within evs = All (λ ev. Memᴰ ev all) evs

  abbrev Asks : Action → Type 0
  Asks (enqueues ev wall fs) = Memᴰ ev all
  Asks (works w fs) = Unit
  Asks stops = Unit
  Asks requests_rebuild = Unit

  answered-Within :
      (ev : Event) (s : System) (o : Step Enqueued)
      → Memᴰ ev all
      → Within s.stored_events
      → Within (answered ev s o).stored_events
  answered-Within ev s (returned (stored id seq) fs p) m h =
      All-append _ s.stored_events (ev ∷ []) h (m, tt)
  answered-Within ev s (returned (rejected id err) fs p) m h = h
  answered-Within ev s (escaped err fs p) m h = h

  act-Within :
      (a : Action) (s : System) → Asks a → Within s.stored_events → Within (act a s).stored_events
  unfolding act
  act-Within (enqueues ev wall fs) s m h = answered-Within ev s _ m h
  act-Within (works w fs) s m h = h
  act-Within stops s m h = h
  act-Within requests_rebuild s m h = h

  act_all-Within :
      (actions : List Action) (s : System)
      → All Asks actions
      → Within s.stored_events
      → Within (act_all actions s).stored_events
  unfolding act_all
  act_all-Within [] s m h = h
  act_all-Within (a ∷ actions) s m h = act_all-Within actions (act a s) m.1 (act-Within a s m.0 h)

  delivered-Asks :
      (e : SwitchEvent) (m : Moment) (fs : Faults) (o : Option String) (rest : List Action)
      (evs : List Event)
      → (Within evs → All Asks rest)
      → Within (serialized e m o ++ evs)
      → All Asks (delivered e m fs o ++ rest)
  delivered-Asks e m fs none rest evs k h = k h
  delivered-Asks e m fs (some json) rest evs k h = (h.0, k h.1)

  actions_of-Asks : (hs : List Happening) → Within (offers hs) → All Asks (actions_of hs)
  actions_of-Asks [] h = tt
  actions_of-Asks (delivers e m fs ∷ hs) h =
      delivered-Asks e m fs e.json (actions_of hs) (offers hs) (actions_of-Asks hs) h
  actions_of-Asks (advances w fs ∷ hs) h = (tt, actions_of-Asks hs h)
  actions_of-Asks (shuts_down ∷ hs) h = (tt, actions_of-Asks hs h)

-- An event that FreeSWITCH has delivered and that could be serialized.
abbrev pub Delivered : List Happening → Event → Type 0
Delivered hs ev =
    (e : SwitchEvent) × (m : Moment) × (fs : Faults) × (json : String) × Memᴰ (delivers e m fs) hs
    × (e.json ≡ some json)
    × Conveys e m json ev

later : (h : Happening) (hs : List Happening) (ev : Event) → Delivered hs ev → Delivered (h ∷ hs) ev
later h hs ev (e, m, fs, json, mem, given, conveys) = (e, m, fs, json, there mem, given, conveys)

this_or_later :
    (e : SwitchEvent) (m : Moment) (fs : Faults) (hs : List Happening) (ev : Event)
    (o : Option String)
    → e.json ≡ o
    → Memᴰ ev (serialized e m o ++ offers hs)
    → Delivered (delivers e m fs ∷ hs) ev ⊎ Memᴰ ev (offers hs)
this_or_later e m fs hs ev none given mem = inr mem
this_or_later e m fs hs ev' (some json) given here =
    inl (e, m, fs, json, here, given, event_of-Conveys e m json)
this_or_later e m fs hs ev (some json) given (there mem) = inr mem

offers-Delivered : (hs : List Happening) (ev : Event) → Memᴰ ev (offers hs) → Delivered hs ev
offers-Delivered [] ev mem = elim mem [ ]
offers-Delivered (delivers e m fs ∷ hs) ev mem = elim (this_or_later e m fs hs ev e.json refl mem) [
  | inl now ↦ now
  | inr mem' ↦ later (delivers e m fs) hs ev (offers-Delivered hs ev mem')
]
offers-Delivered (advances w fs ∷ hs) ev mem =
    later (advances w fs) hs ev (offers-Delivered hs ev mem)
offers-Delivered (shuts_down ∷ hs) ev mem = later shuts_down hs ev (offers-Delivered hs ev mem)

module _ (t : String) where
  -- A message that tells of an event that was stored before, or that FreeSWITCH has delivered.
  abbrev pub FromDelivery : List Event → List Happening → Message → Type 0
  FromDelivery before hs msg = (ev : Event) × (Memᴰ ev before ⊎ Delivered hs ev) × Tells t ev msg

  ToldBy-FromDelivery :
      (evs before : List Event) (hs : List Happening) (msg : Message)
      → Within (before ++ offers hs) evs
      → ToldBy t evs msg
      → FromDelivery before hs msg
  ToldBy-FromDelivery evs before hs msg h (ev, m, tells) = (
    ev,
    elim (Memᴰ-append-cases ev before (offers hs) (All-Mem _ evs m h)) [
      | inl old ↦ inl old
      | inr new ↦ inr (offers-Delivered hs ev new)
    ],
    tells,
  )

  -- What a loaded module has sent: the messages of a call in order, and each from an event that was
  -- stored before or that FreeSWITCH has delivered.
  pub record Relays (u : String) (hs : List Happening) (s s' : System) : Type 0 where
    pub sends : Sends t u (sent (actions_of hs) s) s s'
    pub told : All (FromDelivery s.stored_events hs) s'.pipeline.produced

  -- Whatever happens to a loaded module whose outbox is well formed, with a contiguous queue of the
  -- call, from a state where all rows and messages are of stored events and the events in the
  -- worker's hands wait in that queue, the claimed one as its oldest: the module stays loaded; the
  -- messages of the call that librdkafka has accepted are of events of the call's queue and of those
  -- stored since, in their order (one may be repeated before a later one, some may not be sent, and
  -- none is sent after a later one); and each message of any call has the id, topic, key and payload
  -- of an event that was stored before, or the JSON text and the Channel-Call-UUID of one that
  -- FreeSWITCH has delivered.
  pub happen_all-Relays :
      (u : String) (hs : List Happening) (s : System)
      → is_empty u ≡ false
      → IsValid s.pipeline.outbox
      → Contiguous t u s.pipeline.outbox
      → Hands t u s.worker s.pipeline.outbox
      → Genuine t s
      → (s' : System) × (happen_all hs (live s) ≡ live s') × Relays u hs s s'
  happen_all-Relays u hs s nonempty v q hands g =
      let all = s.stored_events ++ offers hs in
      let actions = actions_of hs in
      let before =
        All-mono _ _ s.stored_events (λ ev m. Memᴰ-append_left ev _ (offers hs) m)
          (All-members s.stored_events) in
      let offered =
        All-mono _ _ (offers hs) (λ ev m. Memᴰ-append_right ev s.stored_events _ m)
          (All-members (offers hs)) in
      let within = act_all-Within all actions s (actions_of-Asks all hs offered) before in
      (
        act_all actions s,
        happen_all-live hs s,
        record {
          sends = act_all-Sends t u nonempty actions s (actions_of-Unnumbered hs) g.topic v q hands;
          told =
              All-mono _ _ (act_all actions s).pipeline.produced
                (λ msg h.
                  ToldBy-FromDelivery (act_all actions s).stored_events s.stored_events hs msg
                    within h)
                (act_all-Genuine t actions s g).messages;
        },
      )

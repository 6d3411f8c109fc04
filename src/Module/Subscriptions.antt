-- ===== src/Module/Subscriptions.antt =====
-- KafkaModule: its bindings to FreeSWITCH's events, from mod_event_kafka_load to
-- mod_event_kafka_shutdown.
pub mod Bindings
use mod_event_kafka.Common.{
  ℕ, zero, suc, ◌+◌, ◌≤◌, ◌<◌, String, ◌≡◌, refl, sym, ap, ◌∙◌, ◌⊎◌, inl, inr, Bool, true, false,
  not, Option, none, some, List, [], ◌∷◌, ◌++◌, map, if◌then◌else◌, if_cases, arith, ◌==◌, ==_self,
  ==_iff, ltb, delete_where, length, text_append, text_drop, Bool-cases,
}
use mathlib.Core.List.{append-nil, append_assoc}
use mod_event_kafka.Pipeline.Failure.{Report, ok, failed}

-- What the module calls of FreeSWITCH. `separate` is switch_separate_string on `event_filter` and a
-- comma; `name_event` is switch_name_event, `is_custom` says whether switch_strstr finds
-- SWITCH_EVENT_CUSTOM:: in a name; `custom_id` and `all_id` are SWITCH_EVENT_CUSTOM and
-- SWITCH_EVENT_ALL.
pub record FreeSwitch : Type 0 where
  pub separate : Option String → List String
  pub name_event : String → Option ℕ
  pub is_custom : String → Bool
  pub custom_id : ℕ
  pub all_id : ℕ

-- `profile.event_nodes[i]`, and `_node`.
pub data Node : Type 0 where
  event_node : ℕ → Node
  all_node : Node

abbrev pub node_eq : Node → Node → Bool
node_eq (event_node i) (event_node j) = i == j
node_eq all_node all_node = true
node_eq _ _ = false

-- One switch_event_bind_removable of the event handler; no subclass is SWITCH_EVENT_SUBCLASS_ANY.
pub record Binding : Type 0 where
  pub node : Node
  pub event : ℕ
  subclass : Option String

-- An entry of the filter, with its place and its id in `profile.event_ids`.
pub record Subscription : Type 0 where
  pub place : ℕ
  pub name : String
  pub event_id : ℕ

abbrev pub id_or : ℕ → Option ℕ → ℕ
id_or d none = d
id_or d (some n) = n

-- The loop over switch_name_event, from a place on. The id of a name that is not recognized stays
-- what the array held.
unfoldable pub name_events : FreeSwitch → (ℕ → ℕ) → ℕ → List String → List Subscription
name_events fs held i [] = []
name_events fs held i (name ∷ names) =
    record { place = i; name = name; event_id = id_or (held i) (fs.name_event name) }
    ∷ name_events fs held (i + 1) names

unfoldable pub binding_of : FreeSwitch → Subscription → Binding
unfolding text_drop
binding_of fs s =
    if fs.is_custom s.name
    then record {
      node = event_node s.place;
      event = fs.custom_id;
      subclass = some (text_drop 21 s.name);
    }
    else record { node = event_node s.place; event = s.event_id; subclass = none }

abbrev pub all_events : FreeSwitch → Binding
all_events fs = record { node = all_node; event = fs.all_id; subclass = none }

-- The loop that binds, with the exception that ends it, and the handlers that are bound after it.
-- `accepts` says whether switch_event_bind_removable succeeds.
unfoldable pub bind_events :
    FreeSwitch
    → (Binding → Bool)
    → List Subscription
    → List Binding
    → Report (Unit {0}) × List Binding
unfolding binding_of text_append
bind_events fs accepts [] bound = (ok tt, bound)
bind_events fs accepts (s ∷ ss) bound =
    let rest = bind_events fs accepts ss (bound ++ binding_of fs s ∷ []) in
    if accepts (binding_of fs s)
    then rest
    else (failed (text_append "Failed to bind event handler for " s.name), bound)

unfoldable pub bind_all :
    FreeSwitch → (Binding → Bool) → List Binding → Report (Unit {0}) × List Binding
bind_all fs accepts bound =
    if accepts (all_events fs)
    then (ok tt, bound ++ all_events fs ∷ [])
    else (failed "Couldn't bind to switch events.", bound)

-- The constructor of KafkaModule, after that of its publisher.
unfoldable pub subscribe :
    FreeSwitch
    → (Binding → Bool)
    → List Subscription
    → List Binding
    → Report (Unit {0}) × List Binding
unfolding bind_all bind_events
subscribe fs accepts [] bound = bind_all fs accepts bound
subscribe fs accepts (s ∷ ss) bound = bind_events fs accepts (s ∷ ss) bound

-- switch_event_unbind
abbrev pub unbind : Node → List Binding → List Binding
unbind n bound = delete_where (λ b. node_eq b.node n) bound

unfoldable pub unbind_events : ℕ → ℕ → List Binding → List Binding
unbind_events i zero bound = bound
unbind_events i (suc n) bound = unbind_events (i + 1) n (unbind (event_node i) bound)

-- The destructor of KafkaModule; the first argument is `event_subscriptions`.
unfoldable pub unsubscribe : ℕ → List Binding → List Binding
unfolding unbind_events
unsubscribe zero bound = unbind all_node bound
unsubscribe (suc n) bound = unbind_events 0 (suc n) bound

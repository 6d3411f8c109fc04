-- ===== src/Module/Tests.antt =====
-- Runs of the module on concrete events and settings.
use mod_event_kafka.Common.{
  ℕ, String, All, ◌≡◌, refl, true, false, none, some, List, [], ◌∷◌, ◌++◌, map, length, pos, negsuc,
  is_empty,
}
use mod_event_kafka.Outbox.History.{empty_store}
use mod_event_kafka.Outbox.History.Validity.{empty-IsValid}
use mod_event_kafka.Outbox.Fifo.Queue.{empty-Contiguous}
use mod_event_kafka.Outbox.Database.{Database}
use mod_event_kafka.Pipeline.Calls.{Event}
use mod_event_kafka.Pipeline.Worker.{loop_head}
use mod_event_kafka.Pipeline.System.Tests.{kafka}
use mod_event_kafka.Pipeline.System.{System}
use mod_event_kafka.Pipeline.System.Queue.{Queues}
use mod_event_kafka.Module.Settings.{Globals, no_settings, config_of, Usable, config_of-Usable}
use mod_event_kafka.Module.Publisher.{
  no_metrics, Happening, advances, SwitchEvent, Moment, publish_event, delivers, shuts_down,
  happen_all,
}
use mod_event_kafka.Module.Relaying.{Relays, happen_all-Relays}
use mod_event_kafka.Module.Ordering.{
  live, Conveys, Published, happen_all-Queues, publish_event-Published,
}
use mod_event_kafka.Module.Subscriptions.{
  FreeSwitch, Subscription, name_events, binding_of, subscribe, bind_events, unsubscribe,
}
use mod_event_kafka.Module.Subscriptions.Bindings.{
  wanted, unsubscribe-subscribe, subscribe-broken_off,
}
use mod_event_kafka.Pipeline.Worker.Ending.{Course}
use mod_event_kafka.Module.Loading.{Loading}

abbrev globals : Globals
globals = record no_settings { topic = some "cdr"; outbox_ttl_ms = negsuc 4 }

config_of-Usable_example : Usable (config_of globals)
config_of-Usable_example = config_of-Usable globals

abbrev system : System
system = record {
  pipeline = record {
    cfg = record (config_of globals) { topic = "cdr" };
    metrics = no_metrics;
    outbox = empty_store 10 1000;
    producer = true;
    produced = [];
    running = true;
    accept = true;
    rebuild_requested = false;
  };
  worker = loop_head;
  stored_events = [];
}

abbrev hangup : SwitchEvent
hangup = record { channel_call_uuid = some "c1"; json = some "{}" }

abbrev moment : Moment
moment = record { event_id = "e1"; now = 5; wall = 6 }

happen_all-Queues_example :
    (s' : System) × (happen_all (delivers hangup moment [] ∷ shuts_down ∷ []) (live system)
      ≡ live s')
    × Queues "cdr" "c1" system s'
unfolding is_empty
happen_all-Queues_example =
    happen_all-Queues "cdr" "c1" (delivers hangup moment [] ∷ shuts_down ∷ []) system refl refl
      (empty-IsValid 10 1000) (empty-Contiguous "cdr" "c1" 10 1000)

happen_all-Relays_example :
    (s' : System) × (happen_all (delivers hangup moment [] ∷ shuts_down ∷ []) (live system)
      ≡ live s')
    × Relays "cdr" "c1" (delivers hangup moment [] ∷ shuts_down ∷ []) system s'
unfolding is_empty
happen_all-Relays_example =
    happen_all-Relays "cdr" "c1" (delivers hangup moment [] ∷ shuts_down ∷ []) system refl
      (empty-IsValid 10 1000) (empty-Contiguous "cdr" "c1" 10 1000) tt
      (record { topic = refl; rows = tt; hands = tt; messages = tt })

publish_event-Published_example :
    (ev : Event) × Conveys hangup moment "{}" ev
    × (s' : System) × (publish_event hangup moment [] (live system) ≡ live s')
    × Published system ev s'
publish_event-Published_example = publish_event-Published hangup moment [] system "{}" refl

-- A switch that knows one event by name.
abbrev switch : FreeSwitch
switch = record {
  separate = λ filter. "CHANNEL_HANGUP" ∷ [];
  name_event = λ name. some 7;
  is_custom = λ name. false;
  custom_id = 0;
  all_id = 9;
}

abbrev names : List String
names = "CHANNEL_HANGUP" ∷ []

abbrev held : ℕ → ℕ
held i = 0

unsubscribe-subscribe_example :
    ((subscribe switch (λ b. true) (name_events switch held 0 names) []).1
      ≡ wanted switch (name_events switch held 0 names))
    × (unsubscribe
          (length names)
          (subscribe switch (λ b. true) (name_events switch held 0 names) []).1
        ≡ [])
unfolding subscribe bind_events name_events
unsubscribe-subscribe_example = unsubscribe-subscribe switch held (λ b. true) names refl

abbrev subscription : Subscription
subscription = record { place = 0; name = "HEARTBEAT"; event_id = 3 }

subscribe-broken_off_example :
    (done rest : List Subscription) × (t : Subscription) × (subscription ∷ [] ≡ done ++ t ∷ rest)
    × All (λ x. false ≡ true) done
    × (false ≡ false)
    × ((subscribe switch (λ b. false) (subscription ∷ []) []).1 ≡ map (binding_of switch) done)
unfolding subscribe bind_events
subscribe-broken_off_example = subscribe-broken_off switch (λ b. false) subscription [] _ refl

abbrev new_file : Database
new_file = record {
  has_table = false;
  has_call_seq = false;
  has_eligible_at_ms = false;
  user_version = pos 0;
  rows = [];
  streams = [];
  retired = [];
  turn = none;
  write_ahead = false;
}

abbrev course : Course
course n = (
  record {
    now = 9;
    clock = record { due = 9; jitter = 9; update = 9 };
    kafka = kafka;
    reports = [];
  },
  [],
)

abbrev loading : Loading
loading = record {
  switch_name = "fs1";
  parse = λ g. record g { topic = some ""; topic_prefix = some "fs" };
  startup = record {
    host = record { lock_granted = true; file_opens = true };
    opening_faults = [];
    faults = [];
    clock = record { due = 1; jitter = 1; update = 1 };
    kafka = kafka;
  };
  files = λ path. new_file;
  switch = switch;
  held = held;
  accepts = λ b. true;
  meanwhile = advances (course 0).0 [] ∷ [];
}

abbrev day : List Happening
day = delivers hangup moment [] ∷ advances (course 0).0 [] ∷ []

-- ===== src/Outbox/Reach.antt =====
-- The stores that a client of the outbox can bring about: by which calls, and by no other means.
pub mod Clients
pub mod Steps
pub mod Flying
pub mod Standing
use mod_event_kafka.Common.{
  ℕ, String, ◌≡◌, refl, sym, ap, ◌∙◌, Bool, true, false, List, [], ◌∷◌, ◌++◌, is_empty, Option,
  none, some, if◌then◌else◌, arith, first_where, if_cases, map,
}
use mathlib.Core.List.{append-nil, append_assoc}
use mod_event_kafka.Outbox.Schema.{Store, OutboxRecord, Row}
use mod_event_kafka.Outbox.Engine.{
  Faults, Outcome, done, thrown, Sql, ◌>>=◌, return, select, reply, continue, store_of,
}
use mod_event_kafka.Outbox.Engine.Rules.{statement_rule}
use mod_event_kafka.Outbox.Transitions.{has_id}
use mod_event_kafka.Outbox.Queries.{get, fetch_due, map_option, to_record, due_rows}
use mod_event_kafka.Outbox.Invariant.{IsValid}
use mod_event_kafka.Outbox.History.{
  Call, inserts, claims, acks, retries, kills, revives, requeues, expires, after,
}
use mod_event_kafka.Outbox.History.Effects.{after-Effect}
use mod_event_kafka.Outbox.History.Validity.{InRange, after-IsValid}
use mod_event_kafka.Outbox.Fifo.{waiting, Contiguous}

-- A store that calls with the property P lead to, under any faults.
pub data Reaches (P : Call → Type 0) (d : Store) : Store → Type 0 where
  stays : Reaches P d d
  call :
      {d1 d2 : Store}
      → Reaches P d d1
      → (c : Call) (fs : Faults) → P c
      → d2 ≡ after c fs d1
      → Reaches P d d2

module _ (P : Call → Type 0) where
  pub Reaches-trans : {a b c : Store} → Reaches P a b → Reaches P b c → Reaches P a c
  Reaches-trans h stays = h
  Reaches-trans h (call k c fs p e) = call (Reaches-trans h k) c fs p e

  pub Reaches-IsValid :
      ((c : Call) → P c → InRange c) → {d d' : Store} → Reaches P d d' → IsValid d → IsValid d'
  Reaches-IsValid fits stays v = v
  Reaches-IsValid fits (call k c fs p e) v =
      rw e (after-IsValid c fs _ (fits c p) (Reaches-IsValid fits k v))

  -- A computation that calls the outbox only so.
  pub record Calling {ℓ} {A : Type ℓ} (m : Sql A) : Type ℓ where
    pub reach : (fs : Faults) (d : Store) → Reaches P d (store_of (m fs d))

-- The calls that admit no event.
abbrev pub Serving : Call → Type 0
Serving (inserts rec wall) = ⊥
Serving _ = Unit

pub Serving-InRange : (c : Call) → Serving c → InRange c
Serving-InRange (inserts rec wall) p = elim p [ ]
Serving-InRange (claims now id) p = tt
Serving-InRange (acks now id) p = tt
Serving-InRange (retries now id next error) p = tt
Serving-InRange (kills now id error) p = tt
Serving-InRange (revives due now id) p = tt
Serving-InRange (requeues due now) p = tt
Serving-InRange (expires now ttl) p = tt

-- The calls that neither admit an event nor acknowledge one.
abbrev pub Settling : Call → Type 0
Settling (inserts rec wall) = ⊥
Settling (acks now id) = ⊥
Settling _ = Unit

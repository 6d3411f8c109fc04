-- ===== src/Outbox/History/Fixed.antt =====
-- What no call changes in a store: its limits, whether it is open, and the retired calls.
use mod_event_kafka.Common.{ℕ, String, ◌≡◌, refl, ◌∙◌, Bool, Option, List, if_cases}
use mod_event_kafka.Outbox.Schema.{OutboxRecord, Row, CallStream, Store, is_ungrouped}
use mod_event_kafka.Outbox.Engine.{Faults}
use mod_event_kafka.Outbox.Admission.{create_stream, raise_admit, reclaim_expired, over_capacity}
use mod_event_kafka.Outbox.Admission.Effects.{
  room, Opened, found, created, ordered, Assigned, loose, in_call,
}
use mod_event_kafka.Outbox.Transitions.{advance, promote, delete_row, claim_row, tick, serve}
use mod_event_kafka.Outbox.Transitions.Effects.{acked}
use mod_event_kafka.Outbox.History.{Call, after}
use mod_event_kafka.Outbox.History.Effects.{
  Effect, idle, restated, claimed, settled, admitted, after-Effect,
}

module _ {ℓ} {A : Type ℓ} (g : Store → A)
    (same : (d : Store) (rows : List Row) (ss : List CallStream) (n : ℕ)
      → g (record d { rows = rows; streams = ss; turn = n }) ≡ g d) where
  pub room-fixed : (rec : OutboxRecord) (d : Store) → g (room rec d) ≡ g d
  unfolding room reclaim_expired
  room-fixed rec d =
      if_cases {A = Store} (λ x. g x ≡ g d) (over_capacity rec d) (λ _. same d _ _ _) (λ _. refl)

  Opened-fixed :
      (rec : OutboxRecord) (d d1 : Store) (s : CallStream) → Opened rec d s d1 → g d1 ≡ g d
  unfolding create_stream
  Opened-fixed rec d _ s (found _ e key mode) = refl
  Opened-fixed rec d _ _ (created e small) = same d _ _ _

  raise-fixed : (rec : OutboxRecord) (n : ℕ) (d : Store) → g (raise_admit rec n d) ≡ g d
  unfolding raise_admit
  raise-fixed rec n d = same d _ _ _

  pub Assigned-fixed :
      (rec : OutboxRecord) (d : Store) (q : Option ℕ) (b : Bool) (d1 : Store)
      → Assigned rec d q b d1
      → g d1 ≡ g d
  Assigned-fixed rec d _ _ _ (loose e) = refl
  Assigned-fixed rec d _ _ _ (in_call e k (ordered s d1 o chosen next small h)) =
      rw h (raise-fixed rec _ d1 ∙ Opened-fixed rec d d1 s o)

  pub acked-fixed : (now : ℕ) (id : String) (r : Row) (d : Store) → g (acked now id r d) ≡ g d
  unfolding acked delete_row promote advance
  acked-fixed now id r d =
      if_cases {A = Store} (λ x. g x ≡ g d) (is_ungrouped r) (λ _. same d _ _ _) (λ _. same d _ _ _)

  Effect-fixed :
      {d d' : Store} {o : Option Row} {x : Option OutboxRecord} → Effect d o x d' → g d' ≡ g d
  unfolding claim_row tick serve
  Effect-fixed idle = refl
  Effect-fixed {d} (restated p f k e) = rw e (same d _ _ _)
  Effect-fixed {d} (claimed now id small e) = rw e (same d _ _ _)
  Effect-fixed {d} (settled now id r hit e) = rw e (acked-fixed now id r d)
  Effect-fixed {d} (admitted rec wall a ad) =
      rw ad.after
        (same ad.before _ _ _ ∙ Assigned-fixed rec (room rec d) _ _ _ ad.placed ∙ room-fixed rec d)

  pub after-fixed : (c : Call) (fs : Faults) (d : Store) → g (after c fs d) ≡ g d
  after-fixed c fs d = Effect-fixed (after-Effect c fs d)

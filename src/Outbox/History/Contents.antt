-- ===== src/Outbox/History/Contents.antt =====
-- What no call changes in a stored event: whatever holds of the rows by their identity, their place
-- and their payload goes on holding, and an admission adds a row of its record.
use mod_event_kafka.Common.{
  ℕ, ◌≡◌, refl, Bool, Option, some, List, All, All-append, All-update_where, All-delete_where,
  update_where, if_cases, String,
}
use mod_event_kafka.Outbox.Schema.{OutboxRecord, Row, Store, is_ungrouped}
use mod_event_kafka.Outbox.Engine.{Faults}
use mod_event_kafka.Outbox.Admission.{new_row, is_reclaimable, reclaim_expired, over_capacity}
use mod_event_kafka.Outbox.Admission.Effects.{room, Assigned-rows}
use mod_event_kafka.Outbox.Transitions.{
  has_id, is_claimable, claim, claim_row, tick, serve, is_successor, advance, promote, delete_row,
}
use mod_event_kafka.Outbox.Transitions.Effects.{acked}
use mod_event_kafka.Outbox.History.{Call, after, accepted}
use mod_event_kafka.Outbox.History.Effects.{
  KeepsPlace, in_place, Effect, idle, restated, claimed, settled, admitted, after-Effect,
}

module _ (P : Row → Type 0)
    (kept : (f : Row → Row) → KeepsPlace f → (r : Row) → P r → P (f r)) where
  update-rows :
      (p : Row → Bool) (f : Row → Row)
      → KeepsPlace f
      → (rows : List Row) → All P rows
      → All P (update_where p f rows)
  update-rows p f k rows h = All-update_where P p f rows (λ r _. kept f k r) h

  room-rows : (rec : OutboxRecord) (d : Store) → All P d.rows → All P (room rec d).rows
  unfolding room reclaim_expired
  room-rows rec d h =
      if_cases (λ (x : Store). All P x.rows) (over_capacity rec d)
        (λ _. All-delete_where P is_reclaimable d.rows h) (λ _. h)

  acked-rows :
      (now : ℕ) (id : String) (r : Row) (d : Store) → All P d.rows → All P (acked now id r d).rows
  unfolding acked delete_row promote advance
  acked-rows now id r d h =
      if_cases (λ (x : Store). All P x.rows) (is_ungrouped r)
        (λ _. All-delete_where P (has_id id) d.rows h)
        (λ _. All-delete_where P (has_id id) _ (
          update-rows (is_successor r) (λ x. record x { eligible_at_ms = some now })
            (in_place (λ x. (refl, refl, refl, refl, refl, refl))) d.rows h))

  Effect-rows :
      {d d' : Store} {o : Option Row} {x : Option OutboxRecord}
      → Effect d o x d'
      → ((rec : OutboxRecord) (wall : ℕ) (seq : Option ℕ) (is_next : Bool)
          → x ≡ some rec
          → P (new_row rec wall seq is_next))
      → All P d.rows
      → All P d'.rows
  unfolding claim_row tick serve
  Effect-rows idle new h = h
  Effect-rows {d} (restated p f k e) new h = rw e (update-rows p f k d.rows h)
  Effect-rows {d} (claimed now id small e) new h = rw e (
      update-rows (is_claimable id d.streams) (claim now)
        (in_place (λ x. (refl, refl, refl, refl, refl, refl))) d.rows h)
  Effect-rows {d} (settled now id r found e) new h = rw e (acked-rows now id r d h)
  Effect-rows {d} (admitted rec wall a ad) new h =
      rw (ad.after, Assigned-rows rec (room rec d) _ _ _ ad.placed)
        (All-append P (room rec d).rows _ (room-rows rec d h)
          (new rec wall ad.seq ad.is_next refl, tt))

  -- A call keeps what holds of all rows, if it holds of the row of the record that it accepts.
  pub after-rows :
      (c : Call) (fs : Faults) (d : Store)
      → ((rec : OutboxRecord) (wall : ℕ) (seq : Option ℕ) (is_next : Bool)
          → accepted c fs d ≡ some rec
          → P (new_row rec wall seq is_next))
      → All P d.rows
      → All P (after c fs d).rows
  after-rows c fs d new h = Effect-rows (after-Effect c fs d) new h

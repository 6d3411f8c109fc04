-- ===== src/Outbox/Reach/Flying.antt =====
-- An event in flight: what mark_in_flight brings about, and what an admission leaves.
use mod_event_kafka.Common.{
  ℕ, String, ◌≡◌, refl, Bool, true, false, List, [], ◌∷◌, ◌++◌, arith, ℤ, if_cases, any_where,
  update_where, delete_where, count_where, &&_parts,
}
use mod_event_kafka.Outbox.Schema.{
  OutboxState, pending, Row, CallStream, Store, OutboxRecord, in_flight, dead, state_eq,
}
use mod_event_kafka.Outbox.Engine.{Faults, done}
use mod_event_kafka.Outbox.Admission.{insert_pending, is_reclaimable, reclaim_expired}
use mod_event_kafka.Outbox.Admission.Effects.{Assigned-rows, insert_pending-done, room}
use mod_event_kafka.Outbox.Transitions.{
  has_id, is_in_flight, is_claimable, claim, claim_row, tick, serve, mark_in_flight,
}
use mod_event_kafka.Outbox.Transitions.Effects.{mark_in_flight-done}

-- Whether the event is in flight.
unfoldable pub is_flying : String → Store → Bool
unfolding is_in_flight
is_flying id d = any_where (is_in_flight id) d.rows

any_where-append {ℓ} :
    {A : Type ℓ} (p : A → Bool) (xs ys : List A)
    → any_where p xs ≡ true
    → any_where p (xs ++ ys) ≡ true
any_where-append p [] ys h = cc
any_where-append p (x ∷ xs) ys h = ground (arith, any_where-append p xs ys)

any_where-delete_where {ℓ} :
    {A : Type ℓ} (p q : A → Bool) (xs : List A)
    → ((x : A) → p x ≡ true → q x ≡ false)
    → any_where p xs ≡ true
    → any_where p (delete_where q xs) ≡ true
any_where-delete_where p q [] k h = cc
any_where-delete_where p q (x ∷ xs) k h = ground (arith, k x, any_where-delete_where p q xs k)

any_where-update_where {ℓ} :
    {A : Type ℓ} (p q : A → Bool) (f : A → A) (xs : List A)
    → ((x : A) → q x ≡ true → p (f x) ≡ true)
    → count_where q xs ≡ 1
    → any_where p (update_where q f xs) ≡ true
any_where-update_where p q f [] k h = absurd (omega arith)
any_where-update_where p q f (x ∷ xs) k h = ground (arith, k x, any_where-update_where p q f xs k)

not_dead : (st : OutboxState) → state_eq st in_flight ≡ true → state_eq st dead ≡ false
not_dead pending h = cc
not_dead in_flight h = refl
not_dead dead h = cc

flying-stays : (id : String) (x : Row) → is_in_flight id x ≡ true → is_reclaimable x ≡ false
unfolding is_in_flight
flying-stays id x h = let (named, flying) = &&_parts _ _ h in rw (not_dead x.state flying) refl

claim-flies :
    (now : ℕ) (id : String) (ss : List CallStream) (x : Row)
    → is_claimable id ss x ≡ true
    → is_in_flight id (claim now x) ≡ true
unfolding is_in_flight is_claimable has_id
claim-flies now id ss x h = ground arith

-- A claim that returns has put its event in flight.
pub mark_in_flight-is_flying :
    (now : ℕ) (id : String) (fs : Faults) (d : Store) (fs' : Faults) (d' : Store)
    → mark_in_flight now id fs d ≡ done tt fs' d'
    → is_flying id d' ≡ true
unfolding is_flying claim_row tick serve
mark_in_flight-is_flying now id fs d fs' d' h =
    let (one, turn, after) = mark_in_flight-done now id fs d fs' d' h in
    rw after (
      any_where-update_where (is_in_flight id) (is_claimable id d.streams) (claim now) d.rows
        (claim-flies now id d.streams) one)

room-is_flying :
    (id : String) (rec : OutboxRecord) (d : Store)
    → is_flying id d ≡ true
    → is_flying id (room rec d) ≡ true
unfolding is_flying room reclaim_expired
room-is_flying id rec d h =
    if_cases (λ (x : Store). is_flying id x ≡ true) _
      (λ _. any_where-delete_where (is_in_flight id) is_reclaimable d.rows (flying-stays id) h)
      (λ _. h)

-- An admission leaves an event in flight.
pub insert_pending-is_flying :
    (id : String) (rec : OutboxRecord) (wall : ℕ) (fs : Faults) (d : Store) (a : ℤ) (fs' : Faults)
    (d' : Store)
    → insert_pending rec wall fs d ≡ done a fs' d'
    → is_flying id d ≡ true
    → is_flying id d' ≡ true
unfolding is_flying
insert_pending-is_flying id rec wall fs d a fs' d' h flying =
    let ad = insert_pending-done rec wall fs d a fs' d' h in
    let rows : ad.before.rows ≡ (room rec d).rows =
      Assigned-rows rec (room rec d) _ _ _ ad.placed in
    rw (ad.after, rows)
      (any_where-append (is_in_flight id) (room rec d).rows _ (room-is_flying id rec d flying))

-- ===== src/Outbox/History/Effects.antt =====
-- What one call of a history does to the store, on every path.
use mod_event_kafka.Common.{
  ℕ, ◌<◌, String, ◌≡◌, refl, sym, inl, inr, Bool, Option, none, some, List, ◌==◌, if_cases,
  first_where, update_where, count_where, ℤ, pos_part,
}
use mod_event_kafka.Outbox.Schema.{
  in_flight, OutboxRecord, Row, CallStream, Store, int64_max, state_eq,
}
use mod_event_kafka.Outbox.Engine.{
  Faults, Outcome, done, thrown, Sql, ◌>>=◌, raise, skip, reply, continue, store_of,
}
use mod_event_kafka.Outbox.Engine.Rules.{transaction_cases, statement_rule}
use mod_event_kafka.Outbox.Admission.{insert_pending, insert_body}
use mod_event_kafka.Outbox.Admission.Effects.{Admitted, insert_pending-done}
use mod_event_kafka.Outbox.Transitions.{
  require_one, claim_row, tick, serve, claim_body, mark_in_flight, is_in_flight, ack_body,
  mark_acked, update_rows, back_off, mark_retry, is_live_id, bury, mark_dead, is_dead, revive,
  retry_dead, requeue, requeue_in_flight, is_expired, expire, expire_ttl,
}
use mod_event_kafka.Outbox.Transitions.Effects.{mark_in_flight-done, mark_acked-done, acked}
use mod_event_kafka.Outbox.History.{
  Call, inserts, claims, acks, retries, kills, revives, requeues, expires, after, acknowledged,
  accepted, when_done,
}

-- A change of a row that keeps its identity, its place and its payload.
pub record KeepsPlace (f : Row → Row) : Type 0 where
  pub event_id : (r : Row) → (f r).event_id ≡ r.event_id
  pub topic : (r : Row) → (f r).topic ≡ r.topic
  pub call_uuid : (r : Row) → (f r).call_uuid ≡ r.call_uuid
  pub call_seq : (r : Row) → (f r).call_seq ≡ r.call_seq
  pub payload : (r : Row) → (f r).payload ≡ r.payload
  pub msg_key : (r : Row) → (f r).msg_key ≡ r.msg_key

-- The store before, the row acknowledged, the record accepted, the store after.
pub data Effect (d : Store) : Option Row → Option OutboxRecord → Store → Type 0 where
  idle : Effect d none none d
  restated :
      {d' : Store} (p : Row → Bool) (f : Row → Row)
      → KeepsPlace f
      → d' ≡ record d { rows = update_where p f d.rows }
      → Effect d none none d'
  claimed :
      {d' : Store} (now : ℕ) (id : String)
      → d.turn < int64_max
      → d' ≡ serve id (tick (claim_row now id d))
      → Effect d none none d'
  settled :
      {d' : Store} (now : ℕ) (id : String) (r : Row)
      → first_where (is_in_flight id) d.rows ≡ some r
      → d' ≡ acked now id r d
      → Effect d (some r) none d'
  admitted :
      {d' : Store} (rec : OutboxRecord) (wall : ℕ) (a : ℤ)
      → Admitted rec wall d a d'
      → Effect d none (some rec) d'

module _ (p : List CallStream → Row → Bool) (f : Row → Row) (keeps : KeepsPlace f) where
  update-Effect : (fs : Faults) (d : Store) → Effect d none none (store_of (update_rows p f fs d))
  unfolding update_rows
  update-Effect fs d =
      statement_rule (Effect d none none)
        (λ x.
          reply (count_where (p x.streams) x.rows)
            (record x { rows = update_where (p x.streams) f x.rows }))
        fs d idle
        (λ n d' h.
          let same : record d { rows = update_where (p d.streams) f d.rows } ≡ d' = cc in
          restated (p d.streams) f keeps (sym same))

  checked-Effect :
      (e : String) (fs : Faults) (d : Store)
      → Effect d none none (store_of (◌>>=◌ (update_rows p f) (λ n. require_one n e) fs d))
  unfolding ◌>>=◌ require_one raise skip
  checked-Effect e fs d = go (update_rows p f fs d) (update-Effect fs d)
    where
      go :
          (o : Outcome ℕ)
          → Effect d none none (store_of o)
          → Effect d none none (store_of (continue o (λ n. require_one n e)))
      go (done n fs1 d1) k =
          if_cases {A = Sql (Unit {0})} (λ m. Effect d none none (store_of (m fs1 d1))) (n == 1)
            (λ _. k) (λ _. k)
      go (thrown x fs1 d1) k = k

  quiet-Effect :
      (fs : Faults) (d : Store)
      → Effect d none none (store_of (◌>>=◌ (update_rows p f) (λ n. skip) fs d))
  unfolding ◌>>=◌ skip
  quiet-Effect fs d = go (update_rows p f fs d) (update-Effect fs d)
    where
      go :
          (o : Outcome ℕ)
          → Effect d none none (store_of o)
          → Effect d none none (store_of (continue o (λ n. skip)))
      go (done n fs1 d1) k = k
      go (thrown x fs1 d1) k = k

-- The six columns one by one.
pub in_place :
    {f : Row → Row}
    → ((r : Row)
        → ((f r).event_id ≡ r.event_id)
          × ((f r).topic ≡ r.topic)
          × ((f r).call_uuid ≡ r.call_uuid)
          × ((f r).call_seq ≡ r.call_seq)
          × ((f r).payload ≡ r.payload)
          × ((f r).msg_key ≡ r.msg_key))
    → KeepsPlace f
in_place h = record {
  event_id = λ r. (h r).0;
  topic = λ r. (h r).1;
  call_uuid = λ r. (h r).2;
  call_seq = λ r. (h r).3;
  payload = λ r. (h r).4;
  msg_key = λ r. (h r).5;
}

module _ (fs : Faults) (d : Store) where
  insert-Effect :
      (rec : OutboxRecord) (wall : ℕ)
      → Effect d none
          (when_done (insert_pending rec wall fs d) (some rec))
          (store_of (insert_pending rec wall fs d))
  unfolding insert_pending
  insert-Effect rec wall = elim (transaction_cases (insert_body rec wall) fs d) [
    | inl (a, fs', d', e) ↦
        rw e (admitted rec wall a (insert_pending-done rec wall fs d a fs' d' e))
    | inr (x, fs', e) ↦ rw e idle
  ]

  claim-Effect :
      (now : ℕ) (id : String) → Effect d none none (store_of (mark_in_flight now id fs d))
  unfolding mark_in_flight
  claim-Effect now id = elim (transaction_cases (claim_body now id) fs d) [
    | inl (a, fs', d', e) ↦
        let (_, small, s) = mark_in_flight-done now id fs d fs' d' e in
        rw e (claimed now id small s)
    | inr (x, fs', e) ↦ rw e idle
  ]

  ack-Effect :
      (now : ℕ) (id : String)
      → Effect d
          (when_done (mark_acked now id fs d) (first_where (is_in_flight id) d.rows))
          none
          (store_of (mark_acked now id fs d))
  unfolding mark_acked
  ack-Effect now id = elim (transaction_cases (ack_body now id) fs d) [
    | inl (a, fs', d', e) ↦
        let (r, found, _, s) = mark_acked-done now id fs d fs' d' e in
        rw (e, found) (settled now id r found s)
    | inr (x, fs', e) ↦ rw e idle
  ]

-- Every call, whether it returns or throws, has one of the five effects.
pub after-Effect :
    (c : Call) (fs : Faults) (d : Store)
    → Effect d (acknowledged c fs d) (accepted c fs d) (after c fs d)
unfolding after acknowledged accepted mark_retry mark_dead retry_dead requeue_in_flight expire_ttl
after-Effect (inserts rec wall) fs d = insert-Effect fs d rec wall
after-Effect (claims now id) fs d = claim-Effect fs d now id
after-Effect (acks now id) fs d = ack-Effect fs d now id
after-Effect (retries now id next error) fs d =
    checked-Effect (λ _. is_in_flight id) (back_off next error now)
      (in_place (λ r. (refl, refl, refl, refl, refl, refl))) _ fs d
after-Effect (kills now id error) fs d =
    checked-Effect (λ _. is_live_id id) (bury error now)
      (in_place (λ r. (refl, refl, refl, refl, refl, refl))) _ fs d
after-Effect (revives due now id) fs d =
    checked-Effect (λ _. is_dead id) (revive due now)
      (in_place (λ r. (refl, refl, refl, refl, refl, refl))) _ fs d
after-Effect (requeues due now) fs d =
    quiet-Effect (λ _ r. state_eq r.state in_flight) (requeue due now)
      (in_place (λ r. (refl, refl, refl, refl, refl, refl))) fs d
after-Effect (expires now ttl) fs d =
    if_cases {A = Sql ℕ} (λ m. Effect d none none (store_of (m fs d))) (pos_part ttl == 0)
      (λ _. idle)
      (λ _.
        update-Effect (is_expired now (pos_part ttl)) (expire now)
          (in_place (λ r. (refl, refl, refl, refl, refl, refl))) fs d)

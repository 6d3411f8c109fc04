-- ===== src/Outbox/Laws/Atomicity.antt =====
-- A call that reports an error has changed nothing.
use mod_event_kafka.Common.{
  ℕ, ◌≤◌, String, ◌≡◌, refl, ap, ◌∙◌, ◌≢◌, ◌⊎◌, inl, inr, Bool, true, false, ◌&&◌, none, some, List,
  [], ◌∷◌, arith, ◌==◌, if◌then◌else◌, if_cases, update_where, count_where, update_where_none,
  text_eq_iff, text_eq_self, pos_part,
}
use mod_event_kafka.Outbox.Schema.{in_flight, dead, Row, CallStream, Store, state_eq}
use mod_event_kafka.Outbox.Engine.{
  Faults, Outcome, done, thrown, Sql, ◌>>=◌, return, skip, Reply, reply, refused, deliver, attempt,
  statement, change_counted, transaction, continue, store_of,
}
use mod_event_kafka.Common.Tables.Keys.{count_where-le-one}
use mod_event_kafka.Outbox.Engine.Rules.{transaction_cases}
use mod_event_kafka.Outbox.Admission.{insert_pending, insert_body}
use mod_event_kafka.Outbox.Transitions.{
  has_id, require_one, claim_body, mark_in_flight, is_in_flight, ack_body, mark_acked, update_rows,
  back_off, mark_retry, is_live, is_live_id, bury, mark_dead, is_dead, revive, retry_dead, requeue,
  requeue_in_flight, is_expired, expire, expire_ttl,
}
use mod_event_kafka.Outbox.Invariant.{IsValid, DistinctId}
use mod_event_kafka.Outbox.History.{
  Call, inserts, claims, acks, retries, kills, revives, requeues, expires, after,
}

abbrev pub is_thrown {ℓ} : {A : Type ℓ} → Outcome A → Bool
is_thrown (done a fs d) = false
is_thrown (thrown e fs d) = true

-- Whether a call ends in an exception, which the source catches and reports.
unfoldable pub fails : Call → Faults → Store → Bool
fails (inserts rec wall) fs d = is_thrown (insert_pending rec wall fs d)
fails (claims now id) fs d = is_thrown (mark_in_flight now id fs d)
fails (acks now id) fs d = is_thrown (mark_acked now id fs d)
fails (retries now id next error) fs d = is_thrown (mark_retry now id next error fs d)
fails (kills now id error) fs d = is_thrown (mark_dead now id error fs d)
fails (revives due now id) fs d = is_thrown (retry_dead due now id fs d)
fails (requeues due now) fs d = is_thrown (requeue_in_flight due now fs d)
fails (expires now ttl) fs d = is_thrown (expire_ttl now ttl fs d)

deliver_cases {ℓ} :
    {A : Type ℓ} (r : Reply A) (fs : Faults) (d : Store)
    → ((a : A) × (fs' : Faults) × (d' : Store) × (r ≡ reply a d')
        × (deliver r fs d ≡ done a fs' d'))
      ⊎ ((e : String) × (fs' : Faults) × (deliver r fs d ≡ thrown e fs' d))
deliver_cases (reply a d') fs d = inl (a, fs, d', refl, refl)
deliver_cases (refused e) fs d = inr (e, fs, refl)

attempt_cases {ℓ} :
    {A : Type ℓ} (q : Store → Reply A) (fs : Faults) (d : Store)
    → ((a : A) × (fs' : Faults) × (d' : Store) × (q d ≡ reply a d')
        × (attempt q fs d ≡ done a fs' d'))
      ⊎ ((e : String) × (fs' : Faults) × (attempt q fs d ≡ thrown e fs' d))
attempt_cases q [] d = deliver_cases (q d) [] d
attempt_cases q (none ∷ fs) d = deliver_cases (q d) fs d
attempt_cases q (some e ∷ fs) d = inr (e, fs, refl)

gate_cases {ℓ} :
    {A : Type ℓ} (b : Bool) (q : Store → Reply A) (fs : Faults) (d : Store)
    → ((a : A) × (fs' : Faults) × (d' : Store) × (q d ≡ reply a d')
        × ((if b then attempt q fs d else thrown "db closed" fs d) ≡ done a fs' d'))
      ⊎ ((e : String) × (fs' : Faults) × ((if b then attempt q fs d else thrown "db closed" fs d)
            ≡ thrown e fs' d))
gate_cases true q fs d = attempt_cases q fs d
gate_cases false q fs d = inr ("db closed", fs, refl)

statement_cases {ℓ} :
    {A : Type ℓ} (q : Store → Reply A) (fs : Faults) (d : Store)
    → ((a : A) × (fs' : Faults) × (d' : Store) × (q d ≡ reply a d')
        × (statement q fs d ≡ done a fs' d'))
      ⊎ ((e : String) × (fs' : Faults) × (statement q fs d ≡ thrown e fs' d))
unfolding statement
statement_cases q fs d = gate_cases d.is_open q fs d

transaction-unchanged {ℓ} :
    {A : Type ℓ} (m : Sql A) (fs : Faults) (d : Store)
    → is_thrown (transaction m fs d) ≡ true
    → store_of (transaction m fs d) ≡ d
transaction-unchanged m fs d h = elim (transaction_cases m fs d) [
  | inl (a, fs', d', e) ↦ cc (rw e at h)
  | inr (x, fs', e) ↦ rw e refl
]

module _ (p : List CallStream → Row → Bool) (f : Row → Row) (fs : Faults) (d : Store) where
  updated : Store
  updated = record d { rows = update_where (p d.streams) f d.rows }

  update_rows_cases :
      ((fs' : Faults) × (update_rows p f fs d
          ≡ done (count_where (p d.streams) d.rows) fs' updated))
      ⊎ ((e : String) × (fs' : Faults) × (update_rows p f fs d ≡ thrown e fs' d))
  unfolding update_rows change_counted updated
  update_rows_cases =
      elim (statement_cases
        (λ x.
          reply (count_where (p x.streams) x.rows)
            (record x { rows = update_where (p x.streams) f x.rows }))
        fs d) [ inl (a, fs', d', e, k) ↦ inl (fs', cc) | inr t ↦ inr t ]

  updated_none : count_where (p d.streams) d.rows ≡ 0 → updated ≡ d
  unfolding updated
  updated_none h = ap (λ rs. record d { rows = rs }) (update_where_none (p d.streams) f d.rows h)

  require_one-thrown :
      (n : ℕ) (msg : String) (fs' : Faults) (d' : Store)
      → is_thrown (require_one n msg fs' d') ≡ true
      → n ≢ 1
  unfolding require_one
  require_one-thrown n msg fs' d' h e = cc (rw e at h)

  require_one-store :
      (n : ℕ) (msg : String) (fs' : Faults) (d' : Store) → store_of (require_one n msg fs' d') ≡ d'
  unfolding require_one
  require_one-store n msg fs' d' =
      if_cases {A = Sql (Unit {0})} (λ m. store_of (m fs' d') ≡ d') (n == 1) (λ e. refl) (λ e. refl)

  update_one-unchanged :
      (msg : String)
      → count_where (p d.streams) d.rows ≤ 1
      → is_thrown (◌>>=◌ (update_rows p f) (λ n. require_one n msg) fs d) ≡ true
      → store_of (◌>>=◌ (update_rows p f) (λ n. require_one n msg) fs d) ≡ d
  unfolding ◌>>=◌
  update_one-unchanged msg small h = elim update_rows_cases [
    | inl (fs', e) ↦
        let n = count_where (p d.streams) d.rows in
        let no = require_one-thrown n msg fs' updated (rw e at h) in
        rw e (require_one-store n msg fs' updated ∙ updated_none (ground arith))
    | inr (x, fs', e) ↦ rw e refl
  ]

  update_all-unchanged :
      is_thrown (update_rows p f fs d) ≡ true → store_of (update_rows p f fs d) ≡ d
  update_all-unchanged h = elim update_rows_cases [
    | inl (fs', e) ↦ cc (rw e at h)
    | inr (x, fs', e) ↦ rw e refl
  ]

skip-store :
    (m : Sql ℕ) (fs : Faults) (d : Store)
    → (is_thrown (m fs d) ≡ true → store_of (m fs d) ≡ d)
    → is_thrown (◌>>=◌ m (λ n. skip) fs d) ≡ true
    → store_of (◌>>=◌ m (λ n. skip) fs d) ≡ d
unfolding ◌>>=◌ skip
skip-store m fs d k h = go (m fs d) k h
  where
    go :
        (o : Outcome ℕ)
        → (is_thrown o ≡ true → store_of o ≡ d)
        → is_thrown (continue o (λ n. skip)) ≡ true
        → store_of (continue o (λ n. skip)) ≡ d
    go (done a fs' d') k h = cc
    go (thrown e fs' d') k h = k h

-- Two conditions on one event id hold of one row at most.
one_row :
    (id : String) (b : Row → Bool) (d : Store)
    → IsValid d
    → count_where (λ r. has_id id r && b r) d.rows ≤ 1
one_row id b d v =
    count_where-le-one DistinctId (λ r. has_id id r && b r) d.rows
      (λ x y e k n.
        ground (arith, text_eq_iff x.event_id id, text_eq_iff y.event_id id, text_eq_self id))
      v.ids

-- A call on a valid outbox that throws, at whichever statement, leaves the store as it was.
pub fails-unchanged :
    (c : Call) (fs : Faults) (d : Store) → IsValid d → fails c fs d ≡ true → after c fs d ≡ d
unfolding fails after insert_pending mark_in_flight mark_acked mark_retry mark_dead retry_dead
    requeue_in_flight expire_ttl return is_in_flight is_live_id is_dead
fails-unchanged (inserts rec wall) fs d v h = transaction-unchanged (insert_body rec wall) fs d h
fails-unchanged (claims now id) fs d v h = transaction-unchanged (claim_body now id) fs d h
fails-unchanged (acks now id) fs d v h = transaction-unchanged (ack_body now id) fs d h
fails-unchanged (retries now id next error) fs d v h =
    update_one-unchanged (λ _. is_in_flight id) (back_off next error now) fs d _
      (one_row id (λ r. state_eq r.state in_flight) d v) h
fails-unchanged (kills now id error) fs d v h =
    update_one-unchanged (λ _. is_live_id id) (bury error now) fs d _
      (one_row id (λ r. is_live r.state) d v) h
fails-unchanged (revives due now id) fs d v h =
    update_one-unchanged (λ _. is_dead id) (revive due now) fs d _
      (one_row id (λ r. state_eq r.state dead) d v) h
fails-unchanged (requeues due now) fs d v h =
    skip-store (update_rows _ _) fs d
      (update_all-unchanged (λ _ r. state_eq r.state in_flight) (requeue due now) fs d) h
fails-unchanged (expires now ttl) fs d v h =
    if_cases {A = Sql ℕ} (λ m. is_thrown (m fs d) ≡ true → store_of (m fs d) ≡ d)
      (pos_part ttl == 0) (λ e k. cc)
      (λ e k. update_all-unchanged (is_expired now (pos_part ttl)) (expire now) fs d k) h

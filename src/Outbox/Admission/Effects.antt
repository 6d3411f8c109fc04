-- ===== src/Outbox/Admission/Effects.antt =====
-- What an `insert_pending` that returns has done to the store, under any faults.
use mod_event_kafka.Common.{
  refl, ℕ, ◌≤◌, ◌<◌, ◌≡◌, ◌≢◌, ◌⊎◌, inl, inr, Bool, true, false, Option, none, some, [], ◌∷◌, ◌++◌,
  arith, ◌==◌, if◌then◌else◌, Bool-cases, length, any_where, is_empty, text_eq_iff, ℤ, pos, negsuc,
}
use mod_event_kafka.Outbox.Schema.{OutboxRecord, Row, CallStream, Store, int64_max, find_stream}
use mod_event_kafka.Outbox.Engine.{
  Faults, done, Sql, ◌>>=◌, ◌>>◌, return, raise, skip, reply, select, change,
}
use mod_event_kafka.Outbox.Engine.Steady.{
  Steady, Steady->>=, Steady->>, Steady-select, Steady-return, steady, transaction-calm,
  continue-calm, statement-done,
}
use mod_event_kafka.Outbox.Admission.{
  over_capacity, reclaim_expired, is_retired, refuse_retired, make_room, mode_of, continue_call,
  new_stream, create_stream, begin_call, find_or_begin, raise_admit, order_in_call, no_sequence,
  assign_sequence, new_row, conflicts, insert_row, assigned, insert_body, insert_pending,
}
use mod_event_kafka.Outbox.Admission.Calm.{
  Steady-refuse_retired, Steady-make_room, Steady-find_or_begin, Steady-assign_sequence,
  Steady-insert_row, Steady-insert_body,
}

unfoldable pub room : OutboxRecord → Store → Store
unfolding over_capacity reclaim_expired
room rec d = if over_capacity rec d then reclaim_expired d else d

-- How a sequence relates to what the caller asked for and to the call's cursor.
abbrev pub Chosen : ℤ → CallStream → ℕ → Type 0
Chosen (negsuc _) s n = n ≡ s.admit_seq
Chosen (pos m) s n = (n ≡ m) × (s.next_seq ≤ n)

-- The call's stream, which the admission found or created.
pub data Opened (rec : OutboxRecord) (d : Store) : CallStream → Store → Type 0 where
  found :
      (s : CallStream)
      → find_stream rec.topic rec.call_uuid d.streams ≡ some s
      → s.msg_key ≡ rec.msg_key
      → s.mode ≡ mode_of rec.call_seq
      → Opened rec d s d
  created :
      find_stream rec.topic rec.call_uuid d.streams ≡ none
      → length d.streams < d.max_rows
      → Opened rec d (new_stream rec) (create_stream rec d)

continue_call-done :
    (rec : OutboxRecord) (s : CallStream) (d : Store) (n : ℕ) (b : Bool) (d' : Store)
    → continue_call rec s [] d ≡ done (n, b) [] d'
    → (s.msg_key ≡ rec.msg_key)
      × (s.mode ≡ mode_of rec.call_seq)
      × Chosen rec.call_seq s n
      × (b ≡ (n == s.next_seq))
      × (d' ≡ d)
unfolding continue_call
continue_call-done rec s d n b d' h = ground (arith, text_eq_iff s.msg_key rec.msg_key)

begin_call-done :
    (rec : OutboxRecord) (d : Store) (n : ℕ) (b : Bool) (d' : Store)
    → begin_call rec [] d ≡ done (n, b) [] d'
    → (length d.streams < d.max_rows)
      × Chosen rec.call_seq (new_stream rec) n
      × (b ≡ (n == 0))
      × (d' ≡ create_stream rec d)
unfolding begin_call
begin_call-done rec d n b d' h = ground arith

-- An ordered admission gives the record a sequence of its call and raises the call's admission count.
pub data Ordered (rec : OutboxRecord) (d : Store) (n : ℕ) (b : Bool) (d' : Store) : Type 0 where
  ordered :
      (s : CallStream) (d1 : Store)
      → Opened rec d s d1
      → Chosen rec.call_seq s n
      → b ≡ (n == s.next_seq)
      → n ≢ int64_max
      → d' ≡ raise_admit rec n d1
      → Ordered rec d n b d'

find_or_begin-done :
    (rec : OutboxRecord) (d : Store) (o : Option CallStream) (n : ℕ) (b : Bool) (d1 d' : Store)
    → find_stream rec.topic rec.call_uuid d.streams ≡ o
    → find_or_begin rec o [] d ≡ done (n, b) [] d1
    → n ≢ int64_max
    → d' ≡ raise_admit rec n d1
    → Ordered rec d n b d'
unfolding find_or_begin
find_or_begin-done rec d (some s) n b d1 d' e h m k =
    let (key, mode, chosen, next, same) = continue_call-done rec s d n b d1 h in
    ordered s d (found s e key mode) chosen next m (rw same at k)
find_or_begin-done rec d none n b d1 d' e h m k =
    let (small, chosen, next, same) = begin_call-done rec d n b d1 h in
    ordered (new_stream rec) (create_stream rec d) (created e small) chosen next m (rw same at k)

-- The part of `order_in_call` behind the choice of the sequence.
abbrev record_admit : OutboxRecord → ℕ × Bool → Sql (Option ℕ × Bool)
record_admit rec p = do
  if p.0 == int64_max then raise "source sequence out of range" else skip
  change (raise_admit rec p.0)
  return (some p.0, p.1)

Steady-record_admit : (rec : OutboxRecord) (p : ℕ × Bool) → Steady (record_admit rec p)
Steady-record_admit rec p = search steady depth 9

record_admit-done :
    (rec : OutboxRecord) (p : ℕ × Bool) (d : Store) (q : Option ℕ) (b : Bool) (d' : Store)
    → record_admit rec p [] d ≡ done (q, b) [] d'
    → (p.0 ≢ int64_max) × (q ≡ some p.0) × (b ≡ p.1) × (d' ≡ raise_admit rec p.0 d)
unfolding order_in_call
record_admit-done rec p d q b d' h = ground arith

order_in_call-done :
    (rec : OutboxRecord) (d : Store) (q : Option ℕ) (b : Bool) (d' : Store)
    → order_in_call rec [] d ≡ done (q, b) [] d'
    → (n : ℕ) × (q ≡ some n) × Ordered rec d n b d'
unfolding order_in_call
order_in_call-done rec d q b d' h =
    let (o, d1, e1, k1) =
      continue-calm (select (λ x. find_stream rec.topic rec.call_uuid x.streams))
        (λ o. find_or_begin rec o >>= record_admit rec) d (q, b) d' (Steady-select _)
        (λ o. Steady->>= _ _ (Steady-find_or_begin rec o) (Steady-record_admit rec)) h in
    let (p, d2, e2, k2) =
      continue-calm (find_or_begin rec o) (record_admit rec) d1 (q, b) d'
        (Steady-find_or_begin rec o) (Steady-record_admit rec) k1 in
    let read =
      statement-done (λ x. reply (find_stream rec.topic rec.call_uuid x.streams) x) [] d o [] d1
        e1 in
    let (small, sq, sb, sd) = record_admit-done rec p d2 q b d' k2 in
    let same : d1 ≡ d = cc read.1 in
    let hit : find_stream rec.topic rec.call_uuid d.streams ≡ o = cc read.1 in
    let chosen : find_or_begin rec o [] d ≡ done (p.0, b) [] d2 = rw (sb, ← same) e2 in
    (p.0, sq, find_or_begin-done rec d o p.0 b d2 d' hit chosen small sd)

-- The column `call_seq` and the mark `deliverable_now` of the new row, and the store before INSERT.
pub data Assigned (rec : OutboxRecord) (d : Store) : Option ℕ → Bool → Store → Type 0 where
  loose : is_empty rec.call_uuid ≡ true → Assigned rec d none true d
  in_call :
      {n : ℕ} {b : Bool} {d' : Store}
      → is_empty rec.call_uuid ≡ false
      → is_empty rec.msg_key ≡ false
      → Ordered rec d n b d'
      → Assigned rec d (some n) b d'

no_sequence-done :
    (z : ℤ) (d : Store) (q : Option ℕ) (b : Bool) (d' : Store)
    → no_sequence z [] d ≡ done (q, b) [] d'
    → (q ≡ none) × (b ≡ true) × (d' ≡ d)
unfolding assign_sequence
no_sequence-done (negsuc n) d q b d' h = ground arith
no_sequence-done (pos n) d q b d' h = cc

assign_sequence-done :
    (rec : OutboxRecord) (d : Store) (q : Option ℕ) (b : Bool) (d' : Store)
    → assign_sequence rec [] d ≡ done (q, b) [] d'
    → Assigned rec d q b d'
unfolding assign_sequence
assign_sequence-done rec d q b d' h = elim (Bool-cases (is_empty rec.call_uuid)) [
  | inl e ↦
      let (sq, sb, sd) = no_sequence-done rec.call_seq d q b d' (rw e at h) in
      rw (sq, sb, sd) (loose e)
  | inr e ↦ elim (Bool-cases (is_empty rec.msg_key)) [
    | inl k ↦ cc (rw (e, k) at h)
    | inr k ↦
        let (n, sq, o) = order_in_call-done rec d q b d' (rw (e, k) at h) in rw sq (in_call e k o)
  ]
]

refuse_retired-done :
    (rec : OutboxRecord) (d d' : Store)
    → refuse_retired rec [] d ≡ done tt [] d'
    → (d' ≡ d) × ((is_empty rec.call_uuid ≡ true) ⊎ (is_retired rec d ≡ false))
unfolding refuse_retired
refuse_retired-done rec d d' h = ground arith

make_room-done :
    (rec : OutboxRecord) (d d' : Store)
    → make_room rec [] d ≡ done tt [] d'
    → (d' ≡ room rec d) × (over_capacity rec (room rec d) ≡ false)
unfolding make_room room
make_room-done rec d d' h = ground arith

-- Everything that an admission which returns has checked and done.
pub record Admitted (rec : OutboxRecord) (wall : ℕ) (d : Store) (a : ℤ) (d' : Store) : Type 0 where
  pub seq : Option ℕ
  pub is_next : Bool
  pub before : Store
  pub active : (is_empty rec.call_uuid ≡ true) ⊎ (is_retired rec d ≡ false)
  pub fits : over_capacity rec (room rec d) ≡ false
  pub placed : Assigned rec (room rec d) seq is_next before
  pub fresh : any_where (conflicts (new_row rec wall seq is_next)) before.rows ≡ false
  pub answer : a ≡ assigned seq
  pub after : d' ≡ record before { rows = before.rows ++ new_row rec wall seq is_next ∷ [] }

abbrev insert_with : OutboxRecord → ℕ → Option ℕ × Bool → Sql ℤ
insert_with rec wall p = do insert_row (new_row rec wall p.0 p.1); return (assigned p.0)

Steady-insert_with :
    (rec : OutboxRecord) (wall : ℕ) (p : Option ℕ × Bool) → Steady (insert_with rec wall p)
Steady-insert_with rec wall p =
    Steady->> _ _ (Steady-insert_row (new_row rec wall p.0 p.1)) (Steady-return _)

insert_then-done :
    (r : Row) (x : ℤ) (d : Store) (a : ℤ) (d' : Store)
    → ◌>>◌ (insert_row r) (return x) [] d ≡ done a [] d'
    → (any_where (conflicts r) d.rows ≡ false)
      × (a ≡ x)
      × (d' ≡ record d { rows = d.rows ++ r ∷ [] })
unfolding insert_row ◌>>◌ return
insert_then-done r x d a d' h = ground arith

insert_with-done :
    (rec : OutboxRecord) (wall : ℕ) (p : Option ℕ × Bool) (d : Store) (a : ℤ) (d' : Store)
    → insert_with rec wall p [] d ≡ done a [] d'
    → (any_where (conflicts (new_row rec wall p.0 p.1)) d.rows ≡ false)
      × (a ≡ assigned p.0)
      × (d' ≡ record d { rows = d.rows ++ new_row rec wall p.0 p.1 ∷ [] })
insert_with-done rec wall p d a d' h =
    insert_then-done (new_row rec wall p.0 p.1) (assigned p.0) d a d' h

insert_body-done :
    (rec : OutboxRecord) (wall : ℕ) (d : Store) (a : ℤ) (d' : Store)
    → insert_body rec wall [] d ≡ done a [] d'
    → Admitted rec wall d a d'
unfolding insert_body
insert_body-done rec wall d a d' h =
    let last = Steady-insert_with rec wall in
    let rest = Steady->>= (assign_sequence rec) _ (Steady-assign_sequence rec) last in
    let (u, d1, e1, k1) =
      continue-calm (refuse_retired rec) _ d a d' (Steady-refuse_retired rec)
        (λ _. Steady->> _ _ (Steady-make_room rec) rest) h in
    let (v, d2, e2, k2) =
      continue-calm (make_room rec) _ d1 a d' (Steady-make_room rec) (λ _. rest) k1 in
    let (p, d3, e3, k3) =
      continue-calm (assign_sequence rec) _ d2 a d' (Steady-assign_sequence rec) last k2 in
    let (same, active) = refuse_retired-done rec d d1 e1 in
    let (roomy, fits) = make_room-done rec d1 d2 e2 in
    let (fresh, answer, after) = insert_with-done rec wall p d3 a d' k3 in
    let there_room : d2 ≡ room rec d = rw (← same) roomy in
    record {
      seq = p.0;
      is_next = p.1;
      before = d3;
      active = active;
      fits = rw (← same) fits;
      placed = rw (← there_room) (assign_sequence-done rec d2 p.0 p.1 d3 e3);
      fresh = fresh;
      answer = answer;
      after = after;
    }

pub insert_pending-done :
    (rec : OutboxRecord) (wall : ℕ) (fs : Faults) (d : Store) (a : ℤ) (fs' : Faults) (d' : Store)
    → insert_pending rec wall fs d ≡ done a fs' d'
    → Admitted rec wall d a d'
unfolding insert_pending
insert_pending-done rec wall fs d a fs' d' h =
    insert_body-done rec wall d a d'
      (transaction-calm (insert_body rec wall) fs d a fs' d' (Steady-insert_body rec wall) h)

Opened-rows :
    (rec : OutboxRecord) (d : Store) (s : CallStream) (d1 : Store)
    → Opened rec d s d1
    → d1.rows ≡ d.rows
unfolding create_stream
Opened-rows rec d _ _ (found s f key mode) = refl
Opened-rows rec d _ _ (created f small) = refl

pub Assigned-rows :
    (rec : OutboxRecord) (d : Store) (q : Option ℕ) (b : Bool) (d1 : Store)
    → Assigned rec d q b d1
    → d1.rows ≡ d.rows
unfolding raise_admit
Assigned-rows rec d _ _ _ (loose e) = refl
Assigned-rows rec d _ _ _ (in_call e k (ordered s d1 o c next m same)) =
    rw same (Opened-rows rec d s d1 o)

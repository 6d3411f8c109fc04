-- ===== src/Outbox/Laws/Capacity.antt =====
-- The limits on rows and bytes.
use mod_event_kafka.Common.{
  ℕ, ◌+◌, ◌≤◌, ◌<◌, len, ◌≡◌, refl, Bool, false, Option, List, [], ◌∷◌, ◌++◌, arith, if_cases,
  length, length-append, sum_of, ℤ,
}
use mod_event_kafka.Outbox.Schema.{OutboxRecord, CallStream, Store}
use mod_event_kafka.Outbox.Engine.{Faults, done}
use mod_event_kafka.Outbox.Admission.{
  payload_bytes, over_capacity, reclaim_expired, create_stream, raise_admit, new_row,
  insert_pending,
}
use mod_event_kafka.Outbox.Admission.Effects.{
  room, Opened, found, created, ordered, Assigned, loose, in_call, insert_pending-done,
}

sum_of-append {ℓ} :
    {A : Type ℓ} (f : A → ℕ) (xs ys : List A) → sum_of f (xs ++ ys) ≡ sum_of f xs + sum_of f ys
sum_of-append f [] ys = omega arith
sum_of-append f (x ∷ xs) ys = omega (arith, sum_of-append f xs ys)

-- What an admission keeps of the store: its limits, and the rows until the INSERT.
record Keeps (d d' : Store) : Type 0 where
  max_rows : d'.max_rows ≡ d.max_rows
  max_bytes : d'.max_bytes ≡ d.max_bytes
  rows : d'.rows ≡ d.rows

Opened-Keeps :
    (rec : OutboxRecord) (d : Store) (s : CallStream) (d1 : Store) → Opened rec d s d1 → Keeps d d1
unfolding create_stream
Opened-Keeps rec d _ _ (found s f key mode) = record {
  max_rows = refl;
  max_bytes = refl;
  rows = refl;
}
Opened-Keeps rec d _ _ (created f small) = record { max_rows = refl; max_bytes = refl; rows = refl }

Assigned-Keeps :
    (rec : OutboxRecord) (d : Store) (q : Option ℕ) (b : Bool) (d1 : Store)
    → Assigned rec d q b d1
    → Keeps d d1
unfolding raise_admit
Assigned-Keeps rec d _ _ _ (loose e) = record { max_rows = refl; max_bytes = refl; rows = refl }
Assigned-Keeps rec d _ _ _ (in_call e k (ordered s d1 o c next m same)) =
    let kept = Opened-Keeps rec d s d1 o in
    rw same (record { max_rows = kept.max_rows; max_bytes = kept.max_bytes; rows = kept.rows })

room-limits :
    (rec : OutboxRecord) (d : Store)
    → ((room rec d).max_rows ≡ d.max_rows) × ((room rec d).max_bytes ≡ d.max_bytes)
unfolding room reclaim_expired
room-limits rec d =
    if_cases {A = Store} (λ x. (x.max_rows ≡ d.max_rows) × (x.max_bytes ≡ d.max_bytes))
      (over_capacity rec d) (λ e. (refl, refl)) (λ e. (refl, refl))

not_over :
    (rec : OutboxRecord) (d : Store)
    → over_capacity rec d ≡ false
    → (length d.rows < d.max_rows) × (payload_bytes d.rows + len rec.payload ≤ d.max_bytes)
unfolding over_capacity
not_over rec d h = ground arith

-- An admission that returns leaves the table within the limits of the outbox on rows and on payload
-- bytes, whatever the table held before, and leaves the limits as they are.
pub insert_pending_within :
    (rec : OutboxRecord) (wall : ℕ) (fs : Faults) (d : Store) (a : ℤ) (fs' : Faults) (d' : Store)
    → insert_pending rec wall fs d ≡ done a fs' d'
    → (length d'.rows ≤ d.max_rows)
      × (payload_bytes d'.rows ≤ d.max_bytes)
      × (d'.max_rows ≡ d.max_rows)
      × (d'.max_bytes ≡ d.max_bytes)
insert_pending_within rec wall fs d a fs' d' h =
    let ad = insert_pending-done rec wall fs d a fs' d' h in
    let kept = Assigned-Keeps rec (room rec d) ad.seq ad.is_next ad.before ad.placed in
    let limits = room-limits rec d in
    let small = not_over rec (room rec d) ad.fits in
    let more = length-append ad.before.rows (new_row rec wall ad.seq ad.is_next ∷ []) in
    let bytes =
      sum_of-append (λ r. len r.payload) ad.before.rows (new_row rec wall ad.seq ad.is_next ∷ []) in
    rw (ad.after, more, bytes, kept.rows, kept.max_rows, kept.max_bytes, limits.0, limits.1)
      (ground arith)

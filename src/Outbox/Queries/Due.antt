-- ===== src/Outbox/Queries/Due.antt =====
-- What fetch_due hands to the sender: due heads only, at most one of a call, the least recently
-- served calls first.
use mod_event_kafka.Common.{
  ℕ, ◌≤◌, ◌<◌, ◌⊎◌, ltb, ltb→lt, ◌≡◌, refl, inl, inr, Bool-cases, All-map, true, false, List, [],
  ◌∷◌, map, arith, if_cases, if_true, if_false, Memᴰ, All, Pairwise, All-mono, All-members,
  select_where, is_empty, text_eq_iff, ℤ,
}
use mod_event_kafka.Outbox.Schema.{pending, OutboxRecord, Row, CallStream, Store, is_head}
use mod_event_kafka.Outbox.Engine.{Faults, done, return, reply}
use mod_event_kafka.Common.Tables.Keys.{All-both}
use mod_event_kafka.Common.Tables.Select.{All-select_where, All-selected, Pairwise-select_where}
use mod_event_kafka.Outbox.Engine.Steady.{statement-done}
use mod_event_kafka.Outbox.Admission.{same_slot}
use mod_event_kafka.Outbox.Invariant.{IsValid, DistinctSlot}
use mod_event_kafka.Outbox.Invariant.Rows.{DistinctSlot-sym}
use mod_event_kafka.Outbox.Queries.{
  to_record, is_due, last_served, is_before, insert_by, sort_by, due_rows, fetch_due,
}
use mod_event_kafka.Outbox.Queries.Sorting.{
  All-insert_by, All-sort_by, Pairwise-sort_by, All-limit_to, Pairwise-limit_to,
}

-- A row of the table that is pending, whose time has come and which is the head of its call.
pub record IsReady (now : ℕ) (d : Store) (r : Row) : Type 0 where
  pub stored : Memᴰ r d.rows
  pub waits : r.state ≡ pending
  pub due : r.next_attempt_at_ms ≤ now
  pub head : is_head d.streams r ≡ true

ready_lem :
    (now : ℕ) (d : Store) (r : Row)
    → Memᴰ r d.rows
    → is_due now d.streams r ≡ true
    → IsReady now d r
unfolding is_due
ready_lem now d r m h = record {
  stored = m;
  waits = ground arith;
  due = ground arith;
  head = ground arith;
}

due_rows-IsReady : (now : ℕ) (limit : ℤ) (d : Store) → All (IsReady now d) (due_rows now limit d)
unfolding due_rows
due_rows-IsReady now limit d = All-limit_to (IsReady now d) limit _ (
    All-sort_by (is_before d.streams) (IsReady now d) _ (
      All-mono (λ r. Memᴰ r d.rows × (is_due now d.streams r ≡ true)) (IsReady now d) _
        (λ r h. ready_lem now d r h.0 h.1)
        (All-both _ _ _ (All-select_where (is_due now d.streams) _ d.rows (All-members d.rows))
          (All-selected (is_due now d.streams) d.rows))))

-- Two rows of one call.
abbrev pub SameCall : Row → Row → Type 0
SameCall a b = (a.topic ≡ b.topic) × (a.call_uuid ≡ b.call_uuid) × (is_empty a.call_uuid ≡ false)

-- Two ready rows with distinct places are of two calls.
ready_apart :
    (now : ℕ) (d : Store) (a b : Row)
    → IsReady now d a
    → IsReady now d b
    → DistinctSlot a b
    → ¬ SameCall a b
unfolding same_slot is_head
ready_apart now d a b p q apart (t, u, named) =
    let pa : is_head d.streams a ≡ true = p.head in
    let pb : is_head d.streams b ≡ true = q.head in
    ground (arith, text_eq_iff a.topic b.topic, text_eq_iff a.call_uuid b.call_uuid)

Pairwise-ready :
    (now : ℕ) (d : Store) (rows : List Row)
    → All (IsReady now d) rows
    → Pairwise DistinctSlot rows
    → Pairwise (λ a b. ¬ SameCall a b) rows
Pairwise-ready now d [] h k = tt
Pairwise-ready now d (a ∷ rows) h k = (
  All-mono (λ b. IsReady now d b × DistinctSlot a b) _ rows
      (λ b p. ready_apart now d a b h.0 p.0 p.1) (All-both _ _ rows h.1 k.0),
  Pairwise-ready now d rows h.1 k.1,
)

due_rows-calls :
    (now : ℕ) (limit : ℤ) (d : Store)
    → IsValid d
    → Pairwise (λ a b. ¬ SameCall a b) (due_rows now limit d)
unfolding due_rows
due_rows-calls now limit d v = Pairwise-ready now d _ (due_rows-IsReady now limit d) (
    Pairwise-limit_to DistinctSlot limit _ (
      Pairwise-sort_by (is_before d.streams) DistinctSlot DistinctSlot-sym _
        (Pairwise-select_where (is_due now d.streams) DistinctSlot d.rows v.slots)))

-- The call of the first was served at an earlier turn than that of the second, or at the same turn
-- and the second was not created earlier.
abbrev pub NotAfter : List CallStream → Row → Row → Type 0
NotAfter ss a b =
    (last_served ss a < last_served ss b)
    ⊎ ((last_served ss a ≡ last_served ss b) × (a.created_at_ms ≤ b.created_at_ms))

is_before-NotAfter : (ss : List CallStream) (a b : Row) → is_before ss a b ≡ true → NotAfter ss a b
unfolding is_before
is_before-NotAfter ss a b h = elim (Bool-cases (ltb (last_served ss a) (last_served ss b))) [
  | inl e ↦ inl (ltb→lt _ _ e)
  | inr e ↦ inr (ground arith, ground arith)
]

not_before-NotAfter :
    (ss : List CallStream) (a b : Row) → is_before ss b a ≡ false → NotAfter ss a b
unfolding is_before
not_before-NotAfter ss a b h = elim (Bool-cases (ltb (last_served ss a) (last_served ss b))) [
  | inl e ↦ inl (ltb→lt _ _ e)
  | inr e ↦ inr (ground arith, ground arith)
]

NotAfter-trans :
    (ss : List CallStream) (a b c : Row) → NotAfter ss a b → NotAfter ss b c → NotAfter ss a c
NotAfter-trans ss a b c (inl h) (inl k) = inl (omega arith)
NotAfter-trans ss a b c (inl h) (inr k) = inl (omega (arith, k.0, k.1))
NotAfter-trans ss a b c (inr h) (inl k) = inl (omega (arith, h.0, h.1))
NotAfter-trans ss a b c (inr h) (inr k) = inr (omega arith, omega arith)

insert_by-sorted :
    (ss : List CallStream) (x : Row) (ys : List Row)
    → Pairwise (NotAfter ss) ys
    → Pairwise (NotAfter ss) (insert_by (is_before ss) x ys)
unfolding insert_by
insert_by-sorted ss x [] h = (tt, tt)
insert_by-sorted ss x (y ∷ ys) h =
    if_cases (Pairwise (NotAfter ss)) (is_before ss y x)
      (λ e. (
        All-insert_by (is_before ss) (NotAfter ss y) x ys (is_before-NotAfter ss y x e) h.0,
        insert_by-sorted ss x ys h.1,
      ))
      (λ e. (
        (
          not_before-NotAfter ss x y e,
          All-mono (NotAfter ss y) (NotAfter ss x) ys
              (λ z k. NotAfter-trans ss x y z (not_before-NotAfter ss x y e) k) h.0,
        ),
        h,
      ))

pub sort_by-sorted :
    (ss : List CallStream) (xs : List Row) → Pairwise (NotAfter ss) (sort_by (is_before ss) xs)
unfolding sort_by
sort_by-sorted ss [] = tt
sort_by-sorted ss (x ∷ xs) = insert_by-sorted ss x _ (sort_by-sorted ss xs)

due_rows-sorted :
    (now : ℕ) (limit : ℤ) (d : Store) → Pairwise (NotAfter d.streams) (due_rows now limit d)
unfolding due_rows
due_rows-sorted now limit d =
    Pairwise-limit_to (NotAfter d.streams) limit _
      (sort_by-sorted d.streams (select_where (is_due now d.streams) d.rows))

-- The rows that a fetch selects, as the records it returns.
pub record Fetched (now : ℕ) (d : Store) (rows : List Row) : Type 0 where
  pub ready : All (IsReady now d) rows
  one_of_a_call : Pairwise (λ a b. ¬ SameCall a b) rows
  pub fair : Pairwise (NotAfter d.streams) rows

-- A fetch that returns from a well-formed open outbox changes nothing and returns due pending heads,
-- at most one of a call, in the order of the turn at which their calls were last served, the earliest
-- first, and at the same turn in the order in which they were created.
pub fetch_due-Fetched :
    (now : ℕ) (limit : ℤ) (fs : Faults) (d : Store) (recs : List OutboxRecord) (fs' : Faults)
    (d' : Store)
    → IsValid d
    → d.is_open ≡ true
    → fetch_due now limit fs d ≡ done recs fs' d'
    → (d' ≡ d)
      × (recs ≡ map to_record (due_rows now limit d))
      × Fetched now d (due_rows now limit d)
unfolding fetch_due
fetch_due-Fetched now limit fs d recs fs' d' v o h =
    let read =
      statement-done (λ x. reply (map to_record (due_rows now limit x)) x) fs d recs fs' d'
        (if_true _ _ d.is_open o h) in
    (
      cc read.1,
      cc read.1,
      record {
        ready = due_rows-IsReady now limit d;
        one_of_a_call = due_rows-calls now limit d v;
        fair = due_rows-sorted now limit d;
      },
    )

closed_branch :
    (now : ℕ) (limit : ℤ) (fs : Faults) (d : Store) (recs : List OutboxRecord) (fs' : Faults)
    (d' : Store)
    → d.is_open ≡ false
    → fetch_due now limit fs d ≡ done recs fs' d'
    → (d' ≡ d) × (recs ≡ [])
unfolding fetch_due return
closed_branch now limit fs d recs fs' d' o h =
    let read : done [] fs d ≡ done recs fs' d' = if_false _ _ d.is_open o h in (cc, cc)

-- A fetch that returns, from any outbox, changes nothing and returns rows of the table.
pub fetch_due-stored :
    (now : ℕ) (limit : ℤ) (fs : Faults) (d : Store) (recs : List OutboxRecord) (fs' : Faults)
    (d' : Store)
    → fetch_due now limit fs d ≡ done recs fs' d'
    → (d' ≡ d) × All (λ rec. (r : Row) × Memᴰ r d.rows × (rec ≡ to_record r)) recs
unfolding fetch_due
fetch_due-stored now limit fs d recs fs' d' h = elim (Bool-cases d.is_open) [
  | inr o ↦
      let (same, none_read) = closed_branch now limit fs d recs fs' d' o h in
      (same, rw none_read tt)
  | inl o ↦
      let read =
        statement-done (λ x. reply (map to_record (due_rows now limit x)) x) fs d recs fs' d'
          (if_true _ _ d.is_open o h) in
      let rows : recs ≡ map to_record (due_rows now limit d) = cc read.1 in
      (
        cc read.1,
        rw rows (
            All-map _ to_record (due_rows now limit d) (
              All-mono (IsReady now d) _ (due_rows now limit d) (λ r k. (r, k.stored, refl))
                (due_rows-IsReady now limit d))),
      )
]

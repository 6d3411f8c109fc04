-- ===== src/Outbox/Queries/Fairness.antt =====
-- Which due events fetch_due leaves for later.
use mod_event_kafka.Common.{
  ℕ, zero, suc, ◌≡◌, refl, ap, ◌⊎◌, inl, inr, Bool, true, List, [], ◌∷◌, map, length, take, pos,
  arith, Memᴰ, here, there, All, All-Mem, Pairwise, if_true, if_cases, select_where,
}
use mod_event_kafka.Common.Tables.Select.{Memᴰ-select_where}
use mod_event_kafka.Outbox.Schema.{OutboxRecord, Row, CallStream, Store}
use mod_event_kafka.Outbox.Engine.{Faults, done, reply}
use mod_event_kafka.Outbox.Engine.Steady.{statement-done}
use mod_event_kafka.Outbox.Queries.{
  to_record, is_due, is_before, insert_by, sort_by, due_rows, fetch_due,
}
use mod_event_kafka.Outbox.Queries.Due.{IsReady, NotAfter, sort_by-sorted}

module _ (before : Row → Row → Bool) where
  moved :
      (r x y : Row) (ys : List Row)
      → (Memᴰ r (x ∷ ys) → Memᴰ r (insert_by before x ys))
      → Memᴰ r (x ∷ y ∷ ys)
      → Memᴰ r (y ∷ insert_by before x ys)
  moved r x y ys k here = there (k here)
  moved r x r' ys k (there here) = here
  moved r x y ys k (there (there m)) = there (k (there m))

  Mem-insert_by : (r x : Row) (ys : List Row) → Memᴰ r (x ∷ ys) → Memᴰ r (insert_by before x ys)
  unfolding insert_by
  Mem-insert_by r x [] m = m
  Mem-insert_by r x (y ∷ ys) m =
      if_cases (Memᴰ r) (before y x) (λ _. moved r x y ys (Mem-insert_by r x ys) m) (λ _. m)

  Mem-sort_by : (r : Row) (xs : List Row) → Memᴰ r xs → Memᴰ r (sort_by before xs)
  unfolding sort_by
  Mem-sort_by r [] m = m
  Mem-sort_by r' (r ∷ xs) here = Mem-insert_by r r (sort_by before xs) here
  Mem-sort_by r (x ∷ xs) (there m) =
      Mem-insert_by r x (sort_by before xs) (there (Mem-sort_by r xs m))

-- A row is fetched, or the fetch is full of rows that are not after it.
abbrev pub FetchedOrFull : ℕ → List CallStream → Row → List Row → Type 0
FetchedOrFull n ss r rows = Memᴰ r rows ⊎ ((length rows ≡ n) × All (λ b. NotAfter ss b r) rows)

one_more :
    (n : ℕ) (ss : List CallStream) (r x : Row) (rows : List Row)
    → NotAfter ss x r
    → FetchedOrFull n ss r rows
    → FetchedOrFull (suc n) ss r (x ∷ rows)
one_more n ss r x rows h (inl m) = inl (there m)
one_more n ss r x rows h (inr (full, all)) = inr (ap suc full, (h, all))

take-FetchedOrFull :
    (n : ℕ) (ss : List CallStream) (r : Row) (xs : List Row)
    → Pairwise (NotAfter ss) xs
    → Memᴰ r xs
    → FetchedOrFull n ss r (take n xs)
take-FetchedOrFull zero ss r xs sorted m = inr (refl, tt)
take-FetchedOrFull (suc n) ss r [] sorted m = elim m [ ]
take-FetchedOrFull (suc n) ss r' (r ∷ xs) sorted here = inl here
take-FetchedOrFull (suc n) ss r (x ∷ xs) sorted (there m) =
    one_more n ss r x (take n xs) (All-Mem _ xs m sorted.0)
      (take-FetchedOrFull n ss r xs sorted.1 m)

ready-due : (now : ℕ) (d : Store) (r : Row) → IsReady now d r → is_due now d.streams r ≡ true
unfolding is_due
ready-due now d r h =
    let waits = h.waits in let due = h.due in let head = h.head in ground (arith, waits, due, head)

-- A fetch with a limit that returns from an open outbox returns every pending head whose time has
-- come, or it returns as many as its limit and none of them comes after the one left out, by the turn
-- at which its call was last served and by its creation at the same turn.
pub fetch_due-fair :
    (now n : ℕ) (fs : Faults) (d : Store) (recs : List OutboxRecord) (fs' : Faults) (d' : Store)
    (r : Row)
    → d.is_open ≡ true
    → fetch_due now (pos n) fs d ≡ done recs fs' d'
    → IsReady now d r
    → (rows : List Row) × (recs ≡ map to_record rows) × FetchedOrFull n d.streams r rows
unfolding fetch_due due_rows
fetch_due-fair now n fs d recs fs' d' r o h ready =
    let read =
      statement-done (λ x. reply (map to_record (due_rows now (pos n) x)) x) fs d recs fs' d'
        (if_true _ _ d.is_open o h) in
    (
      due_rows now (pos n) d,
      cc read.1,
      take-FetchedOrFull n d.streams r
          (sort_by (is_before d.streams) (select_where (is_due now d.streams) d.rows))
          (sort_by-sorted d.streams (select_where (is_due now d.streams) d.rows))
          (Mem-sort_by (is_before d.streams) r _ (
            Memᴰ-select_where (is_due now d.streams) r d.rows (ready-due now d r ready)
              ready.stored)),
    )

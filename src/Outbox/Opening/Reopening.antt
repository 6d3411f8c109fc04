-- ===== src/Outbox/Opening/Reopening.antt =====
-- A closed outbox that is opened again is the outbox that was closed.
use mod_event_kafka.Common.{
  ◌≡◌, refl, Bool, true, false, not, ◌&&◌, ◌||◌, none, List, [], ◌∷◌, arith, ◌==◌, All, Pairwise,
  count_where, any_where, update_where_none, All-mono,
}
use mod_event_kafka.Outbox.Schema.{Row, CallStream, Store, is_head}
use mod_event_kafka.Outbox.Admission.{same_slot}
use mod_event_kafka.Outbox.Invariant.{IsValid, RowOk, loose, in_call, DistinctSlot}
use mod_event_kafka.Outbox.Database.{◌>>=◌, ◌>>◌, query, refuse_if, execute, constrained, give}
use mod_event_kafka.Outbox.Opening.{
  has_twins, is_orphan, is_active, needs_stamp, stamp_age, Host, handle_of, close_outbox,
  open_outbox, open_database, read_columns, check_legacy, execute_if, in_transaction, upgrade,
  check_and_stamp,
}

none_any {ℓ} :
    {A : Type ℓ} (p : A → Bool) (xs : List A) → All (λ x. p x ≡ false) xs → any_where p xs ≡ false
none_any p [] h = refl
none_any p (x ∷ xs) h = rw (h.0, none_any p xs h.1) refl

no_twins : (rows : List Row) → Pairwise DistinctSlot rows → has_twins rows ≡ false
unfolding has_twins
no_twins [] h = refl
no_twins (r ∷ rows) h = rw (none_any (same_slot r) rows h.0, no_twins rows h.1) refl

count_none {ℓ} :
    {A : Type ℓ} (p : A → Bool) (xs : List A) → All (λ x. p x ≡ false) xs → count_where p xs ≡ 0
count_none p [] h = refl
count_none p (x ∷ xs) h = rw (h.0, count_none p xs h.1) refl

not_and : (b : Bool) → not b && (false || b) ≡ false
not_and true = refl
not_and false = refl

-- A row in order needs no stamp and is no orphan.
settled_row :
    (ss : List CallStream) (r : Row)
    → RowOk ss r
    → (is_orphan ss r ≡ false) × (needs_stamp ss r ≡ false)
unfolding is_head
settled_row ss r (loose e q k) = (ground arith, ground arith)
settled_row ss r (in_call s n at c) =
    (rw (c.named, c.seq, at) refl, rw (c.named, c.seq, at, c.stamp) (not_and (n == s.next_seq)))

rows-settled :
    (ss : List CallStream) (rows : List Row)
    → All (RowOk ss) rows
    → All (λ r. is_orphan ss r ≡ false) rows × All (λ r. needs_stamp ss r ≡ false) rows
rows-settled ss rows h = (
  All-mono (RowOk ss) _ rows (λ r k. (settled_row ss r k).0) h,
  All-mono (RowOk ss) _ rows (λ r k. (settled_row ss r k).1) h,
)

-- An outbox that is well formed, and in which no retired call has a cursor, is the same after close
-- and open, if the lock and the file are granted and the engine refuses nothing.
pub open_outbox-close_outbox :
    (host : Host) (d : Store)
    → host.lock_granted ≡ true
    → host.file_opens ≡ true
    → d.is_open ≡ true
    → IsValid d
    → All (λ c. is_active d.streams c ≡ false) d.retired
    → open_outbox host [] (close_outbox (handle_of d)) ≡ (none, handle_of d)
unfolding open_outbox close_outbox open_database ◌>>=◌ ◌>>◌ query read_columns check_legacy
    refuse_if execute execute_if constrained in_transaction upgrade check_and_stamp give
open_outbox-close_outbox host d lock file opened v idle =
    let (cursors, stamped) = rows-settled d.streams d.rows v.rows_ok in
    let orphans = count_none (is_orphan d.streams) d.rows cursors in
    let clashes = count_none (is_active d.streams) d.retired idle in
    let same =
      update_where_none (needs_stamp d.streams) stamp_age d.rows (count_none _ d.rows stamped) in
    rw (lock, file, opened, no_twins d.rows v.slots, orphans, clashes, same) refl

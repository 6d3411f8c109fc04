-- ===== src/Outbox/Fifo/Settling.antt =====
-- An acknowledgement takes the oldest waiting event of its call, and none of another call.
use mod_event_kafka.Common.{
  ℕ, zero, suc, ◌+◌, ◌-◌, ◌≤◌, String, ◌≡◌, refl, sym, ap, ◌∙◌, subst, ◌⊎◌, inl, inr, Bool, true,
  false, none, some, List, [], ◌∷◌, map, arith, Bool-cases, &&_parts, if_cases, Memᴰ, All, Pairwise,
  All-mono, first_where, update_where, delete_where, first_where_sound, is_empty, text_eq_iff,
  text_eq_self,
}
use mod_event_kafka.Outbox.Schema.{Row, Store}
use mod_event_kafka.Common.Tables.Keys.{All-both, Pairwise-Mem}
use mod_event_kafka.Common.Tables.Select.{
  select_where-update_where, column-delete_where, select_where-delete_where, delete_where_none,
  All-select_where, All-selected, Pairwise-select_where, Memᴰ-select_where,
}
use mathlib.Core.List.{append-nil}
use mod_event_kafka.Outbox.Admission.{same_slot}
use mod_event_kafka.Outbox.Transitions.{
  has_id, is_in_flight, is_successor, advance, promote, delete_row, is_claimable, claim, claim_row,
  tick, serve,
}
use mod_event_kafka.Outbox.Transitions.Effects.{acked}
use mod_event_kafka.Outbox.Invariant.{IsValid, DistinctId, DistinctSlot}
use mod_event_kafka.Outbox.Invariant.Rows.{DistinctId-sym, DistinctSlot-sym}
use mod_event_kafka.Outbox.History.{in_call_of}
use mod_event_kafka.Outbox.History.Order.{
  cursor, numbers, Moves, stays_other, moves, cursor-acked, cursor-claim,
}
use mod_event_kafka.Outbox.History.Streams.{admit_count, admit-advance, admit-claim}
use mod_event_kafka.Outbox.History.Effects.{KeepsPlace}
use mod_event_kafka.Outbox.Fifo.{rows_of, waiting, waiting_seqs, Contiguous, Flows}

suc_pred : (k : ℕ) → suc k - 1 ≡ k
suc_pred k = omega arith

pub numbers_eq : (a b k l : ℕ) → a ≡ b → k ≡ l → numbers a k ≡ numbers b l
numbers_eq a b k l p q = cc

module _ (t u : String) where
  -- A step that leaves the queue and the call's counts alone.
  still :
      (d d' : Store)
      → waiting t u d' ≡ waiting t u d
      → waiting_seqs t u d' ≡ waiting_seqs t u d
      → cursor t u d' ≡ cursor t u d
      → admit_count t u d'.streams ≡ admit_count t u d.streams
      → Contiguous t u d
      → Contiguous t u d' × Flows t u none none d d'
  still d d' w s c a h = (
    record { ordered = rw (c, a) h.ordered; waits = rw (s, c, a) h.waits },
    rw w (sym (append-nil _)),
  )

  pub restated-Flows :
      (d : Store) (p : Row → Bool) (f : Row → Row)
      → KeepsPlace f
      → Contiguous t u d
      → Contiguous t u (record d { rows = update_where p f d.rows })
        × Flows t u none none d (record d { rows = update_where p f d.rows })
  restated-Flows d p f k h =
      still d _
        (select_where-update_where (in_call_of t u) (λ r. r.event_id) p f d.rows
          (λ r. rw (k.topic, k.call_uuid)) (k.event_id))
        (select_where-update_where (in_call_of t u) (λ r. r.call_seq) p f d.rows
          (λ r. rw (k.topic, k.call_uuid)) (k.call_seq))
        refl refl h

  pub claimed-Flows :
      (now : ℕ) (id : String) (d : Store)
      → Contiguous t u d
      → Contiguous t u (serve id (tick (claim_row now id d)))
        × Flows t u none none d (serve id (tick (claim_row now id d)))
  unfolding serve tick claim_row
  claimed-Flows now id d h =
      still d _
        (select_where-update_where (in_call_of t u) (λ r. r.event_id) (is_claimable id d.streams)
          (claim now) d.rows (λ r. refl) (λ r. refl))
        (select_where-update_where (in_call_of t u) (λ r. r.call_seq) (is_claimable id d.streams)
          (claim now) d.rows (λ r. refl) (λ r. refl))
        (cursor-claim t u now id d) (admit-claim t u now id d) h

  -- The rows after an acknowledgement, as far as the queue sees them.
  column_acked {ℓ} :
      {B : Type ℓ} (g : Row → B) (now : ℕ) (id : String) (r : Row) (d : Store)
      → ((x : Row) → g (record x { eligible_at_ms = some now }) ≡ g x)
      → map g (rows_of t u (acked now id r d)) ≡ map g (delete_where (has_id id) (rows_of t u d))
  unfolding acked delete_row promote advance
  column_acked g now id r d k = elim (Bool-cases (is_empty r.call_uuid)) [
    | inl e ↦ rw (e, select_where-delete_where (in_call_of t u) (has_id id) d.rows)
    | inr e ↦ rw e (
        column-delete_where (in_call_of t u) g (has_id id) (is_successor r)
          (λ x. record x { eligible_at_ms = some now }) d.rows (λ x. refl) (λ x. refl) k)
  ]

  admit-acked :
      (now : ℕ) (id : String) (r : Row) (d : Store)
      → admit_count t u (acked now id r d).streams ≡ admit_count t u d.streams
  unfolding acked delete_row promote
  admit-acked now id r d =
      if_cases {A = Store} (λ x. admit_count t u x.streams ≡ admit_count t u d.streams)
        (is_empty r.call_uuid) (λ _. refl) (λ _. admit-advance t u r d)

  module _ (id : String) (r : Row) (d : Store) (v : IsValid d) (mine : Memᴰ r d.rows)
      (named : has_id id r ≡ true) where
    -- Only the acknowledged row has its id.
    others : (xs : List Row) → All (DistinctId r) xs → delete_where (has_id id) xs ≡ xs
    others xs h = delete_where_none (has_id id) xs (
        All-mono (DistinctId r) (λ x. has_id id x ≡ false) xs
          (λ x apart. rw (← (text_eq_iff r.event_id id).0 named) (DistinctId-sym r x apart)) h)

    kept_other : in_call_of t u r ≡ false → delete_where (has_id id) (rows_of t u d) ≡ rows_of t u d
    kept_other other = others (rows_of t u d) (
        All-mono (λ x. ((x ≡ r) ⊎ DistinctId r x) × (in_call_of t u x ≡ true)) (DistinctId r)
          (rows_of t u d) (λ x h. elim h.0 [ inl e ↦ cc (rw e at h.1) | inr apart ↦ apart ])
          (All-both _ _ (rows_of t u d)
            (All-select_where (in_call_of t u) _ d.rows
              (Pairwise-Mem DistinctId d.rows r DistinctId-sym mine v.ids))
            (All-selected (in_call_of t u) d.rows)))

    -- A row of the call with the acknowledged row's sequence is that row.
    same_row :
        (x : Row) (c : ℕ)
        → in_call_of t u r ≡ true
        → in_call_of t u x ≡ true
        → r.call_seq ≡ some c
        → x.call_seq ≡ some c
        → (x ≡ r) ⊎ DistinctSlot r x
        → x ≡ r
    unfolding same_slot
    same_row x c p q a b (inl e) = e
    same_row x c p q a b (inr apart) = ground (
      arith,
      text_eq_iff r.topic t,
      text_eq_iff x.topic t,
      text_eq_iff r.call_uuid u,
      text_eq_iff x.call_uuid u,
      text_eq_self t,
      text_eq_self u,
      apart,
    )

    -- The row at the cursor is the first of those that wait.
    pub front :
        (l : List Row) (c k : ℕ)
        → in_call_of t u r ≡ true
        → r.call_seq ≡ some c
        → Memᴰ r l
        → map (λ x. x.call_seq) l ≡ numbers c k
        → All (λ x. ((x ≡ r) ⊎ DistinctSlot r x) × (in_call_of t u x ≡ true)) l
        → (rest : List Row) × (l ≡ r ∷ rest)
          × (map (λ x. x.call_seq) rest ≡ numbers (c + 1) (k - 1))
          × (1 ≤ k)
    front [] c k p a m w h = elim m [ ]
    front (x ∷ l) c zero p a m w h = cc
    front (x ∷ l) c (suc k) p a m w h =
        let same : x ≡ r = same_row x c p h.0.1 a (cc) h.0.0 in
        let tail : map (λ x. x.call_seq) l ≡ numbers (c + 1) k = cc in
        (l, ap (λ y. y ∷ l) same, rw (suc_pred k) tail, omega arith)

  -- What an acknowledgement leaves of the call's rows, given what leaves the list.
  pub settled-Flows :
      (now : ℕ) (id : String) (r : Row) (d : Store)
      → is_empty u ≡ false
      → first_where (is_in_flight id) d.rows ≡ some r
      → IsValid d
      → Contiguous t u d
      → Contiguous t u (acked now id r d) × Flows t u (some r) none d (acked now id r d)
  unfolding is_in_flight
  settled-Flows now id r d nonempty h v q =
      let (mine, hit) = first_where_sound (is_in_flight id) d.rows r h in
      go mine (&&_parts _ _ hit).0 (cursor-acked t u now id r d nonempty h v)
    where
      ids :
          map (λ x. x.event_id) (rows_of t u (acked now id r d))
          ≡ map (λ x. x.event_id) (delete_where (has_id id) (rows_of t u d))
      ids = column_acked (λ x. x.event_id) now id r d (λ x. refl)

      numbered :
          map (λ x. x.call_seq) (rows_of t u (acked now id r d))
          ≡ map (λ x. x.call_seq) (delete_where (has_id id) (rows_of t u d))
      numbered = column_acked (λ x. x.call_seq) now id r d (λ x. refl)

      admits : admit_count t u (acked now id r d).streams ≡ admit_count t u d.streams
      admits = admit-acked now id r d

      go :
          Memᴰ r d.rows
          → has_id id r ≡ true
          → Moves t u (cursor t u d) (cursor t u (acked now id r d)) (some r)
          → Contiguous t u (acked now id r d) × Flows t u (some r) none d (acked now id r d)
      go mine named (stays_other _ other e) =
          let kept = kept_other id r d v mine named other in
          let rest = still d (acked now id r d) (rw kept at ids) (rw kept at numbered) e admits q in
          (rest.0, rw other rest.1)
      go mine named (moves _ own at e) =
          let (rest, split, tail, some_left) =
            front id r d v mine named (rows_of t u d) (cursor t u d) _ own at
              (Memᴰ-select_where (in_call_of t u) r d.rows own mine) q.waits
              (All-both _ _ (rows_of t u d)
                (All-select_where (in_call_of t u) _ d.rows
                  (Pairwise-Mem DistinctSlot d.rows r DistinctSlot-sym mine v.slots))
                (All-selected (in_call_of t u) d.rows)) in
          let apart : Pairwise DistinctId (r ∷ rest) =
            subst (Pairwise DistinctId) split
              (Pairwise-select_where (in_call_of t u) DistinctId d.rows v.ids) in
          let left : delete_where (has_id id) (rows_of t u d) ≡ rest =
            rw (split, named) (others id r d v mine named rest apart.0) in
          let after : waiting t u (acked now id r d) ≡ map (λ x. x.event_id) rest =
            ids ∙ ap (map (λ x. x.event_id)) left in
          let before : waiting t u d ≡ r.event_id ∷ map (λ x. x.event_id) rest =
            ap (map (λ x. x.event_id)) split in
          (
            record {
              ordered = omega (arith, admits, e, some_left, q.ordered);
              waits =
                  numbered
                  ∙ ap (map (λ x. x.call_seq)) left
                  ∙ tail
                  ∙ numbers_eq _ _ _ _ (sym e) (omega (arith, e, admits));
            },
            rw own (ap (◌∷◌ r.event_id) after ∙ sym before ∙ sym (append-nil (waiting t u d))),
          )

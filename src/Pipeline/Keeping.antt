-- ===== src/Pipeline/Keeping.antt =====
-- A failed send keeps the event: what settlements leave of the table and of the cursors.
use mod_event_kafka.Common.{
  ℕ, String, ◌≡◌, refl, ◌∙◌, Bool, true, false, List, [], ◌∷◌, map, arith, if◌then◌else◌, ℤ, Option,
  some, none, update_where, count_where, first_where, if_cases,
}
use mod_event_kafka.Outbox.Schema.{Row, CallStream, Store, OutboxRecord}
use mod_event_kafka.Outbox.Engine.{
  Faults, Outcome, done, thrown, Sql, ◌>>=◌, return, raise, skip, reply, continue, select,
  change_counted, store_of,
}
use mod_event_kafka.Outbox.Engine.Rules.{statement_rule}
use mod_event_kafka.Outbox.Transitions.{
  has_id, is_in_flight, is_live_id, update_rows, require_one, back_off, bury, mark_retry, mark_dead,
}
use mod_event_kafka.Outbox.Queries.{get, map_option, to_record}
use mod_event_kafka.Pipeline.Failure.{
  caught, reported, Clock, give_up, try_again, settle_current, settle_send_failure,
}

-- The same events in the same places, under the same cursors.
pub record KeepsEvents (d d' : Store) : Type 0 where
  pub ids : map (λ r. r.event_id) d'.rows ≡ map (λ r. r.event_id) d.rows
  pub calls : map (λ r. r.call_seq) d'.rows ≡ map (λ r. r.call_seq) d.rows
  pub payloads : map (λ r. r.payload) d'.rows ≡ map (λ r. r.payload) d.rows
  pub streams : d'.streams ≡ d.streams

-- A computation that keeps them, whether it returns or throws.
record Keeping {ℓ} {A : Type ℓ} (m : Sql A) : Type ℓ where
  keep : (fs : Faults) (d : Store) → KeepsEvents d (store_of (m fs d))

keeps_self : (d : Store) → KeepsEvents d d
keeps_self d = record { ids = refl; calls = refl; payloads = refl; streams = refl }

keeps_both : (a b c : Store) → KeepsEvents a b → KeepsEvents b c → KeepsEvents a c
keeps_both a b c h k = record {
  ids = k.ids ∙ h.ids;
  calls = k.calls ∙ h.calls;
  payloads = k.payloads ∙ h.payloads;
  streams = k.streams ∙ h.streams;
}

continue-keeps {ℓ κ} :
    {A : Type ℓ} {B : Type κ} (o : Outcome A) (k : A → Sql B) (d : Store)
    → KeepsEvents d (store_of o)
    → ((a : A) → Keeping (k a))
    → KeepsEvents d (store_of (continue o k))
continue-keeps (done a fs d1) k d h hk = keeps_both d d1 _ h ((hk a).keep fs d1)
continue-keeps (thrown e fs d1) k d h hk = h

Keeping->>= {ℓ κ} :
    {A : Type ℓ} {B : Type κ} (m : Sql A) (k : A → Sql B)
    → Keeping m
    → ((a : A) → Keeping (k a))
    → Keeping (m >>= k)
unfolding ◌>>=◌
Keeping->>= m k hm hk = record { keep = λ fs d. continue-keeps (m fs d) k d (hm.keep fs d) hk }

Keeping-return {ℓ} : {A : Type ℓ} (a : A) → Keeping (return a)
unfolding return
Keeping-return a = record { keep = λ fs d. keeps_self d }

Keeping-if {ℓ} :
    {A : Type ℓ} (b : Bool) (m n : Sql A) → Keeping m → Keeping n → Keeping (if b then m else n)
Keeping-if true m n hm hn = hm
Keeping-if false m n hm hn = hn

caught-keeps {ℓ} :
    {A : Type ℓ} (o : Outcome A) (d : Store)
    → KeepsEvents d (store_of o)
    → KeepsEvents d (store_of (caught o))
caught-keeps (done a fs d1) d h = h
caught-keeps (thrown e fs d1) d h = h

Keeping-reported {ℓ} : {A : Type ℓ} (m : Sql A) → Keeping m → Keeping (reported m)
unfolding reported
Keeping-reported m hm = record { keep = λ fs d. caught-keeps (m fs d) d (hm.keep fs d) }

Keeping-require_one : (n : ℕ) (e : String) → Keeping (require_one n e)
unfolding require_one skip raise
Keeping-require_one n e =
    Keeping-if _ skip (raise e) (record { keep = λ fs d. keeps_self d })
      (record { keep = λ fs d. keeps_self d })

column-update_where {ℓ} :
    {B : Type ℓ} (g : Row → B) (p : Row → Bool) (f : Row → Row) (rows : List Row)
    → ((r : Row) → g (f r) ≡ g r)
    → map g (update_where p f rows) ≡ map g rows
column-update_where g p f [] k = refl
column-update_where g p f (r ∷ rows) k = ground (arith, k r, column-update_where g p f rows k)

Keeping-update_rows :
    (p : List CallStream → Row → Bool) (f : Row → Row)
    → ((r : Row) → (f r).event_id ≡ r.event_id)
    → ((r : Row) → (f r).call_seq ≡ r.call_seq)
    → ((r : Row) → (f r).payload ≡ r.payload)
    → Keeping (update_rows p f)
unfolding update_rows change_counted
Keeping-update_rows p f h j k = record {
  keep = λ fs d.
      statement_rule (KeepsEvents d)
        (λ x.
          reply (count_where (p x.streams) x.rows)
            (record x { rows = update_where (p x.streams) f x.rows }))
        fs d (keeps_self d) (λ a d' e. updated d a d' e);
}
  where
    updated :
        (d : Store) (a : ℕ) (d' : Store)
        → reply
            (count_where (p d.streams) d.rows)
            (record d { rows = update_where (p d.streams) f d.rows })
          ≡ reply a d'
        → KeepsEvents d d'
    updated d a d' e =
        let same : record d { rows = update_where (p d.streams) f d.rows } ≡ d' = cc in
        rw (← same) (record {
          ids = column-update_where (λ r. r.event_id) (p d.streams) f d.rows h;
          calls = column-update_where (λ r. r.call_seq) (p d.streams) f d.rows j;
          payloads = column-update_where (λ r. r.payload) (p d.streams) f d.rows k;
          streams = refl;
        })

Keeping-get : (id : String) → Keeping (get id)
unfolding get select return
Keeping-get id = record {
  keep = λ fs d.
      if_cases {A = Outcome (Option OutboxRecord)} (λ o. KeepsEvents d (store_of o)) d.is_open
        (λ e.
          statement_rule (KeepsEvents d)
            (λ x. reply (map_option to_record (first_where (has_id id) x.rows)) x) fs d
            (keeps_self d) (λ a d' q. let same : d ≡ d' = cc in rw (← same) (keeps_self d)))
        (λ e. keeps_self d);
}

Keeping-mark_dead : (now : ℕ) (id error : String) → Keeping (mark_dead now id error)
unfolding mark_dead
Keeping-mark_dead now id error =
    Keeping->>= (update_rows (λ _. is_live_id id) (bury error now)) _
      (Keeping-update_rows (λ _. is_live_id id) (bury error now) (λ r. refl) (λ r. refl)
        (λ r. refl))
      (λ n. Keeping-require_one n _)

Keeping-mark_retry :
    (now : ℕ) (id : String) (next : ℕ) (error : String) → Keeping (mark_retry now id next error)
unfolding mark_retry
Keeping-mark_retry now id next error =
    Keeping->>= (update_rows (λ _. is_in_flight id) (back_off next error now)) _
      (Keeping-update_rows (λ _. is_in_flight id) (back_off next error now) (λ r. refl) (λ r. refl)
        (λ r. refl))
      (λ n. Keeping-require_one n _)

Keeping-settle_current :
    (max_attempts : ℤ) (id error : String) (permanent : Bool) (clock : Clock)
    (o : Option OutboxRecord)
    → Keeping (settle_current max_attempts id error permanent clock o)
unfolding settle_current give_up try_again
Keeping-settle_current max_attempts id error permanent clock none = Keeping-return _
Keeping-settle_current max_attempts id error permanent clock (some cur) =
    Keeping-if _ _ _ (Keeping-return _) (
      Keeping-if _ _ _
        (Keeping->>= (reported (mark_dead clock.update id error)) _
          (Keeping-reported _ (Keeping-mark_dead clock.update id error)) (λ r. Keeping-return _))
        (Keeping->>= (reported (mark_retry clock.update id _ error)) _
          (Keeping-reported _ (Keeping-mark_retry clock.update id _ error))
          (λ r. Keeping-return _)))

-- The settlement of a failed send, whatever fails during it, keeps every event in its place with its
-- sequence and payload, and moves no cursor.
pub settle_send_failure-KeepsEvents :
    (max_attempts : ℤ) (id error : String) (permanent : Bool) (clock : Clock) (fs : Faults)
    (d : Store)
    → KeepsEvents d (store_of (settle_send_failure max_attempts id error permanent clock fs d))
unfolding settle_send_failure
settle_send_failure-KeepsEvents max_attempts id error permanent clock fs d =
    (Keeping->>= (get id) _ (Keeping-get id)
        (λ cur. Keeping-settle_current max_attempts id error permanent clock cur)).keep
      fs d

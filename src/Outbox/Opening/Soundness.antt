-- ===== src/Outbox/Opening/Soundness.antt =====
-- What open guarantees of the file that it hands over, whatever it has found.
use mod_event_kafka.Common.{
  ℕ, String, ◌≡◌, refl, sym, if_cases, ◌∙◌, Bool, true, false, not, ◌&&◌, Option, none, List, [],
  ◌∷◌, arith, if◌then◌else◌, ◌==◌, ==_iff, All, count_where, update_where, pos,
}
use mod_event_kafka.Outbox.Schema.{Row, CallStream, is_head}
use mod_event_kafka.Outbox.Engine.{Faults}
use mod_event_kafka.Outbox.Database.{
  Database, Result, finished, broke, Db, query, execute, refuse_if, constrained,
}
use mod_event_kafka.Outbox.Opening.{
  is_orphan, is_active, needs_stamp, stamp_age, stamp_heads, check_and_stamp, upgrade,
  create_outbox, add_call_seq, add_eligible, create_rest, execute_if, read_columns, check_legacy,
  is_newer, write_ahead_log, open_database, Handle, Host, open_outbox, conclude_open,
}
use mod_event_kafka.Outbox.Opening.Rules.{
  After, Ensures, Ensures->>=, Ensures->>, Ensures-execute, Ensures-query, Ensures-refuse_if,
  Ensures-in_transaction,
}

-- Every row of a call has its sequence and its cursor, every deliverable row has the time from which
-- its age counts, and no retired call has a cursor.
pub record Schedulable (f : Database) : Type 0 where
  pub cursors : All (λ r. is_orphan f.streams r ≡ false) f.rows
  pub stamped : All (λ r. needs_stamp f.streams r ≡ false) f.rows
  retirements : All (λ c. is_active f.streams c ≡ false) f.retired
  pub version : f.user_version ≡ pos 5

abbrev Anything : Database → Type 0
Anything f = Unit

-- A step of which nothing is asked.
any_step {ℓ} : {A : Type ℓ} (m : Db A) → Ensures Anything m (λ _. Anything)
any_step m = record { ensure = λ fs f p. returned_anything (m fs f) }
  where
    returned_anything : {A : Type ℓ} (o : Result A) → After (λ _. Anything) o
    returned_anything (finished a fs f) = tt
    returned_anything (broke e fs f) = tt

none_counted {ℓ} :
    {A : Type ℓ} (p : A → Bool) (xs : List A) → count_where p xs ≡ 0 → All (λ x. p x ≡ false) xs
none_counted p [] h = tt
none_counted p (x ∷ xs) h =
    let e : p x ≡ false = ground arith in (e, none_counted p xs (ground arith))

stamped_row :
    (ss : List CallStream) (r : Row)
    → (is_orphan ss r ≡ false)
    → (is_orphan ss (if needs_stamp ss r then stamp_age r else r) ≡ false)
      × (needs_stamp ss (if needs_stamp ss r then stamp_age r else r) ≡ false)
unfolding is_head
stamped_row ss r h =
    if_cases (λ x. (is_orphan ss x ≡ false) × (needs_stamp ss x ≡ false)) (needs_stamp ss r)
      (λ e. (h, refl)) (λ e. (h, e))

All-stamped :
    (ss : List CallStream) (rows : List Row)
    → All (λ r. is_orphan ss r ≡ false) rows
    → All (λ r. is_orphan ss r ≡ false) (update_where (needs_stamp ss) stamp_age rows)
      × All (λ r. needs_stamp ss r ≡ false) (update_where (needs_stamp ss) stamp_age rows)
All-stamped ss [] h = (tt, tt)
All-stamped ss (r ∷ rows) h =
    let (a, b) = stamped_row ss r h.0 in
    let (more, rest) = All-stamped ss rows h.1 in ((a, more), (b, rest))

stamp_heads-Schedulable :
    (f : Database)
    → count_where (is_orphan f.streams) f.rows ≡ 0
    → count_where (is_active f.streams) f.retired ≡ 0
    → Schedulable (stamp_heads f)
stamp_heads-Schedulable f h k =
    let (cursors, stamped) = All-stamped f.streams f.rows (none_counted _ f.rows h) in
    record {
      cursors = cursors;
      stamped = stamped;
      retirements = none_counted _ f.retired k;
      version = refl;
    }

zero_of : (n : ℕ) → not (n == 0) ≡ false → n ≡ 0
zero_of n h = ground (arith, ==_iff n 0)

check_and_stamp-Schedulable : Ensures Anything check_and_stamp (λ _. Schedulable)
unfolding check_and_stamp
check_and_stamp-Schedulable =
    Ensures->>= Anything (λ n f. n ≡ count_where (is_orphan f.streams) f.rows) _ _ _
      (Ensures-query _ _ _ (λ f p. refl))
      (λ n. Ensures->> _ _ _ _ _ (Ensures-refuse_if _ (not (n == 0)) _) (
        Ensures->>= _
          (λ k f.
            (count_where (is_orphan f.streams) f.rows ≡ 0)
            × (k ≡ count_where (is_active f.streams) f.retired))
          _ _ _ (Ensures-query _ _ _ (λ f (e, z). (sym e ∙ zero_of n z, refl)))
          (λ k. Ensures->> _ _ _ _ _ (Ensures-refuse_if _ (not (k == 0)) _) (
            Ensures-execute _ Schedulable stamp_heads
              (λ f ((o, e), z). stamp_heads-Schedulable f o (sym e ∙ zero_of k z))))))

upgrade-Schedulable :
    (has_table has_seq has_eligible : Bool)
    → Ensures Anything (upgrade has_table has_seq has_eligible) (λ _. Schedulable)
unfolding upgrade
upgrade-Schedulable has_table has_seq has_eligible =
    Ensures->> Anything Anything _ (execute create_outbox) _ (any_step _) (
      Ensures->> Anything Anything _ (execute_if (has_table && not has_seq) add_call_seq) _
        (any_step _)
        (Ensures->> Anything Anything _ (execute_if (has_table && not has_eligible) add_eligible) _
          (any_step _)
          (Ensures->> Anything Anything _ (constrained create_rest) _ (any_step _)
            check_and_stamp-Schedulable)))

open_database-Schedulable : Ensures Anything open_database (λ _. Schedulable)
unfolding open_database
open_database-Schedulable =
    Ensures->>= Anything (λ _. Anything) _ (query (λ f. f.has_table)) _ (any_step _)
      (λ has_table.
        Ensures->>= Anything (λ _. Anything) _ (read_columns has_table) _ (any_step _)
          (λ columns.
            Ensures->> Anything Anything _ (check_legacy has_table columns.0) _ (any_step _) (
              Ensures->>= Anything (λ _. Anything) _ (query (λ f. f.user_version)) _ (any_step _)
                (λ version.
                  Ensures->> Anything Anything _ (refuse_if (is_newer version) _) _ (any_step _) (
                    Ensures->> Anything Anything _ (execute write_ahead_log) _ (any_step _) (
                      Ensures->> Anything Anything _ (execute (λ f. f)) _ (any_step _) (
                        Ensures-in_transaction Anything Schedulable _
                          (upgrade-Schedulable has_table columns.0 columns.1))))))))

-- What open answers with true, if it does.
abbrev Handed : Option String × Handle → Type 0
Handed o = o.0 ≡ none → Schedulable o.1.database × (o.1.is_open ≡ true) × (o.1.holds_lock ≡ true)

conclude_open-Handed :
    (h : Handle) (o : Result (Unit {0})) → After (λ _. Schedulable) o → Handed (conclude_open h o)
conclude_open-Handed h (finished a fs f) s e = (s, refl, refl)
conclude_open-Handed h (broke x fs f) s e = cc

-- If open returns true on a closed outbox, whatever the file held and whatever version of this
-- program wrote it: every row of a call has a sequence and its call a cursor, every row that may be
-- sent has the time from which its age counts, no retired call has a cursor, and the file has
-- version 5. The outbox is then open and holds the lock.
pub open_outbox-Schedulable :
    (host : Host) (fs : Faults) (h : Handle)
    → h.is_open ≡ false
    → (open_outbox host fs h).0 ≡ none
    → Schedulable (open_outbox host fs h).1.database
      × ((open_outbox host fs h).1.is_open ≡ true)
      × ((open_outbox host fs h).1.holds_lock ≡ true)
unfolding open_outbox
open_outbox-Schedulable host fs h closed e =
    if_cases Handed h.is_open (λ opened. cc)
      (λ _.
        if_cases Handed (not host.lock_granted) (λ _ x. cc)
          (λ _.
            if_cases Handed (not host.file_opens) (λ _ x. cc)
              (λ _.
                conclude_open-Handed h (open_database fs h.database)
                  (open_database-Schedulable.ensure fs h.database tt))))
      e

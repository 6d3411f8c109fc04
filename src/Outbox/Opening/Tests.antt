-- ===== src/Outbox/Opening/Tests.antt =====
-- Runs of open and close on concrete files.
use mod_event_kafka.Common.{◌≡◌, refl, true, false, none, [], ◌∷◌, pos, is_empty, text_eq}
use mod_event_kafka.Outbox.Tests.{one_event, one_event-IsValid, first_row}
use mod_event_kafka.Outbox.Schema.{is_head}
use mod_event_kafka.Outbox.Database.{Database, query, refuse_if, execute, constrained, give}
use mod_event_kafka.Outbox.Opening.{
  Handle, Host, close_outbox, open_outbox, open_database, handle_of, database_of, read_columns,
  check_legacy, execute_if, in_transaction, upgrade, check_and_stamp, has_twins,
}
use mod_event_kafka.Outbox.Opening.Refusal.{Refused, open_outbox-Refused}
use mod_event_kafka.Outbox.Opening.Soundness.{Schedulable, open_outbox-Schedulable}
use mod_event_kafka.Outbox.Opening.Reopening.{open_outbox-close_outbox}

abbrev granted : Host
granted = record { lock_granted = true; file_opens = true }

abbrev closed : Database → Handle
closed f = record {
  max_rows = 10;
  max_bytes = 1000;
  is_open = false;
  holds_lock = false;
  database = f;
}

-- A file from before the column eligible_at_ms.
abbrev older : Database
older = record (database_of one_event) {
  has_eligible_at_ms = false;
  user_version = pos 3;
  rows = record first_row { eligible_at_ms = none } ∷ [];
}

open_outbox-Schedulable_example :
    Schedulable (open_outbox granted [] (closed older)).1.database
    × ((open_outbox granted [] (closed older)).1.is_open ≡ true)
    × ((open_outbox granted [] (closed older)).1.holds_lock ≡ true)
unfolding open_outbox open_database query read_columns check_legacy refuse_if execute execute_if
    constrained in_transaction upgrade check_and_stamp give has_twins is_empty text_eq is_head
open_outbox-Schedulable_example = open_outbox-Schedulable granted [] (closed older) refl refl

-- A file with a backlog from before the column call_seq.
abbrev legacy : Database
legacy = record older { has_call_seq = false }

open_outbox-Refused_example : Refused legacy (open_outbox granted [] (closed legacy))
open_outbox-Refused_example = open_outbox-Refused granted [] (closed legacy)

open_outbox-close_outbox_example :
    open_outbox granted [] (close_outbox (handle_of one_event)) ≡ (none, handle_of one_event)
open_outbox-close_outbox_example =
    open_outbox-close_outbox granted one_event refl refl refl one_event-IsValid tt

-- ===== src/Outbox/Tests.antt =====
-- Runs of the outbox on concrete calls.
use mod_event_kafka.Common.{
  List, Pairwise, String, ◌≡◌, refl, none, some, [], ◌∷◌, ◌++◌, map, arith, here, length, All, ◌≤◌,
  ◌+◌, pos, negsuc, is_empty, text_eq,
}
use mod_event_kafka.Outbox.Schema.{pending, OutboxRecord, Row, Store, admission, is_head}
use mod_event_kafka.Outbox.Engine.{done, ◌>>◌}
use mod_event_kafka.Outbox.Admission.{payload_bytes, insert_pending}
use mod_event_kafka.Outbox.Transitions.{
  claim, claim_row, tick, serve, claim_body, mark_in_flight, advance_call, settle_ack, ack_body,
  is_null, mark_acked,
}
use mod_event_kafka.Outbox.Transitions.Effects.{acked}
use mod_event_kafka.Outbox.Invariant.{IsValid, in_call}
use mod_event_kafka.Outbox.History.{
  inserts, claims, acks, after, History, run, empty_store, acked_rows, accepted_records,
}
use mod_event_kafka.Outbox.History.Retired.{Unretired, run-Unretired}
use mod_event_kafka.Outbox.History.Validity.{AllInRange, run-IsValid, empty-IsValid}
use mod_event_kafka.Outbox.History.Order.{cursor, numbers, acked_of, acked_of-in_order}
use mod_event_kafka.Outbox.Fifo.{waiting}
use mod_event_kafka.Outbox.Fifo.Queue.{
  Admits, acked_ids, accepted_ids, acked-accepted_in_order, empty-Contiguous,
}
use mod_event_kafka.Outbox.Queries.{fetch_due, due_rows, to_record, stats_of}
use mod_event_kafka.Outbox.Queries.Fairness.{FetchedOrFull, fetch_due-fair}
use mod_event_kafka.Outbox.Queries.Due.{IsReady, Fetched, fetch_due-Fetched}
use mod_event_kafka.Outbox.Queries.Counts.{stats_of-totals}
use mod_event_kafka.Outbox.Laws.Atomicity.{fails, fails-unchanged}
use mod_event_kafka.Outbox.Laws.Exclusion.{InFlightTogether, one_in_flight}
use mod_event_kafka.Outbox.Laws.Capacity.{insert_pending_within}
use mod_event_kafka.Outbox.Laws.Progress.{claims-acks-return}

-- An event of the call "c1" that asks for an admission sequence.
abbrev event : String → OutboxRecord
event id = record {
  event_id = id;
  topic = "cdr";
  msg_key = "k1";
  payload = "{}";
  state = pending;
  attempts = negsuc 0;
  next_attempt_at_ms = 0;
  last_error = "";
  created_at_ms = 5;
  updated_at_ms = 5;
  call_uuid = "c1";
  call_seq = negsuc 0;
}

abbrev start : Store
start = empty_store 10 1000

-- The second event meets a disk error, the third may not be claimed while the first waits, and the
-- first is sent and acknowledged.
abbrev busy_day : History
busy_day =
    (inserts (event "e1") 5, [])
    ∷ (inserts (event "e2") 6, none ∷ some "disk I/O error" ∷ [])
    ∷ (inserts (event "e3") 7, [])
    ∷ (claims 8 "e3", [])
    ∷ (claims 8 "e1", [])
    ∷ (acks 9 "e1", [])
    ∷ []

busy_day-AllInRange : AllInRange busy_day
busy_day-AllInRange = (omega arith, (omega arith, (omega arith, (tt, (tt, (tt, tt))))))

busy_day-Admits : All (λ c. Admits "cdr" "c1" c.0) busy_day
busy_day-Admits = ((λ _. tt), ((λ _. tt), ((λ _. tt), (tt, (tt, (tt, tt))))))

waiting_after : waiting "cdr" "c1" (run busy_day start) ≡ "e3" ∷ []
unfolding is_empty text_eq run after insert_pending mark_in_flight mark_acked claim_body ack_body
    settle_ack advance_call
waiting_after = refl

acked-accepted_in_order_example :
    acked_ids "cdr" "c1" (acked_rows busy_day start) ++ waiting "cdr" "c1" (run busy_day start)
    ≡ waiting "cdr" "c1" start ++ accepted_ids "cdr" "c1" (accepted_records busy_day start)
unfolding is_empty
acked-accepted_in_order_example =
    acked-accepted_in_order "cdr" "c1" busy_day start refl busy_day-AllInRange busy_day-Admits
      (empty-IsValid 10 1000) (empty-Contiguous "cdr" "c1" 10 1000)

acked_of-in_order_example :
    (map (λ r. r.call_seq) (acked_of "cdr" "c1" busy_day start)
      ≡ numbers (cursor "cdr" "c1" start) (length (acked_of "cdr" "c1" busy_day start)))
    × (cursor "cdr" "c1" (run busy_day start)
        ≡ cursor "cdr" "c1" start + length (acked_of "cdr" "c1" busy_day start))
unfolding is_empty
acked_of-in_order_example =
    acked_of-in_order "cdr" "c1" busy_day start refl busy_day-AllInRange (empty-IsValid 10 1000)

run-IsValid_example : IsValid (run busy_day start)
run-IsValid_example = run-IsValid busy_day start busy_day-AllInRange (empty-IsValid 10 1000)

-- The call of that day, retired before.
abbrev closed_call : Store
closed_call = record start { retired = record { topic = "cdr"; call_uuid = "c1" } ∷ [] }

run-Unretired_example : Unretired (run busy_day closed_call)
run-Unretired_example = run-Unretired busy_day closed_call (refl, tt)

-- The table after one event has come in.
abbrev pub first_row : Row
first_row = record {
  event_id = "e1";
  topic = "cdr";
  msg_key = "k1";
  payload = "{}";
  state = pending;
  attempts = 0;
  next_attempt_at_ms = 5;
  last_error = "";
  created_at_ms = 5;
  updated_at_ms = 5;
  call_uuid = "c1";
  call_seq = some 0;
  eligible_at_ms = some 5;
}

abbrev pub one_event : Store
one_event = record start {
  rows = first_row ∷ [];
  streams =
      record {
        topic = "cdr";
        call_uuid = "c1";
        msg_key = "k1";
        mode = admission;
        next_seq = 0;
        admit_seq = 1;
        last_served_ms = 0;
      }
      ∷ [];
}

admits_first : insert_pending (event "e1") 5 [] start ≡ done (pos 0) [] one_event
unfolding is_empty text_eq insert_pending
admits_first = refl

pub one_event-IsValid : IsValid one_event
unfolding is_empty text_eq is_null
one_event-IsValid = record {
  rows_ok = (
    in_call _ 0 refl (record {
      named = refl;
      seq = refl;
      low = omega arith;
      high = omega arith;
      flying = λ e. refl;
      stamp = refl;
      key = refl;
    }),
    tt,
  );
  ids = (tt, tt);
  slots = (tt, tt);
  streams_ok =
      (record { ordered = omega arith; bounded = omega arith; named = refl; keyed = refl }, tt);
  calls = (tt, tt);
  turns = omega arith;
}

fetch_due-Fetched_example :
    (one_event ≡ one_event)
    × (map to_record (due_rows 5 (pos 8) one_event) ≡ map to_record (due_rows 5 (pos 8) one_event))
    × Fetched 5 one_event (due_rows 5 (pos 8) one_event)
unfolding fetch_due
fetch_due-Fetched_example =
    fetch_due-Fetched 5 (pos 8) [] one_event (map to_record (due_rows 5 (pos 8) one_event)) []
      one_event one_event-IsValid refl refl

first_row-IsReady : IsReady 5 one_event first_row
unfolding is_head is_empty text_eq
first_row-IsReady = record { stored = here; waits = refl; due = omega arith; head = refl }

fetch_due-fair_example :
    (rows : List Row) × (map to_record (due_rows 5 (pos 8) one_event) ≡ map to_record rows)
    × FetchedOrFull 8 one_event.streams first_row rows
unfolding fetch_due
fetch_due-fair_example =
    fetch_due-fair 5 8 [] one_event (map to_record (due_rows 5 (pos 8) one_event)) [] one_event
      first_row refl refl first_row-IsReady

-- The event was never claimed, so its acknowledgement is refused.
fails-unchanged_example : after (acks 9 "e1") [] one_event ≡ one_event
unfolding fails mark_acked ack_body text_eq
fails-unchanged_example = fails-unchanged (acks 9 "e1") [] one_event one_event-IsValid refl

insert_pending_within_example :
    (length one_event.rows ≤ 10)
    × (payload_bytes one_event.rows ≤ 1000)
    × (one_event.max_rows ≡ 10)
    × (one_event.max_bytes ≡ 1000)
insert_pending_within_example =
    insert_pending_within (event "e1") 5 [] start (pos 0) [] one_event admits_first

claims-acks-return_example :
    ◌>>◌ (mark_in_flight 6 "e1") (mark_acked 7 "e1") [] one_event
    ≡ done tt [] (acked 7 "e1" (claim 6 first_row) (serve "e1" (tick (claim_row 6 "e1" one_event))))
unfolding is_head text_eq is_empty
claims-acks-return_example =
    claims-acks-return 6 7 one_event first_row one_event-IsValid refl (omega arith) here refl refl

stats_of-totals_example :
    ((stats_of one_event.rows).pending_rows
        + (stats_of one_event.rows).in_flight_rows
        + (stats_of one_event.rows).dead_rows
      ≡ 1)
    × ((stats_of one_event.rows).total_bytes ≡ payload_bytes one_event.rows)
stats_of-totals_example = stats_of-totals one_event.rows

one_in_flight_example : Pairwise (λ a b. ¬ InFlightTogether a b) (run busy_day start).rows
one_in_flight_example = one_in_flight busy_day start busy_day-AllInRange (empty-IsValid 10 1000)

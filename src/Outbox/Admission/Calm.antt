-- ===== src/Outbox/Admission/Calm.antt =====
-- Admissions that return do so without faults as well.
use mod_event_kafka.Common.{ℕ, Option, none, some, ℤ, pos, negsuc}
use mod_event_kafka.Outbox.Schema.{OutboxRecord, Row, CallStream}
use mod_event_kafka.Outbox.Engine.{raise}
use mod_event_kafka.Outbox.Engine.Steady.{
  Steady, Steady-raise, Steady-if, Steady-return, Steady-statement, steady,
}
use mod_event_kafka.Outbox.Admission.{
  refuse_retired, make_room, next_sequence, continue_call, begin_call, find_or_begin, order_in_call,
  no_sequence, assign_sequence, insert_row, insert_body,
}

pub Steady-refuse_retired : (rec : OutboxRecord) → Steady (refuse_retired rec)
unfolding refuse_retired
Steady-refuse_retired rec = search steady depth 9

pub Steady-make_room : (rec : OutboxRecord) → Steady (make_room rec)
unfolding make_room
Steady-make_room rec = search steady depth 9

Steady-next_sequence : (z : ℤ) (s : CallStream) → Steady (next_sequence z s)
Steady-next_sequence (negsuc n) s = Steady-return _
Steady-next_sequence (pos n) s = search steady depth 9

Steady-continue_call : (rec : OutboxRecord) (s : CallStream) → Steady (continue_call rec s)
unfolding continue_call
Steady-continue_call rec s =
    Steady-if _ _ (raise _) (Steady-next_sequence rec.call_seq s) (Steady-raise _)

Steady-begin_call : (rec : OutboxRecord) → Steady (begin_call rec)
unfolding begin_call
Steady-begin_call rec = search steady depth 9

pub Steady-find_or_begin :
    (rec : OutboxRecord) (o : Option CallStream) → Steady (find_or_begin rec o)
unfolding find_or_begin
Steady-find_or_begin rec (some s) = Steady-continue_call rec s
Steady-find_or_begin rec none = Steady-begin_call rec

Steady-order_in_call : (rec : OutboxRecord) → Steady (order_in_call rec)
unfolding order_in_call
Steady-order_in_call rec = search (steady, Steady-find_or_begin) depth 9

Steady-no_sequence : (z : ℤ) → Steady (no_sequence z)
Steady-no_sequence (negsuc n) = Steady-return _
Steady-no_sequence (pos n) = Steady-raise _

pub Steady-assign_sequence : (rec : OutboxRecord) → Steady (assign_sequence rec)
unfolding assign_sequence
Steady-assign_sequence rec = search (steady, Steady-order_in_call, Steady-no_sequence) depth 9

pub Steady-insert_row : (r : Row) → Steady (insert_row r)
unfolding insert_row
Steady-insert_row r = Steady-statement _

pub Steady-insert_body : (rec : OutboxRecord) (wall : ℕ) → Steady (insert_body rec wall)
unfolding insert_body
Steady-insert_body rec wall =
    search
      (steady, Steady-refuse_retired, Steady-make_room, Steady-assign_sequence, Steady-insert_row)
      depth 12

-- The store after the capacity check has reclaimed what it may.

-- ===== src/Outbox/Schema.antt =====
-- The records of include/kafka_outbox.hpp and the tables that `Outbox::open` creates in
-- src/kafka_outbox.cpp. A table is the list of its rows in rowid order.
use mod_event_kafka.Common.{
  ℕ, String, Bool, true, false, ◌&&◌, ◌||◌, Option, some, List, ◌==◌, first_where, text_eq,
  is_empty, ℤ,
}

pub data OutboxState : Type 0 where
  pending in_flight dead : OutboxState

-- `OutboxRecord`: what callers hand in and what queries return. A `call_seq` below 0 asks for the
-- next admission sequence.
pub record OutboxRecord : Type 0 where
  pub event_id : String
  pub topic : String
  pub msg_key : String
  pub payload : String
  pub state : OutboxState
  pub attempts : ℤ
  pub next_attempt_at_ms : ℕ
  pub last_error : String
  pub created_at_ms : ℕ
  pub updated_at_ms : ℕ
  pub call_uuid : String
  pub call_seq : ℤ

-- A row of the table `outbox`. The columns `call_seq` and `eligible_at_ms` may be NULL.
pub record Row : Type 0 where
  pub event_id : String
  pub topic : String
  pub msg_key : String
  pub payload : String
  pub state : OutboxState
  pub attempts : ℕ
  pub next_attempt_at_ms : ℕ
  pub last_error : String
  pub created_at_ms : ℕ
  pub updated_at_ms : ℕ
  pub call_uuid : String
  pub call_seq : Option ℕ
  pub eligible_at_ms : Option ℕ

-- The texts "admission" and "source" of the column `mode`.
pub data OrderMode : Type 0 where
  admission source : OrderMode

-- A row of the table `call_streams`: the durable cursor of one call.
pub record CallStream : Type 0 where
  pub topic : String
  pub call_uuid : String
  pub msg_key : String
  pub mode : OrderMode
  pub next_seq : ℕ
  pub admit_seq : ℕ
  pub last_served_ms : ℕ

-- A row of the table `retired_calls`; this program only looks its key up.
pub record RetiredCall : Type 0 where
  pub topic : String
  pub call_uuid : String

-- `Outbox::Impl` and the database behind it; `turn` is the one row of `order_scheduler`.
pub record Store : Type 0 where
  pub max_rows : ℕ
  pub max_bytes : ℕ
  pub is_open : Bool
  pub rows : List Row
  pub streams : List CallStream
  pub retired : List RetiredCall
  pub turn : ℕ

-- std::numeric_limits<int64_t>::max()
abbrev pub int64_max : ℕ
int64_max = 9223372036854775807

abbrev pub state_eq : OutboxState → OutboxState → Bool
state_eq pending pending = true
state_eq in_flight in_flight = true
state_eq dead dead = true
state_eq _ _ = false

abbrev pub mode_eq : OrderMode → OrderMode → Bool
mode_eq admission admission = true
mode_eq source source = true
mode_eq _ _ = false

-- `COALESCE(call_uuid,'')=''`.
abbrev pub is_ungrouped : Row → Bool
is_ungrouped r = is_empty r.call_uuid

abbrev pub is_call : String → String → CallStream → Bool
is_call t u s = text_eq s.topic t && text_eq s.call_uuid u

-- The row of `call_streams` for a call; its key is (topic, call_uuid).
abbrev pub find_stream : String → String → List CallStream → Option CallStream
find_stream t u ss = first_where (is_call t u) ss

-- `call_seq=(SELECT next_seq FROM call_streams s WHERE …)`, which NULL on either side fails.
abbrev pub at_cursor : Option ℕ → Option CallStream → Bool
at_cursor (some n) (some s) = n == s.next_seq
at_cursor _ _ = false

-- A row that may be sent: ungrouped, or the head of its call.
unfoldable pub is_head : List CallStream → Row → Bool
is_head ss r = is_ungrouped r || at_cursor r.call_seq (find_stream r.topic r.call_uuid ss)

-- ===== src/Operator/Events.antt =====
-- The operator events of `SqlOperatorRepository` in adapters/postgres/operator.py. A payload is a
-- list of items, and the code that builds one always sets its keys in the same order.
use autonomous_development.Prelude.{
  ℕ, zero, suc, String, List, [], ◌∷◌, ◌++◌, Option, none, some, Bool, true, false, not, ◌&&◌, ◌||◌,
  any, find, keep, sorted, count_if, is_some, ltb, leb, ◌==◌, ◌!=◌, nat_eq, string_eq, list_eq,
  if◌then◌else◌, Eq, ◌≡◌, ◌↔◌, arith,
}
use autonomous_development.Prelude.Raise.{
  Result, ok, err, raise_if, value_error, key_error, runtime_error, integrity_error, ◌>>=◌, ◌>>◌,
}
use autonomous_development.Domain.Models.{PayloadValue, Payload, OperatorEvent, event_post_init}

-- Equality of payloads.
abbrev value_beq : PayloadValue → PayloadValue → Bool
value_beq PayloadValue.null PayloadValue.null = true
value_beq (PayloadValue.text a) (PayloadValue.text b) = a == b
value_beq (PayloadValue.texts a) (PayloadValue.texts b) = a == b
value_beq (PayloadValue.count a) (PayloadValue.count b) = a == b
value_beq _ _ = false

pub value_beq_iff : (a b : PayloadValue) → (value_beq a b ≡ true) ↔ (a ≡ b)
value_beq_iff (PayloadValue.text a) (PayloadValue.text b) = ground (arith, string_eq.beq_iff a b)
value_beq_iff (PayloadValue.texts a) (PayloadValue.texts b) =
    ground (arith, (list_eq {A = String}).beq_iff a b)
value_beq_iff (PayloadValue.count a) (PayloadValue.count b) = ground (arith, nat_eq.beq_iff a b)
value_beq_iff a b = ground arith

instance abbrev pub value_eq : Eq PayloadValue
value_eq = record { beq = value_beq; beq_iff = value_beq_iff }

abbrev item_beq : String × PayloadValue → String × PayloadValue → Bool
item_beq (k, v) (l, u) = k == l && v == u

pub item_beq_iff : (a b : String × PayloadValue) → (item_beq a b ≡ true) ↔ (a ≡ b)
item_beq_iff (k, v) (l, u) = ground (arith, string_eq.beq_iff k l, value_eq.beq_iff v u)

instance abbrev pub item_eq : Eq (String × PayloadValue)
item_eq = record { beq = item_beq; beq_iff = item_beq_iff }

-- A row of the table, with its sequence number.
pub record EventRow : Type 0 where
  pub sequence : ℕ
  pub id : String
  pub request_id : Option String
  pub cycle_id : Option String
  pub event_type : String
  pub payload : Payload
  pub created_at : ℕ
  pub acknowledged_at : Option ℕ

-- The table, and the last number that its sequence has given out.
pub record EventTable : Type 0 where
  pub rows : List EventRow
  pub last_sequence : ℕ

-- `_event_values`, with the number of the row.
unfoldable pub event_values : OperatorEvent → (sequence : ℕ) → EventRow
event_values e sequence = record {
  sequence = sequence;
  id = e.id;
  request_id = e.request_id;
  cycle_id = e.cycle_id;
  event_type = e.event_type;
  payload = e.payload;
  created_at = e.created_at;
  acknowledged_at = e.acknowledged_at;
}

-- `_event_from_row`
unfoldable pub event_from_row : EventRow → Result OperatorEvent
event_from_row row = event_post_init (record {
  id = row.id;
  request_id = row.request_id;
  cycle_id = row.cycle_id;
  event_type = row.event_type;
  sequence = some row.sequence;
  payload = row.payload;
  created_at = row.created_at;
  acknowledged_at = row.acknowledged_at;
})

unfoldable pub events_from_rows : List EventRow → Result (List OperatorEvent)
unfolding event_from_row
events_from_rows [] = ok []
events_from_rows (row ∷ rows) = do
  event ← event_from_row row
  events ← events_from_rows rows
  ok (event ∷ events)

abbrev pub is_event : String → EventRow → Bool
is_event event_id row = row.id == event_id

unfoldable pub event_from_option : Option EventRow → Result (Option OperatorEvent)
unfolding event_from_row
event_from_option none = ok none
event_from_option (some row) = do event ← event_from_row row; ok (some event)

-- `_event_by_id`
unfoldable pub event_by_id : String → EventTable → Result (Option OperatorEvent)
unfolding event_from_option
event_by_id event_id t = event_from_option (find (is_event event_id) t.rows)

unfoldable pub insert_event : OperatorEvent → EventTable → Result EventTable
unfolding event_values
insert_event e t = do
  raise_if (any (is_event e.id) t.rows) integrity_error
  ok (record {
    rows = t.rows ++ event_values e (suc t.last_sequence) ∷ [];
    last_sequence = suc t.last_sequence;
  })

-- An event that is stored already has to have the same content.
unfoldable pub same_event : (event existing : OperatorEvent) → Result OperatorEvent
same_event event existing = do
  raise_if (existing.payload != event.payload || existing.event_type != event.event_type)
      value_error
  ok existing

abbrev pub readable : Option OperatorEvent → Result OperatorEvent
readable none = err runtime_error
readable (some stored) = ok stored

unfoldable pub settle_event :
    OperatorEvent → EventTable → Result EventTable → Result OperatorEvent × EventTable
unfolding event_by_id
settle_event e t (ok t') = (do stored ← event_by_id e.id t'; readable stored, t')
settle_event e t (err x) = (err x, t)

unfoldable pub append_found :
    OperatorEvent → Result (Option OperatorEvent) → EventTable → Result OperatorEvent × EventTable
unfolding same_event settle_event insert_event
append_found e (err x) t = (err x, t)
append_found e (ok (some existing)) t = (same_event e existing, t)
append_found e (ok none) t =
    if is_some e.sequence then (err value_error, t) else settle_event e t (insert_event e t)

unfoldable pub append_event : OperatorEvent → EventTable → Result OperatorEvent × EventTable
unfolding append_found event_by_id
append_event e t = append_found e (event_by_id e.id t) t

-- The rows of a page: `WHERE sequence > after ORDER BY sequence LIMIT limit`.
abbrev pub is_after : ℕ → EventRow → Bool
is_after after row = ltb after row.sequence

abbrev pub not_later : EventRow → EventRow → Bool
not_later a b = leb a.sequence b.sequence

abbrev pub take {ℓ} : {A : Type ℓ} → ℕ → List A → List A
take zero xs = []
take (suc n) [] = []
take (suc n) (x ∷ xs) = x ∷ take n xs

unfoldable pub page : (after limit : ℕ) → List EventRow → List EventRow
page after limit rows = take limit (sorted not_later (keep (is_after after) rows))

-- An integer, which a caller may give as a cursor or a limit.
pub data ℤ : Type 0 where
  pos : ℕ → ℤ
  negsuc : ℕ → ℤ

unfoldable pub list_events : (after limit : ℤ) → EventTable → Result (List OperatorEvent)
unfolding events_from_rows page
list_events (pos after) (pos limit) t = do
  raise_if (not (leb 1 limit && leb limit 500)) value_error
  events_from_rows (page after limit t.rows)
list_events (pos after) (negsuc limit) t = err value_error
list_events (negsuc after) limit t = err value_error

-- `UPDATE operator_events SET acknowledged_at WHERE id`
unfoldable pub acknowledge_rows : String → ℕ → List EventRow → List EventRow
acknowledge_rows event_id acknowledged_at [] = []
acknowledge_rows event_id acknowledged_at (row ∷ rows) =
    let rest = acknowledge_rows event_id acknowledged_at rows in
    if is_event event_id row
    then record row { acknowledged_at = some acknowledged_at } ∷ rest
    else row ∷ rest

unfoldable pub acknowledge_found :
    (event_id : String)
    → (acknowledged_at : ℕ) → Result (Option OperatorEvent)
    → EventTable
    → Result OperatorEvent × EventTable
unfolding event_by_id acknowledge_rows
acknowledge_found event_id acknowledged_at (err x) t = (err x, t)
acknowledge_found event_id acknowledged_at (ok none) t = (err key_error, t)
acknowledge_found event_id acknowledged_at (ok (some existing)) t =
    if is_some existing.acknowledged_at
    then (ok existing, t)
    else (let t' = record t { rows = acknowledge_rows event_id acknowledged_at t.rows } in
        (do updated ← event_by_id event_id t'; readable updated, t'))

unfoldable pub acknowledge_event :
    (event_id : String) → (acknowledged_at : ℕ) → EventTable → Result OperatorEvent × EventTable
unfolding acknowledge_found event_by_id
acknowledge_event event_id acknowledged_at t =
    acknowledge_found event_id acknowledged_at (event_by_id event_id t) t

abbrev pub is_pending : EventRow → Bool
is_pending row = not (is_some row.acknowledged_at)

unfoldable pub pending_event_count : EventTable → ℕ
pending_event_count t = count_if is_pending t.rows

-- `max(sequence)`, or 0 for an empty table.
unfoldable pub max_sequence : List EventRow → ℕ
max_sequence [] = 0
max_sequence (row ∷ rows) =
    let rest = max_sequence rows in if ltb rest row.sequence then row.sequence else rest

unfoldable pub latest_event_sequence : EventTable → ℕ
unfolding max_sequence
latest_event_sequence t = max_sequence t.rows

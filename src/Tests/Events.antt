-- ===== src/Tests/Events.antt =====
-- The operator's events on a small table.
use autonomous_development.Prelude.{
  ℕ, suc, ◌+◌, ◌≤◌, ◌≡◌, refl, String, List, [], ◌∷◌, ◌++◌, Option, none, some, All, length,
  get_last?, arith,
}
use autonomous_development.Prelude.Raise.{ok}
use autonomous_development.Domain.Models.{OperatorEvent, PayloadValue, event_post_init}
use autonomous_development.Operator.Events.{EventRow, EventTable, pos, list_events}
use autonomous_development.Operator.Cursor.{IsOrdered, IsNumbered}
use autonomous_development.Operator.Pages.{IsAfter, list_events_bounds, list_events_resume}

abbrev row : ℕ → String → EventRow
row sequence id = record {
  sequence = sequence;
  id = id;
  request_id = some "q";
  cycle_id = none;
  event_type = "cancelled";
  payload = ("request_id", PayloadValue.text "q") ∷ [];
  created_at = 3;
  acknowledged_at = none;
}

abbrev event : ℕ → String → OperatorEvent
event sequence id = record {
  id = id;
  request_id = some "q";
  cycle_id = none;
  event_type = "cancelled";
  sequence = some sequence;
  payload = ("request_id", PayloadValue.text "q") ∷ [];
  created_at = 3;
  acknowledged_at = none;
}

abbrev table : EventTable
table = record { rows = row 1 "a" ∷ row 3 "b" ∷ row 4 "d" ∷ row 6 "e" ∷ []; last_sequence = 6 }

table-IsNumbered : IsNumbered table
unfolding IsOrdered
table-IsNumbered = (
  (omega arith, (omega arith, (omega arith, (omega arith, tt)))),
  (omega arith, (omega arith, (omega arith, (omega arith, tt)))),
)

list_events_bounds_example :
    (n : ℕ) × (l : ℕ) × (pos 1 ≡ pos n)
    × (pos 2 ≡ pos l)
    × (1 ≤ l)
    × (l ≤ 500)
    × (length (event 3 "b" ∷ event 4 "d" ∷ []) ≤ l)
    × All (IsAfter n) (event 3 "b" ∷ event 4 "d" ∷ [])
unfolding list_events autonomous_development.Prelude.sorted event_post_init
    autonomous_development.Prelude.is_blank
list_events_bounds_example =
    list_events_bounds (pos 1) (pos 2) table (event 3 "b" ∷ event 4 "d" ∷ []) table-IsNumbered refl

list_events_resume_example :
    list_events (pos 1) (pos (2 + 5)) table ≡ ok (event 3 "b" ∷ event 4 "d" ∷ event 6 "e" ∷ [])
unfolding list_events autonomous_development.Prelude.sorted event_post_init
    autonomous_development.Prelude.is_blank
list_events_resume_example =
    list_events_resume (pos 1) 2 5 4 table (event 3 "b" ∷ event 4 "d" ∷ []) (event 6 "e" ∷ [])
      (event 4 "d") table-IsNumbered (omega arith) refl refl refl refl

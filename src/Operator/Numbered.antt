-- ===== src/Operator/Numbered.antt =====
-- The numbers of events: `append_event` and `acknowledge_event` of adapters/postgres/operator.py.
use autonomous_development.Prelude.{
  ℕ, suc, ◌≤◌, String, List, [], ◌∷◌, ◌++◌, Option, none, some, All, nat_eq, string_eq, ◌≡◌, refl,
  subst, arith, inl, inr, Bool-cases, is_some,
}
use autonomous_development.Prelude.Raise.{Result, ok, err}
use autonomous_development.Domain.Models.{OperatorEvent}
use autonomous_development.Operator.Events.{
  EventRow, EventTable, event_values, event_by_id, insert_event, settle_event, append_found,
  append_event, acknowledge_rows,
}
use autonomous_development.Operator.Cursor.{IsOrdered, IsNumbered}

append-IsOrdered :
    (low top : ℕ) (rows : List EventRow) (row : EventRow)
    → low ≤ top
    → IsOrdered low rows
    → All (λ (x : EventRow). x.sequence ≤ top) rows
    → row.sequence ≡ suc top
    → IsOrdered low (rows ++ row ∷ [])
unfolding IsOrdered
append-IsOrdered low top [] row h o below n = (ground arith, tt)
append-IsOrdered low top (x ∷ rows) row h (first, rest) (bound, below) n =
    (first, append-IsOrdered x.sequence top rows row bound rest below n)

append-below :
    (top : ℕ) (rows : List EventRow) (row : EventRow)
    → All (λ (x : EventRow). x.sequence ≤ top) rows
    → row.sequence ≡ suc top
    → All (λ (x : EventRow). x.sequence ≤ suc top) (rows ++ row ∷ [])
append-below top [] row below n = (ground arith, tt)
append-below top (x ∷ rows) row (bound, below) n = (omega arith, append-below top rows row below n)

insert_event-IsNumbered :
    (e : OperatorEvent) (t t' : EventTable)
    → IsNumbered t
    → insert_event e t ≡ ok t'
    → IsNumbered t'
unfolding insert_event event_values
insert_event-IsNumbered e t t' (ordered, below) h =
    let row = event_values e (suc t.last_sequence) in
    let made : record { rows = t.rows ++ row ∷ []; last_sequence = suc t.last_sequence } ≡ t' =
      ground arith in
    subst IsNumbered made (
      append-IsOrdered 0 t.last_sequence t.rows row (omega arith) ordered below refl,
      append-below t.last_sequence t.rows row below refl,
    )

settle_event-IsNumbered :
    (e : OperatorEvent) (t : EventTable) (written : Result EventTable)
    → insert_event e t ≡ written
    → IsNumbered t
    → IsNumbered (settle_event e t written).1
unfolding settle_event
settle_event-IsNumbered e t (ok t') h n = insert_event-IsNumbered e t t' n h
settle_event-IsNumbered e t (err x) h n = n

append_found-IsNumbered :
    (e : OperatorEvent) (t : EventTable) (m : Result (Option OperatorEvent))
    → IsNumbered t
    → IsNumbered (append_found e m t).1
unfolding append_found
append_found-IsNumbered e t (err x) n = n
append_found-IsNumbered e t (ok (some existing)) n = n
append_found-IsNumbered e t (ok none) n = elim (Bool-cases (is_some e.sequence)) [
  | inl numbered ↦ let k : t ≡ (append_found e (ok none) t).1 = ground arith in subst IsNumbered k n
  | inr plain ↦
      let k : (settle_event e t (insert_event e t)).1 ≡ (append_found e (ok none) t).1 =
        ground arith in
      subst IsNumbered k (settle_event-IsNumbered e t (insert_event e t) refl n)
]

-- `append_event` keeps the events numbered in the order in which they were appended, whether it
-- returns or raises.
pub append_event-IsNumbered :
    (e : OperatorEvent) (t : EventTable) → IsNumbered t → IsNumbered (append_event e t).1
unfolding append_event
append_event-IsNumbered e t n = append_found-IsNumbered e t (event_by_id e.id t) n

acknowledge-IsOrdered :
    (low : ℕ) (id : String) (at : ℕ) (rows : List EventRow)
    → IsOrdered low rows
    → IsOrdered low (acknowledge_rows id at rows)
unfolding IsOrdered acknowledge_rows
acknowledge-IsOrdered low id at [] o = tt
acknowledge-IsOrdered low id at (row ∷ rows) (first, rest) =
    let k = acknowledge-IsOrdered row.sequence id at rows rest in ground arith

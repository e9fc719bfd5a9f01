-- ===== src/Cycles/Sound.antt =====
-- The cycle table by the states that it stores, whatever flag stands beside them: `_cycle_values`
-- and `commit_transition` of adapters/postgres/cycles.py, and the index of one active cycle of
-- adapters/postgres/schema.py.
use autonomous_development.Prelude.{
  ℕ, ◌≤◌, ◌≡◌, refl, String, List, [], ◌∷◌, none, some, Bool, false, not, ◌&&◌, any, count_if, ◌==◌,
  string_eq, arith, inl, inr, if◌then◌else◌, Bool-cases,
}
use autonomous_development.Prelude.Raise.{Result, ok, err, integrity_error, Result-cases}
use autonomous_development.Domain.Enums.{CycleState, parse_cycle_state, parse_cycle_state-value}
use autonomous_development.Domain.Models.{DevelopmentCycle}
use autonomous_development.Domain.Transitions.Table.{is_terminal}
use autonomous_development.Cycles.Rows.{CycleRow, cycle_values}
use autonomous_development.Cycles.Sql.{
  CycleDb, get_transition, has_id, is_active, stands_at, update_rows, write_transition, settle,
  commit_transition,
}
use autonomous_development.Cycles.Constraints.{
  IsConsistent, write_facts, commit_transition-IsConsistent,
}

-- The state that the row stores is a terminal one.
abbrev pub has_ended : CycleRow → Bool
has_ended row = elim (parse_cycle_state row.state) [ none ↦ false | some s ↦ is_terminal s ]

-- The row stores a state of the target that is not terminal.
abbrev pub is_open : (target_id : String) → CycleRow → Bool
is_open target_id row = row.target_id == target_id && not (has_ended row)

-- The flag of the row does not agree with its state.
abbrev pub misflagged : CycleRow → Bool
misflagged row = if row.is_terminal then not (has_ended row) else has_ended row

-- No id is stored twice, no target has two rows whose states are not terminal, and the flag of
-- each row agrees with its state.
pub record IsSound (db : CycleDb) : Type 0 where
  pub unique_id : (id : String) → count_if (has_id id) db.cycles ≤ 1
  pub one_open : (target_id : String) → count_if (is_open target_id) db.cycles ≤ 1
  pub flagged : any misflagged db.cycles ≡ false

open-active :
    (t : String) (rows : List CycleRow)
    → any misflagged rows ≡ false
    → count_if (is_open t) rows ≡ count_if (is_active t) rows
open-active t [] h = refl
open-active t (r ∷ rows) h = elim (Bool-cases r.is_terminal) [
  | inl x ↦ ground (arith, open-active t rows)
  | inr x ↦ ground (arith, open-active t rows)
]

IsSound-IsConsistent : (db : CycleDb) → IsSound db → IsConsistent db
IsSound-IsConsistent db h = record {
  unique_id = h.unique_id;
  one_active = λ t. omega (arith, open-active t db.cycles h.flagged, h.one_open t);
}

consistent-IsSound :
    (db : CycleDb) → IsConsistent db → any misflagged db.cycles ≡ false → IsSound db
consistent-IsSound db h f = record {
  unique_id = h.unique_id;
  one_open = λ t. omega (arith, open-active t db.cycles f, h.one_active t);
  flagged = f;
}

-- A row that is written has the flag of its state.
cycle_values-flagged : (c : DevelopmentCycle) → misflagged (cycle_values c) ≡ false
unfolding cycle_values
cycle_values-flagged c = ground (arith, parse_cycle_state-value c.state)

update_rows-flagged :
    (i : String) (v : ℕ) (row : CycleRow) (rows : List CycleRow)
    → misflagged row ≡ false
    → any misflagged rows ≡ false
    → any misflagged (update_rows i v row rows) ≡ false
unfolding update_rows
update_rows-flagged i v row [] n h = refl
update_rows-flagged i v row (r ∷ rows) n h = elim (Bool-cases (stands_at i v r)) [
  | inl x ↦ ground (arith, update_rows-flagged i v row rows)
  | inr x ↦ ground (arith, update_rows-flagged i v row rows)
]

settle-flagged :
    (c : DevelopmentCycle) (v : ℕ) (op : String) (to : CycleState) (db : CycleDb)
    (r : Result CycleDb)
    → write_transition c v op to db ≡ r
    → any misflagged db.cycles ≡ false
    → any misflagged (settle c v op to db r).1.cycles ≡ false
unfolding settle
settle-flagged c v op to db (ok db') e h =
    let (fresh, free, one, made) = write_facts c v op to db db' e in
    rw made (update_rows-flagged c.id v (cycle_values c) db.cycles (cycle_values-flagged c) h)
settle-flagged c v op to db (err integrity_error) e h = h
settle-flagged c v op to db (err _) e h = h

commit_transition-flagged :
    (c : DevelopmentCycle) (v : ℕ) (op : String) (to : CycleState) (db : CycleDb)
    → any misflagged db.cycles ≡ false
    → any misflagged (commit_transition c v op to db).1.cycles ≡ false
unfolding commit_transition
commit_transition-flagged c v op to db h = elim (Result-cases (get_transition op db)) [
  | inr (x, e) ↦ rw (e, commit_transition) h
  | inl (none, e) ↦
      rw (e, commit_transition) (settle-flagged c v op to db (write_transition c v op to db) refl h)
  | inl (some r, e) ↦ rw (e, commit_transition) h
]

-- `commit_transition` keeps the table sound on every path, errors included: no id is stored twice,
-- no target has two rows whose stored states are not terminal, and the stored flag of each row
-- agrees with its stored state.
pub commit_transition-IsSound :
    (c : DevelopmentCycle) (v : ℕ) (op : String) (to : CycleState) (db : CycleDb)
    → IsSound db
    → IsSound (commit_transition c v op to db).1
commit_transition-IsSound c v op to db h =
    consistent-IsSound (commit_transition c v op to db).1
      (commit_transition-IsConsistent c v op to db (IsSound-IsConsistent db h))
      (commit_transition-flagged c v op to db h.flagged)

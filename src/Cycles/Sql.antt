-- ===== src/Cycles/Sql.antt =====
-- `SqlCycleRepository` of adapters/postgres/cycles.py over the two tables. A transaction that fails
-- is rolled back, so each method is one step on the database; `integrity_error` is the driver's
-- `IntegrityError`, raised by a primary key or by the index of one active cycle for each target.
use autonomous_development.Prelude.{
  ℕ, String, List, [], ◌∷◌, ◌++◌, Option, none, some, Bool, not, ◌&&◌, ◌||◌, any, find, count_if,
  ◌==◌, ◌!=◌, nat_eq, string_eq, if◌then◌else◌,
}
use autonomous_development.Prelude.Raise.{
  Error, Result, ok, err, raise_if, value_error, integrity_error, concurrent_cycle,
  concurrent_update, operation_conflict, ◌>>=◌, ◌>>◌,
}
use autonomous_development.Domain.Enums.{CycleState, cycle_state_eq}
use autonomous_development.Domain.Models.{DevelopmentCycle}
use autonomous_development.Cycles.Repository.{TransitionReceipt, receipt_of, CycleRepository}
use autonomous_development.Cycles.Rows.{
  CycleRow, TransitionRow, cycle_values, cycle_from_row, receipt_values, receipt_from_row,
}

pub record CycleDb : Type 0 where
  pub cycles : List CycleRow
  pub transitions : List TransitionRow

-- The row of a query, converted, or `None`.
abbrev pub read_row {ℓ κ} :
    {R : Type ℓ} {A : Type κ} → (R → Result A) → Option R → Result (Option A)
read_row convert none = ok none
read_row convert (some row) = do a ← convert row; ok (some a)

abbrev pub has_id : String → CycleRow → Bool
has_id id row = row.id == id

abbrev pub is_active : String → CycleRow → Bool
is_active target_id row = row.target_id == target_id && not row.is_terminal

abbrev pub has_operation : String → TransitionRow → Bool
has_operation operation_id row = row.operation_id == operation_id

unfoldable pub get : String → CycleDb → Result (Option DevelopmentCycle)
get id db = read_row cycle_from_row (find (has_id id) db.cycles)

unfoldable pub find_active_for_target : String → CycleDb → Result (Option DevelopmentCycle)
find_active_for_target target_id db = read_row cycle_from_row (find (is_active target_id) db.cycles)

unfoldable pub get_transition : String → CycleDb → Result (Option TransitionReceipt)
get_transition operation_id db =
    read_row receipt_from_row (find (has_operation operation_id) db.transitions)

-- The `insert` statement, with the primary key and the partial unique index.
unfoldable pub insert_cycle : CycleRow → CycleDb → Result CycleDb
insert_cycle row db = do
  raise_if (any (has_id row.id) db.cycles) integrity_error
  raise_if (not row.is_terminal && any (is_active row.target_id) db.cycles) integrity_error
  ok (record db { cycles = db.cycles ++ row ∷ [] })

-- `except IntegrityError` of `add`: what the database holds says which constraint it was.
unfoldable pub explain_add : DevelopmentCycle → CycleDb → Result DevelopmentCycle
explain_add c db = do
  same ← get c.id db
  elim same [
    | some other ↦ err value_error
    | none ↦ do
      active ← find_active_for_target c.target_id db
      elim active [ some other ↦ err concurrent_cycle | none ↦ err integrity_error ]
  ]

unfoldable pub add : DevelopmentCycle → CycleDb → Result DevelopmentCycle × CycleDb
add c db = elim (insert_cycle (cycle_values c) db) [
  | ok db' ↦ (ok c, db')
  | err e ↦ (explain_add c db, db)
]

abbrev pub stands_at : String → ℕ → CycleRow → Bool
stands_at id version row = row.id == id && row.version == version

-- `update ... where id and version`
unfoldable pub update_rows : String → ℕ → CycleRow → List CycleRow → List CycleRow
update_rows id version row [] = []
update_rows id version row (r ∷ rows) =
    (if stands_at id version r then row else r) ∷ update_rows id version row rows

-- Another active cycle for the target of the new row.
abbrev pub clashes : CycleRow → CycleRow → Bool
clashes row r = not row.is_terminal && is_active row.target_id r && not (r.id == row.id)

-- The body of the transaction: the receipt first, then the conditional update.
unfoldable pub write_transition :
    DevelopmentCycle
    → (expected_version : ℕ) → (operation_id : String) → CycleState
    → CycleDb
    → Result CycleDb
write_transition c v op to db =
    let row = cycle_values c in
    do
      raise_if (any (has_operation op) db.transitions) integrity_error
      raise_if (any (clashes row) db.cycles && any (stands_at c.id v) db.cycles) integrity_error
      raise_if (count_if (stands_at c.id v) db.cycles != 1) concurrent_update
      ok (record {
        cycles = update_rows c.id v row db.cycles;
        transitions = db.transitions ++ receipt_values (receipt_of c v op to) ∷ [];
      })

-- `_validate_existing_receipt`
unfoldable pub validate_existing_receipt :
    TransitionReceipt → DevelopmentCycle → ℕ → CycleState → Result TransitionReceipt
validate_existing_receipt r c v to = do
  raise_if
      (r.cycle_id != c.id
        || r.from_version != v
        || r.result_version != c.version
        || r.to_state != to)
      operation_conflict
  ok r

-- The outcome where the receipt is there already.
unfoldable pub replayed :
    Option TransitionReceipt → DevelopmentCycle → ℕ → CycleState → Error → Result TransitionReceipt
unfolding validate_existing_receipt
replayed none c v to e = err e
replayed (some r) c v to e = validate_existing_receipt r c v to

-- The `try` around the transaction.
unfoldable pub settle :
    DevelopmentCycle
    → ℕ
    → (operation_id : String) → CycleState
    → CycleDb
    → Result CycleDb
    → Result TransitionReceipt × CycleDb
unfolding replayed
settle c v op to db (ok db') = (ok (receipt_of c v op to), db')
settle c v op to db (err integrity_error) =
    (do existing ← get_transition op db; replayed existing c v to integrity_error, db)
settle c v op to db (err e) = (err e, db)

unfoldable pub commit_transition :
    DevelopmentCycle
    → (expected_version : ℕ) → (operation_id : String) → CycleState
    → CycleDb
    → Result TransitionReceipt × CycleDb
commit_transition c v op to db = elim (get_transition op db) [
  | err e ↦ (err e, db)
  | ok (some r) ↦ (validate_existing_receipt r c v to, db)
  | ok none ↦ settle c v op to db (write_transition c v op to db)
]

abbrev pub sql_repository : CycleRepository CycleDb
sql_repository = record {
  add = add;
  get = get;
  find_active_for_target = find_active_for_target;
  get_transition = get_transition;
  commit_transition = commit_transition;
}

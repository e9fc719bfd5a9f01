-- ===== src/Cycles/Commit.antt =====
-- `commit_transition` of adapters/postgres/cycles.py: what it reads, writes and leaves alone, and the
-- laws of the protocol.
use autonomous_development.Prelude.{
  ℕ, ◌≤◌, ◌≡◌, ◌≢◌, refl, sym, ap, ◌∙◌, String, List, [], ◌∷◌, ◌++◌, none, some, false, any, find,
  count_if, ◌==◌, string_eq, nat_eq, arith, Bool-cases, ◌⊎◌, inl, inr,
}
use autonomous_development.Prelude.Raise.{
  Error, Result, ok, err, integrity_error, Result-cases, >>=-eq-ok,
}
use autonomous_development.Domain.Enums.{CycleState}
use autonomous_development.Domain.Models.{DevelopmentCycle, cycle_post_init}
use autonomous_development.Cycles.Repository.{TransitionReceipt, receipt_of, IsLawful}
use autonomous_development.Cycles.Rows.{
  CycleRow, TransitionRow, cycle_values, cycle_from_row, cycle_from_row-values, receipt_values,
  receipt_from_row-values,
}
use autonomous_development.Cycles.Sql.{
  CycleDb, read_row, has_id, has_operation, stands_at, get, get_transition, update_rows,
  write_transition, settle, commit_transition, sql_repository,
}
use autonomous_development.Cycles.Constraints.{
  IsConsistent, write_facts, commit_transition-IsConsistent,
}

stands-le-id :
    (i : String) (v : ℕ) (rows : List CycleRow)
    → count_if (stands_at i v) rows ≤ count_if (has_id i) rows
stands-le-id i v [] = omega arith
stands-le-id i v (r ∷ rows) = ground (arith, stands-le-id i v rows)

-- The row that the update finds, and the row that it leaves.
find-update :
    (i : String) (v : ℕ) (row : CycleRow) (rows : List CycleRow)
    → row.id ≡ i
    → count_if (has_id i) rows ≤ 1
    → count_if (stands_at i v) rows ≡ 1
    → find (has_id i) (update_rows i v row rows) ≡ some row
unfolding update_rows
find-update i v row [] h u c = cc
find-update i v row (r ∷ rows) h u c = elim (Bool-cases (r.id == i)) [
  | inl own ↦ ground (arith, stands-le-id i v rows, string_eq.beq_iff row.id i)
  | inr other ↦ ground (arith, find-update i v row rows)
]

find-stands :
    (i : String) (v : ℕ) (rows : List CycleRow)
    → count_if (has_id i) rows ≤ 1
    → count_if (stands_at i v) rows ≡ 1
    → (r : CycleRow) × (find (has_id i) rows ≡ some r) × (r.version ≡ v)
find-stands i v [] u c = cc
find-stands i v (r ∷ rows) u c = elim (Bool-cases (r.id == i)) [
  | inl own ↦ (r, ground arith, ground (arith, stands-le-id i v rows))
  | inr other ↦
      let (q, e, w) = find-stands i v rows (ground arith) (ground arith) in (q, ground arith, w)
]

find-update_other :
    (i j : String) (v : ℕ) (row : CycleRow) (rows : List CycleRow)
    → row.id ≡ i
    → i ≢ j
    → find (has_id j) (update_rows i v row rows) ≡ find (has_id j) rows
unfolding update_rows
find-update_other i j v row [] h n = refl
find-update_other i j v row (r ∷ rows) h n = ground (
  arith,
  find-update_other i j v row rows,
  string_eq.beq_iff r.id i,
  string_eq.beq_iff row.id j,
  string_eq.beq_iff r.id j,
)

find_new_operation :
    (op : String) (rows : List TransitionRow) (row : TransitionRow)
    → any (has_operation op) rows ≡ false
    → row.operation_id ≡ op
    → find (has_operation op) (rows ++ row ∷ []) ≡ some row
find_new_operation op [] row n e = ground (arith, string_eq.beq_iff row.operation_id op)
find_new_operation op (r ∷ rows) row n e = ground (arith, find_new_operation op rows row)

settled :
    (c : DevelopmentCycle) (v : ℕ) (op : String) (to : CycleState) (db : CycleDb)
    (r : Result CycleDb)
    → ((settle c v op to db r).1 ≡ db)
      ⊎ ((r ≡ ok (settle c v op to db r).1)
          × ((settle c v op to db r).0 ≡ ok (receipt_of c v op to)))
unfolding settle
settled c v op to db (ok db') = inr (refl, refl)
settled c v op to db (err integrity_error) = inl refl
settled c v op to db (err _) = inl refl

commit_new :
    (c : DevelopmentCycle) (v : ℕ) (op : String) (to : CycleState) (db : CycleDb)
    → get_transition op db ≡ ok none
    → commit_transition c v op to db ≡ settle c v op to db (write_transition c v op to db)
unfolding commit_transition
commit_new c v op to db e = rw (e, commit_transition)

-- A commit is all or nothing: the store that it leaves is the one that it found, or the one that
-- the transaction wrote, and then the receipt was not there before and is the result.
pub commit_outcome :
    (c : DevelopmentCycle) (v : ℕ) (op : String) (to : CycleState) (db : CycleDb)
    → ((commit_transition c v op to db).1 ≡ db)
      ⊎ ((write_transition c v op to db ≡ ok (commit_transition c v op to db).1)
          × (get_transition op db ≡ ok none)
          × ((commit_transition c v op to db).0 ≡ ok (receipt_of c v op to)))
unfolding commit_transition
commit_outcome c v op to db = elim (Result-cases (get_transition op db)) [
  | inr (x, e) ↦ inl (rw (e, commit_transition) refl)
  | inl (some r, e) ↦ inl (rw (e, commit_transition) refl)
  | inl (none, e) ↦ elim (settled c v op to db (write_transition c v op to db)) [
    | inl same ↦ inl (ap (λ p. p.1) (commit_new c v op to db e) ∙ same)
    | inr (written, made) ↦ inr (
      written ∙ ap (λ p. ok p.1) (sym (commit_new c v op to db e)),
      e,
      ap (λ p. p.0) (commit_new c v op to db e) ∙ made,
    )
  ]
]

-- No update is lost: on a consistent database, whatever other commits ran since the caller read
-- the cycle, a commit that changes the database found the cycle stored at the version that the
-- caller expected, leaves exactly the caller's cycle in its place, and touches no cycle of
-- another id.
pub commit_no_lost_update :
    (c : DevelopmentCycle) (v : ℕ) (op : String) (to : CycleState) (db : CycleDb)
    → IsConsistent db
    → let db' = (commit_transition c v op to db).1 in
      (db' ≡ db)
      ⊎ (((r : CycleRow) × (find (has_id c.id) db.cycles ≡ some r) × (r.version ≡ v))
          × (find (has_id c.id) db'.cycles ≡ some (cycle_values c))
          × ((j : String) → c.id ≢ j → find (has_id j) db'.cycles ≡ find (has_id j) db.cycles))
commit_no_lost_update c v op to db h = elim (commit_outcome c v op to db) [
  | inl same ↦ inl same
  | inr (written, fresh, made) ↦
      let (unused, free, one, result) =
        write_facts c v op to db (commit_transition c v op to db).1 written in
      let own : (cycle_values c).id ≡ c.id = unfold cycle_values in refl in
      inr (
        find-stands c.id v db.cycles (h.unique_id c.id) one,
        rw result (find-update c.id v (cycle_values c) db.cycles own (h.unique_id c.id) one),
        λ j n. rw result (find-update_other c.id j v (cycle_values c) db.cycles own n),
      )
]

get_of_find :
    (id : String) (db : CycleDb) (c : DevelopmentCycle)
    → cycle_post_init c ≡ ok c
    → find (has_id id) db.cycles ≡ some (cycle_values c)
    → get id db ≡ ok (some c)
unfolding get
get_of_find id db c v h = rw (h, cycle_from_row-values c v)

get_transition_of_find :
    (op : String) (db : CycleDb) (r : TransitionReceipt)
    → find (has_operation op) db.transitions ≡ some (receipt_values r)
    → get_transition op db ≡ ok (some r)
unfolding get_transition
get_transition_of_find op db r h = rw (h, receipt_from_row-values r)

settle_ok :
    (c : DevelopmentCycle) (v : ℕ) (op : String) (to : CycleState) (db db' : CycleDb)
    (r : TransitionReceipt) (w : Result CycleDb)
    → settle c v op to db w ≡ (ok r, db')
    → get_transition op db ≡ ok none
    → w ≡ ok db'
unfolding settle
settle_ok c v op to db db' r (ok d) e fresh = cc e
settle_ok c v op to db db' r (err integrity_error) e fresh = ground arith
settle_ok c v op to db db' r (err _) e fresh = ground arith

commit_ok :
    (c : DevelopmentCycle) (v : ℕ) (op : String) (to : CycleState) (db db' : CycleDb)
    (r : TransitionReceipt)
    → IsConsistent db
    → cycle_post_init c ≡ ok c
    → get_transition op db ≡ ok none
    → commit_transition c v op to db ≡ (ok r, db')
    → (get_transition op db' ≡ ok (some (receipt_of c v op to))) × (get c.id db' ≡ ok (some c))
commit_ok c v op to db db' r h valid fresh e =
    let written =
      settle_ok c v op to db db' r (write_transition c v op to db)
        (sym (commit_new c v op to db fresh) ∙ e) fresh in
    let (unused, free, one, result) = write_facts c v op to db db' written in
    let own : (cycle_values c).id ≡ c.id = unfold cycle_values in refl in
    let named : (receipt_values (receipt_of c v op to)).operation_id ≡ op =
      unfold receipt_values in refl in
    (
      get_transition_of_find op db' (receipt_of c v op to) (
          rw result (
            find_new_operation op db.transitions (receipt_values (receipt_of c v op to)) unused
              named)),
      get_of_find c.id db' c valid
          (rw result (find-update c.id v (cycle_values c) db.cycles own (h.unique_id c.id) one)),
    )

commit_err :
    (c : DevelopmentCycle) (v : ℕ) (op : String) (to : CycleState) (db db' : CycleDb) (x : Error)
    → commit_transition c v op to db ≡ (err x, db')
    → db' ≡ db
commit_err c v op to db db' x e = elim (commit_outcome c v op to db) [
  | inl same ↦ sym (ap (λ p. p.1) e) ∙ same
  | inr (written, fresh, made) ↦ absurd (cc (ap (λ p. p.0) e))
]

read_some :
    (r : CycleRow) (c : DevelopmentCycle)
    → read_row cycle_from_row (some r) ≡ ok (some c)
    → cycle_from_row r ≡ ok c
read_some r c h = let (a, e, k) = >>=-eq-ok (cycle_from_row r) _ h in e ∙ ap ok (cc k)

read_ok :
    (id : String) (rows : List CycleRow) (c : DevelopmentCycle)
    → read_row cycle_from_row (find (has_id id) rows) ≡ ok (some c)
    → (r : CycleRow) × (r.id ≡ id) × (cycle_from_row r ≡ ok c)
read_ok id [] c h = cc
read_ok id (r ∷ rows) c h = elim (Bool-cases (r.id == id)) [
  | inl own ↦ (r, (string_eq.beq_iff r.id id).0 own, read_some r c (rw own at h))
  | inr other ↦ read_ok id rows c (rw other at h)
]

row_valid :
    (r : CycleRow) (c : DevelopmentCycle)
    → cycle_from_row r ≡ ok c
    → (c.id ≡ r.id) × (cycle_post_init c ≡ ok c)
unfolding cycle_from_row cycle_post_init
row_valid r c h = ground arith

get_ok :
    (id : String) (db : CycleDb) (c : DevelopmentCycle)
    → get id db ≡ ok (some c)
    → (c.id ≡ id) × (cycle_post_init c ≡ ok c)
unfolding get
get_ok id db c h =
    let (r, own, e) = read_ok id db.cycles c h in
    let (same, valid) = row_valid r c e in (same ∙ own, valid)

-- The SQL repository meets the protocol's laws on every consistent database.
pub sql_repository-IsLawful : IsLawful sql_repository IsConsistent
sql_repository-IsLawful = record {
  commit-Valid = commit_transition-IsConsistent;
  get-ok = get_ok;
  commit-err = commit_err;
  commit-ok = commit_ok;
}

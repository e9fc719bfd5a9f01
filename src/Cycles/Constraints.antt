-- ===== src/Cycles/Constraints.antt =====
-- The two constraints of the cycle table, and the methods of adapters/postgres/cycles.py that write
-- to it.
use autonomous_development.Prelude.{
  ℕ, ◌+◌, ◌≤◌, ◌≡◌, refl, String, List, [], ◌∷◌, ◌++◌, none, some, Bool, true, false, not, ◌&&◌,
  any, count_if, count_if-append, count_if-eq-zero, ◌==◌, string_eq, nat_eq, arith, Bool-cases, inl,
  inr, subst,
}
use autonomous_development.Prelude.Raise.{Result, ok, err, integrity_error, Result-cases}
use autonomous_development.Domain.Enums.{CycleState}
use autonomous_development.Domain.Models.{DevelopmentCycle}
use autonomous_development.Cycles.Repository.{receipt_of}
use autonomous_development.Cycles.Rows.{CycleRow, cycle_values, receipt_values}
use autonomous_development.Cycles.Sql.{
  CycleDb, has_operation, get_transition, has_id, is_active, stands_at, clashes, insert_cycle, add,
  update_rows, write_transition, settle, commit_transition,
}

-- No id is stored twice, and no target has two rows that are flagged active.
pub record IsConsistent (db : CycleDb) : Type 0 where
  pub unique_id : (id : String) → count_if (has_id id) db.cycles ≤ 1
  pub one_active : (target_id : String) → count_if (is_active target_id) db.cycles ≤ 1

single : (p : CycleRow → Bool) (row : CycleRow) → count_if p (row ∷ []) ≤ 1
single p row = ground arith

append_id :
    (row : CycleRow) (xs : List CycleRow) (id : String)
    → any (has_id row.id) xs ≡ false
    → count_if (has_id id) xs ≤ 1
    → count_if (has_id id) (xs ++ row ∷ []) ≤ 1
append_id row xs id new h = elim (Bool-cases (row.id == id)) [
  | inl same ↦
      let p = (string_eq.beq_iff row.id id).0 same in
      let z : count_if (has_id id) xs ≡ 0 = count_if-eq-zero (has_id id) xs (rw p at new) in
      ground (arith, count_if-append (has_id id) xs (row ∷ []), single (has_id id) row)
  | inr other ↦ ground (arith, count_if-append (has_id id) xs (row ∷ []))
]

append_active :
    (row : CycleRow) (xs : List CycleRow) (target_id : String)
    → (not row.is_terminal && any (is_active row.target_id) xs) ≡ false
    → count_if (is_active target_id) xs ≤ 1
    → count_if (is_active target_id) (xs ++ row ∷ []) ≤ 1
append_active row xs t new h = elim (Bool-cases (is_active t row)) [
  | inl same ↦
      let p = string_eq.beq_iff row.target_id t in
      let q : row.target_id ≡ t = ground arith in
      let free : any (is_active row.target_id) xs ≡ false = ground arith in
      let z : count_if (is_active t) xs ≡ 0 =
        count_if-eq-zero (is_active t) xs (subst (λ u. any (is_active u) xs ≡ false) q free) in
      omega (arith, count_if-append (is_active t) xs (row ∷ []), single (is_active t) row)
  | inr other ↦ ground (arith, count_if-append (is_active t) xs (row ∷ []))
]

insert-IsConsistent :
    (row : CycleRow) (db db' : CycleDb)
    → IsConsistent db
    → insert_cycle row db ≡ ok db'
    → IsConsistent db'
unfolding insert_cycle
insert-IsConsistent row db db' h e =
    let new : any (has_id row.id) db.cycles ≡ false = ground arith in
    let free : (not row.is_terminal && any (is_active row.target_id) db.cycles) ≡ false =
      ground arith in
    let there : db'.cycles ≡ db.cycles ++ row ∷ [] = ground arith in
    record {
      unique_id = λ id. rw there (append_id row db.cycles id new (h.unique_id id));
      one_active = λ t. rw there (append_active row db.cycles t free (h.one_active t));
    }

-- `add` keeps the constraints of a consistent database, whether it stores the cycle or raises.
pub add-IsConsistent :
    (c : DevelopmentCycle) (db : CycleDb) → IsConsistent db → IsConsistent (add c db).1
unfolding add
add-IsConsistent c db h = elim (Result-cases (insert_cycle (cycle_values c) db)) [
  | inl (db', e) ↦ rw (e, add) (insert-IsConsistent (cycle_values c) db db' h e)
  | inr (x, e) ↦ rw (e, add) h
]

-- How the conditional update moves the two counts.
update-id :
    (i : String) (v : ℕ) (row : CycleRow) (id : String) (rows : List CycleRow)
    → row.id ≡ i
    → count_if (has_id id) (update_rows i v row rows) ≡ count_if (has_id id) rows
unfolding update_rows
update-id i v row id [] h = refl
update-id i v row id (r ∷ rows) h =
    ground (arith, update-id i v row id rows, string_eq.beq_iff r.id i)

update-active_other :
    (i : String) (v : ℕ) (row : CycleRow) (t : String) (rows : List CycleRow)
    → is_active t row ≡ false
    → count_if (is_active t) (update_rows i v row rows) ≤ count_if (is_active t) rows
unfolding update_rows
update-active_other i v row t [] h = omega arith
update-active_other i v row t (r ∷ rows) h = ground (arith, update-active_other i v row t rows)

update-active_own :
    (i : String) (v : ℕ) (row : CycleRow) (rows : List CycleRow)
    → row.id ≡ i
    → row.is_terminal ≡ false
    → count_if (is_active row.target_id) (update_rows i v row rows)
      ≤ count_if (clashes row) rows + count_if (has_id i) rows
unfolding update_rows
update-active_own i v row [] h t = omega arith
update-active_own i v row (r ∷ rows) h t =
    ground (arith, update-active_own i v row rows, string_eq.beq_iff r.id i)

updated_active :
    (i : String) (v : ℕ) (row : CycleRow) (rows : List CycleRow) (t : String)
    → row.id ≡ i
    → any (clashes row) rows ≡ false
    → count_if (has_id i) rows ≤ 1
    → count_if (is_active t) rows ≤ 1
    → count_if (is_active t) (update_rows i v row rows) ≤ 1
updated_active i v row rows t same free unique h = elim (Bool-cases (is_active t row)) [
  | inr other ↦ omega (arith, update-active_other i v row t rows other)
  | inl own ↦
      let p : row.target_id ≡ t = ground (arith, string_eq.beq_iff row.target_id t) in
      let q : row.is_terminal ≡ false = ground arith in
      subst (λ u. count_if (is_active u) (update_rows i v row rows) ≤ 1) p
        (omega
          (arith, update-active_own i v row rows same q, count_if-eq-zero (clashes row) rows free))
]

any_of_count :
    (p : CycleRow → Bool) (rows : List CycleRow) → count_if p rows ≡ 1 → any p rows ≡ true
any_of_count p rows h = elim (Bool-cases (any p rows)) [
  | inl there ↦ there
  | inr free ↦ absurd (omega (arith, count_if-eq-zero p rows free))
]

-- What a transaction that succeeds has found and written.
pub write_facts :
    (c : DevelopmentCycle) (v : ℕ) (op : String) (to : CycleState) (db db' : CycleDb)
    → write_transition c v op to db ≡ ok db'
    → (any (has_operation op) db.transitions ≡ false)
      × (any (clashes (cycle_values c)) db.cycles ≡ false)
      × (count_if (stands_at c.id v) db.cycles ≡ 1)
      × (db' ≡ record {
        cycles = update_rows c.id v (cycle_values c) db.cycles;
        transitions = db.transitions ++ receipt_values (receipt_of c v op to) ∷ [];
      })
unfolding write_transition
write_facts c v op to db db' h =
    let n = any_of_count (stands_at c.id v) db.cycles in
    ground (arith, nat_eq.beq_iff (count_if (stands_at c.id v) db.cycles) 1)

write-IsConsistent :
    (c : DevelopmentCycle) (v : ℕ) (op : String) (to : CycleState) (db db' : CycleDb)
    → IsConsistent db
    → write_transition c v op to db ≡ ok db'
    → IsConsistent db'
write-IsConsistent c v op to db db' h e =
    let (fresh, free, one, made) = write_facts c v op to db db' e in
    let same : (cycle_values c).id ≡ c.id = unfold cycle_values in refl in
    rw made (record {
      unique_id = λ id. rw (update-id c.id v (cycle_values c) id db.cycles same) (h.unique_id id);
      one_active = λ t.
          updated_active c.id v (cycle_values c) db.cycles t same free (h.unique_id c.id)
            (h.one_active t);
    })

settle-IsConsistent :
    (c : DevelopmentCycle) (v : ℕ) (op : String) (to : CycleState) (db : CycleDb)
    (r : Result CycleDb)
    → write_transition c v op to db ≡ r
    → IsConsistent db
    → IsConsistent (settle c v op to db r).1
unfolding settle
settle-IsConsistent c v op to db (ok db') e h = write-IsConsistent c v op to db db' h e
settle-IsConsistent c v op to db (err integrity_error) e h = h
settle-IsConsistent c v op to db (err _) e h = h

-- `commit_transition` keeps the constraints of the table on every path.
pub commit_transition-IsConsistent :
    (c : DevelopmentCycle) (v : ℕ) (op : String) (to : CycleState) (db : CycleDb)
    → IsConsistent db
    → IsConsistent (commit_transition c v op to db).1
unfolding commit_transition
commit_transition-IsConsistent c v op to db h = elim (Result-cases (get_transition op db)) [
  | inr (x, e) ↦ rw (e, commit_transition) h
  | inl (none, e) ↦
      rw (e, commit_transition)
        (settle-IsConsistent c v op to db (write_transition c v op to db) refl h)
  | inl (some r, e) ↦ rw (e, commit_transition) h
]

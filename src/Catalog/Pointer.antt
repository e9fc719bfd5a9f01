-- ===== src/Catalog/Pointer.antt =====
-- The pointers of adapters/postgres/releases.py: one for each target, moved by `set_serving`.
use autonomous_development.Prelude.{
  String, List, [], ◌∷◌, ◌++◌, none, some, false, any, count_if, count_if-append, count_if-eq-zero,
  ◌==◌, nat_eq, string_eq, ◌≡◌, refl, ◌≤◌, arith, inl, inr, Bool-cases, Option-cases,
}
use autonomous_development.Prelude.Raise.{ok}
use autonomous_development.Catalog.Sql.{
  ServingRow, points_of, points_at, pointer, move_pointer, repoint,
}

-- The primary key of the table.
abbrev pub HasOnePointer : List ServingRow → Type 0
HasOnePointer rows = (target_id : String) → count_if (points_of target_id) rows ≤ 1

pointer-none-any :
    (t : String) (rows : List ServingRow) → pointer t rows ≡ none → any (points_of t) rows ≡ false
unfolding pointer
pointer-none-any t [] h = refl
pointer-none-any t (row ∷ rows) h = ground (arith, pointer-none-any t rows)

pointer-append :
    (t r : String) (rows : List ServingRow)
    → pointer t rows ≡ none
    → pointer t (rows ++ record { target_id = t; release_id = r } ∷ []) ≡ some r
unfolding pointer
pointer-append t r [] h = ground (arith, string_eq.beq_iff t t)
pointer-append t r (row ∷ rows) h = ground (arith, pointer-append t r rows)

pointer-append_other :
    (t u r : String) (rows : List ServingRow)
    → (t == u) ≡ false
    → pointer u (rows ++ record { target_id = t; release_id = r } ∷ []) ≡ pointer u rows
unfolding pointer
pointer-append_other t u r [] h = ground arith
pointer-append_other t u r (row ∷ rows) h = ground (arith, pointer-append_other t u r rows)

points_at-none :
    (t c : String) (rows : List ServingRow)
    → count_if (points_of t) rows ≤ 0
    → count_if (points_at t c) rows ≡ 0
points_at-none t c [] h = refl
points_at-none t c (row ∷ rows) h = ground (arith, points_at-none t c rows)

points_at-one :
    (t c : String) (rows : List ServingRow)
    → count_if (points_of t) rows ≤ 1
    → pointer t rows ≡ some c
    → count_if (points_at t c) rows ≡ 1
unfolding pointer
points_at-one t c [] once h = absurd (ground arith)
points_at-one t c (row ∷ rows) once h = elim (Bool-cases (row.target_id == t)) [
  | inr other ↦ ground (arith, points_at-one t c rows)
  | inl own ↦ let s = string_eq.beq_iff row.release_id c in ground (arith, points_at-none t c rows)
]

move_pointer-own :
    (t c r : String) (rows : List ServingRow)
    → pointer t rows ≡ some c
    → pointer t (move_pointer t c r rows) ≡ some r
unfolding pointer move_pointer
move_pointer-own t c r [] h = absurd (ground arith)
move_pointer-own t c r (row ∷ rows) h =
    let s = string_eq.beq_iff row.release_id c in ground (arith, move_pointer-own t c r rows)

move_pointer-other :
    (t u c r : String) (rows : List ServingRow)
    → (t == u) ≡ false
    → pointer u (move_pointer t c r rows) ≡ pointer u rows
unfolding pointer move_pointer
move_pointer-other t u c r [] h = refl
move_pointer-other t u c r (row ∷ rows) h =
    let s = string_eq.beq_iff row.target_id t in ground (arith, move_pointer-other t u c r rows)

move_pointer-count :
    (t u c r : String) (rows : List ServingRow)
    → count_if (points_of u) (move_pointer t c r rows) ≡ count_if (points_of u) rows
unfolding move_pointer
move_pointer-count t u c r [] = refl
move_pointer-count t u c r (row ∷ rows) = ground (arith, move_pointer-count t u c r rows)

-- What the pointer's part of the transaction leaves.
pub record IsRepointed (t r : String) (rows rows' : List ServingRow) : Type 0 where
  pub written : repoint t r (pointer t rows) rows ≡ ok rows'
  pub own : pointer t rows' ≡ some r
  pub others : (u : String) → (t == u) ≡ false → pointer u rows' ≡ pointer u rows
  pub one : HasOnePointer rows'

append-HasOnePointer :
    (t r : String) (rows : List ServingRow)
    → HasOnePointer rows
    → pointer t rows ≡ none
    → HasOnePointer (rows ++ record { target_id = t; release_id = r } ∷ [])
append-HasOnePointer t r rows one free u =
    let row : ServingRow = record { target_id = t; release_id = r } in
    let s = string_eq.beq_iff t u in
    let total = count_if-append (points_of u) rows (row ∷ []) in
    let gone = count_if-eq-zero (points_of t) rows (pointer-none-any t rows free) in
    elim (Bool-cases (t == u)) [
      | inl same ↦ ground (arith, one u)
      | inr other ↦ ground (arith, one u)
    ]

-- On a table with one pointer for each target, the pointer is always moved.
pub repoint_total :
    (t r : String) (rows : List ServingRow)
    → HasOnePointer rows
    → (rows' : List ServingRow) × IsRepointed t r rows rows'
unfolding repoint
repoint_total t r rows one = elim (Option-cases (pointer t rows)) [
  | inl free ↦ (
    rows ++ record { target_id = t; release_id = r } ∷ [],
    record {
      written = let a = pointer-none-any t rows free in ground arith;
      own = pointer-append t r rows free;
      others = λ u. pointer-append_other t u r rows;
      one = append-HasOnePointer t r rows one free;
    },
  )
  | inr (c, here) ↦ elim (Bool-cases (c == r)) [
    | inl same ↦ (
      rows,
      record {
        written = ground arith;
        own = let s = string_eq.beq_iff c r in ground arith;
        others = λ u _. refl;
        one = one;
      },
    )
    | inr other ↦ (
      move_pointer t c r rows,
      record {
        written = let k = points_at-one t c rows (one t) here in ground arith;
        own = move_pointer-own t c r rows here;
        others = λ u. move_pointer-other t u c r rows;
        one = λ u. let k = move_pointer-count t u c r rows in ground (arith, one u);
      },
    )
  ]
]

-- ===== src/Catalog/Sql.antt =====
-- `SqlReleasedVersionRepository` of adapters/postgres/releases.py. A transaction is one step, which
-- writes all of its rows or none. The primary keys are the ids of releases and operations, and the
-- target of a pointer.
use autonomous_development.Prelude.{
  String, List, [], ◌∷◌, ◌++◌, Option, none, some, Bool, true, ◌&&◌, ◌||◌, any, find, count_if,
  is_blank, ◌==◌, ◌!=◌, nat_eq, string_eq, if◌then◌else◌, Eq, ◌≡◌, ◌↔◌, arith,
}
use autonomous_development.Prelude.Raise.{
  Result, ok, err, raise_if, require, value_error, runtime_error, integrity_error,
  operation_conflict, ◌>>=◌, ◌>>◌,
}
use autonomous_development.Domain.Models.{ReleasedVersion, release_post_init}

-- `ServingReleaseReceipt` of ports/persistence.py
pub record ServingReleaseReceipt : Type 0 where
  pub operation_id : String
  pub target_id : String
  pub release_id : String
  pub previous_release_id : Option String

pub record ServingRow : Type 0 where
  pub target_id : String
  pub release_id : String

pub record CatalogDb : Type 0 where
  pub releases : List ReleasedVersion
  pub serving : List ServingRow
  pub operations : List ServingReleaseReceipt

-- The dataclass equality of releases.
abbrev release_beq : ReleasedVersion → ReleasedVersion → Bool
release_beq a b =
    a.id == b.id
    && (a.target_id == b.target_id
        && (a.source_commit == b.source_commit
            && (a.source_tree == b.source_tree
                && (a.artifact_digest == b.artifact_digest
                    && (a.objective_revision_id == b.objective_revision_id
                        && (a.deployment_id == b.deployment_id
                            && a.promoted_at == b.promoted_at))))))

pub release_beq_iff : (a b : ReleasedVersion) → (release_beq a b ≡ true) ↔ (a ≡ b)
release_beq_iff a b =
    let i = string_eq.beq_iff a.id b.id in
    let t = string_eq.beq_iff a.target_id b.target_id in
    let c = string_eq.beq_iff a.source_commit b.source_commit in
    let s = string_eq.beq_iff a.source_tree b.source_tree in
    let d = string_eq.beq_iff a.artifact_digest b.artifact_digest in
    let o = string_eq.beq_iff a.objective_revision_id b.objective_revision_id in
    let y = string_eq.beq_iff a.deployment_id b.deployment_id in
    let p = nat_eq.beq_iff a.promoted_at b.promoted_at in ground arith

instance abbrev pub release_eq : Eq ReleasedVersion
release_eq = record { beq = release_beq; beq_iff = release_beq_iff }

abbrev pub is_release : String → ReleasedVersion → Bool
is_release release_id r = r.id == release_id

-- `_release_from_row` of the row, if there is one.
unfoldable pub release_from_row : Option ReleasedVersion → Result (Option ReleasedVersion)
release_from_row none = ok none
release_from_row (some row) = do release ← release_post_init row; ok (some release)

unfoldable pub get : String → CatalogDb → Result (Option ReleasedVersion)
unfolding release_from_row
get release_id db = release_from_row (find (is_release release_id) db.releases)

abbrev pub points_of : String → ServingRow → Bool
points_of target_id row = row.target_id == target_id

-- The release id in the row of the target.
unfoldable pub pointer : String → List ServingRow → Option String
pointer target_id [] = none
pointer target_id (row ∷ rows) =
    if points_of target_id row then some row.release_id else pointer target_id rows

-- The join of the two tables on the release id.
unfoldable pub joined : Option String → List ReleasedVersion → Option ReleasedVersion
joined none releases = none
joined (some release_id) releases = find (is_release release_id) releases

unfoldable pub get_serving : String → CatalogDb → Result (Option ReleasedVersion)
unfolding release_from_row joined pointer
get_serving target_id db = release_from_row (joined (pointer target_id db.serving) db.releases)

unfoldable pub insert_release : ReleasedVersion → CatalogDb → Result CatalogDb
insert_release release db = do
  raise_if (any (is_release release.id) db.releases) integrity_error
  ok (record db { releases = db.releases ++ release ∷ [] })

-- An existing release has to be the same one.
unfoldable pub same_release : (release existing : ReleasedVersion) → Result ReleasedVersion
same_release release existing = do raise_if (existing != release) value_error; ok existing

unfoldable pub existing_or_raise : ReleasedVersion → Option ReleasedVersion → Result ReleasedVersion
existing_or_raise release none = err integrity_error
existing_or_raise release (some existing) = do
  raise_if (existing != release) integrity_error
  ok existing

unfoldable pub settle_add :
    ReleasedVersion → CatalogDb → Result CatalogDb → Result ReleasedVersion × CatalogDb
unfolding get existing_or_raise
settle_add release db (ok db') = (ok release, db')
settle_add release db (err integrity_error) =
    (do existing ← get release.id db; existing_or_raise release existing, db)
settle_add release db (err e) = (err e, db)

unfoldable pub add_found :
    ReleasedVersion
    → Result (Option ReleasedVersion)
    → CatalogDb
    → Result ReleasedVersion × CatalogDb
unfolding same_release insert_release settle_add
add_found release (err e) db = (err e, db)
add_found release (ok (some existing)) db = (same_release release existing, db)
add_found release (ok none) db = settle_add release db (insert_release release db)

unfoldable pub add : ReleasedVersion → CatalogDb → Result ReleasedVersion × CatalogDb
unfolding get add_found
add release db = add_found release (get release.id db) db

abbrev pub is_operation : String → ServingReleaseReceipt → Bool
is_operation operation_id r = r.operation_id == operation_id

-- `_get_operation`
unfoldable pub get_operation : String → CatalogDb → Option ServingReleaseReceipt
get_operation operation_id db = find (is_operation operation_id) db.operations

-- `_validate_receipt`
unfoldable pub validate_receipt :
    ServingReleaseReceipt → (target_id release_id : String) → Result ServingReleaseReceipt
validate_receipt receipt target_id release_id = do
  raise_if (receipt.target_id != target_id || receipt.release_id != release_id) operation_conflict
  ok receipt

abbrev pub points_at : (target_id release_id : String) → ServingRow → Bool
points_at target_id release_id row = row.target_id == target_id && row.release_id == release_id

-- `UPDATE serving_releases SET release_id WHERE target_id AND release_id = current`
unfoldable pub move_pointer :
    (target_id current release_id : String) → List ServingRow → List ServingRow
move_pointer target_id current release_id [] = []
move_pointer target_id current release_id (row ∷ rows) =
    let rest = move_pointer target_id current release_id rows in
    if points_at target_id current row
    then record row { release_id = release_id } ∷ rest
    else row ∷ rest

-- The pointer's part of the transaction.
unfoldable pub repoint :
    (target_id release_id : String) → Option String → List ServingRow → Result (List ServingRow)
unfolding move_pointer
repoint target_id release_id none rows = do
  raise_if (any (points_of target_id) rows) integrity_error
  ok (rows ++ record { target_id = target_id; release_id = release_id } ∷ [])
repoint target_id release_id (some current) rows = if current == release_id then ok rows else do
  raise_if (count_if (points_at target_id current) rows != 1) runtime_error
  ok (move_pointer target_id current release_id rows)

-- The transaction.
unfoldable pub write_serving :
    (target_id release_id operation_id : String) → CatalogDb → Result CatalogDb
unfolding repoint pointer
write_serving target_id release_id operation_id db = do
  row ← require (find (is_release release_id) db.releases) value_error
  raise_if (row.target_id != target_id) value_error
  raise_if (any (is_operation operation_id) db.operations) integrity_error
  rows ← repoint target_id release_id (pointer target_id db.serving) db.serving
  ok (record db {
    serving = rows;
    operations =
        db.operations
        ++ record {
          operation_id = operation_id;
          target_id = target_id;
          release_id = release_id;
          previous_release_id = pointer target_id db.serving;
        }
          ∷ [];
  })

-- The receipt that is read again, or the exception for a missing one.
unfoldable pub read_again :
    Option ServingReleaseReceipt
    → (target_id release_id : String) → Result ServingReleaseReceipt
    → Result ServingReleaseReceipt
unfolding validate_receipt
read_again none target_id release_id missing = missing
read_again (some receipt) target_id release_id missing =
    validate_receipt receipt target_id release_id

unfoldable pub settle_serving :
    (target_id release_id operation_id : String)
    → CatalogDb
    → Result CatalogDb
    → Result ServingReleaseReceipt × CatalogDb
unfolding read_again get_operation
settle_serving target_id release_id operation_id db (ok db') =
    (read_again (get_operation operation_id db') target_id release_id (err runtime_error), db')
settle_serving target_id release_id operation_id db (err integrity_error) =
    (read_again (get_operation operation_id db) target_id release_id (err integrity_error), db)
settle_serving target_id release_id operation_id db (err e) = (err e, db)

unfoldable pub serve_under :
    Option ServingReleaseReceipt
    → (target_id release_id operation_id : String) → CatalogDb
    → Result ServingReleaseReceipt × CatalogDb
unfolding validate_receipt write_serving settle_serving
serve_under (some receipt) target_id release_id operation_id db =
    (validate_receipt receipt target_id release_id, db)
serve_under none target_id release_id operation_id db =
    settle_serving target_id release_id operation_id db
      (write_serving target_id release_id operation_id db)

unfoldable pub set_serving :
    (target_id release_id operation_id : String)
    → CatalogDb
    → Result ServingReleaseReceipt × CatalogDb
unfolding serve_under get_operation
set_serving target_id release_id operation_id db =
    if is_blank operation_id
    then (err value_error, db)
    else serve_under (get_operation operation_id db) target_id release_id operation_id db

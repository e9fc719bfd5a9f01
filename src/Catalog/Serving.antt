-- ===== src/Catalog/Serving.antt =====
-- What `set_serving` does: application/release_catalog.py over adapters/postgres/releases.py.
use autonomous_development.Prelude.{
  String, List, [], ◌∷◌, ◌++◌, Option, none, some, false, any, find, find-append_none, is_blank,
  ◌==◌, nat_eq, string_eq, ◌≡◌, refl, sym, ap, subst, ◌∙◌, arith, inl, inr, Bool-cases,
  Option-cases,
}
use autonomous_development.Prelude.Raise.{Error, ok, err, Result-cases}
use autonomous_development.Domain.Models.{ReleasedVersion, release_post_init}
use autonomous_development.Catalog.Sql.{
  ServingReleaseReceipt, ServingRow, CatalogDb, is_release, is_operation, release_from_row, pointer,
  joined, repoint, get_serving, get_operation, validate_receipt, write_serving, read_again,
  settle_serving, serve_under,
}
use autonomous_development.Catalog.Sql as Sql
use autonomous_development.Catalog.Pointer.{HasOnePointer, IsRepointed, repoint_total}
use autonomous_development.Catalog.Service.{get, reconciled, set_serving}

-- A release that is read is the row, which passed its constructor.
pub from_row-own :
    (o : Option ReleasedVersion) (r : ReleasedVersion)
    → release_from_row o ≡ ok (some r)
    → o ≡ some r
unfolding release_from_row release_post_init
from_row-own none r h = absurd (ground arith)
from_row-own (some row) r h = ground arith

pub get_row :
    (id : String) (db : CatalogDb) (r : ReleasedVersion)
    → Sql.get id db ≡ ok (some r)
    → find (is_release id) db.releases ≡ some r
unfolding Sql.get
get_row id db r h = from_row-own (find (is_release id) db.releases) r h

any-none :
    (op : String) (rows : List ServingReleaseReceipt)
    → find (is_operation op) rows ≡ none
    → any (is_operation op) rows ≡ false
any-none op [] h = refl
any-none op (row ∷ rows) h = ground (arith, any-none op rows)

-- The store after the release of a target was set: it serves the release, every other target
-- serves what it did, the releases are as before, and the receipt names the release before.
pub record IsServed (target_id release_id op : String) (db db' : CatalogDb) (r : ReleasedVersion)
    : Type 0 where
  pub serves : get_serving target_id db' ≡ ok (some r)
  pub others : (u : String) → (target_id == u) ≡ false → get_serving u db' ≡ get_serving u db
  pub releases : db'.releases ≡ db.releases
  pub receipt :
      get_operation op db'
      ≡ some (record {
        operation_id = op;
        target_id = target_id;
        release_id = release_id;
        previous_release_id = pointer target_id db.serving;
      })
  pub one : HasOnePointer db'.serving

module _ (target_id release_id op : String) where
  abbrev new_receipt : CatalogDb → ServingReleaseReceipt
  new_receipt db = record {
    operation_id = op;
    target_id = target_id;
    release_id = release_id;
    previous_release_id = pointer target_id db.serving;
  }

  abbrev moved : CatalogDb → List ServingRow → CatalogDb
  moved db rows = record db { serving = rows; operations = db.operations ++ new_receipt db ∷ [] }

  write_serving-ok :
      (db : CatalogDb) (r : ReleasedVersion) (rows : List ServingRow)
      → find (is_release release_id) db.releases ≡ some r
      → r.target_id ≡ target_id
      → get_operation op db ≡ none
      → repoint target_id release_id (pointer target_id db.serving) db.serving ≡ ok rows
      → write_serving target_id release_id op db ≡ ok (moved db rows)
  unfolding write_serving get_operation
  write_serving-ok db r rows there own fresh made =
      let a = any-none op db.operations fresh in
      let s = string_eq.beq_iff r.target_id target_id in ground arith

  receipt-moved :
      (db : CatalogDb) (rows : List ServingRow)
      → get_operation op db ≡ none
      → get_operation op (moved db rows) ≡ some (new_receipt db)
  unfolding get_operation
  receipt-moved db rows fresh =
      let f = find-append_none (is_operation op) db.operations (new_receipt db ∷ []) fresh in
      let s = string_eq.beq_iff op op in ground arith

  moved-IsServed :
      (db : CatalogDb) (r : ReleasedVersion) (rows : List ServingRow)
      → Sql.get release_id db ≡ ok (some r)
      → get_operation op db ≡ none
      → IsRepointed target_id release_id db.serving rows
      → IsServed target_id release_id op db (moved db rows) r
  unfolding get_serving joined Sql.get
  moved-IsServed db r rows there fresh m = record {
    serves = ap (λ o. release_from_row (joined o db.releases)) m.own ∙ there;
    others = λ u other. ap (λ o. release_from_row (joined o db.releases)) (m.others u other);
    releases = refl;
    receipt = receipt-moved db rows fresh;
    one = m.one;
  }

  -- The repository's own call.
  sql-moved :
      (db : CatalogDb) (r : ReleasedVersion) (rows : List ServingRow)
      → is_blank op ≡ false
      → Sql.get release_id db ≡ ok (some r)
      → r.target_id ≡ target_id
      → get_operation op db ≡ none
      → IsRepointed target_id release_id db.serving rows
      → Sql.set_serving target_id release_id op db ≡ (ok (new_receipt db), moved db rows)
  unfolding Sql.set_serving serve_under settle_serving read_again validate_receipt
  sql-moved db r rows named there own fresh m =
      let w = write_serving-ok db r rows (get_row release_id db r there) own fresh m.written in
      let f = receipt-moved db rows fresh in
      let t = string_eq.beq_iff target_id target_id in
      let i = string_eq.beq_iff release_id release_id in ground arith

  get_id :
      (db : CatalogDb) (r : ReleasedVersion)
      → Sql.get release_id db ≡ ok (some r)
      → r.id ≡ release_id
  unfolding Sql.get
  get_id db r there = found_id db.releases (get_row release_id db r there)
    where
      found_id :
          (rows : List ReleasedVersion)
          → find (is_release release_id) rows ≡ some r
          → r.id ≡ release_id
      found_id [] h = absurd (ground arith)
      found_id (row ∷ rows) h =
          let s = string_eq.beq_iff row.id release_id in ground (arith, found_id rows)

  set_serving-moved :
      (db : CatalogDb) (r : ReleasedVersion) (rows : List ServingRow)
      → is_blank op ≡ false
      → Sql.get release_id db ≡ ok (some r)
      → r.target_id ≡ target_id
      → get_operation op db ≡ none
      → IsRepointed target_id release_id db.serving rows
      → set_serving target_id release_id op db ≡ (ok r, moved db rows)
  unfolding set_serving get reconciled
  set_serving-moved db r rows named there own fresh m =
      let w = sql-moved db r rows named there own fresh m in
      let v = (moved-IsServed db r rows there fresh m).serves in
      let t = string_eq.beq_iff r.target_id target_id in
      let k = get_id db r there in let i = string_eq.beq_iff r.id release_id in ground arith

  -- A release that is stored for its target can always be set to serve, under an operation id that
  -- is not blank and has no receipt, where each target has one pointer at most: `set_serving`
  -- returns it, the target then serves it, no other target's release changes, and the receipt
  -- names what was served before.
  pub set_serving-IsServed :
      (db : CatalogDb) (r : ReleasedVersion)
      → HasOnePointer db.serving
      → is_blank op ≡ false
      → get_operation op db ≡ none
      → Sql.get release_id db ≡ ok (some r)
      → r.target_id ≡ target_id
      → (db' : CatalogDb) × (set_serving target_id release_id op db ≡ (ok r, db'))
        × IsServed target_id release_id op db db' r
  set_serving-IsServed db r one named fresh there own =
      let (rows, m) = repoint_total target_id release_id db.serving one in
      (
        moved db rows,
        set_serving-moved db r rows named there own fresh m,
        moved-IsServed db r rows there fresh m,
      )

  -- Whatever is returned was stored, for this target.
  pub set_serving-found :
      (db db' : CatalogDb) (r : ReleasedVersion)
      → set_serving target_id release_id op db ≡ (ok r, db')
      → (is_blank op ≡ false)
        × (x : ReleasedVersion) × (Sql.get release_id db ≡ ok (some x))
        × (x.target_id ≡ target_id)
  unfolding set_serving get
  set_serving-found db db' r h = elim (Bool-cases (is_blank op)) [
    | inl blank ↦ absurd (ground arith)
    | inr named ↦ elim (Result-cases (Sql.get release_id db)) [
      | inr (e, bad) ↦ absurd (ground arith)
      | inl (none, gone) ↦ absurd (ground arith)
      | inl (some x, there) ↦
          (named, x, there, let t = string_eq.beq_iff x.target_id target_id in ground arith)
    ]
  ]

  -- A repeated operation never moves a pointer back: under an operation id that has a receipt,
  -- `set_serving` changes nothing, whatever it returns.
  pub set_serving_repeat :
      (db : CatalogDb) (receipt : ServingReleaseReceipt)
      → get_operation op db ≡ some receipt
      → (set_serving target_id release_id op db).1 ≡ db
  unfolding set_serving get Sql.set_serving serve_under
  set_serving_repeat db receipt there = ground arith

  -- A call that raises changes nothing.
  pub set_serving_error :
      (db db' : CatalogDb) (e : Error)
      → HasOnePointer db.serving
      → set_serving target_id release_id op db ≡ (err e, db')
      → db' ≡ db
  unfolding set_serving get
  set_serving_error db db' e one h = elim (Bool-cases (is_blank op)) [
    | inl blank ↦ ground arith
    | inr named ↦ elim (Result-cases (Sql.get release_id db)) [
      | inr (e, bad) ↦ ground arith
      | inl (none, gone) ↦ ground arith
      | inl (some x, there) ↦ elim (Option-cases (get_operation op db)) [
        | inr (receipt, done) ↦ let same = set_serving_repeat db receipt done in ground arith
        | inl fresh ↦ elim (Bool-cases (x.target_id == target_id)) [
          | inr other ↦ ground arith
          | inl own ↦
              let (db'', made, _) =
                set_serving-IsServed db x one named fresh there
                  ((string_eq.beq_iff x.target_id target_id).0 own) in
              absurd (ground arith)
        ]
      ]
    ]
  ]

  -- Every path keeps one pointer for each target.
  pub set_serving-HasOnePointer :
      (db : CatalogDb)
      → HasOnePointer db.serving
      → HasOnePointer (set_serving target_id release_id op db).1.serving
  set_serving-HasOnePointer db one =
      elim (Result-cases (set_serving target_id release_id op db).0) [
        | inr (e, bad) ↦
            subst (λ (s : CatalogDb). HasOnePointer s.serving)
              (sym (
                set_serving_error db _ e one
                  (λ i. (bad i, (set_serving target_id release_id op db).1))))
              one
        | inl (r, made) ↦ elim (Option-cases (get_operation op db)) [
          | inr (receipt, done) ↦
              subst (λ (s : CatalogDb). HasOnePointer s.serving)
                (sym (set_serving_repeat db receipt done)) one
          | inl fresh ↦
              let (named, x, there, own) =
                set_serving-found db _ r
                  (λ i. (made i, (set_serving target_id release_id op db).1)) in
              let (db', is, served) = set_serving-IsServed db x one named fresh there own in
              subst (λ (s : CatalogDb). HasOnePointer s.serving) (sym (ap (λ q. q.1) is)) served.one
        ]
      ]

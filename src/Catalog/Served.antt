-- ===== src/Catalog/Served.antt =====
-- What a release that is served is: `get_serving` of adapters/postgres/releases.py and `set_serving`
-- of application/release_catalog.py, on whatever store they meet.
use autonomous_development.Prelude.{
  String, List, [], ◌∷◌, Option, none, some, find, nat_eq, string_eq, ◌≡◌, refl, sym, ap, subst,
  ◌∙◌, arith, inl, inr, Option-cases,
}
use autonomous_development.Prelude.Raise.{Result, ok, err, Result-cases}
use autonomous_development.Domain.Models.{ReleasedVersion}
use autonomous_development.Catalog.Sql.{
  ServingRow, CatalogDb, is_release, release_from_row, pointer, joined, repoint, get_serving,
  get_operation, write_serving, settle_serving, serve_under,
}
use autonomous_development.Catalog.Sql as Sql
use autonomous_development.Catalog.Serving.{from_row-own}
use autonomous_development.Catalog.Service.{get, reconciled, set_serving}

find-id :
    (id : String) (rows : List ReleasedVersion) (r : ReleasedVersion)
    → find (is_release id) rows ≡ some r
    → r.id ≡ id
find-id id [] r h = absurd (ground arith)
find-id id (row ∷ rows) r h =
    let s = string_eq.beq_iff row.id id in ground (arith, find-id id rows r)

-- A release that is served is read by its id.
pub served-get :
    (t : String) (db : CatalogDb) (r : ReleasedVersion)
    → get_serving t db ≡ ok (some r)
    → Sql.get r.id db ≡ ok (some r)
unfolding get_serving joined Sql.get
served-get t db r h = elim (Option-cases (pointer t db.serving)) [
  | inl free ↦
      let n = from_row-own (joined (pointer t db.serving) db.releases) r h in absurd (ground arith)
  | inr (id, here) ↦
      let n : joined (pointer t db.serving) db.releases ≡ some r =
        from_row-own (joined (pointer t db.serving) db.releases) r h in
      let k = find-id id db.releases r (ground arith) in
      subst (λ x. release_from_row (find (is_release x) db.releases) ≡ ok (some r)) (sym k)
        (ap (λ o. release_from_row (joined o db.releases)) (sym here) ∙ h)
]

module _ (target_id release_id op : String) where
  write_serving-releases :
      (db db' : CatalogDb)
      → write_serving target_id release_id op db ≡ ok db'
      → db'.releases ≡ db.releases
  unfolding write_serving
  write_serving-releases db db' h = elim (Option-cases (find (is_release release_id) db.releases)) [
    | inl gone ↦ absurd (ground arith)
    | inr (row, there) ↦
        elim (Result-cases
          (repoint target_id release_id (pointer target_id db.serving) db.serving)) [
            | inr (e, bad) ↦ absurd (ground arith)
            | inl (rows, made) ↦ ground arith
          ]
  ]

  settle_serving-releases :
      (db : CatalogDb) (written : Result CatalogDb)
      → write_serving target_id release_id op db ≡ written
      → (settle_serving target_id release_id op db written).1.releases ≡ db.releases
  unfolding settle_serving
  settle_serving-releases db (ok db') h = write_serving-releases db db' h
  settle_serving-releases db (err e) h = ground arith

  sql-releases :
      (db : CatalogDb) → (Sql.set_serving target_id release_id op db).1.releases ≡ db.releases
  unfolding Sql.set_serving serve_under
  sql-releases db = elim (Option-cases (get_operation op db)) [
    | inr (receipt, done) ↦ ground arith
    | inl fresh ↦
        let k = settle_serving-releases db (write_serving target_id release_id op db) refl in
        ground arith
  ]

  pub set_serving-releases :
      (db : CatalogDb) → (set_serving target_id release_id op db).1.releases ≡ db.releases
  unfolding set_serving get
  set_serving-releases db = let k = sql-releases db in ground arith

  reconciled-serves :
      (u : CatalogDb) (x : ReleasedVersion) (m : Result (Option ReleasedVersion))
      → get_serving target_id u ≡ m
      → (elim m [ ok found ↦ reconciled release_id found | err e ↦ err e ]) ≡ ok x
      → (get_serving target_id u ≡ ok (some x)) × (x.id ≡ release_id)
  unfolding reconciled
  reconciled-serves u x (err e) same k = absurd (ground arith)
  reconciled-serves u x (ok none) same k = absurd (ground arith)
  reconciled-serves u x (ok (some y)) same k =
      let s = string_eq.beq_iff y.id release_id in (ground arith, ground arith)

  -- What `set_serving` returns is what the target serves, and has the id that was asked for.
  pub set_serving-serves :
      (db db' : CatalogDb) (r : ReleasedVersion)
      → set_serving target_id release_id op db ≡ (ok r, db')
      → (get_serving target_id db' ≡ ok (some r)) × (r.id ≡ release_id)
  unfolding set_serving get
  set_serving-serves db db' r h = elim (Result-cases (Sql.get release_id db)) [
    | inr (e, bad) ↦ absurd (ground arith)
    | inl (none, gone) ↦ absurd (ground arith)
    | inl (some x, there) ↦ elim (Result-cases (Sql.set_serving target_id release_id op db).0) [
      | inr (e, bad) ↦ absurd (ground arith)
      | inl (receipt, made) ↦
          reconciled-serves db' r (get_serving target_id db') refl (ground arith)
    ]
  ]

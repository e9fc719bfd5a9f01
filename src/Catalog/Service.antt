-- ===== src/Catalog/Service.antt =====
-- `ReleaseCatalogService` of application/release_catalog.py.
use autonomous_development.Prelude.{
  String, Option, none, some, is_blank, ◌!=◌, string_eq, if◌then◌else◌,
}
use autonomous_development.Prelude.Raise.{
  Result, ok, err, raise_if, require, value_error, runtime_error, release_not_found,
}
use autonomous_development.Prelude.Action.{Action, ◌>>=◌, ◌>>◌, lift}
use autonomous_development.Domain.Models.{ReleasedVersion}
use autonomous_development.Catalog.Sql.{CatalogDb}
use autonomous_development.Catalog.Sql as Sql

-- A read, which leaves the store alone.
abbrev pub query : {A : Type 0} → (CatalogDb → Result A) → Action CatalogDb A
query read db = (read db, db)

unfoldable pub register : ReleasedVersion → Action CatalogDb ReleasedVersion
register release = Sql.add release

abbrev pub found_release : Option ReleasedVersion → Result ReleasedVersion
found_release release = require release release_not_found

unfoldable pub get : String → Action CatalogDb ReleasedVersion
get release_id = do release ← query (Sql.get release_id); lift (found_release release)

unfoldable pub serving : String → Action CatalogDb (Option ReleasedVersion)
serving target_id = query (Sql.get_serving target_id)

-- `serving is None or serving.id != release_id`
unfoldable pub reconciled : (release_id : String) → Option ReleasedVersion → Result ReleasedVersion
reconciled release_id none = err runtime_error
reconciled release_id (some release) =
    if release.id != release_id then err runtime_error else ok release

unfoldable pub set_serving :
    (target_id release_id operation_id : String) → Action CatalogDb ReleasedVersion
unfolding get reconciled
set_serving target_id release_id operation_id = do
  lift (raise_if (is_blank operation_id) value_error)
  release ← get release_id
  lift (raise_if (release.target_id != target_id) value_error)
  Sql.set_serving target_id release_id operation_id
  serving ← query (Sql.get_serving target_id)
  lift (reconciled release_id serving)

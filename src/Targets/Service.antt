-- ===== src/Targets/Service.antt =====
-- `TargetRegistryService` of application/target_registry.py. Its two not-found errors are
-- `LookupError`s.
use autonomous_development.Prelude.{String, List, Option, ◌!=◌, string_eq}
use autonomous_development.Prelude.Raise.{
  Result, ok, err, raise_if, require, value_error, lookup_error, runtime_error, ◌>>=◌, ◌>>◌,
}
use autonomous_development.Domain.Models.{
  ProductObjectiveRevision, DevelopmentTarget, target_post_init,
}
use autonomous_development.Targets.Sql.{
  RegistryDb, policy_eq, add_target, add_objective, get_objective, list_all,
}
use autonomous_development.Targets.Sql as Sql

abbrev pub put_target :
    RegistryDb
    → Result DevelopmentTarget × List DevelopmentTarget
    → Result DevelopmentTarget × RegistryDb
put_target db (result, rows) = (result, record db { targets = rows })

-- `register` after the objective was added.
unfoldable pub register_target :
    DevelopmentTarget
    → Result ProductObjectiveRevision
    → RegistryDb
    → Result DevelopmentTarget × RegistryDb
register_target target (err raised) db = (err raised, db)
register_target target (ok objective) db = put_target db (add_target target db.targets)

unfoldable pub put_objective :
    DevelopmentTarget
    → RegistryDb
    → Result ProductObjectiveRevision × List ProductObjectiveRevision
    → Result DevelopmentTarget × RegistryDb
unfolding register_target
put_objective target db (result, rows) =
    register_target target result (record db { objectives = rows })

unfoldable pub belongs : DevelopmentTarget → ProductObjectiveRevision → Result (Unit {0})
belongs target objective = do
  raise_if (objective.target_id != target.id) value_error
  raise_if (objective.id != target.active_objective_revision_id) value_error
  raise_if (objective.mutation_policy != target.mutation_policy) value_error

unfoldable pub register_checked :
    DevelopmentTarget
    → ProductObjectiveRevision
    → Result (Unit {0})
    → RegistryDb
    → Result DevelopmentTarget × RegistryDb
register_checked target objective (err raised) db = (err raised, db)
register_checked target objective (ok u) db =
    put_objective target db (add_objective objective db.objectives)

unfoldable pub register :
    DevelopmentTarget
    → ProductObjectiveRevision
    → RegistryDb
    → Result DevelopmentTarget × RegistryDb
unfolding belongs register_checked
register target objective db = register_checked target objective (belongs target objective) db

unfoldable pub get_target : (target_id : String) → RegistryDb → Result DevelopmentTarget
get_target target_id db = do
  target ← Sql.get_target target_id db.targets
  require target lookup_error

unfoldable pub list_targets : RegistryDb → Result (List DevelopmentTarget)
list_targets db = list_all db.targets

unfoldable pub get_active_objective :
    DevelopmentTarget → RegistryDb → Result ProductObjectiveRevision
get_active_objective target db = do
  found ← get_objective target.active_objective_revision_id db.objectives
  objective ← require found lookup_error
  raise_if (objective.target_id != target.id) runtime_error
  raise_if (objective.mutation_policy != target.mutation_policy) runtime_error
  ok objective

unfoldable pub runtime_target :
    (target_id : String) (serving_release_id : Option String)
    → RegistryDb
    → Result DevelopmentTarget
unfolding get_target target_post_init
runtime_target target_id serving_release_id db = do
  target ← get_target target_id db
  target_post_init (record target { current_release_id = serving_release_id })

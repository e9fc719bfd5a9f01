-- ===== src/Catalog/Finalization.antt =====
-- `ReleaseFinalizationService` of application/release_finalization.py.
use autonomous_development.Prelude.{ℕ, String, some, is_blank, concat, ◌!=◌, string_eq, option_eq}
use autonomous_development.Prelude.Raise.{Result, raise_if, value_error, ◌>>◌}
use autonomous_development.Prelude.Action.{Action, ◌>>=◌, pure, lift}
use autonomous_development.Domain.Enums.{
  CycleState, cycle_state_eq, ReleaseDecisionKind, release_kind_eq,
}
use autonomous_development.Domain.Models.{
  DevelopmentCycle, CandidateRevision, BuildArtifact, Deployment, ReleasedVersion,
  release_post_init,
}
use autonomous_development.Catalog.Sql.{CatalogDb}
use autonomous_development.Catalog.Service.{register, set_serving}

module _ (cycle : DevelopmentCycle) (candidate : CandidateRevision) (artifact : BuildArtifact)
    (deployment : Deployment) where
  -- The guards of `finalize` on the objects that it is given.
  unfoldable pub matches_cycle : Result (Unit {0})
  matches_cycle = do
    raise_if (cycle.state != CycleState.promoted) value_error
    raise_if (cycle.release_decision != some ReleaseDecisionKind.promote) value_error
    raise_if (cycle.candidate_id != some candidate.id) value_error
    raise_if (cycle.artifact_id != some artifact.id) value_error
    raise_if (cycle.candidate_deployment_id != some deployment.id) value_error
    raise_if (artifact.candidate_id != candidate.id) value_error
    raise_if (artifact.source_tree_hash != candidate.tree_hash) value_error
    raise_if (deployment.artifact_id != artifact.id) value_error
    raise_if (deployment.target_id != cycle.target_id) value_error

  unfoldable pub release_of : (release_id : String) → (promoted_at : ℕ) → ReleasedVersion
  release_of release_id promoted_at = record {
    id = release_id;
    target_id = cycle.target_id;
    source_commit = candidate.candidate_commit;
    source_tree = candidate.tree_hash;
    artifact_digest = artifact.image_digest;
    objective_revision_id = cycle.objective_revision_id;
    deployment_id = deployment.id;
    promoted_at = promoted_at;
  }

  -- All that `finalize` checks before it writes, and the release that it builds.
  unfoldable pub checked_release :
      (release_id : String) → (promoted_at : ℕ) → (operation_id : String) → Result ReleasedVersion
  unfolding matches_cycle release_of
  checked_release release_id promoted_at operation_id = do
    raise_if (is_blank release_id) value_error
    raise_if (is_blank operation_id) value_error
    matches_cycle
    release_post_init (release_of release_id promoted_at)

  unfoldable pub finalize :
      (release_id : String)
      → (promoted_at : ℕ) → (operation_id : String) → Action CatalogDb ReleasedVersion
  unfolding checked_release
  finalize release_id promoted_at operation_id = do
    release ← lift (checked_release release_id promoted_at operation_id)
    persisted ← register release
    served ← set_serving cycle.target_id persisted.id (concat operation_id ":serving")
    pure persisted

unfoldable pub restore_serving :
    (target_id release_id operation_id : String) → Action CatalogDb ReleasedVersion
restore_serving target_id release_id operation_id = set_serving target_id release_id operation_id

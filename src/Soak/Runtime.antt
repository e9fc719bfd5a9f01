-- ===== src/Soak/Runtime.antt =====
-- `ReleaseRuntimeService` of application/release_runtime.py and `SourcePromotionService` of
-- application/source_promotion.py, over any deployment and repository provider. `W` is the state
-- that the providers share.
use autonomous_development.Prelude.{
  ℕ, String, Option, none, some, Bool, false, ◌!=◌, concat, string_eq, list_eq,
}
use autonomous_development.Prelude.Raise.{raise_if, require, value_error, runtime_error}
use autonomous_development.Prelude.Action.{Action, ◌>>=◌, ◌>>◌, pure, lift}
use autonomous_development.Domain.Models.{ReleasedVersion, CandidateRevision}
use autonomous_development.Catalog.Sql.{CatalogDb}
use autonomous_development.Catalog.Service as Catalog
use autonomous_development.Soak.Ports.{
  DeploymentSpec, spec_post_init, DeploymentRuntime, DeploymentProvider, RepositoryProvider,
}

-- The catalogue beside the world of the providers.
pub record RuntimeStore (W : Type 0) : Type 0 where
  pub catalog : CatalogDb
  pub world : W

module _ {W : Type 0} where
  abbrev pub on_catalog : {A : Type 0} → Action CatalogDb A → Action (RuntimeStore W) A
  on_catalog m s = let (r, t) = m s.catalog in (r, record s { catalog = t })

  abbrev pub on_world : {A : Type 0} → Action W A → Action (RuntimeStore W) A
  on_world m s = let (r, t) = m s.world in (r, record s { world = t })

-- The specification of a release's deployment.
unfoldable pub spec_of : ReleasedVersion → (container_port : ℕ) → DeploymentSpec
spec_of release container_port = record {
  deployment_id = release.deployment_id;
  target_id = release.target_id;
  artifact_id = concat "release:" release.id;
  image_digest = release.artifact_digest;
  container_port = container_port;
}

-- The two values that the service reads from the target contract are parameters.
module _ {W : Type 0} (D : DeploymentProvider W) (contract_target_id : String)
    (container_port : ℕ) where
  -- `_ensure`
  unfoldable pub ensure_release : ReleasedVersion → Action W DeploymentRuntime
  unfolding spec_of spec_post_init
  ensure_release release = do
    lift (raise_if (release.target_id != contract_target_id) value_error)
    spec ← lift (spec_post_init (spec_of release container_port))
    runtime ← D.ensure spec
    lift (raise_if (runtime.deployment_id != release.deployment_id) runtime_error)
    pure runtime

  unfoldable pub resolve : (release_id : String) → Action (RuntimeStore W) DeploymentRuntime
  unfolding ensure_release
  resolve release_id = do
    release ← on_catalog (Catalog.get release_id)
    on_world (ensure_release release)

  unfoldable pub resolve_serving :
      (target_id : String) → Action (RuntimeStore W) (ReleasedVersion × DeploymentRuntime)
  unfolding ensure_release
  resolve_serving target_id = do
    serving ← on_catalog (Catalog.serving target_id)
    release ← lift (require serving value_error)
    runtime ← on_world (ensure_release release)
    pure (release, runtime)

  unfoldable pub stop_release : (release_id : String) → Action (RuntimeStore W) (Unit {0})
  stop_release release_id = do
    release ← on_catalog (Catalog.get release_id)
    on_world (D.stop release.deployment_id)

  unfoldable pub stop_deployment : (deployment_id : String) → Action W (Unit {0})
  stop_deployment deployment_id = D.stop deployment_id

-- `promoted.codex_thread_id is not None and promoted.codex_thread_id != candidate.codex_thread_id`
abbrev pub other_thread : Option String → (codex_thread_id : String) → Bool
other_thread none codex_thread_id = false
other_thread (some thread) codex_thread_id = thread != codex_thread_id

module _ {W : Type 0} (P : RepositoryProvider W) where
  unfoldable pub promote :
      CandidateRevision → (repository_root default_branch : String) → Action W CandidateRevision
  promote candidate repository_root default_branch = do
    promoted ←
        P.promote_candidate repository_root default_branch candidate.base_commit
          candidate.candidate_commit candidate.tree_hash
    lift (raise_if (promoted.commit != candidate.candidate_commit) runtime_error)
    lift (raise_if (promoted.tree != candidate.tree_hash) runtime_error)
    lift (raise_if (promoted.changed_paths != candidate.changed_paths) runtime_error)
    lift (raise_if (other_thread promoted.codex_thread_id candidate.codex_thread_id) runtime_error)
    pure candidate

  unfoldable pub cleanup_cycle :
      (repository_root worktree_root cycle_id : String) → Action W (Unit {0})
  cleanup_cycle repository_root worktree_root cycle_id =
      P.cleanup_cycle repository_root cycle_id worktree_root

  unfoldable pub restore_baseline :
      (repository_root default_branch baseline_commit : String) → Action W (Unit {0})
  restore_baseline repository_root default_branch baseline_commit = do
    restored ← P.restore_baseline repository_root default_branch baseline_commit
    lift (raise_if (restored.commit != baseline_commit) runtime_error)

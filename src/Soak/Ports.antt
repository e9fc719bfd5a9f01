-- ===== src/Soak/Ports.antt =====
-- ports/deployment.py and the parts of ports/repository.py that the release services call. Paths
-- are texts.
use autonomous_development.Prelude.{ℕ, String, List, [], ◌∷◌, Option, not, ◌&&◌, leb, starts_with}
use autonomous_development.Prelude.Raise.{Result, ok, raise_if, value_error, ◌>>◌}
use autonomous_development.Prelude.Action.{Action}
use autonomous_development.Domain.Models.{required_all}

pub record DeploymentSpec : Type 0 where
  pub deployment_id : String
  pub target_id : String
  pub artifact_id : String
  pub image_digest : String
  pub container_port : ℕ

unfoldable pub spec_post_init : DeploymentSpec → Result DeploymentSpec
unfolding required_all
spec_post_init s = do
  required_all (s.deployment_id ∷ s.target_id ∷ s.artifact_id ∷ s.image_digest ∷ [])
  raise_if (not (starts_with s.image_digest "sha256:")) value_error
  raise_if (not (leb 1 s.container_port && leb s.container_port 65535)) value_error
  ok s

pub record DeploymentRuntime : Type 0 where
  pub deployment_id : String
  pub container_id : String
  pub base_url : String
  pub evidence_ref : String

pub record DeploymentProvider (W : Type 0) : Type 0 where
  pub ensure : DeploymentSpec → Action W DeploymentRuntime
  pub stop : (deployment_id : String) → Action W (Unit {0})

pub record RepositoryBaseline : Type 0 where
  pub repository_root : String
  pub commit : String
  pub tree : String
  pub branch : String

pub record CandidateCommit : Type 0 where
  pub commit : String
  pub tree : String
  pub changed_paths : List String
  pub codex_thread_id : Option String

-- The methods of `RepositoryProvider` that promote a candidate, restore a baseline and clean up.
pub record RepositoryProvider (W : Type 0) : Type 0 where
  pub promote_candidate :
      (repository_root default_branch baseline_commit candidate_commit candidate_tree : String)
      → Action W CandidateCommit
  pub restore_baseline :
      (repository_root default_branch baseline_commit : String) → Action W RepositoryBaseline
  pub cleanup_cycle : (repository_root cycle_id worktree_root : String) → Action W (Unit {0})

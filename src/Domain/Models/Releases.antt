-- ===== src/Domain/Models/Releases.antt =====
-- `ReleasedVersion`, `CandidateRevision`, `BuildArtifact` and `Deployment` of domain/models.py.
use autonomous_development.Prelude.{
  ℕ, String, List, [], ◌∷◌, Option, not, ◌&&◌, ◌||◌, is_empty, is_some, ltb, ◌==◌,
}
use autonomous_development.Prelude.Raise.{Result, ok, raise_if, value_error, ◌>>◌}
use autonomous_development.Domain.Enums.{DeploymentState, deployment_state_eq}
use autonomous_development.Domain.Models.Fields.{required_all}

pub record ReleasedVersion : Type 0 where
  pub id : String
  pub target_id : String
  pub source_commit : String
  pub source_tree : String
  pub artifact_digest : String
  pub objective_revision_id : String
  pub deployment_id : String
  pub promoted_at : ℕ

unfoldable pub release_post_init : ReleasedVersion → Result ReleasedVersion
unfolding required_all
release_post_init r = do
  required_all (
      r.id ∷ r.target_id ∷ r.source_commit ∷ r.source_tree ∷ r.artifact_digest
      ∷ r.objective_revision_id ∷ r.deployment_id ∷ [])
  ok r

pub record CandidateRevision : Type 0 where
  pub id : String
  pub cycle_id : String
  pub worktree_path : String
  pub branch_name : String
  pub base_commit : String
  pub candidate_commit : String
  pub tree_hash : String
  pub changed_paths : List String
  pub codex_thread_id : String
  pub implementation_attempt : ℕ

unfoldable pub candidate_post_init : CandidateRevision → Result CandidateRevision
unfolding required_all
candidate_post_init c = do
  required_all (
      c.id ∷ c.cycle_id ∷ c.worktree_path ∷ c.branch_name ∷ c.base_commit ∷ c.candidate_commit
      ∷ c.tree_hash ∷ c.codex_thread_id ∷ [])
  raise_if (ltb c.implementation_attempt 1) value_error
  ok c

pub record BuildArtifact : Type 0 where
  pub id : String
  pub candidate_id : String
  pub image_digest : String
  pub source_tree_hash : String
  pub build_definition_digest : String
  pub dependency_lock_digest : String
  pub build_evidence_ref : String
  pub sbom_digest : String
  pub sbom_ref : String
  pub vulnerability_scan_ref : String

unfoldable pub artifact_post_init : BuildArtifact → Result BuildArtifact
unfolding required_all
artifact_post_init a = do
  required_all (
      a.id ∷ a.candidate_id ∷ a.image_digest ∷ a.source_tree_hash ∷ a.build_definition_digest
      ∷ a.dependency_lock_digest ∷ a.build_evidence_ref ∷ a.sbom_digest ∷ a.sbom_ref
      ∷ a.vulnerability_scan_ref ∷ [])
  ok a

pub record Deployment : Type 0 where
  pub id : String
  pub target_id : String
  pub artifact_id : String
  pub environment : String
  pub state : DeploymentState
  pub observed_at : Option ℕ
  pub observation_refs : List String

unfoldable pub deployment_post_init : Deployment → Result Deployment
unfolding required_all
deployment_post_init d = do
  required_all (d.id ∷ d.target_id ∷ d.artifact_id ∷ d.environment ∷ [])
  raise_if
      ((d.state == DeploymentState.ready || d.state == DeploymentState.serving)
        && (not (is_some d.observed_at) || is_empty d.observation_refs))
      value_error
  ok d

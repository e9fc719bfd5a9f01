-- ===== src/Domain/Models/Targets.antt =====
-- `MutationPolicy`, `ProductObjectiveRevision`, `DevelopmentTarget` and `EvidenceWindow` of
-- domain/models.py.
use autonomous_development.Prelude.{ℕ, String, List, [], ◌∷◌, Option, ◌||◌, is_empty, ltb}
use autonomous_development.Prelude.Raise.{Result, ok, raise_if, value_error, ◌>>◌}
use autonomous_development.Domain.Models.Fields.{required_all}

pub record MutationPolicy : Type 0 where
  pub allowed_paths : List String
  pub forbidden_paths : List String
  pub max_changed_files : ℕ
  pub max_implementation_attempts : ℕ

unfoldable pub policy_post_init : MutationPolicy → Result MutationPolicy
policy_post_init p = do
  raise_if (is_empty p.allowed_paths) value_error
  raise_if (ltb p.max_changed_files 1 || ltb p.max_implementation_attempts 1) value_error
  ok p

pub record ProductObjectiveRevision : Type 0 where
  pub id : String
  pub target_id : String
  pub statement : String
  pub acceptance_criteria : List String
  pub primary_metrics : List String
  pub reliability_constraints : List String
  pub performance_constraints : List String
  pub security_constraints : List String
  pub mutation_policy : MutationPolicy
  pub created_at : ℕ

unfoldable pub objective_post_init : ProductObjectiveRevision → Result ProductObjectiveRevision
unfolding required_all
objective_post_init o = do
  required_all (o.id ∷ o.target_id ∷ o.statement ∷ [])
  raise_if (is_empty o.acceptance_criteria) value_error
  ok o

pub record DevelopmentTarget : Type 0 where
  pub id : String
  pub repository : String
  pub default_branch : String
  pub target_contract_revision : String
  pub active_objective_revision_id : String
  pub mutation_policy : MutationPolicy
  pub current_release_id : Option String

unfoldable pub target_post_init : DevelopmentTarget → Result DevelopmentTarget
unfolding required_all
target_post_init t = do
  required_all (
      t.id ∷ t.repository ∷ t.default_branch ∷ t.target_contract_revision
      ∷ t.active_objective_revision_id ∷ [])
  ok t

pub record EvidenceWindow : Type 0 where
  pub id : String
  pub target_id : String
  pub release_ids : List String
  pub opened_at : ℕ
  pub closed_at : ℕ
  pub telemetry_refs : List String
  pub feedback_refs : List String
  pub regression_refs : List String
  pub incident_refs : List String
  pub missing_evidence : List String

unfoldable pub window_post_init : EvidenceWindow → Result EvidenceWindow
unfolding required_all
window_post_init w = do
  required_all (w.id ∷ w.target_id ∷ [])
  raise_if (ltb w.closed_at w.opened_at) value_error
  raise_if (is_empty w.release_ids) value_error
  ok w

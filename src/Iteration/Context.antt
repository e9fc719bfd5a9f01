-- ===== src/Iteration/Context.antt =====
-- `_validate_context` and `_validate_cycle_identity` of application/iteration.py.
use autonomous_development.Prelude.{
  String, List, [], ◌∷◌, Option, some, Bool, not, ◌||◌, ◌&&◌, is_blank, is_some, ◌!=◌, string_eq,
  option_eq, list_eq, ◌≡◌, arith,
}
use autonomous_development.Prelude.Raise.{Result, ok, raise_if, value_error, ◌>>◌}
use autonomous_development.Domain.Canary.Floats.{Floats}
use autonomous_development.Domain.Models.{
  DevelopmentTarget, ProductObjectiveRevision, ReleasedVersion, EvidenceWindow, DevelopmentCycle,
}
use autonomous_development.Targets.Sql.{policy_eq}
use autonomous_development.Diagnoses.Codex.{is_absolute}

-- The arguments of `prepare_from_evidence`.
pub record IterationRequest (fl : Floats) : Type 0 where
  pub target : DevelopmentTarget
  pub objective : ProductObjectiveRevision
  pub baseline : ReleasedVersion
  pub window : EvidenceWindow
  pub repository_root : String
  pub cycle_id : String
  pub diagnosis_id : String
  pub proposal_id : String
  pub mandatory_gates : List String
  pub operation_id : String
  pub minimum_diagnosis_confidence : fl.Float

-- `value is not None and value != expected`
abbrev pub is_another : Option String → String → Bool
is_another value expected = is_some value && value != some expected

module _ {fl : Floats} where
  unfoldable pub validate_context : IterationRequest fl → Result (Unit {0})
  validate_context r = do
    raise_if (not (is_absolute r.repository_root)) value_error
    raise_if (is_blank r.operation_id) value_error
    raise_if (r.target.id != r.objective.target_id || r.target.id != r.baseline.target_id)
        value_error
    raise_if (r.target.active_objective_revision_id != r.objective.id) value_error
    raise_if (r.target.mutation_policy != r.objective.mutation_policy) value_error
    raise_if (r.baseline.objective_revision_id != r.objective.id) value_error
    raise_if (is_another r.target.current_release_id r.baseline.id) value_error
    raise_if (r.window.target_id != r.target.id || r.window.release_ids != r.baseline.id ∷ [])
        value_error

  unfoldable pub validate_cycle_identity :
      IterationRequest fl → DevelopmentCycle → Result (Unit {0})
  validate_cycle_identity r cycle = do
    raise_if
        (cycle.target_id != r.target.id
          || cycle.objective_revision_id != r.objective.id
          || cycle.baseline_release_id != r.baseline.id)
        value_error
    raise_if (is_another cycle.evidence_window_id r.window.id) value_error

  -- Target, objective, baseline and window belong together.
  pub record IsBound (r : IterationRequest fl) : Type 0 where
    pub objective_own : r.objective.target_id ≡ r.target.id
    pub baseline_own : r.baseline.target_id ≡ r.target.id
    pub active : r.target.active_objective_revision_id ≡ r.objective.id
    pub policy : r.target.mutation_policy ≡ r.objective.mutation_policy
    pub governed : r.baseline.objective_revision_id ≡ r.objective.id
    pub window_own : r.window.target_id ≡ r.target.id
    pub window_of_baseline : r.window.release_ids ≡ r.baseline.id ∷ []

  pub validate_context-IsBound : (r : IterationRequest fl) → validate_context r ≡ ok tt → IsBound r
  unfolding validate_context
  validate_context-IsBound r h =
      let o = string_eq.beq_iff r.target.id r.objective.target_id in
      let b = string_eq.beq_iff r.target.id r.baseline.target_id in
      let a = string_eq.beq_iff r.target.active_objective_revision_id r.objective.id in
      let p = policy_eq.beq_iff r.target.mutation_policy r.objective.mutation_policy in
      let g = string_eq.beq_iff r.baseline.objective_revision_id r.objective.id in
      let w = string_eq.beq_iff r.window.target_id r.target.id in
      let l = (list_eq {A = String}).beq_iff r.window.release_ids (r.baseline.id ∷ []) in
      record {
        objective_own = ground arith;
        baseline_own = ground arith;
        active = ground arith;
        policy = ground arith;
        governed = ground arith;
        window_own = ground arith;
        window_of_baseline = ground arith;
      }

-- ===== src/Domain/Models/Cycle.antt =====
-- `DevelopmentCycle` of domain/models.py.
use autonomous_development.Prelude.{ℕ, String, [], ◌∷◌, Option, none}
use autonomous_development.Prelude.Raise.{Result, ok, ◌>>◌}
use autonomous_development.Domain.Enums.{CycleState, ReleaseDecisionKind}
use autonomous_development.Domain.Models.Fields.{required_all}

pub record DevelopmentCycle : Type 0 where
  pub id : String
  pub target_id : String
  pub objective_revision_id : String
  pub baseline_release_id : String
  pub state : CycleState
  pub version : ℕ
  pub evidence_window_id : Option String
  pub diagnosis_id : Option String
  pub change_proposal_id : Option String
  pub candidate_id : Option String
  pub verification_run_id : Option String
  pub artifact_id : Option String
  pub candidate_deployment_id : Option String
  pub experiment_id : Option String
  pub release_decision : Option ReleaseDecisionKind

-- The defaults of the dataclass.
unfoldable pub fresh_cycle : String → String → String → String → DevelopmentCycle
fresh_cycle id target_id objective_revision_id baseline_release_id = record {
  id = id;
  target_id = target_id;
  objective_revision_id = objective_revision_id;
  baseline_release_id = baseline_release_id;
  state = CycleState.new;
  version = 0;
  evidence_window_id = none;
  diagnosis_id = none;
  change_proposal_id = none;
  candidate_id = none;
  verification_run_id = none;
  artifact_id = none;
  candidate_deployment_id = none;
  experiment_id = none;
  release_decision = none;
}

-- `DevelopmentCycle.__post_init__`: the checked value is what the constructor returns.
unfoldable pub cycle_post_init : DevelopmentCycle → Result DevelopmentCycle
unfolding required_all
cycle_post_init c = do
  required_all (c.id ∷ c.target_id ∷ c.objective_revision_id ∷ c.baseline_release_id ∷ [])
  ok c

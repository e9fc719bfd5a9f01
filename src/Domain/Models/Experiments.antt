-- ===== src/Domain/Models/Experiments.antt =====
-- `CanaryStage` and `Experiment` of domain/models.py.
use autonomous_development.Prelude.{
  ℕ, String, List, [], ◌∷◌, not, ◌||◌, length, is_empty, ltb, leb, sorted, ◌!=◌, nat_eq, list_eq,
}
use autonomous_development.Prelude.Raise.{Result, ok, raise_if, value_error, ◌>>◌}
use autonomous_development.Domain.Models.Fields.{required_all}

pub record CanaryStage : Type 0 where
  pub weight_percent : ℕ
  pub min_duration_seconds : ℕ
  pub min_requests : ℕ

unfoldable pub stage_post_init : CanaryStage → Result CanaryStage
stage_post_init s = do
  raise_if (not (leb 1 s.weight_percent) || not (leb s.weight_percent 100)) value_error
  raise_if (ltb s.min_duration_seconds 1 || ltb s.min_requests 1) value_error
  ok s

pub record Experiment : Type 0 where
  pub id : String
  pub target_id : String
  pub control_release_id : String
  pub candidate_deployment_id : String
  pub stages : List CanaryStage
  pub current_stage_index : ℕ

abbrev pub weights : List CanaryStage → List ℕ
weights [] = []
weights (s ∷ stages) = s.weight_percent ∷ weights stages

-- `stages[-1].weight_percent`, read only where there is a stage.
abbrev pub final_weight : List CanaryStage → ℕ
final_weight [] = 0
final_weight (s ∷ []) = s.weight_percent
final_weight (s ∷ t ∷ stages) = final_weight (t ∷ stages)

unfoldable pub experiment_post_init : Experiment → Result Experiment
unfolding sorted required_all
experiment_post_init e = do
  required_all (e.id ∷ e.target_id ∷ e.control_release_id ∷ e.candidate_deployment_id ∷ [])
  raise_if (is_empty e.stages) value_error
  raise_if (weights e.stages != sorted leb (weights e.stages)) value_error
  raise_if (final_weight e.stages != 100) value_error
  raise_if (not (ltb e.current_stage_index (length e.stages))) value_error
  ok e

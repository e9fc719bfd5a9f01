-- ===== src/Domain/Models/Diagnoses.antt =====
-- `Diagnosis` of domain/models.py.
use autonomous_development.Prelude.{String, List, [], ◌∷◌, not, ◌&&◌, is_empty}
use autonomous_development.Prelude.Raise.{Result, ok, raise_if, value_error, ◌>>◌}
use autonomous_development.Domain.Canary.Floats.{Floats}
use autonomous_development.Domain.Models.Fields.{required_all}

pub record Diagnosis (fl : Floats) : Type 0 where
  pub id : String
  pub evidence_window_id : String
  pub observed_problem : String
  pub affected_journey : String
  pub evidence_refs : List String
  pub confidence : fl.Float
  pub competing_hypotheses : List String
  pub likely_root_cause : String
  pub proposed_change_class : String
  pub expected_outcome : String
  pub risks : List String
  pub requested_paths : List String
  pub required_validation : List String

unfoldable pub diagnosis_post_init : (fl : Floats) → Diagnosis fl → Result (Diagnosis fl)
unfolding required_all
diagnosis_post_init fl d = do
  required_all (d.id ∷ d.evidence_window_id ∷ d.observed_problem ∷ d.likely_root_cause ∷ [])
  raise_if (not (fl.le fl.zero_float d.confidence && fl.le d.confidence fl.one_float)) value_error
  raise_if (is_empty d.evidence_refs) value_error
  ok d

-- ===== src/Traffic/Ports.antt =====
-- ports/traffic.py.
use autonomous_development.Prelude.{
  ℕ, String, List, [], ◌∷◌, Option, none, some, Bool, false, not, ◌&&◌, any, all, is_some, is_blank,
  leb,
}
use autonomous_development.Prelude.Raise.{Result, ok, raise_if, value_error, ◌>>◌}
use autonomous_development.Prelude.Action.{Action}
use autonomous_development.Domain.Models.{required_all}

pub record TrafficSplit : Type 0 where
  pub experiment_id : String
  pub stage_index : ℕ
  pub control_base_url : String
  pub candidate_base_url : String
  pub candidate_weight_percent : ℕ
  pub operation_id : String
  pub target_id : Option String
  pub control_release_id : Option String
  pub candidate_deployment_id : Option String

-- `isinstance(value, str) and value.strip()`
abbrev pub is_named : Option String → Bool
is_named none = false
is_named (some value) = not (is_blank value)

abbrev pub attribution : TrafficSplit → List (Option String)
attribution t = t.target_id ∷ t.control_release_id ∷ t.candidate_deployment_id ∷ []

unfoldable pub split_post_init : TrafficSplit → Result TrafficSplit
unfolding required_all
split_post_init t = do
  required_all (t.experiment_id ∷ t.control_base_url ∷ t.candidate_base_url ∷ t.operation_id ∷ [])
  raise_if (not (leb t.candidate_weight_percent 100)) value_error
  raise_if (any is_some (attribution t) && not (all is_named (attribution t))) value_error
  ok t

pub record TrafficRouteState : Type 0 where
  pub experiment_id : String
  pub stage_index : ℕ
  pub candidate_weight_percent : ℕ
  pub generation : ℕ
  pub evidence_ref : String
  pub target_id : Option String
  pub control_release_id : Option String
  pub candidate_deployment_id : Option String

pub record TrafficRouteSnapshot : Type 0 where
  pub experiment_id : String
  pub stage_index : ℕ
  pub control_base_url : String
  pub candidate_base_url : String
  pub candidate_weight_percent : ℕ
  pub operation_id : String
  pub generation : ℕ
  pub evidence_ref : String
  pub target_id : Option String
  pub control_release_id : Option String
  pub candidate_deployment_id : Option String

-- `TrafficDirector`. `restore_control` takes the experiment, the stage, the two URLs and the
-- operation id.
pub record TrafficDirector (W : Type 0) : Type 0 where
  pub read_current : W → Result (Option TrafficRouteSnapshot)
  pub apply : TrafficSplit → Action W TrafficRouteState
  pub restore_control :
      (experiment_id : String) (stage_index : ℕ) (control_base_url candidate_base_url : String)
      (operation_id : String)
      → Action W TrafficRouteState

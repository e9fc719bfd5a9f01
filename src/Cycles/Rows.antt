-- ===== src/Cycles/Rows.antt =====
-- The rows of adapters/postgres/schema.py for cycles, and the conversions of
-- adapters/postgres/cycles.py. The lengths of the text columns are not enforced.
use autonomous_development.Prelude.{
  ℕ, String, Option, none, some, Bool, ◌==◌, string_eq, if◌then◌else◌, ◌≡◌, refl,
}
use autonomous_development.Prelude.Raise.{Result, ok, require, value_error, ◌>>=◌}
use autonomous_development.Domain.Enums.{
  cycle_state_value, parse_cycle_state, parse_cycle_state-value, ReleaseDecisionKind,
  release_kind_value, parse_release_kind,
}
use autonomous_development.Domain.Models.{DevelopmentCycle, cycle_post_init}
use autonomous_development.Domain.Transitions.Table.{is_terminal}
use autonomous_development.Cycles.Repository.{TransitionReceipt}

pub record CycleRow : Type 0 where
  pub id : String
  pub target_id : String
  pub objective_revision_id : String
  pub baseline_release_id : String
  pub state : String
  pub version : ℕ
  pub evidence_window_id : Option String
  pub diagnosis_id : Option String
  pub change_proposal_id : Option String
  pub candidate_id : Option String
  pub verification_run_id : Option String
  pub artifact_id : Option String
  pub candidate_deployment_id : Option String
  pub experiment_id : Option String
  pub release_decision : Option String
  pub is_terminal : Bool

pub record TransitionRow : Type 0 where
  pub operation_id : String
  pub cycle_id : String
  pub from_version : ℕ
  pub result_version : ℕ
  pub to_state : String

abbrev pub kind_value : Option ReleaseDecisionKind → Option String
kind_value none = none
kind_value (some k) = some (release_kind_value k)

-- `_cycle_values`
unfoldable pub cycle_values : DevelopmentCycle → CycleRow
cycle_values c = record {
  id = c.id;
  target_id = c.target_id;
  objective_revision_id = c.objective_revision_id;
  baseline_release_id = c.baseline_release_id;
  state = cycle_state_value c.state;
  version = c.version;
  evidence_window_id = c.evidence_window_id;
  diagnosis_id = c.diagnosis_id;
  change_proposal_id = c.change_proposal_id;
  candidate_id = c.candidate_id;
  verification_run_id = c.verification_run_id;
  artifact_id = c.artifact_id;
  candidate_deployment_id = c.candidate_deployment_id;
  experiment_id = c.experiment_id;
  release_decision = kind_value c.release_decision;
  is_terminal = is_terminal c.state;
}

-- `ReleaseDecisionKind(str(decision)) if decision else None`
unfoldable pub kind_from_row : Option String → Result (Option ReleaseDecisionKind)
kind_from_row none = ok none
kind_from_row (some text) =
    if text == ""
    then ok none
    else do k ← require (parse_release_kind text) value_error; ok (some k)

-- `_cycle_from_row`
unfoldable pub cycle_from_row : CycleRow → Result DevelopmentCycle
unfolding kind_from_row
cycle_from_row r = do
  state ← require (parse_cycle_state r.state) value_error
  decision ← kind_from_row r.release_decision
  cycle_post_init (record {
    id = r.id;
    target_id = r.target_id;
    objective_revision_id = r.objective_revision_id;
    baseline_release_id = r.baseline_release_id;
    state = state;
    version = r.version;
    evidence_window_id = r.evidence_window_id;
    diagnosis_id = r.diagnosis_id;
    change_proposal_id = r.change_proposal_id;
    candidate_id = r.candidate_id;
    verification_run_id = r.verification_run_id;
    artifact_id = r.artifact_id;
    candidate_deployment_id = r.candidate_deployment_id;
    experiment_id = r.experiment_id;
    release_decision = decision;
  })

-- `_receipt_values` and `_receipt_from_row`
unfoldable pub receipt_values : TransitionReceipt → TransitionRow
receipt_values r = record {
  operation_id = r.operation_id;
  cycle_id = r.cycle_id;
  from_version = r.from_version;
  result_version = r.result_version;
  to_state = cycle_state_value r.to_state;
}

unfoldable pub receipt_from_row : TransitionRow → Result TransitionReceipt
receipt_from_row r = do
  state ← require (parse_cycle_state r.to_state) value_error
  ok (record {
    operation_id = r.operation_id;
    cycle_id = r.cycle_id;
    from_version = r.from_version;
    result_version = r.result_version;
    to_state = state;
  })

kind_roundtrip : (k : Option ReleaseDecisionKind) → kind_from_row (kind_value k) ≡ ok k
unfolding kind_from_row release_kind_value
kind_roundtrip none = refl
kind_roundtrip (some ReleaseDecisionKind.promote) = unfold parse_release_kind in refl
kind_roundtrip (some _) = unfold parse_release_kind in refl

-- A well-formed cycle is read back from its row as it was written.
pub cycle_from_row-values :
    (c : DevelopmentCycle) → cycle_post_init c ≡ ok c → cycle_from_row (cycle_values c) ≡ ok c
unfolding cycle_from_row cycle_values
cycle_from_row-values c h = rw (parse_cycle_state-value, kind_roundtrip) h

pub receipt_from_row-values : (r : TransitionReceipt) → receipt_from_row (receipt_values r) ≡ ok r
unfolding receipt_from_row receipt_values
receipt_from_row-values r = rw (parse_cycle_state-value)

-- ===== src/Domain/Transitions/Guard.antt =====
-- `transition_cycle` and `_validate_required_reference` of domain/transitions.py.
use autonomous_development.Prelude.{
  ℕ, ◌+◌, String, List, [], ◌∷◌, Option, none, some, Bool, not, ◌&&◌, elem, is_some, ◌==◌, ◌!=◌,
  nat_eq, string_eq, option_eq, if◌then◌else◌,
}
use autonomous_development.Prelude.Raise.{Result, raise_if, stale_cycle, transition_error, ◌>>◌}
use autonomous_development.Domain.Enums.{
  CycleState, cycle_state_eq, ReleaseDecisionKind, release_kind_eq,
}
use autonomous_development.Domain.Models.{DevelopmentCycle, cycle_post_init}
use autonomous_development.Domain.Transitions.Table.{is_terminal, permits}

-- The keyword arguments of `transition_cycle` that name evidence.
pub record Evidence : Type 0 where
  pub evidence_window_id : Option String
  pub diagnosis_id : Option String
  pub change_proposal_id : Option String
  pub candidate_id : Option String
  pub verification_run_id : Option String
  pub artifact_id : Option String
  pub candidate_deployment_id : Option String
  pub experiment_id : Option String
  pub release_decision : Option ReleaseDecisionKind

-- The defaults: every argument `None`.
abbrev pub no_evidence : Evidence
no_evidence = record {
  evidence_window_id = none;
  diagnosis_id = none;
  change_proposal_id = none;
  candidate_id = none;
  verification_run_id = none;
  artifact_id = none;
  candidate_deployment_id = none;
  experiment_id = none;
  release_decision = none;
}

-- `new or old` on texts: an empty text is false.
abbrev pub or_text : Option String → Option String → Option String
or_text none old = old
or_text (some value) old = if value == "" then old else some value

-- `new or old` on enum members, which are never false.
abbrev pub or_kind :
    Option ReleaseDecisionKind → Option ReleaseDecisionKind → Option ReleaseDecisionKind
or_kind none old = old
or_kind (some kind) old = some kind

-- The updated cycle, before its constructor checks it.
unfoldable pub merged : DevelopmentCycle → CycleState → Evidence → DevelopmentCycle
merged c to_state e = record c {
  state = to_state;
  version = c.version + 1;
  evidence_window_id = or_text e.evidence_window_id c.evidence_window_id;
  diagnosis_id = or_text e.diagnosis_id c.diagnosis_id;
  change_proposal_id = or_text e.change_proposal_id c.change_proposal_id;
  candidate_id = or_text e.candidate_id c.candidate_id;
  verification_run_id = or_text e.verification_run_id c.verification_run_id;
  artifact_id = or_text e.artifact_id c.artifact_id;
  candidate_deployment_id = or_text e.candidate_deployment_id c.candidate_deployment_id;
  experiment_id = or_text e.experiment_id c.experiment_id;
  release_decision = or_kind e.release_decision c.release_decision;
}

abbrev pub needs_decision : List CycleState
needs_decision = CycleState.promoted ∷ CycleState.soaking ∷ CycleState.completed ∷ []

abbrev pub needs_experiment : List CycleState
needs_experiment = CycleState.canarying ∷ CycleState.promotion_ready ∷ needs_decision

abbrev pub needs_deployment : List CycleState
needs_deployment = CycleState.staged ∷ needs_experiment

abbrev pub needs_artifact : List CycleState
needs_artifact = CycleState.built ∷ needs_deployment

abbrev pub needs_run : List CycleState
needs_run = CycleState.verified ∷ needs_artifact

abbrev pub needs_candidate : List CycleState
needs_candidate = CycleState.candidate_ready ∷ CycleState.verifying ∷ needs_run

-- `state in states and reference is None`
abbrev pub lacks : CycleState → List CycleState → Option String → Bool
lacks state states reference = elem state states && not (is_some reference)

abbrev pub lacks_promote : CycleState → Option ReleaseDecisionKind → Bool
lacks_promote state decision =
    elem state needs_decision && decision != some ReleaseDecisionKind.promote

-- `_validate_required_reference`
unfoldable pub validate_required_reference :
    CycleState
    → (candidate_id verification_run_id artifact_id : Option String)
    → (candidate_deployment_id experiment_id : Option String) → Option ReleaseDecisionKind
    → Result (Unit {0})
validate_required_reference state candidate run artifact deployment experiment decision = do
  raise_if (lacks state needs_candidate candidate) transition_error
  raise_if (lacks state needs_run run) transition_error
  raise_if (lacks state needs_artifact artifact) transition_error
  raise_if (lacks state needs_deployment deployment) transition_error
  raise_if (lacks state needs_experiment experiment) transition_error
  raise_if (lacks_promote state decision) transition_error

unfoldable pub transition_cycle :
    DevelopmentCycle → CycleState → (expected_version : ℕ) → Evidence → Result DevelopmentCycle
transition_cycle cycle to_state expected_version e =
    let next = merged cycle to_state e in
    do
      raise_if (expected_version != cycle.version) stale_cycle
      raise_if (is_terminal cycle.state) transition_error
      raise_if (not (permits cycle.state to_state)) transition_error
      validate_required_reference to_state next.candidate_id next.verification_run_id
          next.artifact_id next.candidate_deployment_id next.experiment_id next.release_decision
      cycle_post_init next

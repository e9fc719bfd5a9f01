-- ===== src/Tests/Iterating.antt =====
-- A diagnosed cycle gets its proposal.
use autonomous_development.Prelude.{ℕ, String, List, ◌∷◌, [], some, none, nat_eq, ◌≡◌, refl}
use autonomous_development.Prelude.Raise.{ok}
use autonomous_development.Domain.Enums.{CycleState}
use autonomous_development.Domain.Models.{DevelopmentCycle, ChangeProposal}
use autonomous_development.Cycles.Rows.{cycle_values}
use autonomous_development.Cycles.Sql.{CycleDb, sql_repository}
use autonomous_development.Proposals.Service.{intent_text, drafted}
use autonomous_development.Iteration.Context.{IterationRequest, IsBound}
use autonomous_development.Iteration.Service.{
  IterationStore, IterationWiring, prepared, prepare_from_evidence,
}
use autonomous_development.Iteration.Outcome.{IsOutcome}
use autonomous_development.Iteration.Prepared.{prepare-IsOutcome}
use autonomous_development.Tests.Data.{thousandths}
use autonomous_development.Tests.Catalogue.{release_one}
use autonomous_development.Tests.Intake.{target, objective, window}
use autonomous_development.Tests.Diagnosing.{wiring, made, full_store}

abbrev diagnosed_cycle : DevelopmentCycle
diagnosed_cycle = record {
  id = "c";
  target_id = "t";
  objective_revision_id = "o";
  baseline_release_id = "r1";
  state = CycleState.diagnosed;
  version = 3;
  evidence_window_id = some "w";
  diagnosis_id = some "g";
  change_proposal_id = none;
  candidate_id = none;
  verification_run_id = none;
  artifact_id = none;
  candidate_deployment_id = none;
  experiment_id = none;
  release_decision = none;
}

abbrev proposed_cycle : DevelopmentCycle
proposed_cycle = record diagnosed_cycle {
  state = CycleState.change_proposed;
  version = 4;
  change_proposal_id = some "p";
}

abbrev request : IterationRequest thousandths
request = record {
  target = target;
  objective = objective;
  baseline = release_one;
  window = window;
  repository_root = "/repo";
  cycle_id = "c";
  diagnosis_id = "g";
  proposal_id = "p";
  mandatory_gates = "unit" ∷ [];
  operation_id = "op";
  minimum_diagnosis_confidence = 650;
}

abbrev pub iteration : IterationWiring thousandths CycleDb ℕ
iteration = record {
  repository = sql_repository;
  verify_baseline = λ root branch turns.
      (ok (record { repository_root = root; commit = "c1"; tree = "t1"; branch = branch }), turns);
  diagnosis = wiring;
}

abbrev proposal : ChangeProposal
unfolding intent_text
proposal =
    drafted made objective release_one "p" ("unit" ∷ []) ("app/search.py" ∷ []) (intent_text made)

abbrev before : IterationStore thousandths CycleDb ℕ
unfolding cycle_values
before = record {
  cycles = record { cycles = cycle_values diagnosed_cycle ∷ []; transitions = [] };
  diagnosing = full_store;
  proposals = [];
}

abbrev after : IterationStore thousandths CycleDb ℕ
unfolding prepare_from_evidence
after = (prepare_from_evidence iteration request [] before).1

prepare_runs :
    prepare_from_evidence iteration request [] before
    ≡ (ok (prepared proposed_cycle made proposal), after)
unfolding prepare_from_evidence after before
    autonomous_development.Iteration.Context.validate_context
    autonomous_development.Prelude.is_blank autonomous_development.Cycles.Service.get
    autonomous_development.Cycles.Sql.get autonomous_development.Cycles.Rows.cycle_from_row
    autonomous_development.Domain.Enums.parse_cycle_state
    autonomous_development.Iteration.Context.validate_cycle_identity
    autonomous_development.Diagnoses.Service.get autonomous_development.Diagnoses.Sql.get_diagnosis
    autonomous_development.Domain.Models.diagnosis_post_init
    autonomous_development.Proposals.Service.from_diagnosis
    autonomous_development.Domain.Models.proposal_post_init
    autonomous_development.Domain.Policies.Scope.validate_changed_paths
    autonomous_development.Domain.Policies.Scope.canonical
    autonomous_development.Domain.Policies.Scope.normalize_all
    autonomous_development.Domain.Policies.Scope.normalize_prefix
    autonomous_development.Domain.Policies.Scope.normalize_path
    autonomous_development.Domain.Policies.Paths.starts_with
    autonomous_development.Domain.Policies.Paths.contains
    autonomous_development.Domain.Policies.Scope.check_paths
    autonomous_development.Domain.Policies.Scope.check_path
    autonomous_development.Domain.Policies.Scope.matches
    autonomous_development.Domain.Policies.Paths.parts
    autonomous_development.Domain.Policies.Paths.parents
    autonomous_development.Proposals.Sql.add_proposal
    autonomous_development.Cycles.Service.transition
    autonomous_development.Cycles.Sql.get_transition autonomous_development.Cycles.Service.perform
    autonomous_development.Domain.Transitions.Guard.transition_cycle
    autonomous_development.Domain.Transitions.Table.is_terminal
    autonomous_development.Domain.Transitions.Table.permits
    autonomous_development.Domain.Transitions.Guard.validate_required_reference
    autonomous_development.Domain.Transitions.Guard.merged
    autonomous_development.Cycles.Sql.commit_transition autonomous_development.Cycles.Sql.settle
    autonomous_development.Cycles.Sql.write_transition
prepare_runs = refl

prepare-IsOutcome_example :
    IsBound request × IsOutcome request before after (prepared proposed_cycle made proposal)
prepare-IsOutcome_example =
    prepare-IsOutcome iteration request [] before after (prepared proposed_cycle made proposal)
      prepare_runs

-- ===== src/Tests/Scheduling.antt =====
-- A feedback triggers an iteration.
use autonomous_development.Prelude.{ℕ, String, List, ◌∷◌, [], some, none, nat_eq, ◌≡◌, ◌⊎◌, refl}
use autonomous_development.Prelude.Raise.{ok}
use autonomous_development.Cycles.Sql.{CycleDb}
use autonomous_development.Scheduler.Policy.{FeedbackIterationResult}
use autonomous_development.Scheduler.Reads.{SchedulerWiring}
use autonomous_development.Scheduler.Service.{SchedulerStore, prepare_next}
use autonomous_development.Scheduler.Once.{IsIdle, IsTriggered, prepare_next-once}
use autonomous_development.Tests.Data.{thousandths}
use autonomous_development.Tests.Intake.{registry, sources}
use autonomous_development.Tests.Diagnosing.{empty_store}
use autonomous_development.Tests.Iterating.{iteration}

abbrev scheduler : SchedulerWiring thousandths CycleDb ℕ
scheduler = record {
  iteration = iteration;
  sources = sources;
  registry = registry;
  digest_of = λ t r f. "1";
  resolve = λ path. ok "/repo";
  load_contract =
      λ root. ok (record { target_id = "t"; revision = "1"; mandatory_gates = "unit" ∷ [] });
  policy = record {
    minimum_severity = 2;
    diagnosis_delay_seconds = 1;
    evidence_lookback_seconds = 1;
    minimum_diagnosis_confidence = 650;
  };
}

abbrev start : SchedulerStore thousandths CycleDb ℕ
start = record {
  iteration = record {
    cycles = record { cycles = []; transitions = [] };
    diagnosing = empty_store;
    proposals = [];
  };
  windows = [];
  triggers = [];
}

abbrev after : SchedulerStore thousandths CycleDb ℕ
unfolding prepare_next
after = (prepare_next scheduler "t" 6 start).1

abbrev result : FeedbackIterationResult
result = record {
  status = "prepared";
  target_id = "t";
  feedback_id = some "f";
  cycle_id = some "feedback-1-cycle";
  proposal_id = some "feedback-1-proposal";
}

prepare_next_runs : prepare_next scheduler "t" 6 start ≡ (ok result, after)
unfolding prepare_next after autonomous_development.Cycles.Sql.find_active_for_target
    autonomous_development.Catalog.Service.serving autonomous_development.Catalog.Sql.get_serving
    autonomous_development.Domain.Models.release_post_init autonomous_development.Prelude.is_blank
    autonomous_development.Feedback.Sql.list_attributable autonomous_development.Prelude.sorted
    autonomous_development.Scheduler.Triggers.select_feedback
    autonomous_development.Windows.Service.close autonomous_development.Windows.Sql.get_window
    autonomous_development.Feedback.Sql.get_feedback
    autonomous_development.Domain.Models.window_post_init
    autonomous_development.Windows.Sql.add_window
    autonomous_development.Targets.Service.runtime_target
    autonomous_development.Targets.Sql.get_target autonomous_development.Targets.Sql.target_from_row
    autonomous_development.Targets.Service.get_active_objective
    autonomous_development.Targets.Sql.get_objective
    autonomous_development.Targets.Sql.objective_from_row
    autonomous_development.Iteration.Service.prepare_from_evidence
    autonomous_development.Iteration.Context.validate_context
    autonomous_development.Cycles.Service.get autonomous_development.Cycles.Sql.get
    autonomous_development.Cycles.Service.create autonomous_development.Cycles.Sql.add
    autonomous_development.Cycles.Sql.insert_cycle autonomous_development.Cycles.Rows.cycle_values
    autonomous_development.Domain.Transitions.Table.is_terminal
    autonomous_development.Iteration.Context.validate_cycle_identity
    autonomous_development.Cycles.Service.transition
    autonomous_development.Cycles.Sql.get_transition autonomous_development.Cycles.Service.perform
    autonomous_development.Cycles.Rows.cycle_from_row
    autonomous_development.Domain.Enums.parse_cycle_state
    autonomous_development.Domain.Transitions.Guard.transition_cycle
    autonomous_development.Domain.Transitions.Table.permits
    autonomous_development.Domain.Transitions.Guard.validate_required_reference
    autonomous_development.Domain.Transitions.Guard.merged
    autonomous_development.Cycles.Sql.commit_transition autonomous_development.Cycles.Sql.settle
    autonomous_development.Cycles.Sql.write_transition
    autonomous_development.Cycles.Rows.receipt_values autonomous_development.Cycles.Sql.update_rows
    autonomous_development.Diagnoses.Service.diagnose
    autonomous_development.Diagnoses.Sql.get_diagnosis
    autonomous_development.Diagnoses.References.feedback_for_window
    autonomous_development.Diagnoses.Output.parse_output
    autonomous_development.Domain.Models.diagnosis_post_init
    autonomous_development.Diagnoses.Sql.add_diagnosis
    autonomous_development.Proposals.Service.from_diagnosis
    autonomous_development.Domain.Models.proposal_post_init
    autonomous_development.Domain.Policies.Scope.matches
    autonomous_development.Domain.Policies.Paths.parts
    autonomous_development.Domain.Policies.Paths.parents
    autonomous_development.Proposals.Sql.add_proposal
    autonomous_development.Scheduler.Triggers.record_trigger
    autonomous_development.Domain.Policies.Scope.normalize_path
    autonomous_development.Domain.Policies.Paths.starts_with
    autonomous_development.Domain.Policies.Paths.contains
    autonomous_development.Domain.Policies.Scope.check_paths
    autonomous_development.Domain.Policies.Scope.check_path
    autonomous_development.Domain.Policies.Scope.validate_changed_paths
    autonomous_development.Domain.Policies.Scope.canonical
    autonomous_development.Domain.Policies.Scope.normalize_all
    autonomous_development.Domain.Policies.Scope.normalize_prefix
prepare_next_runs = refl

prepare_next-once_example :
    IsIdle scheduler "t" start after result ⊎ IsTriggered scheduler "t" 6 start after result
prepare_next-once_example = prepare_next-once scheduler "t" 6 start after result prepare_next_runs

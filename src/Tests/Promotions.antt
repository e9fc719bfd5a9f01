-- ===== src/Tests/Promotions.antt =====
-- Releases.
use autonomous_development.Domain.Canary.Evaluate.{
  stage_guardrail_violations, stage_outcome, evaluate_canary_stage,
}
use autonomous_development.Experiments.Service.{record_decision, replay_decision}
use autonomous_development.Prelude.{
  is_blank, ℕ, ◌+◌, ◌≤◌, ◌≡◌, refl, inl, inr, String, List, [], ◌∷◌, Option, none, some, Bool, true,
  false, find, count_if, concat, arith,
}
use autonomous_development.Prelude.Raise.{ok}
use autonomous_development.Domain.Enums.{CycleState, CanaryDecisionKind, ReleaseDecisionKind}
use autonomous_development.Domain.Models.{
  DevelopmentCycle, Experiment, CanaryStage, ReleaseDecision,
}
use autonomous_development.Domain.Canary.Evidence.{
  stage_decision_post_init, CanaryStageDecision, CanaryStageEvidence,
}
use autonomous_development.Cycles.Rows.{CycleRow, cycle_values}
use autonomous_development.Cycles.Sql.{CycleDb, has_id, is_active, sql_repository}
use autonomous_development.Cycles.Constraints.{IsConsistent}
use autonomous_development.Cycles.Commit.{sql_repository-IsLawful}
use autonomous_development.Experiments.Sql.{
  commit_stage_decision, get_experiment, get_stage_decision, ExperimentDb,
}
use autonomous_development.Releases.Service.{
  ReleaseStore, ReleaseApplicationResult, decide_and_apply_promotion, apply_canary_decision,
}
use autonomous_development.Releases.Promote.{IsPromotion, decide_and_apply_promotion-IsPromotion}
use autonomous_development.Tests.Data.{
  ready_cycle, canary_cycle, ready_decision, passed_run, experiment_db,
}

-- Promotion from the databases.
at_most_one : (p : CycleRow → Bool) (row : CycleRow) → count_if p (row ∷ []) ≤ 1
at_most_one p row = ground arith

abbrev store_of : DevelopmentCycle → ReleaseStore CycleDb
unfolding cycle_values
store_of c = record {
  cycles = record { cycles = cycle_values c ∷ []; transitions = [] };
  experiments = experiment_db;
  decisions = [];
}

abbrev promoted_cycle : DevelopmentCycle
promoted_cycle = record ready_cycle {
  state = CycleState.promoted;
  version = 13;
  release_decision = some ReleaseDecisionKind.promote;
}

abbrev promote : ReleaseDecision
promote = record {
  kind = ReleaseDecisionKind.promote;
  cycle_id = "c";
  gate_refs = "unit" ∷ [];
  evidence_refs = "e0" ∷ "e1" ∷ [];
  reason = "all mandatory gates passed and complete canary history is promotion-ready";
}

abbrev after_promotion : ReleaseStore CycleDb
unfolding decide_and_apply_promotion store_of
after_promotion =
    (decide_and_apply_promotion sql_repository "c" passed_run ("unit" ∷ []) 12 "op"
      (store_of ready_cycle)).1

promotion_runs :
    decide_and_apply_promotion sql_repository "c" passed_run
      ("unit" ∷ [])
      12
      "op"
      (store_of ready_cycle)
    ≡ (ok (record { decision = some promote; cycle = promoted_cycle }), after_promotion)
unfolding decide_and_apply_promotion after_promotion autonomous_development.Prelude.is_blank
    autonomous_development.Cycles.Service.get autonomous_development.Cycles.Sql.get
    autonomous_development.Cycles.Rows.cycle_from_row
    autonomous_development.Domain.Enums.parse_cycle_state
    autonomous_development.Domain.Models.cycle_post_init
    autonomous_development.Releases.Recompute.recompute
    autonomous_development.Experiments.Service.get
    autonomous_development.Experiments.Sql.get_experiment
    autonomous_development.Experiments.Service.promotion_history
    autonomous_development.Experiments.Sql.list_stage_decisions
    autonomous_development.Experiments.Receipts.decision_from_receipt
    autonomous_development.Domain.Canary.Evidence.stage_decision_post_init
    autonomous_development.Domain.Promotion.decide_promotion
    autonomous_development.Domain.Promotion.history_outcome
    autonomous_development.Domain.Canary.Evaluate.promotion_evidence_refs
    autonomous_development.Domain.Models.release_decision_post_init
    autonomous_development.Domain.Models.passed_gates
    autonomous_development.Domain.Promotion.final_outcome
    autonomous_development.Domain.Promotion.gates_unsatisfied
    autonomous_development.Domain.Transitions.Guard.merged
    autonomous_development.Domain.Transitions.Guard.transition_cycle
    autonomous_development.Domain.Transitions.Guard.validate_required_reference
    autonomous_development.Domain.Transitions.Table.is_terminal
    autonomous_development.Domain.Transitions.Table.permits
    autonomous_development.Cycles.Service.perform autonomous_development.Cycles.Service.transition
    autonomous_development.Cycles.Sql.commit_transition
    autonomous_development.Cycles.Sql.get_transition autonomous_development.Cycles.Sql.settle
    autonomous_development.Cycles.Sql.write_transition autonomous_development.Releases.Decisions.get
    autonomous_development.Releases.Decisions.insert_receipt
    autonomous_development.Releases.Decisions.record_release
    autonomous_development.Releases.Decisions.settle
    autonomous_development.Releases.Recompute.decision_cycle
    autonomous_development.Releases.Service.settle_decision
    autonomous_development.Releases.Service.apply_decision autonomous_development.Prelude.sorted
    autonomous_development.Experiments.Service.require_recorded_decision
    autonomous_development.Releases.Service.apply_kind
    autonomous_development.Cycles.Rows.cycle_values autonomous_development.Domain.Models.run_passed
promotion_runs = refl

decide_and_apply_promotion-IsPromotion_example :
    IsPromotion sql_repository "c" passed_run
      ("unit" ∷ [])
      12
      "op"
      (store_of ready_cycle)
      after_promotion
      promoted_cycle
decide_and_apply_promotion-IsPromotion_example =
    decide_and_apply_promotion-IsPromotion sql_repository IsConsistent sql_repository-IsLawful "c"
      passed_run ("unit" ∷ []) 12 "op" (store_of ready_cycle) after_promotion promote promoted_cycle
      refl promotion_runs

abbrev after_canary : ReleaseStore CycleDb
unfolding apply_canary_decision store_of
after_canary =
    (apply_canary_decision sql_repository "c" ready_decision 11 "op" (store_of canary_cycle)).1

canary_applies :
    apply_canary_decision sql_repository "c" ready_decision 11 "op" (store_of canary_cycle)
    ≡ (ok ready_cycle, after_canary)
unfolding apply_canary_decision after_canary autonomous_development.Prelude.is_blank
    autonomous_development.Cycles.Service.get autonomous_development.Cycles.Sql.get
    autonomous_development.Cycles.Rows.cycle_from_row
    autonomous_development.Domain.Enums.parse_cycle_state
    autonomous_development.Domain.Models.cycle_post_init
    autonomous_development.Releases.Recompute.recompute
    autonomous_development.Experiments.Service.get
    autonomous_development.Experiments.Sql.get_experiment
    autonomous_development.Experiments.Service.promotion_history
    autonomous_development.Experiments.Sql.list_stage_decisions
    autonomous_development.Experiments.Receipts.decision_from_receipt
    autonomous_development.Domain.Canary.Evidence.stage_decision_post_init
    autonomous_development.Domain.Promotion.decide_promotion
    autonomous_development.Domain.Promotion.history_outcome
    autonomous_development.Domain.Canary.Evaluate.promotion_evidence_refs
    autonomous_development.Domain.Models.release_decision_post_init
    autonomous_development.Domain.Models.passed_gates
    autonomous_development.Domain.Promotion.final_outcome
    autonomous_development.Domain.Promotion.gates_unsatisfied
    autonomous_development.Domain.Transitions.Guard.merged
    autonomous_development.Domain.Transitions.Guard.transition_cycle
    autonomous_development.Domain.Transitions.Guard.validate_required_reference
    autonomous_development.Domain.Transitions.Table.is_terminal
    autonomous_development.Domain.Transitions.Table.permits
    autonomous_development.Cycles.Service.perform autonomous_development.Cycles.Service.transition
    autonomous_development.Cycles.Sql.commit_transition
    autonomous_development.Cycles.Sql.get_transition autonomous_development.Cycles.Sql.settle
    autonomous_development.Cycles.Sql.write_transition autonomous_development.Releases.Decisions.get
    autonomous_development.Releases.Decisions.insert_receipt
    autonomous_development.Releases.Decisions.record_release
    autonomous_development.Releases.Decisions.settle
    autonomous_development.Releases.Recompute.decision_cycle
    autonomous_development.Releases.Service.settle_decision
    autonomous_development.Releases.Service.apply_decision autonomous_development.Prelude.sorted
    autonomous_development.Experiments.Service.require_recorded_decision
    autonomous_development.Releases.Service.apply_kind
    autonomous_development.Cycles.Rows.cycle_values autonomous_development.Domain.Models.run_passed
canary_applies = refl

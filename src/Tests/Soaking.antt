-- ===== src/Tests/Soaking.antt =====
-- A soak on the SQL stores, over a world that counts its calls.
use autonomous_development.Prelude.{
  ℕ, suc, ◌≡◌, refl, String, List, [], ◌∷◌, none, some, Bool, concat,
}
use autonomous_development.Prelude.Raise.{ok, value_error}
use autonomous_development.Domain.Enums.{CycleState, ReleaseDecisionKind, SoakDecisionKind}
use autonomous_development.Domain.Models.{DevelopmentCycle}
use autonomous_development.Domain.Canary.Soak.{PostPromotionSoakDecision}
use autonomous_development.Cycles.Rows.{cycle_values}
use autonomous_development.Cycles.Sql.{CycleDb, sql_repository}
use autonomous_development.Cycles.Constraints.{IsConsistent}
use autonomous_development.Cycles.Commit.{sql_repository-IsLawful}
use autonomous_development.Traffic.Ports.{TrafficRouteState, TrafficRouteSnapshot, TrafficDirector}
use autonomous_development.Rollout.Service.{CanaryObserver}
use autonomous_development.Soak.Decisions.{SoakDecisionReceipt}
use autonomous_development.Soak.Ports.{DeploymentProvider, RepositoryProvider}
use autonomous_development.Soak.Service.{SoakWiring, SoakStore, observe, apply}
use autonomous_development.Soak.Observes.{observe_repeat}
use autonomous_development.Soak.Rollback.{IsRolledBack, IsOutcome, apply-IsRolledBack}
use autonomous_development.Soak.Errors.{apply_error_unchanged}
use autonomous_development.Tests.Data.{thousandths, guardrails, ready_cycle, whole, whole_evidence}
use autonomous_development.Tests.Catalogue.{catalog}

abbrev soaking_cycle : DevelopmentCycle
soaking_cycle = record ready_cycle {
  state = CycleState.soaking;
  version = 14;
  release_decision = some ReleaseDecisionKind.promote;
}

abbrev route : TrafficRouteSnapshot
route = record {
  experiment_id = "x-soak";
  stage_index = 0;
  control_base_url = "http://control";
  candidate_base_url = "http://candidate";
  candidate_weight_percent = 100;
  operation_id = "route";
  generation = 1;
  evidence_ref = "ref";
  target_id = some "t";
  control_release_id = some "r0";
  candidate_deployment_id = some "d1";
}

abbrev route_state : TrafficRouteState
route_state = record {
  experiment_id = "x-soak";
  stage_index = 0;
  candidate_weight_percent = 100;
  generation = 1;
  evidence_ref = "ref";
  target_id = some "t";
  control_release_id = some "r0";
  candidate_deployment_id = some "d1";
}

abbrev director : TrafficDirector ℕ
director = record {
  read_current = λ calls. ok (some route);
  apply = λ split calls. (ok route_state, suc calls);
  restore_control = λ x i control candidate op calls. (ok route_state, suc calls);
}

abbrev observer : CanaryObserver thousandths ℕ
observer = record { observe = λ x i stage state calls. (ok whole_evidence, suc calls) }

abbrev provider : DeploymentProvider ℕ
provider = record {
  ensure = λ spec calls. (
    ok (record {
      deployment_id = spec.deployment_id;
      container_id = "n";
      base_url = concat "http://" spec.deployment_id;
      evidence_ref = "ref";
    }),
    suc calls,
  );
  stop = λ deployment_id calls. (ok tt, suc calls);
}

abbrev repository : RepositoryProvider ℕ
repository = record {
  promote_candidate = λ root branch base commit tree calls. (
    ok (record { commit = commit; tree = tree; changed_paths = []; codex_thread_id = none }),
    suc calls,
  );
  restore_baseline = λ root branch commit calls. (
    ok (record { repository_root = root; commit = commit; tree = "t0"; branch = branch }),
    suc calls,
  );
  cleanup_cycle = λ root cycle_id worktrees calls. (ok tt, suc calls);
}

abbrev wiring : SoakWiring thousandths ℕ
wiring = record {
  traffic = director;
  observer = observer;
  deployment = provider;
  repository = repository;
  contract_target_id = "t";
  container_port = 8000;
  repository_root = "/repo";
  worktree_root = "/worktrees";
  default_branch = "main";
}

abbrev rollback_receipt : SoakDecisionReceipt
rollback_receipt = record {
  operation_id = "dec";
  cycle_id = "c";
  decision = record {
    kind = SoakDecisionKind.rollback;
    evidence_refs = "e" ∷ [];
    violated_guardrails = "candidate_error_rate" ∷ [];
    reason = "regression";
  };
}

abbrev store : List SoakDecisionReceipt → SoakStore CycleDb ℕ
unfolding cycle_values
store decisions = record {
  cycles = record { cycles = cycle_values soaking_cycle ∷ []; transitions = [] };
  decisions = decisions;
  runtime = record { catalog = catalog; world = 0 };
}

abbrev rolled_back_cycle : DevelopmentCycle
rolled_back_cycle = record soaking_cycle {
  state = CycleState.rolled_back;
  version = 15;
  release_decision = some ReleaseDecisionKind.rollback;
}

abbrev after_rollback : SoakStore CycleDb ℕ
unfolding apply store
after_rollback = (apply sql_repository wiring "c" "dec" "op" (store (rollback_receipt ∷ []))).1

rollback_runs :
    apply sql_repository wiring "c" "dec" "op" (store (rollback_receipt ∷ []))
    ≡ (ok rolled_back_cycle, after_rollback)
unfolding apply after_rollback autonomous_development.Soak.Decisions.get
    autonomous_development.Domain.Canary.Soak.soak_decision_post_init
    autonomous_development.Prelude.is_blank autonomous_development.Cycles.Service.get
    autonomous_development.Cycles.Sql.get autonomous_development.Cycles.Rows.cycle_from_row
    autonomous_development.Domain.Enums.parse_cycle_state
    autonomous_development.Domain.Enums.release_kind_value
    autonomous_development.Domain.Enums.parse_release_kind
    autonomous_development.Domain.Models.cycle_post_init autonomous_development.Soak.Runtime.resolve
    autonomous_development.Catalog.Service.get autonomous_development.Catalog.Sql.get
    autonomous_development.Domain.Models.release_post_init
    autonomous_development.Catalog.Service.set_serving
    autonomous_development.Catalog.Sql.set_serving autonomous_development.Catalog.Sql.get_serving
    autonomous_development.Domain.Transitions.Guard.validate_required_reference
    autonomous_development.Domain.Transitions.Guard.merged
    autonomous_development.Cycles.Sql.commit_transition autonomous_development.Cycles.Sql.settle
    autonomous_development.Cycles.Sql.write_transition
    autonomous_development.Cycles.Sql.get_transition autonomous_development.Cycles.Service.perform
    autonomous_development.Domain.Transitions.Guard.transition_cycle
    autonomous_development.Domain.Transitions.Table.is_terminal
    autonomous_development.Domain.Transitions.Table.permits
    autonomous_development.Soak.Runtime.restore_baseline
    autonomous_development.Soak.Runtime.stop_deployment
    autonomous_development.Soak.Runtime.cleanup_cycle
    autonomous_development.Cycles.Service.transition
rollback_runs = refl

apply-IsRolledBack_example :
    IsRolledBack sql_repository wiring soaking_cycle "op"
      (store (rollback_receipt ∷ []))
      after_rollback
      rolled_back_cycle
unfolding IsOutcome store autonomous_development.Soak.Decisions.get
    autonomous_development.Domain.Canary.Soak.soak_decision_post_init
    autonomous_development.Prelude.is_blank autonomous_development.Cycles.Service.get
    autonomous_development.Cycles.Sql.get autonomous_development.Cycles.Rows.cycle_from_row
    autonomous_development.Domain.Enums.parse_cycle_state
    autonomous_development.Domain.Enums.release_kind_value
    autonomous_development.Domain.Enums.parse_release_kind
    autonomous_development.Domain.Models.cycle_post_init
apply-IsRolledBack_example =
    apply-IsRolledBack sql_repository wiring "c" "dec" "op" (store (rollback_receipt ∷ []))
      after_rollback rollback_receipt soaking_cycle (ok rolled_back_cycle) refl refl refl refl refl
      rollback_runs

apply_error_unchanged_example :
    (apply sql_repository wiring "c" "dec" "op" (store [])).1.cycles ≡ (store []).cycles
unfolding apply autonomous_development.Soak.Decisions.get store
apply_error_unchanged_example =
    apply_error_unchanged sql_repository wiring IsConsistent sql_repository-IsLawful "c" "dec" "op"
      (store []) value_error refl

abbrev complete_decision : PostPromotionSoakDecision
complete_decision = record {
  kind = SoakDecisionKind.complete;
  evidence_refs = whole_evidence.evidence_refs;
  violated_guardrails = [];
  reason = "post-promotion soak satisfied evidence and hard guardrail requirements";
}

abbrev after_observation : SoakStore CycleDb ℕ
unfolding observe store
after_observation = (observe sql_repository wiring "c" whole guardrails "route" "dec" (store [])).1

observation_runs :
    observe sql_repository wiring "c" whole guardrails "route" "dec" (store [])
    ≡ (ok complete_decision, after_observation)
unfolding observe after_observation autonomous_development.Soak.Decisions.get
    autonomous_development.Cycles.Service.get autonomous_development.Cycles.Sql.get
    autonomous_development.Cycles.Rows.cycle_from_row
    autonomous_development.Domain.Enums.parse_cycle_state
    autonomous_development.Domain.Enums.release_kind_value
    autonomous_development.Domain.Enums.parse_release_kind
    autonomous_development.Domain.Models.cycle_post_init autonomous_development.Prelude.is_blank
    autonomous_development.Soak.Runtime.resolve autonomous_development.Catalog.Service.get
    autonomous_development.Catalog.Sql.get autonomous_development.Domain.Models.release_post_init
    autonomous_development.Soak.Runtime.resolve_serving
    autonomous_development.Catalog.Service.serving autonomous_development.Catalog.Sql.get_serving
    autonomous_development.Traffic.Ports.split_post_init
    autonomous_development.Domain.Canary.Soak.soak_outcome
    autonomous_development.Domain.Canary.Evaluate.stage_guardrail_violations
    autonomous_development.Domain.Canary.Evaluate.stage_insufficient_reasons
    autonomous_development.Soak.Decisions.record_soak
    autonomous_development.Domain.Canary.Soak.evaluate_post_promotion_soak
    autonomous_development.Domain.Canary.Soak.soak_decision_post_init
observation_runs = refl

observe_repeat_example :
    observe sql_repository wiring "c" whole guardrails "again" "dec" after_observation
    ≡ (ok complete_decision, after_observation)
observe_repeat_example =
    observe_repeat sql_repository wiring "c" whole whole guardrails guardrails "route" "again" "dec"
      (store []) after_observation complete_decision observation_runs

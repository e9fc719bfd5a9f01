-- ===== src/Experiments/Service.antt =====
-- `ExperimentService` of application/experiments.py.
use autonomous_development.Prelude.{
  ℕ, ◌+◌, ◌-◌, String, List, [], ◌∷◌, ◌++◌, Option, none, some, Bool, true, not, ◌&&◌, ◌||◌, length,
  ltb, ◌==◌, ◌!=◌, nat_eq, string_eq, option_eq, list_eq, if◌then◌else◌, Eq, ◌≡◌, ◌↔◌, arith,
}
use autonomous_development.Prelude.Raise.{
  Result, ok, err, raise_if, require, value_error, experiment_not_found, runtime_error,
  concurrent_update, operation_conflict, ◌>>=◌, ◌>>◌,
}
use autonomous_development.Domain.Enums.{CanaryDecisionKind, canary_kind_eq}
use autonomous_development.Domain.Models.{CanaryStage, Experiment}
use autonomous_development.Domain.Canary.Evidence.{CanaryStageDecision}
use autonomous_development.Domain.Canary.Evaluate.{advance_experiment}
use autonomous_development.Experiments.Receipts.{
  ExperimentStageReceipt, decision_from_receipt, decision_eq,
}
use autonomous_development.Experiments.Sql.{
  ExperimentDb, add_experiment, get_experiment, get_stage_decision, list_stage_decisions,
  commit_stage_decision,
}

-- The dataclass equality of experiments.
abbrev stage_beq : CanaryStage → CanaryStage → Bool
stage_beq a b =
    a.weight_percent == b.weight_percent
    && (a.min_duration_seconds == b.min_duration_seconds && a.min_requests == b.min_requests)

pub stage_beq_iff : (a b : CanaryStage) → (stage_beq a b ≡ true) ↔ (a ≡ b)
stage_beq_iff a b = ground arith

instance abbrev pub stage_eq : Eq CanaryStage
stage_eq = record { beq = stage_beq; beq_iff = stage_beq_iff }

abbrev experiment_beq : Experiment → Experiment → Bool
experiment_beq a b =
    a.id == b.id
    && (a.target_id == b.target_id
        && (a.control_release_id == b.control_release_id
            && (a.candidate_deployment_id == b.candidate_deployment_id
                && (a.stages == b.stages && a.current_stage_index == b.current_stage_index))))

pub experiment_beq_iff : (a b : Experiment) → (experiment_beq a b ≡ true) ↔ (a ≡ b)
experiment_beq_iff a b =
    let p = string_eq.beq_iff a.id b.id in
    let q = string_eq.beq_iff a.target_id b.target_id in
    let r = string_eq.beq_iff a.control_release_id b.control_release_id in
    let s = string_eq.beq_iff a.candidate_deployment_id b.candidate_deployment_id in
    let t = (list_eq {A = CanaryStage}).beq_iff a.stages b.stages in ground arith

instance abbrev pub experiment_eq : Eq Experiment
experiment_eq = record { beq = experiment_beq; beq_iff = experiment_beq_iff }

unfoldable pub create : Experiment → ExperimentDb → Result Experiment × ExperimentDb
create x db = elim (get_experiment x.id db) [
  | some existing ↦ (if existing != x then err value_error else ok existing, db)
  | none ↦ add_experiment x db
]

unfoldable pub get : String → ExperimentDb → Result Experiment
get id db = require (get_experiment id db) experiment_not_found

-- `replay_decision`
unfoldable pub replay_decision :
    (operation_id : String) → ExperimentDb → Result (Option (Experiment × CanaryStageDecision))
unfolding get
replay_decision operation_id db = elim (get_stage_decision operation_id db) [
  | none ↦ ok none
  | some receipt ↦ do
    x ← get receipt.experiment_id db
    raise_if (ltb x.current_stage_index receipt.result_stage_index) runtime_error
    d ← decision_from_receipt receipt
    ok (some (x, d))
]

-- `any(_decision_from_receipt(receipt) == decision for receipt in receipts)`
unfoldable pub any_recorded : CanaryStageDecision → List ExperimentStageReceipt → Result Bool
any_recorded d [] = ok (not true)
any_recorded d (r ∷ rs) =
    let rest = any_recorded d rs in do e ← decision_from_receipt r; if e == d then ok true else rest

unfoldable pub require_recorded_decision :
    String → CanaryStageDecision → ExperimentDb → Result (Unit {0})
unfolding get any_recorded
require_recorded_decision id d db = do
  get id db
  recorded ← any_recorded d (list_stage_decisions id db)
  raise_if (not recorded) value_error

-- The loop of `promotion_history`, on the history so far.
unfoldable pub history_from :
    (final_stage expected_stage : ℕ)
    → (history : List CanaryStageDecision) → List ExperimentStageReceipt
    → Result (List CanaryStageDecision)
history_from final expected history [] = err value_error
history_from final expected history (r ∷ rs) =
    let skip = history_from final expected history rs in
    let go_on =
      λ (d : CanaryStageDecision). history_from final (expected + 1) (history ++ d ∷ []) rs in
    if ltb r.stage_index expected
    then skip
    else if ltb expected r.stage_index
    then err runtime_error
    else do
      d ← decision_from_receipt r
      if d.kind == CanaryDecisionKind.hold
          then skip
          else if d.kind == CanaryDecisionKind.rollback
          then err value_error
          else if expected == final
          then (if d.kind != CanaryDecisionKind.promotion_ready
              then err value_error
              else ok (history ++ d ∷ []))
          else (if d.kind != CanaryDecisionKind.advance then err value_error else go_on d)

unfoldable pub promotion_history : String → ExperimentDb → Result (List CanaryStageDecision)
unfolding get history_from
promotion_history id db = do
  x ← get id db
  history_from (length x.stages - 1) 0 [] (list_stage_decisions id db)

-- `_validate_receipt`
unfoldable pub validate_receipt :
    ExperimentStageReceipt → CanaryStageDecision → (expected_stage_index : ℕ) → Result (Unit {0})
validate_receipt r d expected =
    let expected_result =
      if d.kind == CanaryDecisionKind.advance then d.next_stage_index else some expected in
    raise_if
      (r.experiment_id != d.experiment_id
        || (r.stage_index != expected
            || (some r.result_stage_index != expected_result
                || (r.decision_kind != d.kind
                    || (r.evidence_refs != d.evidence_refs
                        || (r.violated_guardrails != d.violated_guardrails
                            || r.reason != d.reason))))))
      operation_conflict

-- An operation that was recorded before.
unfoldable pub repeat_decision :
    ExperimentStageReceipt → String → CanaryStageDecision → ℕ → ExperimentDb → Result Experiment
unfolding validate_receipt get
repeat_decision existing id d expected db = do
  validate_receipt existing d expected
  x ← get id db
  raise_if (ltb x.current_stage_index existing.result_stage_index) runtime_error
  ok x

-- What a new operation stores: the experiment, moved on if the decision advances.
unfoldable pub decided_experiment :
    String → CanaryStageDecision → (expected_stage_index : ℕ) → ExperimentDb → Result Experiment
unfolding get
decided_experiment id d expected db = do
  current ← get id db
  raise_if (current.current_stage_index != expected) concurrent_update
  if d.kind == CanaryDecisionKind.advance then advance_experiment current d else ok current

-- The commit, and the experiment that is returned if it does not raise.
unfoldable pub store_decision :
    CanaryStageDecision
    → ℕ
    → String
    → ExperimentDb
    → Result Experiment
    → Result Experiment × ExperimentDb
store_decision d expected operation_id db (err e) = (err e, db)
store_decision d expected operation_id db (ok updated) =
    let (committed, db') = commit_stage_decision updated d expected operation_id db in
    (committed >> ok updated, db')

unfoldable pub record_decision :
    String
    → CanaryStageDecision
    → (expected_stage_index : ℕ) → (operation_id : String) → ExperimentDb
    → Result Experiment × ExperimentDb
unfolding store_decision decided_experiment repeat_decision
record_decision id d expected operation_id db = elim (get_stage_decision operation_id db) [
  | some existing ↦ (repeat_decision existing id d expected db, db)
  | none ↦ store_decision d expected operation_id db (decided_experiment id d expected db)
]

-- ===== src/Experiments/Sql.antt =====
-- `SqlExperimentRepository` of adapters/postgres/experiments.py. The two tables hold the values
-- themselves: their JSON columns are left out. A failed transaction is rolled back.
use autonomous_development.Prelude.{
  ℕ, String, List, [], ◌∷◌, ◌++◌, Option, none, some, Bool, ◌&&◌, any, find, keep, count_if, ◌==◌,
  ◌!=◌, nat_eq, string_eq, list_eq, if◌then◌else◌,
}
use autonomous_development.Prelude.Raise.{
  Result, ok, err, raise_if, value_error, integrity_error, concurrent_update, operation_conflict,
  ◌>>◌,
}
use autonomous_development.Domain.Models.{Experiment}
use autonomous_development.Domain.Canary.Evidence.{CanaryStageDecision}
use autonomous_development.Experiments.Receipts.{ExperimentStageReceipt, receipt_eq}

pub record ExperimentDb : Type 0 where
  pub experiments : List Experiment
  pub operations : List ExperimentStageReceipt

abbrev pub is_experiment : String → Experiment → Bool
is_experiment id x = x.id == id

abbrev pub is_operation : String → ExperimentStageReceipt → Bool
is_operation operation_id r = r.operation_id == operation_id

abbrev pub of_experiment : String → ExperimentStageReceipt → Bool
of_experiment id r = r.experiment_id == id

unfoldable pub add_experiment : Experiment → ExperimentDb → Result Experiment × ExperimentDb
add_experiment x db =
    if any (is_experiment x.id) db.experiments
    then (err value_error, db)
    else (ok x, record db { experiments = db.experiments ++ x ∷ [] })

unfoldable pub get_experiment : String → ExperimentDb → Option Experiment
get_experiment id db = find (is_experiment id) db.experiments

unfoldable pub get_stage_decision : String → ExperimentDb → Option ExperimentStageReceipt
get_stage_decision operation_id db = find (is_operation operation_id) db.operations

-- In the order of insertion, which is that of the sequence ids.
unfoldable pub list_stage_decisions : String → ExperimentDb → List ExperimentStageReceipt
list_stage_decisions id db = keep (of_experiment id) db.operations

abbrev pub is_at_stage : String → ℕ → Experiment → Bool
is_at_stage id stage x = x.id == id && x.current_stage_index == stage

-- `update ... set current_stage_index where id and current_stage_index`
unfoldable pub move_experiments : String → ℕ → (result : ℕ) → List Experiment → List Experiment
move_experiments id stage result [] = []
move_experiments id stage result (x ∷ xs) =
    (if is_at_stage id stage x then record x { current_stage_index = result } else x)
    ∷ move_experiments id stage result xs

unfoldable pub stage_receipt :
    Experiment
    → CanaryStageDecision
    → (expected_stage_index : ℕ) → (operation_id : String) → ExperimentStageReceipt
stage_receipt x d expected operation_id = record {
  operation_id = operation_id;
  experiment_id = x.id;
  stage_index = expected;
  result_stage_index = x.current_stage_index;
  decision_kind = d.kind;
  evidence_refs = d.evidence_refs;
  violated_guardrails = d.violated_guardrails;
  reason = d.reason;
}

-- The body of the transaction.
unfoldable pub write_stage :
    Experiment
    → ExperimentStageReceipt
    → (expected_stage_index : ℕ) → ExperimentDb
    → Result ExperimentDb
write_stage x receipt expected db = do
  raise_if (any (is_operation receipt.operation_id) db.operations) integrity_error
  raise_if (count_if (is_at_stage x.id expected) db.experiments != 1) concurrent_update
  ok (record {
    experiments = move_experiments x.id expected x.current_stage_index db.experiments;
    operations = db.operations ++ receipt ∷ [];
  })

-- `_validate_existing_receipt`
unfoldable pub validate_existing :
    (existing requested : ExperimentStageReceipt) → Result ExperimentStageReceipt
validate_existing existing requested = do
  raise_if (existing != requested) operation_conflict
  ok existing

-- The `try` around the transaction. The receipt was looked for on the same database, so an
-- `IntegrityError` finds none.
unfoldable pub settle_stage :
    ExperimentStageReceipt
    → ExperimentDb
    → Result ExperimentDb
    → Result ExperimentStageReceipt × ExperimentDb
settle_stage receipt db (ok db') = (ok receipt, db')
settle_stage receipt db (err integrity_error) = (
  elim (get_stage_decision receipt.operation_id db) [
    | none ↦ err integrity_error
    | some existing ↦ validate_existing existing receipt
  ],
  db,
)
settle_stage receipt db (err e) = (err e, db)

-- Past the two checks on the decision.
unfoldable pub commit_checked :
    Experiment
    → ExperimentStageReceipt
    → (expected_stage_index : ℕ) → ExperimentDb
    → Result ExperimentStageReceipt × ExperimentDb
unfolding settle_stage write_stage get_stage_decision validate_existing
commit_checked x receipt expected db = elim (get_stage_decision receipt.operation_id db) [
  | some existing ↦ (validate_existing existing receipt, db)
  | none ↦ settle_stage receipt db (write_stage x receipt expected db)
]

unfoldable pub commit_stage_decision :
    Experiment
    → CanaryStageDecision
    → (expected_stage_index : ℕ) → (operation_id : String) → ExperimentDb
    → Result ExperimentStageReceipt × ExperimentDb
unfolding commit_checked stage_receipt
commit_stage_decision x d expected operation_id db =
    if d.experiment_id != x.id
    then (err value_error, db)
    else if d.stage_index != expected
    then (err value_error, db)
    else commit_checked x (stage_receipt x d expected operation_id) expected db

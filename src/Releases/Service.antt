-- ===== src/Releases/Service.antt =====
-- `ReleaseService` of application/releases.py, over any cycle repository.
use autonomous_development.Prelude.{
  ℕ, String, List, Option, none, some, Bool, concat, is_blank, get_last?, ◌!=◌, nat_eq, string_eq,
  option_eq,
}
use autonomous_development.Prelude.Raise.{
  Result, ok, raise_if, value_error, stale_cycle, operation_conflict,
}
use autonomous_development.Prelude.Action.{Action, ◌>>=◌, ◌>>◌, pure, lift}
use autonomous_development.Domain.Enums.{
  CycleState, CanaryDecisionKind, ReleaseDecisionKind, release_kind_value,
}
use autonomous_development.Domain.Models.{DevelopmentCycle, VerificationRun, ReleaseDecision}
use autonomous_development.Domain.Transitions.Guard.{Evidence, no_evidence}
use autonomous_development.Domain.Canary.Evidence.{CanaryStageDecision}
use autonomous_development.Cycles.Repository.{CycleRepository}
use autonomous_development.Cycles.Service as Cycles
use autonomous_development.Experiments.Receipts.{decision_eq}
use autonomous_development.Experiments.Sql.{ExperimentDb}
use autonomous_development.Experiments.Service as Experiments
use autonomous_development.Releases.Recompute.{recompute}
use autonomous_development.Releases.Decisions.{
  ReleaseDecisionReceipt, release_decision_eq, get, record_release,
}

-- The three stores that the service reaches.
pub record ReleaseStore (S : Type 0) : Type 0 where
  pub cycles : S
  pub experiments : ExperimentDb
  pub decisions : List ReleaseDecisionReceipt

pub record ReleaseApplicationResult : Type 0 where
  pub decision : Option ReleaseDecision
  pub cycle : DevelopmentCycle

-- `_decision_state`
unfoldable pub decision_state : ReleaseDecisionKind → Option CycleState
decision_state ReleaseDecisionKind.promote = some CycleState.promoted
decision_state ReleaseDecisionKind.reject = some CycleState.rejected
decision_state ReleaseDecisionKind.rollback = some CycleState.rolled_back
decision_state _ = none

-- `_require_version`
unfoldable pub require_version : DevelopmentCycle → (expected_version : ℕ) → Result (Unit {0})
require_version cycle expected_version = raise_if (cycle.version != expected_version) stale_cycle

-- The keyword argument `release_decision` alone.
abbrev pub decided : ReleaseDecisionKind → Evidence
decided kind = record no_evidence { release_decision = some kind }

module _ {S : Type 0} (R : CycleRepository S) where
  -- A method of the cycle service, and a read of the experiments.
  abbrev pub on_cycles : {A : Type 0} → Action S A → Action (ReleaseStore S) A
  on_cycles m s = let (r, t) = m s.cycles in (r, record s { cycles = t })

  abbrev pub read_experiments : {A : Type 0} → (ExperimentDb → Result A) → Action (ReleaseStore S) A
  read_experiments f s = (f s.experiments, s)

  abbrev pub on_decisions :
      {A : Type 0} → Action (List ReleaseDecisionReceipt) A → Action (ReleaseStore S) A
  on_decisions m s = let (r, t) = m s.decisions in (r, record s { decisions = t })

  -- `not history or history[-1] != decision`
  unfoldable pub is_not_final : List CanaryStageDecision → CanaryStageDecision → Bool
  is_not_final history decision = get_last? history != some decision

  -- The branch of a promotion-ready decision.
  unfoldable pub make_ready :
      (cycle_id : String)
      → CanaryStageDecision
      → (expected_version : ℕ) → (operation_id : String) → Action (ReleaseStore S) DevelopmentCycle
  unfolding is_not_final
  make_ready cycle_id decision expected_version operation_id = do
    history ← read_experiments (Experiments.promotion_history decision.experiment_id)
    lift (raise_if (is_not_final history decision) value_error)
    on_cycles (
        Cycles.transition R cycle_id CycleState.promotion_ready expected_version
          (concat operation_id ":promotion-ready") no_evidence)

  abbrev pub roll_back :
      (cycle_id : String)
      → (expected_version : ℕ) → (operation_id : String) → Action (ReleaseStore S) DevelopmentCycle
  roll_back cycle_id expected_version operation_id = on_cycles (
      Cycles.transition R cycle_id CycleState.rolled_back expected_version
        (concat operation_id ":rollback") (decided ReleaseDecisionKind.rollback))

  unfoldable pub apply_kind :
      CanaryDecisionKind
      → DevelopmentCycle
      → (cycle_id : String) → CanaryStageDecision
      → (expected_version : ℕ) → (operation_id : String) → Action (ReleaseStore S) DevelopmentCycle
  unfolding make_ready require_version
  apply_kind CanaryDecisionKind.advance cycle cycle_id decision expected_version operation_id = do
    lift (require_version cycle expected_version)
    pure cycle
  apply_kind CanaryDecisionKind.hold cycle cycle_id decision expected_version operation_id = do
    lift (require_version cycle expected_version)
    pure cycle
  apply_kind CanaryDecisionKind.rollback cycle cycle_id decision expected_version operation_id = do
    read_experiments (Experiments.require_recorded_decision decision.experiment_id decision)
    roll_back cycle_id expected_version operation_id
  apply_kind CanaryDecisionKind.promotion_ready cycle cycle_id decision expected_version
        operation_id =
      do
        read_experiments (Experiments.require_recorded_decision decision.experiment_id decision)
        make_ready cycle_id decision expected_version operation_id

  unfoldable pub apply_canary_decision :
      (cycle_id : String)
      → CanaryStageDecision
      → (expected_version : ℕ) → (operation_id : String) → Action (ReleaseStore S) DevelopmentCycle
  unfolding apply_kind
  apply_canary_decision cycle_id decision expected_version operation_id = do
    cycle ← on_cycles (Cycles.get R cycle_id)
    lift (raise_if (cycle.experiment_id != some decision.experiment_id) value_error)
    apply_kind decision.kind cycle cycle_id decision expected_version operation_id

  -- The decision of the operation: the one recorded before, or the recomputed one, recorded now.
  unfoldable pub settle_decision :
      DevelopmentCycle
      → ReleaseDecision
      → (expected_version : ℕ) → (operation_id : String) → Action (ReleaseStore S) ReleaseDecision
  unfolding get record_release require_version
  settle_decision cycle recomputed expected_version operation_id = do
    existing ← on_decisions (λ rows. (ok (get operation_id rows), rows))
    elim existing [
      | some receipt ↦ do
        lift (raise_if (receipt.decision != recomputed) operation_conflict)
        pure receipt.decision
      | none ↦ do
        lift (require_version cycle expected_version)
        receipt ← on_decisions (record_release operation_id recomputed)
        pure receipt.decision
    ]

  -- The effect of the decision on the cycle, if it has one.
  unfoldable pub apply_target :
      Option CycleState
      → DevelopmentCycle
      → ReleaseDecision
      → (cycle_id : String) → (expected_version : ℕ) → (operation_id : String)
      → Action (ReleaseStore S) ReleaseApplicationResult
  unfolding release_kind_value
  apply_target none cycle decision cycle_id expected_version operation_id =
      pure (record { decision = some decision; cycle = cycle })
  apply_target (some target_state) cycle decision cycle_id expected_version operation_id = do
    updated ← on_cycles (
        Cycles.transition R cycle_id target_state expected_version
          (concat operation_id (concat ":effect:" (release_kind_value decision.kind)))
          (decided decision.kind))
    pure (record { decision = some decision; cycle = updated })

  unfoldable pub apply_decision :
      DevelopmentCycle
      → ReleaseDecision
      → (cycle_id : String) → (expected_version : ℕ) → (operation_id : String)
      → Action (ReleaseStore S) ReleaseApplicationResult
  unfolding decision_state apply_target
  apply_decision cycle decision cycle_id expected_version operation_id =
      apply_target (decision_state decision.kind) cycle decision cycle_id expected_version
        operation_id

  unfoldable pub decide_and_apply_promotion :
      (cycle_id : String)
      → VerificationRun
      → (mandatory_gates : List String) → (expected_version : ℕ) → (operation_id : String)
      → Action (ReleaseStore S) ReleaseApplicationResult
  unfolding settle_decision apply_decision
  decide_and_apply_promotion cycle_id verification mandatory_gates expected_version operation_id =
      do
        lift (raise_if (is_blank operation_id) value_error)
        cycle ← on_cycles (Cycles.get R cycle_id)
        recomputed ←
            read_experiments (recompute cycle verification mandatory_gates expected_version)
        decision ← settle_decision cycle recomputed expected_version operation_id
        apply_decision cycle decision cycle_id expected_version operation_id

-- ===== src/Experiments/Receipts.antt =====
-- `ExperimentStageReceipt` of ports/persistence.py and the decision that it stands for.
use autonomous_development.Prelude.{
  ℕ, String, List, none, some, Bool, true, ◌&&◌, ◌==◌, nat_eq, string_eq, option_eq, list_eq,
  if◌then◌else◌, Eq, ◌≡◌, ◌↔◌, arith,
}
use autonomous_development.Prelude.Raise.{Result}
use autonomous_development.Domain.Enums.{CanaryDecisionKind, canary_kind_eq}
use autonomous_development.Domain.Canary.Evidence.{CanaryStageDecision, stage_decision_post_init}

pub record ExperimentStageReceipt : Type 0 where
  pub operation_id : String
  pub experiment_id : String
  pub stage_index : ℕ
  pub result_stage_index : ℕ
  pub decision_kind : CanaryDecisionKind
  pub evidence_refs : List String
  pub violated_guardrails : List String
  pub reason : String

-- The dataclass equality of receipts, and that of decisions.
abbrev receipt_beq : ExperimentStageReceipt → ExperimentStageReceipt → Bool
receipt_beq a b =
    a.operation_id == b.operation_id
    && (a.experiment_id == b.experiment_id
        && (a.stage_index == b.stage_index
            && (a.result_stage_index == b.result_stage_index
                && (a.decision_kind == b.decision_kind
                    && (a.evidence_refs == b.evidence_refs
                        && (a.violated_guardrails == b.violated_guardrails
                            && a.reason == b.reason))))))

pub receipt_beq_iff : (a b : ExperimentStageReceipt) → (receipt_beq a b ≡ true) ↔ (a ≡ b)
receipt_beq_iff a b =
    let p = string_eq.beq_iff a.operation_id b.operation_id in
    let q = string_eq.beq_iff a.experiment_id b.experiment_id in
    let k = canary_kind_eq.beq_iff a.decision_kind b.decision_kind in
    let r = (list_eq {A = String}).beq_iff a.evidence_refs b.evidence_refs in
    let s = (list_eq {A = String}).beq_iff a.violated_guardrails b.violated_guardrails in
    let t = string_eq.beq_iff a.reason b.reason in ground arith

instance abbrev pub receipt_eq : Eq ExperimentStageReceipt
receipt_eq = record { beq = receipt_beq; beq_iff = receipt_beq_iff }

abbrev decision_beq : CanaryStageDecision → CanaryStageDecision → Bool
decision_beq a b =
    a.kind == b.kind
    && (a.experiment_id == b.experiment_id
        && (a.stage_index == b.stage_index
            && (a.next_stage_index == b.next_stage_index
                && (a.evidence_refs == b.evidence_refs
                    && (a.violated_guardrails == b.violated_guardrails && a.reason == b.reason)))))

pub decision_beq_iff : (a b : CanaryStageDecision) → (decision_beq a b ≡ true) ↔ (a ≡ b)
decision_beq_iff a b =
    let q = string_eq.beq_iff a.experiment_id b.experiment_id in
    let k = canary_kind_eq.beq_iff a.kind b.kind in
    let n = (option_eq {A = ℕ}).beq_iff a.next_stage_index b.next_stage_index in
    let r = (list_eq {A = String}).beq_iff a.evidence_refs b.evidence_refs in
    let s = (list_eq {A = String}).beq_iff a.violated_guardrails b.violated_guardrails in
    let t = string_eq.beq_iff a.reason b.reason in ground arith

instance abbrev pub decision_eq : Eq CanaryStageDecision
decision_eq = record { beq = decision_beq; beq_iff = decision_beq_iff }

-- `_decision_from_receipt`
unfoldable pub decision_from_receipt : ExperimentStageReceipt → Result CanaryStageDecision
decision_from_receipt r = stage_decision_post_init (record {
  kind = r.decision_kind;
  experiment_id = r.experiment_id;
  stage_index = r.stage_index;
  next_stage_index =
      if r.decision_kind == CanaryDecisionKind.advance then some r.result_stage_index else none;
  evidence_refs = r.evidence_refs;
  violated_guardrails = r.violated_guardrails;
  reason = r.reason;
})

-- ===== src/Domain/Canary/Soak.antt =====
-- src/autonomous_development/domain/soak.py: the decision on the soak that follows a promotion.
use autonomous_development.Prelude.{
  String, List, [], ◌∷◌, not, ◌&&◌, is_empty, is_blank, ◌==◌, ◌!=◌, nat_eq, concat, join,
}
use autonomous_development.Prelude.Raise.{Result, ok, raise_if, value_error, ◌>>◌}
use autonomous_development.Domain.Enums.{SoakDecisionKind, soak_kind_eq}
use autonomous_development.Domain.Models.{CanaryStage}
use autonomous_development.Domain.Canary.Floats.{Floats}
use autonomous_development.Domain.Canary.Evidence.{CanaryGuardrails, CanaryStageEvidence}
use autonomous_development.Domain.Canary.Evaluate.{
  stage_guardrail_violations, stage_insufficient_reasons,
}

pub record PostPromotionSoakDecision : Type 0 where
  pub kind : SoakDecisionKind
  pub evidence_refs : List String
  pub violated_guardrails : List String
  pub reason : String

unfoldable pub soak_decision_post_init :
    PostPromotionSoakDecision → Result PostPromotionSoakDecision
soak_decision_post_init d = do
  raise_if (is_empty d.evidence_refs) value_error
  raise_if (is_blank d.reason) value_error
  raise_if (d.kind == SoakDecisionKind.rollback && is_empty d.violated_guardrails) value_error
  raise_if (d.kind != SoakDecisionKind.rollback && not (is_empty d.violated_guardrails)) value_error
  ok d

module _ (fl : Floats) where
  unfoldable pub soak_outcome :
      CanaryStageEvidence fl → (violations insufficient : List String) → PostPromotionSoakDecision
  soak_outcome e (v ∷ vs) insufficient = record {
    kind = SoakDecisionKind.rollback;
    evidence_refs = e.evidence_refs;
    violated_guardrails = v ∷ vs;
    reason = "post-promotion hard regression exceeded configured guardrails";
  }
  soak_outcome e [] (r ∷ rs) = record {
    kind = SoakDecisionKind.hold;
    evidence_refs = e.evidence_refs;
    violated_guardrails = [];
    reason = concat "insufficient post-promotion soak evidence: " (join ", " (r ∷ rs));
  }
  soak_outcome e [] [] = record {
    kind = SoakDecisionKind.complete;
    evidence_refs = e.evidence_refs;
    violated_guardrails = [];
    reason = "post-promotion soak satisfied evidence and hard guardrail requirements";
  }

  unfoldable pub evaluate_post_promotion_soak :
      CanaryStage → CanaryStageEvidence fl → CanaryGuardrails fl → Result PostPromotionSoakDecision
  evaluate_post_promotion_soak s e g = do
    raise_if (s.weight_percent != 100) value_error
    raise_if (e.weight_percent != 100) value_error
    soak_decision_post_init
        (soak_outcome e (stage_guardrail_violations fl e g) (stage_insufficient_reasons fl s e))

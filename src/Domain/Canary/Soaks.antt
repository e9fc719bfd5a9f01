-- ===== src/Domain/Canary/Soaks.antt =====
-- `evaluate_post_promotion_soak` of src/autonomous_development/domain/soak.py.
use autonomous_development.Prelude.{
  String, List, [], ◌∷◌, ◌≡◌, refl, ◌↔◌, false, is_empty, is_blank, concat, join, arith,
}
use autonomous_development.Prelude.Raise.{ok}
use autonomous_development.Domain.Enums.{SoakDecisionKind, soak_kind_eq}
use autonomous_development.Domain.Models.{CanaryStage}
use autonomous_development.Domain.Canary.Floats.{Floats}
use autonomous_development.Domain.Canary.Evidence.{CanaryGuardrails, CanaryStageEvidence}
use autonomous_development.Domain.Canary.Evaluate.{
  stage_guardrail_violations, stage_insufficient_reasons,
}
use autonomous_development.Domain.Canary.Sufficient.{
  IsSufficient, IsHealthy, stage_insufficient_reasons-eq-nil_iff,
  stage_guardrail_violations-eq-nil_iff,
}
use autonomous_development.Domain.Canary.Soak.{
  PostPromotionSoakDecision, soak_decision_post_init, soak_outcome, evaluate_post_promotion_soak,
}

module _ (fl : Floats) where
  -- What a soak decision says of the evidence.
  pub record SoakDecides (e : CanaryStageEvidence fl) (violations : List String)
      (healthy sufficient : Type 0) (d : PostPromotionSoakDecision) : Type 0 where
    pub rolls_back : (d.kind ≡ SoakDecisionKind.rollback) ↔ (¬ healthy)
    pub holds : (d.kind ≡ SoakDecisionKind.hold) ↔ (healthy × (¬ sufficient))
    pub completes : (d.kind ≡ SoakDecisionKind.complete) ↔ (healthy × sufficient)
    pub violated : d.violated_guardrails ≡ violations
    pub refs : d.evidence_refs ≡ e.evidence_refs

  soak_outcome-valid :
      (e : CanaryStageEvidence fl) (vs rs : List String)
      → is_empty e.evidence_refs ≡ false
      → soak_decision_post_init (soak_outcome fl e vs rs) ≡ ok (soak_outcome fl e vs rs)
  unfolding soak_outcome soak_decision_post_init
  soak_outcome-valid e (v ∷ vs) rs n =
      let r : is_blank "post-promotion hard regression exceeded configured guardrails" ≡ false =
        unfold is_blank in refl in
      ground arith
  soak_outcome-valid e [] (x ∷ xs) n =
      let r : is_blank (concat "insufficient post-promotion soak evidence: " (join ", " (x ∷ xs)))
          ≡ false =
        unfold is_blank in refl in
      ground arith
  soak_outcome-valid e [] [] n =
      let r : is_blank "post-promotion soak satisfied evidence and hard guardrail requirements"
          ≡ false =
        unfold is_blank in refl in
      ground arith

  soak_outcome-SoakDecides :
      (e : CanaryStageEvidence fl) (vs rs : List String)
      → SoakDecides e vs (vs ≡ []) (rs ≡ []) (soak_outcome fl e vs rs)
  unfolding soak_outcome
  soak_outcome-SoakDecides e (v ∷ vs) rs = ground arith
  soak_outcome-SoakDecides e [] (x ∷ xs) = ground arith
  soak_outcome-SoakDecides e [] [] = ground arith

  SoakDecides-map :
      (e : CanaryStageEvidence fl) (vs : List String) (h h' s s' : Type 0)
      (d : PostPromotionSoakDecision)
      → h ↔ h'
      → s ↔ s'
      → SoakDecides e vs h s d
      → SoakDecides e vs h' s' d
  SoakDecides-map e vs h h' s s' d p q k = record {
    rolls_back = (λ r n. k.rolls_back.0 r (p.1 n), λ n. k.rolls_back.1 (λ m. n (p.0 m)));
    holds = (
      λ r. let (m, n) = k.holds.0 r in (p.0 m, λ t. n (q.1 t)),
      λ r. k.holds.1 (p.1 r.0, λ t. r.1 (q.0 t)),
    );
    completes = (
      λ r. let (m, n) = k.completes.0 r in (p.0 m, q.0 n),
      λ r. k.completes.1 (p.1 r.0, q.1 r.1),
    );
    violated = k.violated;
    refs = k.refs;
  }

  -- Evidence of a stage at full weight, with references, is always decided after a promotion: rolled
  -- back exactly when a guardrail is violated, held exactly when it is healthy but insufficient,
  -- and otherwise complete; the decision carries the violated guardrails and the references.
  pub evaluate_post_promotion_soak-SoakDecides :
      (s : CanaryStage) (e : CanaryStageEvidence fl) (g : CanaryGuardrails fl)
      → s.weight_percent ≡ 100
      → e.weight_percent ≡ 100
      → is_empty e.evidence_refs ≡ false
      → (d : PostPromotionSoakDecision) × (evaluate_post_promotion_soak fl s e g ≡ ok d)
        × SoakDecides e
            (stage_guardrail_violations fl e g)
            (IsHealthy fl e g)
            (IsSufficient fl s e)
            d
  unfolding evaluate_post_promotion_soak
  evaluate_post_promotion_soak-SoakDecides s e g full seen n =
      let vs = stage_guardrail_violations fl e g in
      let rs = stage_insufficient_reasons fl s e in
      let valid = soak_outcome-valid e vs rs n in
      (
        soak_outcome fl e vs rs,
        ground arith,
        SoakDecides-map e vs (vs ≡ []) (IsHealthy fl e g) (rs ≡ []) (IsSufficient fl s e)
            (soak_outcome fl e vs rs) (stage_guardrail_violations-eq-nil_iff fl e g)
            (stage_insufficient_reasons-eq-nil_iff fl s e) (soak_outcome-SoakDecides e vs rs),
      )

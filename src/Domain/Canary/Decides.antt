-- ===== src/Domain/Canary/Decides.antt =====
-- `evaluate_canary_stage` of domain/canary.py, by the health of the candidate and the sufficiency of
-- the evidence.
use autonomous_development.Prelude.{
  ◌+◌, ◌≡◌, ◌≢◌, refl, ◌↔◌, String, List, [], ◌∷◌, some, false, length, get_elem?, is_blank,
  is_empty, arith, Option-cases, inl, inr, nat_eq, string_eq, concat, join,
}
use autonomous_development.Prelude.Raise.{ok}
use autonomous_development.Domain.Enums.{CanaryDecisionKind}
use autonomous_development.Domain.Models.{CanaryStage, Experiment}
use autonomous_development.Domain.Canary.Floats.{Floats}
use autonomous_development.Domain.Canary.Evidence.{
  CanaryStageDecision, stage_decision_post_init, CanaryGuardrails, CanaryStageEvidence,
}
use autonomous_development.Domain.Canary.Evaluate.{
  stage_outcome, evaluate_canary_stage, stage_guardrail_violations, stage_insufficient_reasons,
}
use autonomous_development.Domain.Canary.Sufficient.{
  IsSufficient, IsHealthy, stage_insufficient_reasons-eq-nil_iff,
  stage_guardrail_violations-eq-nil_iff,
}

module _ (fl : Floats) where
  -- The evidence was gathered for the stage at which the experiment stands.
  pub record IsOfStage (x : Experiment) (e : CanaryStageEvidence fl) (s : CanaryStage)
      : Type 0 where
    pub experiment : e.experiment_id ≡ x.id
    pub index : e.stage_index ≡ x.current_stage_index
    pub stage : get_elem? x.stages x.current_stage_index ≡ some s
    pub weight : e.weight_percent ≡ s.weight_percent

  -- What a decision says of the evidence.
  pub record Decides (x : Experiment) (e : CanaryStageEvidence fl) (healthy sufficient : Type 0)
      (d : CanaryStageDecision) : Type 0 where
    pub rolls_back : (d.kind ≡ CanaryDecisionKind.rollback) ↔ (¬ healthy)
    pub holds : (d.kind ≡ CanaryDecisionKind.hold) ↔ (healthy × (¬ sufficient))
    pub finishes :
        (d.kind ≡ CanaryDecisionKind.promotion_ready)
        ↔ (healthy × sufficient × (x.current_stage_index + 1 ≡ length x.stages))
    pub advances :
        (d.kind ≡ CanaryDecisionKind.advance)
        ↔ (healthy × sufficient × (x.current_stage_index + 1 ≢ length x.stages))
    pub next_stage :
        d.kind ≡ CanaryDecisionKind.advance → d.next_stage_index ≡ some (x.current_stage_index + 1)
    pub experiment : d.experiment_id ≡ x.id
    pub index : d.stage_index ≡ e.stage_index
    pub refs : d.evidence_refs ≡ e.evidence_refs

  outcome_valid :
      (x : Experiment) (e : CanaryStageEvidence fl) (vs rs : List String)
      → is_blank x.id ≡ false
      → is_empty e.evidence_refs ≡ false
      → stage_decision_post_init (stage_outcome fl x e vs rs) ≡ ok (stage_outcome fl x e vs rs)
  unfolding stage_outcome stage_decision_post_init
  outcome_valid x e (v ∷ vs) rs b n =
      let r : is_blank "hard canary regression exceeded configured guardrails" ≡ false =
        unfold is_blank in refl in
      ground arith
  outcome_valid x e [] (r ∷ rs) b n =
      let r : is_blank (concat "insufficient canary evidence: " (join ", " (r ∷ rs))) ≡ false =
        unfold is_blank in refl in
      ground arith
  outcome_valid x e [] [] b n =
      let r : is_blank "final canary stage satisfied evidence and guardrail requirements" ≡ false =
        unfold is_blank in refl in
      let r' : is_blank "canary stage satisfied evidence and guardrail requirements" ≡ false =
        unfold is_blank in refl in
      ground arith

  pub outcome-Decides :
      (x : Experiment) (e : CanaryStageEvidence fl) (vs rs : List String)
      → Decides x e (vs ≡ []) (rs ≡ []) (stage_outcome fl x e vs rs)
  unfolding stage_outcome
  outcome-Decides x e (v ∷ vs) rs = ground arith
  outcome-Decides x e [] (r ∷ rs) = ground arith
  outcome-Decides x e [] [] = ground arith

  Decides-map :
      (x : Experiment) (e : CanaryStageEvidence fl) (h h' s s' : Type 0) (d : CanaryStageDecision)
      → h ↔ h'
      → s ↔ s'
      → Decides x e h s d
      → Decides x e h' s' d
  Decides-map x e h h' s s' d p q k = record {
    rolls_back = (λ r n. k.rolls_back.0 r (p.1 n), λ n. k.rolls_back.1 (λ m. n (p.0 m)));
    holds = (
      λ r. let (m, n) = k.holds.0 r in (p.0 m, λ t. n (q.1 t)),
      λ r. k.holds.1 (p.1 r.0, λ t. r.1 (q.0 t)),
    );
    finishes = (
      λ r. let (m, n, t) = k.finishes.0 r in (p.0 m, q.0 n, t),
      λ r. k.finishes.1 (p.1 r.0, q.1 r.1, r.2),
    );
    advances = (
      λ r. let (m, n, t) = k.advances.0 r in (p.0 m, q.0 n, t),
      λ r. k.advances.1 (p.1 r.0, q.1 r.1, r.2),
    );
    next_stage = k.next_stage;
    experiment = k.experiment;
    index = k.index;
    refs = k.refs;
  }

  -- Evidence of the current stage of an experiment with an id, with references, is always
  -- decided: rolled back exactly when a guardrail is violated, held exactly when it is healthy
  -- but insufficient, and otherwise finished on the last stage and advanced by one on any other;
  -- the decision names the experiment, the stage and the references of the evidence.
  pub evaluate_canary_stage-Decides :
      (x : Experiment) (e : CanaryStageEvidence fl) (g : CanaryGuardrails fl) (s : CanaryStage)
      → IsOfStage x e s
      → is_blank x.id ≡ false
      → is_empty e.evidence_refs ≡ false
      → (d : CanaryStageDecision) × (evaluate_canary_stage fl x e g ≡ ok d)
        × Decides x e (IsHealthy fl e g) (IsSufficient fl s e) d
  unfolding evaluate_canary_stage
  evaluate_canary_stage-Decides x e g s o b n =
      let vs : List String = stage_guardrail_violations fl e g in
      let rs : List String = stage_insufficient_reasons fl s e in
      (
        stage_outcome fl x e vs rs,
        ground (arith, o, string_eq.beq_iff e.experiment_id x.id, outcome_valid x e vs rs b n),
        Decides-map x e (vs ≡ []) (IsHealthy fl e g) (rs ≡ []) (IsSufficient fl s e)
            (stage_outcome fl x e vs rs) (stage_guardrail_violations-eq-nil_iff fl e g)
            (stage_insufficient_reasons-eq-nil_iff fl s e) (outcome-Decides x e vs rs),
      )

  -- A decision is only ever made on evidence of the current stage of the same experiment, at the weight of that stage.
  pub evaluate_canary_stage-IsOfStage :
      (x : Experiment) (e : CanaryStageEvidence fl) (g : CanaryGuardrails fl)
      (d : CanaryStageDecision)
      → evaluate_canary_stage fl x e g ≡ ok d
      → (s : CanaryStage) × IsOfStage x e s
  unfolding evaluate_canary_stage
  evaluate_canary_stage-IsOfStage x e g d h =
      elim (Option-cases (get_elem? x.stages x.current_stage_index)) [
        | inl none_there ↦ absurd (ground (arith, string_eq.beq_iff e.experiment_id x.id))
        | inr (s, there) ↦ (s, ground (arith, string_eq.beq_iff e.experiment_id x.id))
      ]

-- ===== src/Domain/Canary/Climb.antt =====
-- A canary of domain/canary.py from its first stage to its last: evaluation, advance and history.
use autonomous_development.Prelude.{
  ℕ, ◌+◌, ◌<◌, ◌≡◌, refl, String, List, [], ◌∷◌, some, false, length, get_elem?, is_empty, arith,
  string_eq, ◌∙◌, subst, subst₂,
}
use autonomous_development.Prelude.Raise.{ok}
use autonomous_development.Domain.Enums.{CanaryDecisionKind, canary_kind_eq}
use autonomous_development.Domain.Models.{CanaryStage, Experiment, experiment_post_init}
use autonomous_development.Domain.Canary.Floats.{Floats}
use autonomous_development.Domain.Canary.Evidence.{
  CanaryStageDecision, stage_decision_post_init, CanaryGuardrails, CanaryStageEvidence,
}
use autonomous_development.Domain.Canary.Evaluate.{
  stage_outcome, evaluate_canary_stage, stage_guardrail_violations, stage_insufficient_reasons,
  advance_experiment, promotion_evidence_refs,
}
use autonomous_development.Domain.Canary.Decides.{
  Decides, outcome-Decides, evaluate_canary_stage-IsOfStage,
}
use autonomous_development.Domain.Canary.History.{IsHistory, all_refs, promotion_evidence_refs_iff}

get_elem?-lt :
    (xs : List CanaryStage) (i : ℕ) (s : CanaryStage) → get_elem? xs i ≡ some s → i < length xs
get_elem?-lt [] i s h = cc
get_elem?-lt (x ∷ xs) ℕ.zero s h = omega arith
get_elem?-lt (x ∷ xs) (ℕ.suc i) s h = omega (arith, get_elem?-lt xs i s h)

checked :
    (d d' : CanaryStageDecision)
    → stage_decision_post_init d ≡ ok d'
    → (d' ≡ d) × (is_empty d.evidence_refs ≡ false)
unfolding stage_decision_post_init
checked d d' h = ground arith

module _ (fl : Floats) (g : CanaryGuardrails fl) where
  -- What is used of a decision below.
  record Follows (x : Experiment) (d : CanaryStageDecision) : Type 0 where
    experiment : d.experiment_id ≡ x.id
    index : d.stage_index ≡ x.current_stage_index
    inside : x.current_stage_index < length x.stages
    cites : is_empty d.evidence_refs ≡ false
    finishes :
        d.kind ≡ CanaryDecisionKind.promotion_ready → x.current_stage_index + 1 ≡ length x.stages
    advances : d.kind ≡ CanaryDecisionKind.advance → x.current_stage_index + 1 < length x.stages
    next_stage :
        d.kind ≡ CanaryDecisionKind.advance → d.next_stage_index ≡ some (x.current_stage_index + 1)

  outcome-Follows :
      (x : Experiment) (e : CanaryStageEvidence fl) (vs rs : List String) (d : CanaryStageDecision)
      → e.stage_index ≡ x.current_stage_index
      → x.current_stage_index < length x.stages
      → stage_decision_post_init (stage_outcome fl x e vs rs) ≡ ok d
      → Follows x d
  outcome-Follows x e vs rs d same inside h =
      let (p, cites) = checked (stage_outcome fl x e vs rs) d h in
      let k : Decides fl x e (vs ≡ []) (rs ≡ []) d = rw p (outcome-Decides fl x e vs rs) in
      record {
        experiment = k.experiment;
        index = k.index ∙ same;
        inside = inside;
        cites = rw p cites;
        finishes = λ m. (k.finishes.0 m).2;
        advances = λ m. let (a, b, ne) = k.advances.0 m in omega arith;
        next_stage = k.next_stage;
      }

  evaluate-Follows :
      (x : Experiment) (e : CanaryStageEvidence fl) (d : CanaryStageDecision)
      → evaluate_canary_stage fl x e g ≡ ok d
      → Follows x d
  unfolding evaluate_canary_stage
  evaluate-Follows x e d h =
      let (s, o) = evaluate_canary_stage-IsOfStage fl x e g d h in
      let outcome =
        stage_outcome fl x e (stage_guardrail_violations fl e g)
          (stage_insufficient_reasons fl s e) in
      let made : stage_decision_post_init outcome ≡ ok d =
        ground (arith, string_eq.beq_iff e.experiment_id x.id) in
      outcome-Follows x e (stage_guardrail_violations fl e g) (stage_insufficient_reasons fl s e) d
        o.index (get_elem?-lt x.stages x.current_stage_index s o.stage) made

  moved-valid :
      (x : Experiment)
      → experiment_post_init x ≡ ok x
      → x.current_stage_index + 1 < length x.stages
      → experiment_post_init (record x { current_stage_index = x.current_stage_index + 1 })
        ≡ ok (record x { current_stage_index = x.current_stage_index + 1 })
  unfolding experiment_post_init
  moved-valid x v h = ground arith

  -- An advance decision that `evaluate_canary_stage` makes on a well-formed experiment is always
  -- accepted by `advance_experiment`, which moves exactly one stage on, within the configured stages.
  pub evaluate-advance :
      (x : Experiment) (e : CanaryStageEvidence fl) (d : CanaryStageDecision)
      → experiment_post_init x ≡ ok x
      → evaluate_canary_stage fl x e g ≡ ok d
      → d.kind ≡ CanaryDecisionKind.advance
      → (advance_experiment x d ≡ ok (record x { current_stage_index = x.current_stage_index + 1 }))
        × (x.current_stage_index + 1 < length x.stages)
  unfolding advance_experiment
  evaluate-advance x e d v h k =
      let f = evaluate-Follows x e d h in
      let inside = f.advances k in
      let next = f.next_stage k in
      let valid = moved-valid x v inside in
      (ground (arith, string_eq.beq_iff d.experiment_id x.id), inside)

  -- A canary that goes through: its stages are evaluated one after the other, and every decision
  -- but the last moves the experiment on.
  pub data Climb : Experiment → List CanaryStageDecision → Type 0 where
    finish :
        {x : Experiment} {d : CanaryStageDecision} (e : CanaryStageEvidence fl)
        → evaluate_canary_stage fl x e g ≡ ok d
        → d.kind ≡ CanaryDecisionKind.promotion_ready
        → Climb x (d ∷ [])
    advance :
        {x x' : Experiment} {d : CanaryStageDecision} {ds : List CanaryStageDecision}
        (e : CanaryStageEvidence fl)
        → evaluate_canary_stage fl x e g ≡ ok d
        → advance_experiment x d ≡ ok x'
        → Climb x' ds
        → Climb x (d ∷ ds)

  advance_facts :
      (x x' : Experiment) (d : CanaryStageDecision)
      → advance_experiment x d ≡ ok x'
      → (d.kind ≡ CanaryDecisionKind.advance)
        × (x'.id ≡ x.id)
        × (x'.stages ≡ x.stages)
        × (x'.current_stage_index ≡ x.current_stage_index + 1)
  unfolding advance_experiment experiment_post_init
  advance_facts x x' d h = ground (arith, canary_kind_eq.beq_iff d.kind CanaryDecisionKind.advance)

  IsClimbed : Experiment → List CanaryStageDecision → Type 0
  IsClimbed x ds =
      IsHistory x.id x.current_stage_index ds
      × (x.current_stage_index + length ds ≡ length x.stages)
      × (is_empty ds ≡ false)
      × (is_empty (all_refs ds) ≡ false)

  IsClimbed-cons :
      (x x' : Experiment) (d : CanaryStageDecision) (ds : List CanaryStageDecision)
      → Follows x d
      → advance_experiment x d ≡ ok x'
      → IsClimbed x' ds
      → IsClimbed x (d ∷ ds)
  unfolding IsClimbed
  IsClimbed-cons x x' d [] f h c = absurd (ground arith)
  IsClimbed-cons x x' d (e ∷ ds) f h c =
      let (kind, same_id, same_stages, moved) = advance_facts x x' d h in
      (
        (f.experiment, f.index, kind, subst₂ (λ id i. IsHistory id i (e ∷ ds)) same_id moved c.0),
        ground arith,
        refl,
        ground (arith, f.cites),
      )

  climb-IsClimbed : {x : Experiment} {ds : List CanaryStageDecision} → Climb x ds → IsClimbed x ds
  unfolding IsClimbed
  climb-IsClimbed {x} (finish {d = d} e h k) =
      let f = evaluate-Follows x e d h in ground (arith, f.finishes k)
  climb-IsClimbed {x} (advance {x' = x'} {d = d} {ds = ds} e h m c) =
      IsClimbed-cons x x' d ds (evaluate-Follows x e d h) m (climb-IsClimbed c)

  -- The decisions of a canary that starts at its first stage and goes through to a
  -- promotion-ready decision are a complete history: `promotion_evidence_refs` accepts them, and
  -- gathers all that they cite.
  pub climb-promotion_evidence_refs :
      (x : Experiment) (ds : List CanaryStageDecision)
      → x.current_stage_index ≡ 0
      → Climb x ds
      → promotion_evidence_refs x ds ≡ ok (all_refs ds)
  unfolding IsClimbed
  climb-promotion_evidence_refs x ds z c =
      let (ordered, counted, full, cited) = climb-IsClimbed c in
      (promotion_evidence_refs_iff x ds (all_refs ds)).1
        (omega arith, subst (λ i. IsHistory x.id i ds) z ordered, refl, cited)

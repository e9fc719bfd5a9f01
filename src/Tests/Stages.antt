-- ===== src/Tests/Stages.antt =====
-- The stages of a canary, the decision after them, and the change that they deliver.
use autonomous_development.Prelude.{
  is_blank, ◌≤◌, ◌≡◌, refl, ◌↔◌, String, List, [], ◌∷◌, none, false, length, codes, is_empty, any,
  All, ◌==◌, list_eq, nat_eq,
}
use autonomous_development.Prelude.Raise.{ok}
use autonomous_development.Domain.Enums.{ReleaseDecisionKind}
use autonomous_development.Domain.Models.{experiment_post_init, ChangeProposal, ReleaseDecision}
use autonomous_development.Domain.Canary.Evidence.{stage_decision_post_init, CanaryStageDecision}
use autonomous_development.Domain.Canary.Evaluate.{
  stage_outcome, evaluate_canary_stage, advance_experiment, stage_insufficient_reasons,
  stage_guardrail_violations, promotion_evidence_refs,
}
use autonomous_development.Domain.Canary.Sufficient.{IsSufficient, IsHealthy}
use autonomous_development.Domain.Canary.Decides.{Decides, evaluate_canary_stage-Decides}
use autonomous_development.Domain.Canary.History.{IsHistory, all_refs, promotion_evidence_refs_iff}
use autonomous_development.Domain.Canary.Climb.{
  Climb, finish, advance, climb-promotion_evidence_refs,
}
use autonomous_development.Domain.Canary.Soak.{
  PostPromotionSoakDecision, evaluate_post_promotion_soak,
}
use autonomous_development.Domain.Canary.Soaks.{
  SoakDecides, evaluate_post_promotion_soak-SoakDecides,
}
use autonomous_development.Domain.Promotion.{decide_promotion}
use autonomous_development.Domain.Promotion.Requirements.{MayPromote, decide_promotion-promote_iff}
use autonomous_development.Domain.Policies.Paths.{parents, parts, contains, starts_with, Text}
use autonomous_development.Domain.Policies.Scope.{
  matches, check_path, check_paths, normalize_prefix, canonical, normalize_path, normalize_all,
  contract, validate_changed_paths,
}
use autonomous_development.Domain.Policies.Accepted.{IsInScope, validate_changed_paths_sound}
use autonomous_development.Tests.Data.{
  thousandths, ready_cycle, half, first_stage, last_stage, guardrails, half_evidence, whole,
  whole_evidence, advance_decision, ready_decision, history, passed_run,
}

evaluate_canary_stage-Decides_example :
    (d : CanaryStageDecision) × (evaluate_canary_stage thousandths first_stage half_evidence
        guardrails
      ≡ ok d)
    × Decides thousandths first_stage half_evidence
        (IsHealthy thousandths half_evidence guardrails)
        (IsSufficient thousandths half half_evidence)
        d
unfolding is_blank
evaluate_canary_stage-Decides_example =
    evaluate_canary_stage-Decides thousandths first_stage half_evidence guardrails half
      (record { experiment = refl; index = refl; stage = refl; weight = refl }) refl refl

advances :
    evaluate_canary_stage thousandths first_stage half_evidence guardrails ≡ ok advance_decision
unfolding evaluate_canary_stage stage_decision_post_init is_blank stage_outcome
    stage_guardrail_violations stage_insufficient_reasons
advances = refl

finishes :
    evaluate_canary_stage thousandths last_stage whole_evidence guardrails ≡ ok ready_decision
unfolding evaluate_canary_stage stage_decision_post_init is_blank stage_outcome
    stage_guardrail_violations stage_insufficient_reasons
finishes = refl

moves_on : advance_experiment first_stage advance_decision ≡ ok last_stage
unfolding advance_experiment experiment_post_init is_blank
moves_on = refl

climb : Climb thousandths guardrails first_stage history
climb = advance half_evidence advances moves_on (finish whole_evidence finishes refl)

climb-promotion_evidence_refs_example :
    promotion_evidence_refs first_stage history ≡ ok (all_refs history)
climb-promotion_evidence_refs_example =
    climb-promotion_evidence_refs thousandths guardrails first_stage history refl climb

abbrev both : List String
both = "e0" ∷ "e1" ∷ []

promotion_evidence_refs_iff_example : (promotion_evidence_refs last_stage history ≡ ok both) ↔ (
    (length history ≡ length last_stage.stages)
    × IsHistory "x" 0 history
    × (both ≡ all_refs history)
    × (is_empty both ≡ false))
promotion_evidence_refs_iff_example = promotion_evidence_refs_iff last_stage history both

decide_promotion-promote_iff_example :
    ((d : ReleaseDecision) × (decide_promotion ready_cycle passed_run last_stage history
          ("unit" ∷ [])
        ≡ ok d)
      × (d.kind ≡ ReleaseDecisionKind.promote))
    ↔ MayPromote ready_cycle passed_run last_stage history ("unit" ∷ [])
unfolding is_blank
decide_promotion-promote_iff_example =
    decide_promotion-promote_iff ready_cycle passed_run last_stage history ("unit" ∷ []) refl

abbrev source_path : List Text
source_path = codes "src" ∷ codes "a.py" ∷ []

abbrev proposal : ChangeProposal
proposal = record {
  id = "p";
  target_id = "t";
  baseline_release_id = "r0";
  baseline_commit = "abc";
  objective_revision_id = "o";
  diagnosis_id = none;
  acceptance_criteria = "works" ∷ [];
  allowed_paths = "src" ∷ [];
  forbidden_paths = "src/secret" ∷ [];
  max_implementation_attempts = 1;
  mandatory_gates = "unit" ∷ [];
  change_intent = none;
  max_changed_files = 2;
}

abbrev changed : List String
changed = "src/a.py" ∷ []

validate_changed_paths_sound_example :
    (1 ≤ 1)
    × (1 ≤ 2)
    × (any (λ p. canonical (codes p) == contract) changed ≡ false)
    × ((allowed : List (List Text)) × (forbidden : List (List Text)) × (normalize_all
            proposal.allowed_paths
          ≡ ok allowed)
        × (normalize_all proposal.forbidden_paths ≡ ok forbidden)
        × All (IsInScope allowed forbidden) changed)
unfolding validate_changed_paths canonical normalize_all normalize_prefix normalize_path starts_with
    contains check_paths check_path matches parts parents
validate_changed_paths_sound_example = validate_changed_paths_sound proposal changed refl

evaluate_post_promotion_soak-SoakDecides_example :
    (d : PostPromotionSoakDecision) × (evaluate_post_promotion_soak thousandths whole whole_evidence
        guardrails
      ≡ ok d)
    × SoakDecides thousandths whole_evidence
        (stage_guardrail_violations thousandths whole_evidence guardrails)
        (IsHealthy thousandths whole_evidence guardrails)
        (IsSufficient thousandths whole whole_evidence)
        d
evaluate_post_promotion_soak-SoakDecides_example =
    evaluate_post_promotion_soak-SoakDecides thousandths whole whole_evidence guardrails refl refl
      refl

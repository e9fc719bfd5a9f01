-- ===== src/Tests/Lifecycle.antt =====
-- The lifecycle of one cycle, and its change.
use autonomous_development.Prelude.{is_blank, ℕ, ◌≤◌, ◌≡◌, refl, ◌↔◌, List, [], ◌∷◌, some, true}
use autonomous_development.Prelude.Raise.{ok}
use autonomous_development.Domain.Enums.{CycleState, ReleaseDecisionKind}
use autonomous_development.Domain.Models.{DevelopmentCycle, fresh_cycle, cycle_post_init}
use autonomous_development.Domain.Transitions.Table.{permits, is_terminal}
use autonomous_development.Domain.Transitions.Guard.{
  validate_required_reference, Evidence, no_evidence, merged, transition_cycle,
}
use autonomous_development.Domain.Transitions.Accepts.{HasEvidence, diagram, transition_cycle_iff}
use autonomous_development.Domain.Transitions.Lifecycle.{
  Request, transition_all, transition_all-length,
}
use autonomous_development.Domain.Transitions.Promotion.{promoted_is_earned, can_always_end}
use autonomous_development.Tests.Data.{ready_cycle, canary_cycle, new_cycle, promote_evidence}

abbrev promoted_cycle : DevelopmentCycle
promoted_cycle = record ready_cycle {
  state = CycleState.promoted;
  version = 13;
  release_decision = some ReleaseDecisionKind.promote;
}

transition_cycle_iff_example :
    (transition_cycle ready_cycle CycleState.promoted 12 promote_evidence ≡ ok promoted_cycle) ↔ (
      (◌≡◌ {A = ℕ} 12 12)
      × (diagram CycleState.promotion_ready CycleState.promoted ≡ true)
      × HasEvidence (merged ready_cycle CycleState.promoted promote_evidence)
      × (promoted_cycle ≡ merged ready_cycle CycleState.promoted promote_evidence))
unfolding cycle_post_init is_blank
transition_cycle_iff_example =
    transition_cycle_iff ready_cycle CycleState.promoted 12 promote_evidence promoted_cycle refl

-- Promoted after twelve transitions.
abbrev request : CycleState → ℕ → Evidence → Request
request to v e = record { to_state = to; expected_version = v; evidence = e }

abbrev way_to_promotion : List Request
way_to_promotion =
    request CycleState.baseline_verified 0 no_evidence
    ∷ request CycleState.evidence_ready 1 (record no_evidence { evidence_window_id = some "w" })
    ∷ request CycleState.diagnosed 2 (record no_evidence { diagnosis_id = some "g" })
    ∷ request CycleState.change_proposed 3 (record no_evidence { change_proposal_id = some "p" })
    ∷ request CycleState.developing 4 no_evidence
    ∷ request CycleState.candidate_ready 5 (record no_evidence { candidate_id = some "k" })
    ∷ request CycleState.verifying 6 no_evidence
    ∷ request CycleState.verified 7 (record no_evidence { verification_run_id = some "v" })
    ∷ request CycleState.built 8 (record no_evidence { artifact_id = some "a" })
    ∷ request CycleState.staged 9 (record no_evidence { candidate_deployment_id = some "d1" })
    ∷ request CycleState.canarying 10 (record no_evidence { experiment_id = some "x" })
    ∷ request CycleState.promotion_ready 11 no_evidence
    ∷ request CycleState.promoted 12 promote_evidence
    ∷ []

run_to_promotion : transition_all new_cycle way_to_promotion ≡ ok promoted_cycle
unfolding transition_all transition_cycle is_terminal permits validate_required_reference
    cycle_post_init is_blank merged
run_to_promotion = refl

promoted_is_earned_example :
    (11 ≤ 13)
    × (true ≡ true)
    × (true ≡ true)
    × (true ≡ true)
    × (true ≡ true)
    × (true ≡ true)
    × (some ReleaseDecisionKind.promote ≡ some ReleaseDecisionKind.promote)
unfolding fresh_cycle cycle_post_init is_blank
promoted_is_earned_example =
    promoted_is_earned "c" "t" "o" "r0" way_to_promotion promoted_cycle refl run_to_promotion refl

transition_all-length_example : 13 ≤ 15
unfolding cycle_post_init is_blank
transition_all-length_example =
    transition_all-length new_cycle way_to_promotion promoted_cycle refl run_to_promotion

can_always_end_example :
    (is_terminal CycleState.cancelled ≡ true)
    × (transition_cycle canary_cycle CycleState.cancelled 11 no_evidence
        ≡ ok (merged canary_cycle CycleState.cancelled no_evidence))
unfolding cycle_post_init is_terminal is_blank
can_always_end_example = can_always_end canary_cycle refl refl

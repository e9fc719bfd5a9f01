-- ===== src/Domain/Promotion.antt =====
-- `decide_promotion` of src/autonomous_development/domain/transitions.py. Of the reason of a blocked
-- decision the text of the caught exception is left out.
pub mod Requirements
use autonomous_development.Prelude.{
  String, List, [], ◌∷◌, ◌++◌, Option, some, Bool, not, ◌||◌, any, elem, sorted, text_le, get_last?,
  ◌!=◌, string_eq, option_eq, if◌then◌else◌,
}
use autonomous_development.Prelude.Raise.{
  Result, ok, err, raise_if, require, transition_error, index_error, is_value_error, ◌>>=◌, ◌>>◌,
}
use autonomous_development.Domain.Enums.{
  CycleState, cycle_state_eq, CanaryDecisionKind, canary_kind_eq, ReleaseDecisionKind,
}
use autonomous_development.Domain.Models.{
  DevelopmentCycle, Experiment, VerificationRun, check_passed, passed_gates, ReleaseDecision,
  release_decision_post_init,
}
use autonomous_development.Domain.Canary.Evidence.{CanaryStageDecision}
use autonomous_development.Domain.Canary.Evaluate.{promotion_evidence_refs}

-- The refs of every decision, in order.
abbrev pub cited : List CanaryStageDecision → List String
cited [] = []
cited (d ∷ ds) = d.evidence_refs ++ cited ds

abbrev pub release_decision :
    DevelopmentCycle
    → VerificationRun
    → ReleaseDecisionKind
    → (refs : List String) (reason : String) → ReleaseDecision
release_decision c v kind refs reason = record {
  kind = kind;
  cycle_id = c.id;
  gate_refs = sorted text_le (passed_gates v);
  evidence_refs = refs;
  reason = reason;
}

-- `failed_checks or missing_gates`
unfoldable pub gates_unsatisfied : VerificationRun → List String → Bool
gates_unsatisfied v mandatory_gates =
    any (λ k. not (check_passed k)) v.checks
    || any (λ gate. not (elem gate (passed_gates v))) mandatory_gates

-- With the whole history at hand.
unfoldable pub final_outcome :
    DevelopmentCycle
    → VerificationRun
    → List String
    → (refs : List String) → CanaryStageDecision
    → ReleaseDecision
final_outcome c v mandatory_gates refs final =
    if final.kind != CanaryDecisionKind.promotion_ready
    then release_decision c v ReleaseDecisionKind.blocked refs
        "final canary decision is not promotion-ready"
    else if gates_unsatisfied v mandatory_gates
    then release_decision c v ReleaseDecisionKind.reject refs
        "mandatory verification gates are not all satisfied"
    else release_decision c v ReleaseDecisionKind.promote refs
        "all mandatory gates passed and complete canary history is promotion-ready"

-- The `try` around `promotion_evidence_refs`, and what follows it.
unfoldable pub history_outcome :
    DevelopmentCycle
    → VerificationRun
    → List CanaryStageDecision
    → List String
    → Result (List String)
    → Result ReleaseDecision
unfolding final_outcome
history_outcome c v ds mandatory_gates (ok refs) = do
  final ← require (get_last? ds) index_error
  release_decision_post_init (final_outcome c v mandatory_gates refs final)
history_outcome c v ds mandatory_gates (err e) =
    if is_value_error e
    then release_decision_post_init (
        release_decision c v ReleaseDecisionKind.blocked (cited ds)
          "canary history is not promotion-complete: ")
    else err e

unfoldable pub decide_promotion :
    DevelopmentCycle
    → VerificationRun
    → Experiment
    → List CanaryStageDecision
    → (mandatory_gates : List String) → Result ReleaseDecision
decide_promotion c v x ds mandatory_gates = do
  raise_if (c.state != CycleState.promotion_ready) transition_error
  raise_if (some v.id != c.verification_run_id) transition_error
  raise_if (some x.id != c.experiment_id) transition_error
  history_outcome c v ds mandatory_gates (promotion_evidence_refs x ds)

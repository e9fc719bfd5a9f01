-- ===== src/Domain/Canary/Evaluate.antt =====
-- The pure decisions of domain/canary.py and domain/soak.py. `math.ceil(n / 100)` is the exact
-- ceiling: the float quotient is correctly rounded, and agrees with it for every n below 2 ^ 53.
use autonomous_development.Prelude.{
  ℕ, ◌+◌, ◌-◌, ◌*◌, ◌/◌, String, List, [], ◌∷◌, ◌++◌, Option, none, some, Bool, true, false, not,
  ◌&&◌, ◌||◌, is_empty, length, get_elem?, ltb, ◌==◌, ◌!=◌, nat_eq, string_eq, option_eq,
  if◌then◌else◌, concat, join,
}
use autonomous_development.Prelude.Raise.{
  Result, ok, raise_if, require, value_error, index_error, ◌>>=◌, ◌>>◌,
}
use autonomous_development.Domain.Enums.{CanaryDecisionKind, canary_kind_eq, soak_kind_eq}
use autonomous_development.Domain.Models.{CanaryStage, Experiment, experiment_post_init}
use autonomous_development.Domain.Canary.Floats.{Floats}
use autonomous_development.Domain.Canary.Evidence.{
  CanaryStageDecision, stage_decision_post_init, CanaryGuardrails, CanaryStageEvidence,
}

-- `if test: names.append(name)`
abbrev pub note_if : Bool → String → List String
note_if true name = name ∷ []
note_if false name = []

-- `math.ceil(n / 100)`
abbrev pub ceil_percent : ℕ → ℕ
ceil_percent n = (n + 99) / 100

abbrev pub at_least_one : ℕ → ℕ
at_least_one n = if ltb n 1 then 1 else n

module _ (fl : Floats) where
  open fl use {Float, lt, le, sub, div, zero_float}

  abbrev pub comparisons :
      CanaryGuardrails fl → (rate latency control_rate control_latency : Float) → List String
  comparisons g rate latency control_rate control_latency =
      note_if (lt g.max_error_rate_delta (sub rate control_rate)) "error_rate_delta"
      ++ note_if (lt g.max_p95_latency_ratio (div latency control_latency)) "p95_latency_ratio"

  -- The comparison with the control arm, made only where it was measured.
  abbrev pub control_violations :
      CanaryGuardrails fl
      → (control_requests : ℕ) (rate latency : Float) → Option Float
      → Option Float
      → List String
  control_violations g n rate latency (some control_rate) (some control_latency) =
      if ltb 0 n && lt zero_float control_latency
      then comparisons g rate latency control_rate control_latency
      else []
  control_violations g n rate latency _ _ = []

  unfoldable pub stage_guardrail_violations :
      CanaryStageEvidence fl → CanaryGuardrails fl → List String
  stage_guardrail_violations e g =
      note_if (lt g.max_candidate_error_rate e.candidate_error_rate) "candidate_error_rate"
      ++ (note_if (lt g.max_candidate_p95_latency_ms e.candidate_p95_latency_ms)
            "candidate_p95_latency_ms"
          ++ control_violations g e.control_requests e.candidate_error_rate
              e.candidate_p95_latency_ms e.control_error_rate e.control_p95_latency_ms)

  -- `rate is None or latency is None or latency <= 0`
  abbrev pub lacks_metrics : Option Float → Option Float → Bool
  lacks_metrics (some rate) (some latency) = le latency zero_float
  lacks_metrics _ _ = true

  unfoldable pub stage_insufficient_reasons : CanaryStage → CanaryStageEvidence fl → List String
  stage_insufficient_reasons s e =
      let minimum_candidate = at_least_one (ceil_percent (s.min_requests * s.weight_percent)) in
      let minimum_control =
        at_least_one (ceil_percent (s.min_requests * (100 - s.weight_percent))) in
      note_if (not e.telemetry_complete) "telemetry_incomplete"
      ++ (note_if (ltb e.observed_duration_seconds s.min_duration_seconds) "duration"
          ++ (note_if (ltb e.total_requests s.min_requests) "total_requests"
              ++ (note_if (ltb e.candidate_requests minimum_candidate) "candidate_requests"
                  ++ (if ltb s.weight_percent 100
                      then note_if (ltb e.control_requests minimum_control) "control_requests"
                        ++ note_if (lacks_metrics e.control_error_rate e.control_p95_latency_ms)
                            "control_metrics"
                      else []))))

  -- What is decided, once the evidence is known to be of the stage.
  unfoldable pub stage_outcome :
      Experiment
      → CanaryStageEvidence fl
      → (violations insufficient : List String) → CanaryStageDecision
  stage_outcome x e (v ∷ vs) insufficient = record {
    kind = CanaryDecisionKind.rollback;
    experiment_id = x.id;
    stage_index = e.stage_index;
    next_stage_index = none;
    evidence_refs = e.evidence_refs;
    violated_guardrails = v ∷ vs;
    reason = "hard canary regression exceeded configured guardrails";
  }
  stage_outcome x e [] (r ∷ rs) = record {
    kind = CanaryDecisionKind.hold;
    experiment_id = x.id;
    stage_index = e.stage_index;
    next_stage_index = none;
    evidence_refs = e.evidence_refs;
    violated_guardrails = [];
    reason = concat "insufficient canary evidence: " (join ", " (r ∷ rs));
  }
  stage_outcome x e [] [] =
      if x.current_stage_index + 1 == length x.stages
      then record {
        kind = CanaryDecisionKind.promotion_ready;
        experiment_id = x.id;
        stage_index = e.stage_index;
        next_stage_index = none;
        evidence_refs = e.evidence_refs;
        violated_guardrails = [];
        reason = "final canary stage satisfied evidence and guardrail requirements";
      }
      else record {
        kind = CanaryDecisionKind.advance;
        experiment_id = x.id;
        stage_index = e.stage_index;
        next_stage_index = some (x.current_stage_index + 1);
        evidence_refs = e.evidence_refs;
        violated_guardrails = [];
        reason = "canary stage satisfied evidence and guardrail requirements";
      }

  unfoldable pub evaluate_canary_stage :
      Experiment → CanaryStageEvidence fl → CanaryGuardrails fl → Result CanaryStageDecision
  evaluate_canary_stage x e g = do
    raise_if (e.experiment_id != x.id) value_error
    raise_if (e.stage_index != x.current_stage_index) value_error
    stage ← require (get_elem? x.stages x.current_stage_index) index_error
    raise_if (e.weight_percent != stage.weight_percent) value_error
    stage_decision_post_init
        (stage_outcome x e (stage_guardrail_violations e g) (stage_insufficient_reasons stage e))

unfoldable pub advance_experiment : Experiment → CanaryStageDecision → Result Experiment
advance_experiment x d = do
  raise_if (d.experiment_id != x.id) value_error
  raise_if (d.stage_index != x.current_stage_index) value_error
  raise_if (d.kind != CanaryDecisionKind.advance) value_error
  next ← require d.next_stage_index value_error
  raise_if (next != x.current_stage_index + 1) value_error
  experiment_post_init (record x { current_stage_index = next })

-- The loop of `promotion_evidence_refs` from decision `index` on; the refs that it gathers.
unfoldable pub history_refs :
    (id : String) (index : ℕ) → List CanaryStageDecision → Result (List String)
history_refs id index [] = ok []
history_refs id index (d ∷ ds) =
    let rest = history_refs id (index + 1) ds in
    let expected =
      if is_empty ds then CanaryDecisionKind.promotion_ready else CanaryDecisionKind.advance in
    do
      raise_if (d.experiment_id != id || d.stage_index != index) value_error
      raise_if (d.kind != expected) value_error
      refs ← rest
      ok (d.evidence_refs ++ refs)

unfoldable pub promotion_evidence_refs :
    Experiment → List CanaryStageDecision → Result (List String)
unfolding history_refs
promotion_evidence_refs x ds = do
  raise_if (length ds != length x.stages) value_error
  refs ← history_refs x.id 0 ds
  raise_if (is_empty refs) value_error
  ok refs

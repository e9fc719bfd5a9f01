-- ===== src/Domain/Canary/Evidence.antt =====
-- `CanaryGuardrails`, `CanaryStageEvidence` and `CanaryStageDecision` of domain/canary.py.
use autonomous_development.Prelude.{
  ℕ, ◌+◌, String, List, Option, none, some, Bool, false, not, ◌&&◌, ◌||◌, is_empty, is_blank,
  is_some, leb, ◌==◌, ◌!=◌, nat_eq,
}
use autonomous_development.Prelude.Raise.{Result, ok, raise_if, value_error, ◌>>◌}
use autonomous_development.Domain.Enums.{CanaryDecisionKind, canary_kind_eq}
use autonomous_development.Domain.Canary.Floats.{Floats}

pub record CanaryStageDecision : Type 0 where
  pub kind : CanaryDecisionKind
  pub experiment_id : String
  pub stage_index : ℕ
  pub next_stage_index : Option ℕ
  pub evidence_refs : List String
  pub violated_guardrails : List String
  pub reason : String

unfoldable pub stage_decision_post_init : CanaryStageDecision → Result CanaryStageDecision
stage_decision_post_init d = do
  raise_if (is_blank d.experiment_id || is_blank d.reason) value_error
  raise_if (d.kind == CanaryDecisionKind.advance && not (is_some d.next_stage_index)) value_error
  raise_if (d.kind != CanaryDecisionKind.advance && is_some d.next_stage_index) value_error
  raise_if (is_empty d.evidence_refs) value_error
  ok d

module _ (fl : Floats) where
  open fl use {Float, lt, le, zero_float, one_float}

  pub record CanaryGuardrails : Type 0 where
    pub max_candidate_error_rate : Float
    pub max_error_rate_delta : Float
    pub max_candidate_p95_latency_ms : Float
    pub max_p95_latency_ratio : Float

  -- `0.0 <= x <= 1.0`
  abbrev pub is_rate : Float → Bool
  is_rate x = le zero_float x && le x one_float

  unfoldable pub guardrails_post_init : CanaryGuardrails → Result CanaryGuardrails
  guardrails_post_init g = do
    raise_if (not (is_rate g.max_candidate_error_rate)) value_error
    raise_if (not (is_rate g.max_error_rate_delta)) value_error
    raise_if (le g.max_candidate_p95_latency_ms zero_float) value_error
    raise_if (lt g.max_p95_latency_ratio one_float) value_error
    ok g

  pub record CanaryStageEvidence : Type 0 where
    pub experiment_id : String
    pub stage_index : ℕ
    pub weight_percent : ℕ
    pub observed_duration_seconds : ℕ
    pub total_requests : ℕ
    pub candidate_requests : ℕ
    pub control_requests : ℕ
    pub candidate_error_rate : Float
    pub control_error_rate : Option Float
    pub candidate_p95_latency_ms : Float
    pub control_p95_latency_ms : Option Float
    pub evidence_refs : List String
    pub telemetry_complete : Bool

  abbrev bad_rate : Option Float → Bool
  bad_rate none = false
  bad_rate (some x) = not (is_rate x)

  abbrev bad_latency : Option Float → Bool
  bad_latency none = false
  bad_latency (some x) = lt x zero_float

  unfoldable pub stage_evidence_post_init : CanaryStageEvidence → Result CanaryStageEvidence
  stage_evidence_post_init e = do
    raise_if (is_blank e.experiment_id) value_error
    raise_if (not (leb 1 e.weight_percent && leb e.weight_percent 100)) value_error
    raise_if (e.candidate_requests + e.control_requests != e.total_requests) value_error
    raise_if (not (is_rate e.candidate_error_rate)) value_error
    raise_if (bad_rate e.control_error_rate) value_error
    raise_if (lt e.candidate_p95_latency_ms zero_float) value_error
    raise_if (bad_latency e.control_p95_latency_ms) value_error
    raise_if (is_empty e.evidence_refs) value_error
    ok e

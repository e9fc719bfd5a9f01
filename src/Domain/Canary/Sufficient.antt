-- ===== src/Domain/Canary/Sufficient.antt =====
-- What the two lists of `stage_guardrail_violations` and `stage_insufficient_reasons` say when they
-- are empty.
use autonomous_development.Prelude.{
  ℕ, ◌-◌, ◌*◌, ◌≤◌, ◌<◌, ◌≡◌, ◌↔◌, Option, some, true, false, [], arith,
}
use autonomous_development.Domain.Models.{CanaryStage}
use autonomous_development.Domain.Canary.Floats.{Floats}
use autonomous_development.Domain.Canary.Evidence.{CanaryGuardrails, CanaryStageEvidence}
use autonomous_development.Domain.Canary.Evaluate.{
  stage_guardrail_violations, stage_insufficient_reasons, ceil_percent, at_least_one,
}

-- At least one request, and a share of `percent` of the required ones.
pub record HasShare (requests required percent : ℕ) : Type 0 where
  pub some_request : 1 ≤ requests
  pub share : required * percent ≤ 100 * requests

share_iff :
    (requests n p : ℕ) → (at_least_one (ceil_percent (n * p)) ≤ requests) ↔ HasShare requests n p
share_iff requests n p = (λ h. ground arith, λ h. ground arith)

module _ (fl : Floats) where
  open fl use {Float, lt, le, sub, div, zero_float}

  -- The control arm was measured: an error rate and a positive latency.
  abbrev pub Measured : Option Float → Option Float → Type 0
  Measured (some rate) (some latency) = le latency zero_float ≡ false
  Measured _ _ = ⊥

  pub record IsSufficient (s : CanaryStage) (e : CanaryStageEvidence fl) : Type 0 where
    pub complete : e.telemetry_complete ≡ true
    pub duration : s.min_duration_seconds ≤ e.observed_duration_seconds
    pub total : s.min_requests ≤ e.total_requests
    pub candidate : HasShare e.candidate_requests s.min_requests s.weight_percent
    pub control :
        s.weight_percent < 100 → HasShare e.control_requests s.min_requests (100 - s.weight_percent)
    pub measured : s.weight_percent < 100 → Measured e.control_error_rate e.control_p95_latency_ms

  -- There is no reason to hold exactly when the telemetry is complete, the stage ran long enough
  -- and saw enough requests, and each arm has its share of them; below full weight the control arm
  -- must have been measured too.
  pub stage_insufficient_reasons-eq-nil_iff :
      (s : CanaryStage) (e : CanaryStageEvidence fl)
      → (stage_insufficient_reasons fl s e ≡ []) ↔ IsSufficient s e
  unfolding stage_insufficient_reasons
  stage_insufficient_reasons-eq-nil_iff s e =
      let a = share_iff e.candidate_requests s.min_requests s.weight_percent in
      let b = share_iff e.control_requests s.min_requests (100 - s.weight_percent) in ground arith

  abbrev pub Compared :
      CanaryGuardrails fl
      → (requests : ℕ) (rate latency : Float) → Option Float
      → Option Float
      → Type 0
  Compared g n rate latency (some control_rate) (some control_latency) =
      0 < n
      → lt zero_float control_latency ≡ true
      → (lt g.max_error_rate_delta (sub rate control_rate) ≡ false)
        × (lt g.max_p95_latency_ratio (div latency control_latency) ≡ false)
  Compared g n rate latency _ _ = Unit

  -- The candidate is within the guardrails, and against a measured control arm within the deltas.
  pub record IsHealthy (e : CanaryStageEvidence fl) (g : CanaryGuardrails fl) : Type 0 where
    pub error_rate : lt g.max_candidate_error_rate e.candidate_error_rate ≡ false
    pub latency : lt g.max_candidate_p95_latency_ms e.candidate_p95_latency_ms ≡ false
    pub compared :
        Compared g e.control_requests e.candidate_error_rate e.candidate_p95_latency_ms
          e.control_error_rate e.control_p95_latency_ms

  -- No guardrail is violated exactly when the candidate is healthy: within the absolute limits,
  -- and within the relative ones wherever the control arm had requests, an error rate and a
  -- positive latency.
  pub stage_guardrail_violations-eq-nil_iff :
      (e : CanaryStageEvidence fl) (g : CanaryGuardrails fl)
      → (stage_guardrail_violations fl e g ≡ []) ↔ IsHealthy e g
  unfolding stage_guardrail_violations
  stage_guardrail_violations-eq-nil_iff e g = ground arith

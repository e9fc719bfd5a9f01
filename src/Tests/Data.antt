-- ===== src/Tests/Data.antt =====
-- Shared test data.
use autonomous_development.Prelude.{ℕ, ◌-◌, ◌/◌, String, List, [], ◌∷◌, none, some, true, ltb, leb}
use autonomous_development.Domain.Enums.{
  CycleState, VerificationStatus, CanaryDecisionKind, ReleaseDecisionKind,
}
use autonomous_development.Domain.Models.{
  DevelopmentCycle, CanaryStage, Experiment, VerificationRun,
}
use autonomous_development.Domain.Transitions.Guard.{Evidence, no_evidence}
use autonomous_development.Experiments.Receipts.{ExperimentStageReceipt}
use autonomous_development.Experiments.Sql.{ExperimentDb}
use autonomous_development.Domain.Canary.Floats.{Floats}
use autonomous_development.Domain.Canary.Evidence.{
  CanaryStageDecision, CanaryGuardrails, CanaryStageEvidence,
}

-- Whole numbers of thousandths in place of floats.
abbrev pub thousandths : Floats
thousandths = record {
  Float = ℕ;
  lt = ltb;
  le = leb;
  sub = ◌-◌;
  div = ◌/◌;
  zero_float = 0;
  one_float = 1000;
}

abbrev pub ready_cycle : DevelopmentCycle
ready_cycle = record {
  id = "c";
  target_id = "t";
  objective_revision_id = "o";
  baseline_release_id = "r0";
  state = CycleState.promotion_ready;
  version = 12;
  evidence_window_id = some "w";
  diagnosis_id = some "g";
  change_proposal_id = some "p";
  candidate_id = some "k";
  verification_run_id = some "v";
  artifact_id = some "a";
  candidate_deployment_id = some "d1";
  experiment_id = some "x";
  release_decision = none;
}

abbrev pub canary_cycle : DevelopmentCycle
canary_cycle = record ready_cycle { state = CycleState.canarying; version = 11 }

abbrev pub new_cycle : DevelopmentCycle
new_cycle = record ready_cycle {
  state = CycleState.new;
  version = 0;
  evidence_window_id = none;
  diagnosis_id = none;
  change_proposal_id = none;
  candidate_id = none;
  verification_run_id = none;
  artifact_id = none;
  candidate_deployment_id = none;
  experiment_id = none;
}

abbrev pub half : CanaryStage
half = record { weight_percent = 50; min_duration_seconds = 60; min_requests = 10 }

abbrev pub whole : CanaryStage
whole = record { weight_percent = 100; min_duration_seconds = 60; min_requests = 10 }

abbrev pub first_stage : Experiment
first_stage = record {
  id = "x";
  target_id = "t";
  control_release_id = "r0";
  candidate_deployment_id = "d1";
  stages = half ∷ whole ∷ [];
  current_stage_index = 0;
}

abbrev pub last_stage : Experiment
last_stage = record first_stage { current_stage_index = 1 }

abbrev pub guardrails : CanaryGuardrails thousandths
guardrails = record {
  max_candidate_error_rate = 50;
  max_error_rate_delta = 20;
  max_candidate_p95_latency_ms = 400;
  max_p95_latency_ratio = 1000;
}

abbrev pub half_evidence : CanaryStageEvidence thousandths
half_evidence = record {
  experiment_id = "x";
  stage_index = 0;
  weight_percent = 50;
  observed_duration_seconds = 90;
  total_requests = 20;
  candidate_requests = 10;
  control_requests = 10;
  candidate_error_rate = 10;
  control_error_rate = some 5;
  candidate_p95_latency_ms = 100;
  control_p95_latency_ms = some 110;
  evidence_refs = "e0" ∷ [];
  telemetry_complete = true;
}

abbrev pub whole_evidence : CanaryStageEvidence thousandths
whole_evidence = record half_evidence {
  stage_index = 1;
  weight_percent = 100;
  candidate_requests = 20;
  control_requests = 0;
  control_error_rate = none;
  control_p95_latency_ms = none;
  evidence_refs = "e1" ∷ [];
}

-- Errors above the guardrail.
abbrev pub bad_evidence : CanaryStageEvidence thousandths
bad_evidence = record half_evidence { candidate_error_rate = 90 }

abbrev pub advance_decision : CanaryStageDecision
advance_decision = record {
  kind = CanaryDecisionKind.advance;
  experiment_id = "x";
  stage_index = 0;
  next_stage_index = some 1;
  evidence_refs = "e0" ∷ [];
  violated_guardrails = [];
  reason = "canary stage satisfied evidence and guardrail requirements";
}

abbrev pub ready_decision : CanaryStageDecision
ready_decision = record {
  kind = CanaryDecisionKind.promotion_ready;
  experiment_id = "x";
  stage_index = 1;
  next_stage_index = none;
  evidence_refs = "e1" ∷ [];
  violated_guardrails = [];
  reason = "final canary stage satisfied evidence and guardrail requirements";
}

abbrev pub history : List CanaryStageDecision
history = advance_decision ∷ ready_decision ∷ []

abbrev pub passed_run : VerificationRun
passed_run = record {
  id = "v";
  candidate_id = "k";
  checks =
      record {
        id = "k1";
        gate = "unit";
        status = VerificationStatus.passed;
        started_at = 1;
        ended_at = 2;
        evidence_refs = "log" ∷ [];
      }
      ∷ [];
}

abbrev pub promote_evidence : Evidence
promote_evidence = record no_evidence { release_decision = some ReleaseDecisionKind.promote }

abbrev receipt :
    (operation_id : String)
    → (result_stage_index : ℕ) → CanaryStageDecision
    → ExperimentStageReceipt
receipt operation_id result_stage_index d = record {
  operation_id = operation_id;
  experiment_id = d.experiment_id;
  stage_index = d.stage_index;
  result_stage_index = result_stage_index;
  decision_kind = d.kind;
  evidence_refs = d.evidence_refs;
  violated_guardrails = d.violated_guardrails;
  reason = d.reason;
}

abbrev pub experiment_db : ExperimentDb
experiment_db = record {
  experiments = last_stage ∷ [];
  operations = receipt "s0" 1 advance_decision ∷ receipt "s1" 1 ready_decision ∷ [];
}

-- ===== src/Tests/Delivery.antt =====
-- Traffic, canary stages and releases.
use autonomous_development.Domain.Canary.Evaluate.{
  stage_guardrail_violations, stage_outcome, evaluate_canary_stage,
}
use autonomous_development.Experiments.Service.{record_decision, replay_decision}
use autonomous_development.Prelude.{
  is_blank, ℕ, ◌+◌, ◌≡◌, refl, inr, String, [], ◌∷◌, none, some, Bool, true,
}
use autonomous_development.Prelude.Raise.{ok}
use autonomous_development.Prelude.Action.{Action}
use autonomous_development.Domain.Enums.{CanaryDecisionKind}
use autonomous_development.Domain.Canary.Evidence.{stage_decision_post_init, CanaryStageDecision}
use autonomous_development.Experiments.Sql.{
  commit_stage_decision, get_experiment, get_stage_decision,
}
use autonomous_development.Traffic.Ports.{
  split_post_init, TrafficSplit, TrafficRouteState, TrafficRouteSnapshot, TrafficDirector,
}
use autonomous_development.Traffic.File.{
  Document, TrafficFiles, apply, read_current, restore_control, file_director,
}
use autonomous_development.Traffic.Route.{apply_idempotent, restore_control-serves}
use autonomous_development.Rollout.Service.{
  CanaryObserver, CanaryStageResult, CanaryStore, conclude, run_stage,
}
use autonomous_development.Rollout.Restores.{IsRestored, run_stage-IsRestored}
use autonomous_development.Rollout.Repeat.{run_stage-repeat}
use autonomous_development.Tests.Data.{thousandths, first_stage, guardrails, bad_evidence}

-- Every URL is local, and evidence is counted.
abbrev every_url : String → Bool
every_url base_url = true

abbrev write_json : TrafficSplit → (generation : ℕ) → Action ℕ String
write_json split generation written = (ok "ref", written + 1)

abbrev no_files : TrafficFiles ℕ
no_files = record { current = none; receipts = []; evidence = 0 }

abbrev split : TrafficSplit
split = record {
  experiment_id = "x";
  stage_index = 0;
  control_base_url = "http://localhost:1";
  candidate_base_url = "http://localhost:2";
  candidate_weight_percent = 50;
  operation_id = "route";
  target_id = some "t";
  control_release_id = some "r0";
  candidate_deployment_id = some "d1";
}

abbrev state_at : (weight generation : ℕ) → TrafficRouteState
state_at weight generation = record {
  experiment_id = "x";
  stage_index = 0;
  candidate_weight_percent = weight;
  generation = generation;
  evidence_ref = "ref";
  target_id = some "t";
  control_release_id = some "r0";
  candidate_deployment_id = some "d1";
}

abbrev document_at : TrafficSplit → ℕ → Document
document_at s generation = record { split = s; generation = generation; evidence_ref = "ref" }

abbrev routed_files : TrafficFiles ℕ
routed_files = record {
  current = some (document_at split 1);
  receipts = record { split = split; state = state_at 50 1 } ∷ [];
  evidence = 1;
}

abbrev control_split : TrafficSplit
control_split = record split { candidate_weight_percent = 0; operation_id = "stop" }

abbrev restored_files : TrafficFiles ℕ
restored_files = record {
  current = some (document_at control_split 2);
  receipts = record { split = control_split; state = state_at 0 2 } ∷ routed_files.receipts;
  evidence = 2;
}

apply_idempotent_example :
    apply every_url write_json split routed_files ≡ (ok (state_at 50 1), routed_files)
unfolding apply
apply_idempotent_example =
    apply_idempotent every_url write_json split no_files routed_files (state_at 50 1) refl

restore_control-serves_example :
    (snap : TrafficRouteSnapshot) × (read_current every_url write_json restored_files
      ≡ ok (some snap))
    × (snap.candidate_weight_percent ≡ 0)
    × (snap.control_base_url ≡ "http://localhost:1")
unfolding restore_control split_post_init is_blank
restore_control-serves_example =
    restore_control-serves every_url write_json "x" 0 "http://localhost:1" "http://localhost:2"
      "stop" routed_files restored_files (state_at 0 2) refl refl

-- A stage whose candidate fails, on the file director.
abbrev director : TrafficDirector (TrafficFiles ℕ)
unfolding file_director
director = file_director every_url write_json

abbrev observer : CanaryObserver thousandths (TrafficFiles ℕ)
observer = record { observe = λ experiment_id stage_index stage route w. (ok bad_evidence, w) }

abbrev before_stage : CanaryStore (TrafficFiles ℕ)
before_stage = record {
  world = no_files;
  experiments = record { experiments = first_stage ∷ []; operations = [] };
}

abbrev rollback_decision : CanaryStageDecision
rollback_decision = record {
  kind = CanaryDecisionKind.rollback;
  experiment_id = "x";
  stage_index = 0;
  next_stage_index = none;
  evidence_refs = "e0" ∷ [];
  violated_guardrails = "candidate_error_rate" ∷ "error_rate_delta" ∷ [];
  reason = "hard canary regression exceeded configured guardrails";
}

abbrev stage_result : CanaryStageResult
stage_result = record { experiment = first_stage; decision = rollback_decision }

abbrev after_stage : CanaryStore (TrafficFiles ℕ)
unfolding run_stage director
after_stage =
    (run_stage thousandths director observer "x" guardrails "http://localhost:1"
      "http://localhost:2" "op" before_stage).1

stage_runs :
    run_stage thousandths director observer "x" guardrails "http://localhost:1" "http://localhost:2"
      "op" before_stage
    ≡ (ok stage_result, after_stage)
unfolding run_stage director after_stage is_blank replay_decision get_stage_decision get_experiment
    split_post_init evaluate_canary_stage stage_decision_post_init stage_outcome
    stage_guardrail_violations record_decision commit_stage_decision
stage_runs = refl

run_stage-IsRestored_example :
    IsRestored thousandths director observer "http://localhost:1" "http://localhost:2"
      after_stage.world
run_stage-IsRestored_example =
    run_stage-IsRestored thousandths director observer "x" guardrails "http://localhost:1"
      "http://localhost:2" "op" before_stage after_stage stage_result stage_runs (inr refl)

run_stage-repeat_example :
    run_stage thousandths director observer "x" guardrails "http://localhost:1" "http://localhost:2"
      "op" after_stage
    ≡ conclude thousandths director observer first_stage rollback_decision "http://localhost:1"
        "http://localhost:2" "op" after_stage
run_stage-repeat_example =
    run_stage-repeat thousandths director observer "x" "x" guardrails guardrails
      "http://localhost:1" "http://localhost:2" "op" before_stage after_stage stage_result
      stage_runs

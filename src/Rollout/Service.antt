-- ===== src/Rollout/Service.antt =====
-- `CanaryService` of application/canary.py, over any traffic director and observer. `W` is the
-- state that they share.
use autonomous_development.Prelude.{
  ℕ, String, none, some, concat, is_blank, get_elem?, leb, ◌!=◌, nat_eq, string_eq, option_eq,
  if◌then◌else◌,
}
use autonomous_development.Prelude.Raise.{
  Result, ok, err, raise_if, require, value_error, runtime_error, index_error,
}
use autonomous_development.Prelude.Action.{Action, ◌>>=◌, ◌>>◌, pure, raise, lift}
use autonomous_development.Domain.Enums.{CanaryDecisionKind, canary_kind_value}
use autonomous_development.Domain.Models.{CanaryStage, Experiment}
use autonomous_development.Domain.Canary.Floats.{Floats}
use autonomous_development.Domain.Canary.Evidence.{
  CanaryStageDecision, CanaryGuardrails, CanaryStageEvidence,
}
use autonomous_development.Domain.Canary.Evaluate.{evaluate_canary_stage}
use autonomous_development.Experiments.Sql.{ExperimentDb}
use autonomous_development.Experiments.Service as Experiments
use autonomous_development.Traffic.Ports.{
  TrafficSplit, split_post_init, TrafficRouteState, TrafficRouteSnapshot, TrafficDirector,
}

-- `CanaryObserver` of ports/canary.py
pub record CanaryObserver (fl : Floats) (W : Type 0) : Type 0 where
  pub observe :
      (experiment_id : String) (stage_index : ℕ)
      → CanaryStage
      → TrafficRouteState
      → Action W (CanaryStageEvidence fl)

pub record CanaryStageResult : Type 0 where
  pub experiment : Experiment
  pub decision : CanaryStageDecision

pub record CanaryStore (W : Type 0) : Type 0 where
  pub world : W
  pub experiments : ExperimentDb

module _ {W : Type 0} where
  abbrev pub on_world : {A : Type 0} → Action W A → Action (CanaryStore W) A
  on_world m s = let (r, t) = m s.world in (r, record s { world = t })

  abbrev pub on_experiments : {A : Type 0} → Action ExperimentDb A → Action (CanaryStore W) A
  on_experiments m s = let (r, t) = m s.experiments in (r, record s { experiments = t })

  abbrev pub read_experiments : {A : Type 0} → (ExperimentDb → Result A) → Action (CanaryStore W) A
  read_experiments f s = (f s.experiments, s)

  -- `except Exception: ...; raise`
  abbrev pub except_reraise : {A B : Type 0} → Action W A → Action W B → Action W A
  except_reraise m handler w =
      let (r, w') = m w in
      elim r [
        | ok a ↦ (ok a, w')
        | err e ↦
            (let (r', w'') = handler w' in elim r' [ ok b ↦ (err e, w'') | err e' ↦ (err e', w'') ])
      ]

-- The split of a stage.
unfoldable pub stage_split :
    Experiment
    → CanaryStage
    → (control_base_url candidate_base_url operation_id : String) → TrafficSplit
stage_split x stage control_base_url candidate_base_url operation_id = record {
  experiment_id = x.id;
  stage_index = x.current_stage_index;
  control_base_url = control_base_url;
  candidate_base_url = candidate_base_url;
  candidate_weight_percent = stage.weight_percent;
  operation_id = concat operation_id ":traffic";
  target_id = some x.target_id;
  control_release_id = some x.control_release_id;
  candidate_deployment_id = some x.candidate_deployment_id;
}

module _ {W : Type 0} (fl : Floats) (T : TrafficDirector W) (O : CanaryObserver fl W) where
  -- `_restore_control`
  unfoldable pub restore_control :
      (experiment_id : String) (stage_index : ℕ) (control_base_url candidate_base_url : String)
      (operation_id : String)
      → Action W TrafficRouteState
  restore_control = T.restore_control

  -- `_ensure_post_decision_routing`
  unfoldable pub ensure_post_decision_routing :
      CanaryDecisionKind
      → Experiment
      → CanaryStageDecision
      → (control_base_url candidate_base_url operation_id : String) → Action W (Unit {0})
  unfolding restore_control canary_kind_value
  ensure_post_decision_routing CanaryDecisionKind.rollback x d control candidate operation_id = do
    restore_control x.id d.stage_index control candidate (
        concat operation_id
          (concat ":" (concat (canary_kind_value CanaryDecisionKind.rollback) ":restore")))
    pure tt
  ensure_post_decision_routing CanaryDecisionKind.hold x d control candidate operation_id = do
    restore_control x.id d.stage_index control candidate (
        concat operation_id
          (concat ":" (concat (canary_kind_value CanaryDecisionKind.hold) ":restore")))
    pure tt
  ensure_post_decision_routing _ x d control candidate operation_id = pure tt

  -- The route of the stage, and what is observed on it.
  unfoldable pub route_and_observe :
      Experiment
      → CanaryStage
      → (control_base_url candidate_base_url operation_id : String)
      → Action W (CanaryStageEvidence fl)
  unfolding stage_split restore_control
  route_and_observe x stage control candidate operation_id = do
    split ← lift (split_post_init (stage_split x stage control candidate operation_id))
    route ← T.apply split
    except_reraise (O.observe x.id x.current_stage_index stage route) (
        restore_control x.id x.current_stage_index control candidate
          (concat operation_id ":observer-failed:restore"))

  -- A decision that is known, and the routing after it.
  unfoldable pub conclude :
      Experiment
      → CanaryStageDecision
      → (control_base_url candidate_base_url operation_id : String)
      → Action (CanaryStore W) CanaryStageResult
  unfolding ensure_post_decision_routing
  conclude x d control candidate operation_id = do
    on_world (ensure_post_decision_routing d.kind x d control candidate operation_id)
    pure (record { experiment = x; decision = d })

  -- A stage that was not decided before.
  unfoldable pub decide_stage :
      (experiment_id : String)
      → CanaryGuardrails fl
      → (control_base_url candidate_base_url operation_id : String)
      → Action (CanaryStore W) CanaryStageResult
  unfolding route_and_observe conclude
  decide_stage experiment_id g control candidate operation_id = do
    x ← read_experiments (Experiments.get experiment_id)
    stage ← lift (require (get_elem? x.stages x.current_stage_index) index_error)
    evidence ← on_world (route_and_observe x stage control candidate operation_id)
    d ← lift (evaluate_canary_stage fl x evidence g)
    persisted ←
        on_experiments (
          Experiments.record_decision x.id d x.current_stage_index
            (concat operation_id ":decision"))
    conclude persisted d control candidate operation_id

  unfoldable pub run_stage :
      (experiment_id : String)
      → CanaryGuardrails fl
      → (control_base_url candidate_base_url operation_id : String)
      → Action (CanaryStore W) CanaryStageResult
  unfolding decide_stage conclude
  run_stage experiment_id g control candidate operation_id = do
    lift (raise_if (is_blank operation_id) value_error)
    replayed ← read_experiments (Experiments.replay_decision (concat operation_id ":decision"))
    elim replayed [
      | some p ↦ conclude p.0 p.1 control candidate operation_id
      | none ↦ decide_stage experiment_id g control candidate operation_id
    ]

  -- The guards of `restore_candidate_control` on the active route.
  unfoldable pub restore_route :
      Experiment → TrafficRouteSnapshot → (operation_id : String) → Action W (Unit {0})
  unfolding restore_control
  restore_route x route operation_id =
      if route.target_id != some x.target_id
      then raise runtime_error
      else elim route.candidate_deployment_id [
        | none ↦ raise runtime_error
        | some deployment_id ↦
            if deployment_id != x.candidate_deployment_id
            then pure tt
            else if leb route.candidate_weight_percent 0
            then pure tt
            else do
              restore_control route.experiment_id route.stage_index route.control_base_url
                  route.candidate_base_url operation_id
              pure tt
      ]

  unfoldable pub restore_candidate_control :
      (experiment_id operation_id : String) → Action (CanaryStore W) (Unit {0})
  unfolding restore_route
  restore_candidate_control experiment_id operation_id = do
    lift (raise_if (is_blank operation_id) value_error)
    x ← read_experiments (Experiments.get experiment_id)
    current ← on_world (λ w. (T.read_current w, w))
    elim current [
      | none ↦ raise runtime_error
      | some route ↦ on_world (restore_route x route operation_id)
    ]

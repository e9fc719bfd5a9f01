-- ===== src/Soak/Service.antt =====
-- `PostPromotionSoakService` of application/soak.py, over any cycle repository, traffic director,
-- observer and providers.
use autonomous_development.Prelude.{
  ℕ, String, List, Option, none, some, Bool, true, false, concat, ◌==◌, ◌!=◌, nat_eq, string_eq,
  option_eq, if◌then◌else◌,
}
use autonomous_development.Prelude.Raise.{Result, ok, err, raise_if, require, value_error}
use autonomous_development.Prelude.Action.{Action, ◌>>=◌, ◌>>◌, pure, raise, lift}
use autonomous_development.Domain.Enums.{
  CycleState, cycle_state_eq, ReleaseDecisionKind, SoakDecisionKind,
}
use autonomous_development.Domain.Models.{CanaryStage, DevelopmentCycle, ReleasedVersion}
use autonomous_development.Domain.Transitions.Guard.{no_evidence}
use autonomous_development.Domain.Canary.Floats.{Floats}
use autonomous_development.Domain.Canary.Evidence.{CanaryGuardrails, CanaryStageEvidence}
use autonomous_development.Domain.Canary.Soak.{
  PostPromotionSoakDecision, evaluate_post_promotion_soak,
}
use autonomous_development.Cycles.Repository.{CycleRepository}
use autonomous_development.Cycles.Service as Cycles
use autonomous_development.Traffic.Ports.{
  TrafficSplit, split_post_init, TrafficRouteSnapshot, TrafficDirector,
}
use autonomous_development.Rollout.Service.{CanaryObserver}
use autonomous_development.Catalog.Service as Catalog
use autonomous_development.Soak.Decisions.{SoakDecisionReceipt, record_soak}
use autonomous_development.Soak.Decisions as Decisions
use autonomous_development.Soak.Ports.{DeploymentProvider, RepositoryProvider}
use autonomous_development.Soak.Runtime.{
  RuntimeStore, on_catalog, on_world, resolve, resolve_serving, stop_release, stop_deployment,
  cleanup_cycle, restore_baseline,
}

-- What the service is built with, beside the cycles.
pub record SoakWiring (fl : Floats) (W : Type 0) : Type 0 where
  pub traffic : TrafficDirector W
  pub observer : CanaryObserver fl W
  pub deployment : DeploymentProvider W
  pub repository : RepositoryProvider W
  pub contract_target_id : String
  pub container_port : ℕ
  pub repository_root : String
  pub worktree_root : String
  pub default_branch : String

pub record SoakStore (S W : Type 0) : Type 0 where
  pub cycles : S
  pub decisions : List SoakDecisionReceipt
  pub runtime : RuntimeStore W

-- `serving is None or serving.deployment_id != cycle.candidate_deployment_id`
unfoldable pub not_serving : DevelopmentCycle → Option ReleasedVersion → Bool
not_serving cycle none = true
not_serving cycle (some serving) = some serving.deployment_id != cycle.candidate_deployment_id

-- `recorded is not None and recorded != own`
unfoldable pub of_another : (recorded : Option String) → (own : Option String) → Bool
of_another none own = false
of_another (some recorded) own = some recorded != own

-- The route has to be the soak's own.
unfoldable pub soak_route :
    DevelopmentCycle
    → (soak_experiment_id : String) → Option TrafficRouteSnapshot
    → Result TrafficRouteSnapshot
unfolding of_another
soak_route cycle soak_experiment_id none = err value_error
soak_route cycle soak_experiment_id (some route) =
    if route.experiment_id != soak_experiment_id
    then err value_error
    else if of_another route.target_id (some cycle.target_id)
    then err value_error
    else if of_another route.candidate_deployment_id cycle.candidate_deployment_id
    then err value_error
    else ok route

unfoldable pub soak_split :
    DevelopmentCycle
    → (soak_experiment_id control_base_url candidate_base_url route_operation_id : String)
    → TrafficSplit
soak_split cycle soak_experiment_id control_base_url candidate_base_url route_operation_id =
    record {
      experiment_id = soak_experiment_id;
      stage_index = 0;
      control_base_url = control_base_url;
      candidate_base_url = candidate_base_url;
      candidate_weight_percent = 100;
      operation_id = route_operation_id;
      target_id = some cycle.target_id;
      control_release_id = some cycle.baseline_release_id;
      candidate_deployment_id = cycle.candidate_deployment_id;
    }

-- The receipt that `apply` needs.
unfoldable pub recorded_for :
    (cycle_id : String) → Option SoakDecisionReceipt → Result PostPromotionSoakDecision
recorded_for cycle_id none = err value_error
recorded_for cycle_id (some receipt) =
    if receipt.cycle_id != cycle_id then err value_error else ok receipt.decision

module _ {S W : Type 0} where
  abbrev pub on_cycles : {A : Type 0} → Action S A → Action (SoakStore S W) A
  on_cycles m s = let (r, t) = m s.cycles in (r, record s { cycles = t })

  abbrev pub on_decisions :
      {A : Type 0} → Action (List SoakDecisionReceipt) A → Action (SoakStore S W) A
  on_decisions m s = let (r, t) = m s.decisions in (r, record s { decisions = t })

  abbrev pub on_runtime : {A : Type 0} → Action (RuntimeStore W) A → Action (SoakStore S W) A
  on_runtime m s = let (r, t) = m s.runtime in (r, record s { runtime = t })

module _ {fl : Floats} {S W : Type 0} (R : CycleRepository S) (w : SoakWiring fl W) where
  unfoldable pub start : (cycle_id operation_id : String) → Action (SoakStore S W) DevelopmentCycle
  unfolding not_serving
  start cycle_id operation_id = do
    cycle ← on_cycles (Cycles.get R cycle_id)
    elim cycle.state [
      | CycleState.soaking ↦ pure cycle
      | CycleState.promoted ↦ do
        serving ← on_runtime (on_catalog (Catalog.serving cycle.target_id))
        lift (raise_if (not_serving cycle serving) value_error)
        on_cycles
            (Cycles.transition R cycle.id CycleState.soaking cycle.version operation_id no_evidence)
      | _ ↦ raise value_error
    ]

  -- `observe` from the runtimes to the evidence of the soak.
  unfoldable pub route_and_observe :
      DevelopmentCycle
      → (experiment_id : String) → CanaryStage
      → (route_operation_id : String) → Action (RuntimeStore W) (CanaryStageEvidence fl)
  unfolding not_serving soak_split
  route_and_observe cycle experiment_id stage route_operation_id = do
    control ← resolve w.deployment w.contract_target_id w.container_port cycle.baseline_release_id
    served ← resolve_serving w.deployment w.contract_target_id w.container_port cycle.target_id
    lift (raise_if (not_serving cycle (some served.0)) value_error)
    split ← lift (
        split_post_init (
          soak_split cycle (concat experiment_id "-soak") control.base_url served.1.base_url
            route_operation_id))
    route ← on_world (w.traffic.apply split)
    on_world (w.observer.observe (concat experiment_id "-soak") 0 stage route)

  -- `observe` without a recorded decision.
  unfoldable pub observe_new :
      (cycle_id : String)
      → CanaryStage
      → CanaryGuardrails fl
      → (route_operation_id decision_operation_id : String)
      → Action (SoakStore S W) PostPromotionSoakDecision
  unfolding route_and_observe
  observe_new cycle_id stage guardrails route_operation_id decision_operation_id = do
    cycle ← on_cycles (Cycles.get R cycle_id)
    lift (raise_if (cycle.state != CycleState.soaking) value_error)
    experiment_id ← lift (require cycle.experiment_id value_error)
    lift (raise_if (stage.weight_percent != 100) value_error)
    evidence ← on_runtime (route_and_observe cycle experiment_id stage route_operation_id)
    decision ← lift (evaluate_post_promotion_soak fl stage evidence guardrails)
    receipt ← on_decisions (record_soak decision_operation_id cycle_id decision)
    pure receipt.decision

  unfoldable pub observe :
      (cycle_id : String)
      → CanaryStage
      → CanaryGuardrails fl
      → (route_operation_id decision_operation_id : String)
      → Action (SoakStore S W) PostPromotionSoakDecision
  unfolding observe_new
  observe cycle_id stage guardrails route_operation_id decision_operation_id = do
    existing ← on_decisions (λ rows. (Decisions.get decision_operation_id rows, rows))
    elim existing [
      | some receipt ↦ do
        lift (raise_if (receipt.cycle_id != cycle_id) value_error)
        pure receipt.decision
      | none ↦ observe_new cycle_id stage guardrails route_operation_id decision_operation_id
    ]

  -- `_rollback_to_baseline` up to the restored route.
  unfoldable pub restore_traffic :
      DevelopmentCycle
      → (soak_experiment_id effect_operation_id : String) → Action (RuntimeStore W) (Unit {0})
  unfolding soak_route
  restore_traffic cycle soak_experiment_id effect_operation_id = do
    control ← resolve w.deployment w.contract_target_id w.container_port cycle.baseline_release_id
    current ← on_world (λ v. (w.traffic.read_current v, v))
    route ← lift (soak_route cycle soak_experiment_id current)
    state ← on_world (
        w.traffic.restore_control soak_experiment_id 0 control.base_url route.candidate_base_url
          (concat effect_operation_id ":traffic"))
    pure tt

  -- Its next part: the serving release and the source.
  unfoldable pub restore_release :
      DevelopmentCycle → (effect_operation_id : String) → Action (RuntimeStore W) (Unit {0})
  restore_release cycle effect_operation_id = do
    served ← on_catalog (
        Catalog.set_serving cycle.target_id cycle.baseline_release_id
          (concat effect_operation_id ":serving"))
    baseline ← on_catalog (Catalog.get cycle.baseline_release_id)
    on_world
        (restore_baseline w.repository w.repository_root w.default_branch baseline.source_commit)

  -- And the candidate's deployment and worktree.
  unfoldable pub retire_candidate : DevelopmentCycle → Action W (Unit {0})
  retire_candidate cycle = do
    deployment_id ← lift (require cycle.candidate_deployment_id value_error)
    stop_deployment w.deployment w.contract_target_id w.container_port deployment_id
    cleanup_cycle w.repository w.repository_root w.worktree_root cycle.id

  unfoldable pub rollback_to_baseline :
      DevelopmentCycle → (effect_operation_id : String) → Action (SoakStore S W) DevelopmentCycle
  unfolding restore_traffic restore_release retire_candidate
  rollback_to_baseline cycle effect_operation_id = do
    experiment_id ← lift (require cycle.experiment_id value_error)
    on_runtime (restore_traffic cycle (concat experiment_id "-soak") effect_operation_id)
    on_runtime (restore_release cycle effect_operation_id)
    on_runtime (on_world (retire_candidate cycle))
    on_cycles (
        Cycles.transition R cycle.id CycleState.rolled_back cycle.version
          (concat effect_operation_id ":cycle")
          (record no_evidence { release_decision = some ReleaseDecisionKind.rollback }))

  unfoldable pub complete_cycle :
      DevelopmentCycle → (effect_operation_id : String) → Action (SoakStore S W) DevelopmentCycle
  complete_cycle cycle effect_operation_id = do
    on_runtime
        (stop_release w.deployment w.contract_target_id w.container_port cycle.baseline_release_id)
    on_runtime (on_world (cleanup_cycle w.repository w.repository_root w.worktree_root cycle.id))
    on_cycles (
        Cycles.transition R cycle.id CycleState.completed cycle.version
          (concat effect_operation_id ":complete") no_evidence)

  -- `if cycle.state is done: return cycle`, then the demand that the cycle soaks.
  unfoldable pub unless_done :
      (done : CycleState)
      → DevelopmentCycle
      → Action (SoakStore S W) DevelopmentCycle
      → Action (SoakStore S W) DevelopmentCycle
  unless_done done cycle act =
      if cycle.state == done
      then pure cycle
      else if cycle.state != CycleState.soaking
      then raise value_error
      else act

  unfoldable pub apply_kind :
      SoakDecisionKind
      → DevelopmentCycle
      → (effect_operation_id : String) → Action (SoakStore S W) DevelopmentCycle
  unfolding unless_done complete_cycle rollback_to_baseline
  apply_kind SoakDecisionKind.hold cycle effect_operation_id = do
    lift (raise_if (cycle.state != CycleState.soaking) value_error)
    pure cycle
  apply_kind SoakDecisionKind.complete cycle effect_operation_id =
      unless_done CycleState.completed cycle (complete_cycle cycle effect_operation_id)
  apply_kind SoakDecisionKind.rollback cycle effect_operation_id =
      unless_done CycleState.rolled_back cycle (rollback_to_baseline cycle effect_operation_id)

  unfoldable pub apply :
      (cycle_id decision_operation_id effect_operation_id : String)
      → Action (SoakStore S W) DevelopmentCycle
  unfolding recorded_for apply_kind
  apply cycle_id decision_operation_id effect_operation_id = do
    receipt ← on_decisions (λ rows. (Decisions.get decision_operation_id rows, rows))
    decision ← lift (recorded_for cycle_id receipt)
    cycle ← on_cycles (Cycles.get R cycle_id)
    apply_kind decision.kind cycle effect_operation_id

  unfoldable pub rollback_unobserved :
      (cycle_id effect_operation_id : String) → Action (SoakStore S W) DevelopmentCycle
  unfolding unless_done rollback_to_baseline
  rollback_unobserved cycle_id effect_operation_id = do
    cycle ← on_cycles (Cycles.get R cycle_id)
    unless_done CycleState.rolled_back cycle (rollback_to_baseline cycle effect_operation_id)

-- ===== src/Scheduler/Reads.antt =====
-- What `prepare_next` of application/iteration_scheduler.py reads. The contract of the target and
-- the resolution of its path are parameters.
use autonomous_development.Prelude.{ℕ, String, List, some, ◌!=◌, string_eq}
use autonomous_development.Prelude.Raise.{Result, ok, raise_if, value_error, ◌>>=◌, ◌>>◌}
use autonomous_development.Domain.Canary.Floats.{Floats}
use autonomous_development.Domain.Models.{ReleasedVersion, EvidenceWindow, UserFeedback}
use autonomous_development.Targets.Sql.{RegistryDb}
use autonomous_development.Targets.Service as Targets
use autonomous_development.Feedback.Sql.{list_attributable}
use autonomous_development.Windows.Service.{WindowSources}
use autonomous_development.Iteration.Context.{IterationRequest}
use autonomous_development.Iteration.Service.{IterationWiring}
use autonomous_development.Scheduler.Policy.{
  FeedbackIterationPolicy, IterationIdentities, minus_seconds,
}

-- What the scheduler reads of the contract of a target.
pub record ContractView : Type 0 where
  pub target_id : String
  pub revision : String
  pub mandatory_gates : List String

pub record SchedulerWiring (fl : Floats) (S W : Type 0) : Type 0 where
  pub iteration : IterationWiring fl S W
  pub sources : WindowSources
  pub registry : RegistryDb
  pub digest_of : (target_id release_id feedback_id : String) → String
  pub resolve : String → Result String
  pub load_contract : (repository_root : String) → Result ContractView
  pub policy : FeedbackIterationPolicy fl

module _ {fl : Floats} {S W : Type 0} (wiring : SchedulerWiring fl S W) (target_id : String) where
  -- The request to the iteration service.
  unfoldable pub iteration_request :
      IterationIdentities → ReleasedVersion → EvidenceWindow → Result (IterationRequest fl)
  iteration_request ids serving window = do
    target ← Targets.runtime_target target_id (some serving.id) wiring.registry
    objective ← Targets.get_active_objective target wiring.registry
    root ← wiring.resolve target.repository
    contract ← wiring.load_contract root
    raise_if (contract.target_id != target.id) value_error
    raise_if (contract.revision != target.target_contract_revision) value_error
    ok (record {
      target = target;
      objective = objective;
      baseline = serving;
      window = window;
      repository_root = root;
      cycle_id = ids.cycle_id;
      diagnosis_id = ids.diagnosis_id;
      proposal_id = ids.proposal_id;
      mandatory_gates = contract.mandatory_gates;
      operation_id = ids.operation_id;
      minimum_diagnosis_confidence = wiring.policy.minimum_diagnosis_confidence;
    })

  -- The feedback of the serving release that may trigger an iteration.
  unfoldable pub candidates : (scheduled_time : ℕ) → ReleasedVersion → Result (List UserFeedback)
  unfolding minus_seconds
  candidates scheduled_time serving = do
    eligible_until ← minus_seconds scheduled_time wiring.policy.diagnosis_delay_seconds
    list_attributable target_id serving.id serving.deployment_id 0 eligible_until
        wiring.sources.feedback

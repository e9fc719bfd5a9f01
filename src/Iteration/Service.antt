-- ===== src/Iteration/Service.antt =====
-- `IterationService` of application/iteration.py. `DiagnosisConfidenceInsufficient` carries the
-- cycle and the diagnosis to the scheduler, which catches it: it is an outcome here.
use autonomous_development.Prelude.{
  String, List, some, not, ◌&&◌, ◌||◌, is_some, concat, ◌==◌, ◌!=◌, string_eq, option_eq,
  if◌then◌else◌, Eq,
}
use autonomous_development.Prelude.Raise.{
  Result, err, raise_if, require, value_error, runtime_error, cycle_not_found,
}
use autonomous_development.Prelude.Action.{Action, ◌>>=◌, ◌>>◌, pure, raise, lift}
use autonomous_development.Domain.Canary.Floats.{Floats}
use autonomous_development.Domain.Enums.{CycleState, cycle_state_eq}
use autonomous_development.Domain.Models.{
  DevelopmentCycle, fresh_cycle, cycle_post_init, Diagnosis, ChangeProposal, UserFeedback,
}
use autonomous_development.Domain.Transitions.Guard.{Evidence, no_evidence}
use autonomous_development.Cycles.Repository.{CycleRepository}
use autonomous_development.Cycles.Service as Cycles
use autonomous_development.Soak.Ports.{RepositoryBaseline}
use autonomous_development.Diagnoses.Service as Diagnoses
use autonomous_development.Diagnoses.Service.{DiagnosisStore, DiagnosisWiring}
use autonomous_development.Proposals.Service as Proposals
use autonomous_development.Iteration.Context.{
  IterationRequest, validate_context, validate_cycle_identity,
}

pub data IterationOutcome (fl : Floats) : Type 0 where
  prepared : DevelopmentCycle → Diagnosis fl → ChangeProposal → IterationOutcome fl
  insufficient : DevelopmentCycle → Diagnosis fl → IterationOutcome fl

-- Cycles, diagnoses with the outside world, and proposals.
pub record IterationStore (fl : Floats) (S W : Type 0) : Type 0 where
  pub cycles : S
  pub diagnosing : DiagnosisStore fl W
  pub proposals : List ChangeProposal

-- What the service is wired to; `verify_baseline` is the method of `RepositoryProvider`.
pub record IterationWiring (fl : Floats) (S W : Type 0) : Type 0 where
  pub repository : CycleRepository S
  pub verify_baseline : (repository_root default_branch : String) → Action W RepositoryBaseline
  pub diagnosis : DiagnosisWiring fl W

module _ {fl : Floats} {S W : Type 0} where
  abbrev pub on_cycles : {A : Type 0} → Action S A → Action (IterationStore fl S W) A
  on_cycles m s = let (r, t) = m s.cycles in (r, record s { cycles = t })

  abbrev pub on_diagnosing :
      {A : Type 0} → Action (DiagnosisStore fl W) A → Action (IterationStore fl S W) A
  on_diagnosing m s = let (r, t) = m s.diagnosing in (r, record s { diagnosing = t })

  abbrev pub on_proposals :
      {A : Type 0} → Action (List ChangeProposal) A → Action (IterationStore fl S W) A
  on_proposals m s = let (r, t) = m s.proposals in (r, record s { proposals = t })

  abbrev pub query :
      {A : Type 0} → (IterationStore fl S W → Result A) → Action (IterationStore fl S W) A
  query read s = (read s, s)

module _ {fl : Floats} ⦃float_eq : Eq fl.Float⦄ {S W : Type 0} (wiring : IterationWiring fl S W)
    (r : IterationRequest fl) where
  -- `except CycleNotFoundError: cycle = self._cycles.create(...)`
  unfoldable pub or_create : Result DevelopmentCycle × S → Result DevelopmentCycle × S
  unfolding fresh_cycle cycle_post_init
  or_create (err cycle_not_found, s) =
      (do
        cycle ←
            lift (cycle_post_init (fresh_cycle r.cycle_id r.target.id r.objective.id r.baseline.id))
        Cycles.create wiring.repository cycle)
        s
  or_create (result, s) = (result, s)

  unfoldable pub open_cycle : Action S DevelopmentCycle
  unfolding or_create
  open_cycle s = or_create (Cycles.get wiring.repository r.cycle_id s)

  -- A transition of the cycle, under an operation id of this iteration.
  abbrev pub step :
      DevelopmentCycle
      → CycleState
      → (suffix : String) → Evidence
      → Action (IterationStore fl S W) DevelopmentCycle
  step cycle to_state suffix evidence = on_cycles (
      Cycles.transition wiring.repository cycle.id to_state cycle.version
        (concat r.operation_id suffix) evidence)

  unfoldable pub require_diagnosis :
      DevelopmentCycle → Action (IterationStore fl S W) (Diagnosis fl)
  require_diagnosis cycle = do
    lift (raise_if (cycle.diagnosis_id != some r.diagnosis_id) value_error)
    found ← query (λ s. Diagnoses.get r.diagnosis_id s.diagnosing)
    lift (require found runtime_error)

  unfoldable pub require_proposal : DevelopmentCycle → Action (IterationStore fl S W) ChangeProposal
  require_proposal cycle = do
    lift (raise_if (cycle.change_proposal_id != some r.proposal_id) value_error)
    found ← query (λ s. Proposals.get r.proposal_id s.proposals)
    lift (require found runtime_error)

  -- `_load_prepared`
  unfoldable pub load_prepared :
      DevelopmentCycle → Action (IterationStore fl S W) (IterationOutcome fl)
  unfolding require_diagnosis require_proposal
  load_prepared cycle = do
    diagnosis ← require_diagnosis cycle
    proposal ← require_proposal cycle
    pure (prepared cycle diagnosis proposal)

  -- A blocked cycle was refused before.
  unfoldable pub refuse_again :
      DevelopmentCycle → Diagnosis fl → Action (IterationStore fl S W) (IterationOutcome fl)
  refuse_again cycle diagnosis =
      if fl.lt diagnosis.confidence r.minimum_diagnosis_confidence
      then pure (insufficient cycle diagnosis)
      else raise runtime_error

  unfoldable pub load_blocked :
      DevelopmentCycle → Action (IterationStore fl S W) (IterationOutcome fl)
  unfolding require_diagnosis refuse_again
  load_blocked cycle = do diagnosis ← require_diagnosis cycle; refuse_again cycle diagnosis

  unfoldable pub verify_baseline :
      DevelopmentCycle → Action (IterationStore fl S W) DevelopmentCycle
  verify_baseline cycle =
      if cycle.state == CycleState.new
      then (do
        observed ←
            on_diagnosing (
              Diagnoses.on_world (wiring.verify_baseline r.repository_root r.target.default_branch))
        lift (
            raise_if
              (observed.commit != r.baseline.source_commit
                || observed.tree != r.baseline.source_tree)
              value_error)
        step cycle CycleState.baseline_verified ":baseline" no_evidence)
      else pure cycle

  unfoldable pub bind_evidence : DevelopmentCycle → Action (IterationStore fl S W) DevelopmentCycle
  bind_evidence cycle =
      if cycle.state == CycleState.baseline_verified
      then step cycle CycleState.evidence_ready ":evidence"
          (record no_evidence { evidence_window_id = some r.window.id })
      else pure cycle

  -- The diagnosis, made or read, and the cycle after it.
  unfoldable pub diagnosed :
      List UserFeedback
      → DevelopmentCycle
      → Action (IterationStore fl S W) (DevelopmentCycle × Diagnosis fl)
  unfolding require_diagnosis
  diagnosed rows cycle =
      if cycle.state == CycleState.evidence_ready
      then (do
        diagnosis ← on_diagnosing (
            Diagnoses.diagnose wiring.diagnosis r.window r.objective r.diagnosis_id
              r.repository_root 1200 rows)
        moved ←
            step cycle CycleState.diagnosed ":diagnosis"
              (record no_evidence { diagnosis_id = some diagnosis.id })
        pure (moved, diagnosis))
      else (do diagnosis ← require_diagnosis cycle; pure (cycle, diagnosis))

  unfoldable pub refuse :
      DevelopmentCycle → Diagnosis fl → Action (IterationStore fl S W) (IterationOutcome fl)
  refuse cycle diagnosis =
      if cycle.state == CycleState.diagnosed
      then (do
        blocked ← step cycle CycleState.blocked ":low-confidence" no_evidence
        pure (insufficient blocked diagnosis))
      else pure (insufficient cycle diagnosis)

  unfoldable pub proposed :
      DevelopmentCycle
      → Diagnosis fl
      → Action (IterationStore fl S W) (DevelopmentCycle × ChangeProposal)
  unfolding require_proposal
  proposed cycle diagnosis =
      if cycle.state == CycleState.diagnosed
      then (do
        proposal ← on_proposals (
            Proposals.from_diagnosis diagnosis r.objective r.baseline r.proposal_id
              r.mandatory_gates)
        moved ←
            step cycle CycleState.change_proposed ":proposal"
              (record no_evidence { change_proposal_id = some proposal.id })
        pure (moved, proposal))
      else (do proposal ← require_proposal cycle; pure (cycle, proposal))

  unfoldable pub propose :
      DevelopmentCycle → Diagnosis fl → Action (IterationStore fl S W) (IterationOutcome fl)
  unfolding proposed
  propose cycle diagnosis = do
    result ← proposed cycle diagnosis
    lift (raise_if (result.0.state != CycleState.change_proposed) runtime_error)
    pure (prepared result.0 diagnosis result.1)

  -- The decision on the confidence of the diagnosis.
  unfoldable pub judge :
      DevelopmentCycle × Diagnosis fl → Action (IterationStore fl S W) (IterationOutcome fl)
  unfolding refuse propose
  judge (cycle, diagnosis) =
      if fl.lt diagnosis.confidence r.minimum_diagnosis_confidence
      then refuse cycle diagnosis
      else propose cycle diagnosis

  -- The cycle that has no proposal yet.
  unfoldable pub advance :
      List UserFeedback → DevelopmentCycle → Action (IterationStore fl S W) (IterationOutcome fl)
  unfolding verify_baseline bind_evidence diagnosed judge
  advance rows cycle = do
    verified ← verify_baseline cycle
    ready ← bind_evidence verified
    judged ← diagnosed rows ready
    judge judged

  unfoldable pub continue_cycle :
      List UserFeedback → DevelopmentCycle → Action (IterationStore fl S W) (IterationOutcome fl)
  unfolding load_prepared load_blocked advance
  continue_cycle rows cycle =
      if is_some cycle.change_proposal_id
      then load_prepared cycle
      else if cycle.state == CycleState.blocked && is_some cycle.diagnosis_id
      then load_blocked cycle
      else advance rows cycle

  -- The run of a request that is valid.
  unfoldable pub run_request :
      List UserFeedback → Action (IterationStore fl S W) (IterationOutcome fl)
  unfolding open_cycle continue_cycle
  run_request rows = do
    cycle ← on_cycles open_cycle
    lift (validate_cycle_identity r cycle)
    continue_cycle rows cycle

  unfoldable pub prepare_from_evidence :
      List UserFeedback → Action (IterationStore fl S W) (IterationOutcome fl)
  unfolding run_request
  prepare_from_evidence rows = do
    lift (validate_context r)
    lift (
        raise_if
          (not (
            fl.le fl.zero_float r.minimum_diagnosis_confidence
            && fl.le r.minimum_diagnosis_confidence fl.one_float))
          value_error)
    run_request rows

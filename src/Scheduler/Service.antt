-- ===== src/Scheduler/Service.antt =====
-- `prepare_next` of application/iteration_scheduler.py. The digest of the identities, the contract
-- of the target and the resolution of its path are parameters.
use autonomous_development.Prelude.{
  ℕ, String, List, Option, none, some, Bool, false, ◌!=◌, string_eq, if◌then◌else◌, Eq,
}
use autonomous_development.Prelude.Raise.{ok}
use autonomous_development.Prelude.Action.{Action, ◌>>=◌, pure, lift}
use autonomous_development.Domain.Canary.Floats.{Floats}
use autonomous_development.Domain.Models.{
  DevelopmentCycle, ReleasedVersion, EvidenceWindow, UserFeedback,
}
use autonomous_development.Catalog.Service as Catalog
use autonomous_development.Windows.Service.{close}
use autonomous_development.Iteration.Service.{
  IterationOutcome, prepared, insufficient, IterationStore, prepare_from_evidence,
}
use autonomous_development.Scheduler.Triggers.{
  FeedbackTriggerReceipt, record_trigger, select_feedback,
}
use autonomous_development.Scheduler.Reads.{SchedulerWiring, iteration_request, candidates}
use autonomous_development.Scheduler.Policy.{
  FeedbackIterationResult, IterationIdentities, identities, window_request,
}

pub record SchedulerStore (fl : Floats) (S W : Type 0) : Type 0 where
  pub iteration : IterationStore fl S W
  pub windows : List EvidenceWindow
  pub triggers : List FeedbackTriggerReceipt

module _ {fl : Floats} {S W : Type 0} where
  abbrev pub on_iteration :
      {A : Type 0} → Action (IterationStore fl S W) A → Action (SchedulerStore fl S W) A
  on_iteration m s = let (r, t) = m s.iteration in (r, record s { iteration = t })

  abbrev pub on_windows :
      {A : Type 0} → Action (List EvidenceWindow) A → Action (SchedulerStore fl S W) A
  on_windows m s = let (r, t) = m s.windows in (r, record s { windows = t })

  abbrev pub on_triggers :
      {A : Type 0} → Action (List FeedbackTriggerReceipt) A → Action (SchedulerStore fl S W) A
  on_triggers m s = let (r, t) = m s.triggers in (r, record s { triggers = t })

abbrev pub idle :
    (target_id : String) (feedback_id cycle_id : Option String) → FeedbackIterationResult
idle target_id feedback_id cycle_id = record {
  status = "idle";
  target_id = target_id;
  feedback_id = feedback_id;
  cycle_id = cycle_id;
  proposal_id = none;
}

abbrev pub active_id : Option DevelopmentCycle → Option String
active_id none = none
active_id (some cycle) = some cycle.id

-- `active is not None and active.id != cycle_id`
abbrev pub is_busy : Option DevelopmentCycle → (cycle_id : String) → Bool
is_busy none cycle_id = false
is_busy (some active) cycle_id = active.id != cycle_id

-- The receipt of an outcome of the iteration.
unfoldable pub receipt_of :
    {fl : Floats}
    → (target_id : String) → ReleasedVersion
    → UserFeedback
    → EvidenceWindow
    → IterationOutcome fl
    → FeedbackTriggerReceipt
receipt_of target_id serving feedback window (prepared cycle diagnosis proposal) = record {
  feedback_id = feedback.id;
  target_id = target_id;
  release_id = serving.id;
  evidence_window_id = window.id;
  cycle_id = cycle.id;
  proposal_id = some proposal.id;
  outcome = "prepared";
}
receipt_of target_id serving feedback window (insufficient cycle diagnosis) = record {
  feedback_id = feedback.id;
  target_id = target_id;
  release_id = serving.id;
  evidence_window_id = window.id;
  cycle_id = cycle.id;
  proposal_id = none;
  outcome = "blocked-low-confidence";
}

unfoldable pub result_of : (target_id : String) → FeedbackTriggerReceipt → FeedbackIterationResult
result_of target_id receipt = record {
  status = receipt.outcome;
  target_id = target_id;
  feedback_id = some receipt.feedback_id;
  cycle_id = some receipt.cycle_id;
  proposal_id = receipt.proposal_id;
}

module _ {fl : Floats} ⦃float_eq : Eq fl.Float⦄ {S W : Type 0} (wiring : SchedulerWiring fl S W)
    (target_id : String) where
  -- The window and the iteration for a selected feedback.
  unfoldable pub iterate :
      IterationIdentities
      → ReleasedVersion
      → UserFeedback
      → Action (SchedulerStore fl S W) (EvidenceWindow × IterationOutcome fl)
  unfolding iteration_request window_request
  iterate ids serving feedback = do
    request ← lift (window_request wiring.policy ids target_id serving feedback)
    window ← on_windows (close request wiring.sources)
    asked ← lift (iteration_request wiring target_id ids serving window)
    outcome ←
        on_iteration (λ t. prepare_from_evidence wiring.iteration asked wiring.sources.feedback t)
    pure (window, outcome)

  unfoldable pub trigger :
      ReleasedVersion → UserFeedback → Action (SchedulerStore fl S W) FeedbackIterationResult
  unfolding iterate receipt_of result_of identities
  trigger serving feedback = do
    iterated ←
        iterate (identities (wiring.digest_of target_id serving.id feedback.id)) serving feedback
    receipt ←
        on_triggers (record_trigger (receipt_of target_id serving feedback iterated.0 iterated.1))
    pure (result_of target_id receipt)

  unfoldable pub schedule_selected :
      Option DevelopmentCycle
      → ReleasedVersion
      → Option UserFeedback
      → Action (SchedulerStore fl S W) FeedbackIterationResult
  unfolding trigger identities
  schedule_selected active serving none = pure (idle target_id none (active_id active))
  schedule_selected active serving (some feedback) =
      if is_busy active (identities (wiring.digest_of target_id serving.id feedback.id)).cycle_id
      then pure (idle target_id (some feedback.id) (active_id active))
      else trigger serving feedback

  unfoldable pub schedule_serving :
      (scheduled_time : ℕ)
      → Option DevelopmentCycle
      → Option ReleasedVersion
      → Action (SchedulerStore fl S W) FeedbackIterationResult
  unfolding candidates schedule_selected
  schedule_serving scheduled_time active none = pure (idle target_id none none)
  schedule_serving scheduled_time active (some serving) = do
    found ← lift (candidates wiring target_id scheduled_time serving)
    selected ← (λ s. (ok (select_feedback wiring.policy.minimum_severity s.triggers found), s))
    schedule_selected active serving selected

  unfoldable pub prepare_next :
      (scheduled_time : ℕ) → Action (SchedulerStore fl S W) FeedbackIterationResult
  unfolding schedule_serving
  prepare_next scheduled_time = do
    active ←
        (λ s. (wiring.iteration.repository.find_active_for_target target_id s.iteration.cycles, s))
    serving ← lift (Catalog.serving target_id wiring.sources.catalog).0
    schedule_serving scheduled_time active serving

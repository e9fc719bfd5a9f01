-- ===== src/Scheduler/Once.antt =====
-- What `prepare_next` of application/iteration_scheduler.py has done when it returns.
use autonomous_development.Prelude.{
  ℕ, ◌+◌, ◌-◌, ◌≤◌, String, List, Option, none, some, true, elem, ◌==◌, string_eq, option_eq, Eq,
  ◌≡◌, ◌⊎◌, refl, sym, ap, subst, ◌∙◌, arith, inl, inr, Bool-cases,
}
use autonomous_development.Prelude.Raise.{ok, Result-cases}
use autonomous_development.Domain.Canary.Floats.{Floats}
use autonomous_development.Domain.Models.{
  DevelopmentCycle, ReleasedVersion, EvidenceWindow, UserFeedback,
}
use autonomous_development.Catalog.Service as Catalog
use autonomous_development.Catalog.Sql.{get_serving}
use autonomous_development.Feedback.Sql.{feedback_eq}
use autonomous_development.Feedback.Listed.{listed-stored}
use autonomous_development.Iteration.Service.{IterationOutcome, prepared, insufficient}
use autonomous_development.Scheduler.Triggers.{
  FeedbackTriggerReceipt, get_trigger, record_trigger, select_feedback, record_trigger-get,
  select_feedback_lem,
}
use autonomous_development.Scheduler.Policy.{
  FeedbackIterationResult, IterationIdentities, identities, minus_seconds,
}
use autonomous_development.Scheduler.Reads.{SchedulerWiring, candidates}
use autonomous_development.Scheduler.Service.{
  SchedulerStore, is_busy, receipt_of, result_of, iterate, trigger, schedule_selected,
  schedule_serving, prepare_next,
}

receipt_of-feedback :
    {fl : Floats} (target_id : String) (v : ReleasedVersion) (f : UserFeedback) (w : EvidenceWindow)
    (o : IterationOutcome fl)
    → (receipt_of target_id v f w o).feedback_id ≡ f.id
unfolding receipt_of
receipt_of-feedback target_id v f w (prepared c d p) = refl
receipt_of-feedback target_id v f w (insufficient c d) = refl

receipt_of-release :
    {fl : Floats} (target_id : String) (v : ReleasedVersion) (f : UserFeedback) (w : EvidenceWindow)
    (o : IterationOutcome fl)
    → (receipt_of target_id v f w o).release_id ≡ v.id
unfolding receipt_of
receipt_of-release target_id v f w (prepared c d p) = refl
receipt_of-release target_id v f w (insufficient c d) = refl

result_of-own :
    (target_id : String) (t : FeedbackTriggerReceipt)
    → ((result_of target_id t).status ≡ t.outcome)
      × ((result_of target_id t).feedback_id ≡ some t.feedback_id)
      × ((result_of target_id t).cycle_id ≡ some t.cycle_id)
      × ((result_of target_id t).proposal_id ≡ t.proposal_id)
unfolding result_of
result_of-own target_id t = (refl, refl, refl, refl)

module _ {fl : Floats} ⦃float_eq : Eq fl.Float⦄ {S W : Type 0} (wiring : SchedulerWiring fl S W)
    (target_id : String) where
  -- A stored feedback of the target, attributed to the release that serves it, severe enough and old
  -- enough.
  pub record IsEligible (time : ℕ) (serving : ReleasedVersion) (f : UserFeedback) : Type 0 where
    pub serves : get_serving target_id wiring.sources.catalog ≡ ok (some serving)
    pub stored : elem f wiring.sources.feedback ≡ true
    pub own_target : f.target_id ≡ target_id
    pub attributed :
        (f.release_id ≡ some serving.id) ⊎ (f.deployment_id ≡ some serving.deployment_id)
    pub severe : wiring.policy.minimum_severity ≤ f.severity
    pub waited : f.received_at + wiring.policy.diagnosis_delay_seconds ≤ time

  -- An eligible feedback that had triggered nothing has triggered the iteration that is reported.
  pub record IsTriggered (time : ℕ) (s s' : SchedulerStore fl S W)
      (result : FeedbackIterationResult) : Type 0 where
    pub serving : ReleasedVersion
    pub feedback : UserFeedback
    pub receipt : FeedbackTriggerReceipt
    pub eligible : IsEligible time serving feedback
    pub fresh : get_trigger feedback.id s.triggers ≡ none
    pub recorded : get_trigger feedback.id s'.triggers ≡ some receipt
    pub of_release : receipt.release_id ≡ serving.id
    pub reported_feedback : result.feedback_id ≡ some feedback.id
    pub reported_outcome : result.status ≡ receipt.outcome
    pub reported_cycle : result.cycle_id ≡ some receipt.cycle_id
    pub reported_proposal : result.proposal_id ≡ receipt.proposal_id

  -- Nothing was triggered.
  abbrev pub IsIdle : (s s' : SchedulerStore fl S W) → FeedbackIterationResult → Type 0
  IsIdle s s' result = (result.status ≡ "idle") × (s' ≡ s)

  iterate-triggers :
      (ids : IterationIdentities) (v : ReleasedVersion) (f : UserFeedback)
      (s : SchedulerStore fl S W)
      → (iterate wiring target_id ids v f s).1.triggers ≡ s.triggers
  unfolding iterate
  iterate-triggers ids v f s = ground arith

  trigger-IsTriggered :
      (time : ℕ) (v : ReleasedVersion) (f : UserFeedback) (s s' : SchedulerStore fl S W)
      (result : FeedbackIterationResult)
      → IsEligible time v f
      → get_trigger f.id s.triggers ≡ none
      → trigger wiring target_id v f s ≡ (ok result, s')
      → IsTriggered time s s' result
  unfolding trigger
  trigger-IsTriggered time v f s s' result eligible fresh h =
      let ids = identities (wiring.digest_of target_id v.id f.id) in
      let iterated = iterate wiring target_id ids v f s in
      elim (Result-cases iterated.0) [
        | inr (e, bad) ↦ absurd (ground arith)
        | inl ((w, o), done) ↦
            let t = receipt_of target_id v f w o in
            let named = receipt_of-feedback target_id v f w o in
            let same = iterate-triggers ids v f s in
            let put = record_trigger t iterated.1.triggers in
            elim (Result-cases put.0) [
              | inr (e, bad) ↦ absurd (ground arith)
              | inl (u, stored) ↦
                  let free : get_trigger t.feedback_id iterated.1.triggers ≡ none =
                    ap (λ i. get_trigger i iterated.1.triggers) named
                    ∙ ap (get_trigger f.id) same
                    ∙ fresh in
                  let (own, back) =
                    record_trigger-get t u iterated.1.triggers put.1 free (ground arith) in
                  let last : put.1 ≡ s'.triggers = ground arith in
                  let back' = subst (λ i. get_trigger i put.1 ≡ some t) named back in
                  let told : result_of target_id u ≡ result = ground arith in
                  let all : result ≡ result_of target_id t =
                    sym told ∙ ap (result_of target_id) own in
                  let (status, feedback, cycle, proposal) = result_of-own target_id t in
                  record {
                    serving = v;
                    feedback = f;
                    receipt = t;
                    eligible = eligible;
                    fresh = fresh;
                    recorded = subst (λ rows. get_trigger f.id rows ≡ some t) last back';
                    of_release = receipt_of-release target_id v f w o;
                    reported_feedback =
                        ap (λ (z : FeedbackIterationResult). z.feedback_id) all
                        ∙ feedback
                        ∙ ap some named;
                    reported_outcome = ap (λ (z : FeedbackIterationResult). z.status) all ∙ status;
                    reported_cycle = ap (λ (z : FeedbackIterationResult). z.cycle_id) all ∙ cycle;
                    reported_proposal =
                        ap (λ (z : FeedbackIterationResult). z.proposal_id) all ∙ proposal;
                  }
            ]
      ]

  candidates-IsEligible :
      (time : ℕ) (v : ReleasedVersion) (found : List UserFeedback) (f : UserFeedback)
      → get_serving target_id wiring.sources.catalog ≡ ok (some v)
      → candidates wiring target_id time v ≡ ok found
      → elem f found ≡ true
      → wiring.policy.minimum_severity ≤ f.severity
      → IsEligible time v f
  unfolding candidates minus_seconds
  candidates-IsEligible time v found f serves h there severe =
      let delay = wiring.policy.diagnosis_delay_seconds in
      let late : delay ≤ time = ground arith in
      let (stored, inside) =
        listed-stored target_id v.id v.deployment_id 0 (time - delay) wiring.sources.feedback found
          f (ground arith) there in
      let t = string_eq.beq_iff f.target_id target_id in
      let r = (option_eq {A = String}).beq_iff f.release_id (some v.id) in
      let d = (option_eq {A = String}).beq_iff f.deployment_id (some v.deployment_id) in
      record {
        serves = serves;
        stored = stored;
        own_target = ground arith;
        attributed = elim (Bool-cases (f.release_id == some v.id)) [
          | inl own ↦ inl (r.0 own)
          | inr other ↦ inr (ground arith)
        ];
        severe = severe;
        waited = ground arith;
      }

  schedule_selected-cases :
      (time : ℕ) (active : Option DevelopmentCycle) (v : ReleasedVersion) (o : Option UserFeedback)
      (found : List UserFeedback) (s s' : SchedulerStore fl S W) (result : FeedbackIterationResult)
      → get_serving target_id wiring.sources.catalog ≡ ok (some v)
      → candidates wiring target_id time v ≡ ok found
      → select_feedback wiring.policy.minimum_severity s.triggers found ≡ o
      → schedule_selected wiring target_id active v o s ≡ (ok result, s')
      → IsIdle s s' result ⊎ IsTriggered time s s' result
  unfolding schedule_selected
  schedule_selected-cases time active v none found s s' result serves read chosen h =
      inl (ground arith, ground arith)
  schedule_selected-cases time active v (some f) found s s' result serves read chosen h =
      let (there, severe, fresh) =
        select_feedback_lem wiring.policy.minimum_severity s.triggers found f chosen in
      let ids = identities (wiring.digest_of target_id v.id f.id) in
      elim (Bool-cases (is_busy active ids.cycle_id)) [
        | inl busy ↦ inl (ground arith, ground arith)
        | inr free ↦ inr (
            trigger-IsTriggered time v f s s' result
              (candidates-IsEligible time v found f serves read there severe) fresh (ground arith))
      ]

  schedule_serving-cases :
      (time : ℕ) (active : Option DevelopmentCycle) (serving : Option ReleasedVersion)
      (s s' : SchedulerStore fl S W) (result : FeedbackIterationResult)
      → get_serving target_id wiring.sources.catalog ≡ ok serving
      → schedule_serving wiring target_id time active serving s ≡ (ok result, s')
      → IsIdle s s' result ⊎ IsTriggered time s s' result
  unfolding schedule_serving
  schedule_serving-cases time active none s s' result serves h = inl (ground arith, ground arith)
  schedule_serving-cases time active (some v) s s' result serves h =
      elim (Result-cases (candidates wiring target_id time v)) [
        | inr (e, bad) ↦ absurd (ground arith)
        | inl (found, read) ↦
            schedule_selected-cases time active v
              (select_feedback wiring.policy.minimum_severity s.triggers found) found s s' result
              serves read refl (ground arith)
      ]

  -- The scheduler triggers at most one iteration for a feedback: when `prepare_next` returns, it was
  -- idle and changed nothing, or it reports a stored feedback of the target that is attributed to the
  -- serving release, is at least as severe as the policy demands and has waited for the delay; that
  -- feedback had no trigger receipt before, and has now the one whose outcome, cycle and proposal are
  -- reported.
  pub prepare_next-once :
      (time : ℕ) (s s' : SchedulerStore fl S W) (result : FeedbackIterationResult)
      → prepare_next wiring target_id time s ≡ (ok result, s')
      → IsIdle s s' result ⊎ IsTriggered time s s' result
  unfolding prepare_next Catalog.serving
  prepare_next-once time s s' result h =
      let read = wiring.iteration.repository.find_active_for_target target_id s.iteration.cycles in
      elim (Result-cases read) [
        | inr (e, bad) ↦ absurd (ground arith)
        | inl (active, found) ↦ elim (Result-cases (get_serving target_id wiring.sources.catalog)) [
          | inr (e, bad) ↦ absurd (ground arith)
          | inl (serving, serves) ↦
              schedule_serving-cases time active serving s s' result serves (ground arith)
        ]
      ]

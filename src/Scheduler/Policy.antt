-- ===== src/Scheduler/Policy.antt =====
-- `FeedbackIterationPolicy`, `FeedbackIterationResult` and the identities of
-- application/iteration_scheduler.py. The reason of a result is left out. Dates start at
-- `datetime.min`, which is 0: an earlier one overflows.
use autonomous_development.Prelude.{
  ℕ, ◌+◌, ◌-◌, String, [], ◌∷◌, Option, some, Bool, not, ◌&&◌, ltb, leb, concat, ◌==◌, string_eq,
  option_eq, if◌then◌else◌,
}
use autonomous_development.Prelude.Raise.{
  Result, ok, raise_if, value_error, external_error, ◌>>=◌, ◌>>◌,
}
use autonomous_development.Domain.Canary.Floats.{Floats}
use autonomous_development.Domain.Models.{ReleasedVersion, UserFeedback}
use autonomous_development.Windows.Service.{WindowRequest, later_of}

pub record FeedbackIterationPolicy (fl : Floats) : Type 0 where
  pub minimum_severity : ℕ
  pub diagnosis_delay_seconds : ℕ
  pub evidence_lookback_seconds : ℕ
  pub minimum_diagnosis_confidence : fl.Float

unfoldable pub policy_post_init :
    (fl : Floats) → FeedbackIterationPolicy fl → Result (FeedbackIterationPolicy fl)
policy_post_init fl p = do
  raise_if (not (leb p.minimum_severity 5)) value_error
  raise_if
      (not (
        fl.le fl.zero_float p.minimum_diagnosis_confidence
        && fl.le p.minimum_diagnosis_confidence fl.one_float))
      value_error
  ok p

pub record FeedbackIterationResult : Type 0 where
  pub status : String
  pub target_id : String
  pub feedback_id : Option String
  pub cycle_id : Option String
  pub proposal_id : Option String

-- `FeedbackIterationResult.prepared`
unfoldable pub is_prepared : FeedbackIterationResult → Bool
is_prepared result = result.status == "prepared"

-- `_IterationIdentities`
pub record IterationIdentities : Type 0 where
  pub window_id : String
  pub cycle_id : String
  pub diagnosis_id : String
  pub proposal_id : String
  pub operation_id : String

-- `_identities`, from the digest of the three ids.
unfoldable pub identities : (digest : String) → IterationIdentities
identities digest =
    let prefix = concat "feedback-" digest in
    record {
      window_id = concat prefix "-window";
      cycle_id = concat prefix "-cycle";
      diagnosis_id = concat prefix "-diagnosis";
      proposal_id = concat prefix "-proposal";
      operation_id = concat prefix "-prepare";
    }

-- A date less some seconds.
unfoldable pub minus_seconds : (date seconds : ℕ) → Result ℕ
minus_seconds date seconds = do raise_if (ltb date seconds) external_error; ok (date - seconds)

-- When the evidence for a feedback begins.
abbrev pub opened_from : ReleasedVersion → UserFeedback → (contextual_opened_at : ℕ) → ℕ
opened_from serving feedback contextual_opened_at =
    if feedback.release_id == some serving.id
    then later_of serving.promoted_at contextual_opened_at
    else contextual_opened_at

unfoldable pub window_request :
    {fl : Floats}
    → FeedbackIterationPolicy fl
    → IterationIdentities
    → (target_id : String) → ReleasedVersion
    → UserFeedback
    → Result WindowRequest
unfolding minus_seconds
window_request policy ids target_id serving feedback = do
  contextual_opened_at ← minus_seconds feedback.received_at policy.evidence_lookback_seconds
  ok (record {
    window_id = ids.window_id;
    target_id = target_id;
    opened_at = opened_from serving feedback contextual_opened_at;
    closed_at = feedback.received_at + policy.diagnosis_delay_seconds;
    feedback_ids = some (feedback.id ∷ []);
  })

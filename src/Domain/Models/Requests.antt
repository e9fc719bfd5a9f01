-- ===== src/Domain/Models/Requests.antt =====
-- `DevelopmentRequest`, `RequirementAnalysis`, `HumanIntervention` and `OperatorEvent` of
-- domain/models.py. A payload is its items in the order in which they were set.
use autonomous_development.Prelude.{
  ℕ, String, List, [], ◌∷◌, Option, none, some, Bool, true, not, ◌&&◌, ◌||◌, is_empty, codes,
  length, ltb, ◌==◌, ◌!=◌, string_eq, nat_eq,
}
use autonomous_development.Prelude.Raise.{Result, ok, raise_if, value_error, ◌>>◌}
use autonomous_development.Domain.Enums.{
  DevelopmentRequestStatus, HumanInterventionStatus, intervention_status_eq,
}
use autonomous_development.Domain.Models.Fields.{required_all}

pub record DevelopmentRequest : Type 0 where
  pub id : String
  pub target_id : String
  pub source : String
  pub external_reference_digest : String
  pub title : String
  pub normalized_requirement_text : String
  pub content_sha256 : String
  pub created_at : ℕ
  pub status : DevelopmentRequestStatus
  pub cycle_id : Option String
  pub pending_intervention_id : Option String
  pub workflow_attempt : ℕ
  pub active_workflow_id : Option String

unfoldable pub request_post_init : DevelopmentRequest → Result DevelopmentRequest
unfolding required_all
request_post_init r = do
  required_all (
      r.id ∷ r.target_id ∷ r.source ∷ r.external_reference_digest ∷ r.title
      ∷ r.normalized_requirement_text ∷ r.content_sha256 ∷ [])
  raise_if (ltb 512 (length (codes r.title))) value_error
  raise_if (ltb 100000 (length (codes r.normalized_requirement_text))) value_error
  raise_if (length (codes r.content_sha256) != 64) value_error
  ok r

pub record RequirementAnalysis : Type 0 where
  pub id : String
  pub request_id : String
  pub summary : String
  pub acceptance_criteria : List String
  pub requested_paths : List String
  pub expected_behavior : List String
  pub risks : List String
  pub missing_information : List String
  pub ambiguity : List String
  pub validation_expectations : List String
  pub created_at : ℕ

unfoldable pub analysis_post_init : RequirementAnalysis → Result RequirementAnalysis
unfolding required_all
analysis_post_init a = do
  required_all (a.id ∷ a.request_id ∷ a.summary ∷ [])
  raise_if (is_empty a.acceptance_criteria) value_error
  ok a

-- `RequirementAnalysis.actionable`
unfoldable pub actionable : RequirementAnalysis → Bool
actionable a =
    not (is_empty a.requested_paths) && (is_empty a.missing_information && is_empty a.ambiguity)

pub record HumanIntervention : Type 0 where
  pub id : String
  pub request_id : String
  pub cycle_id : Option String
  pub kind : String
  pub question : String
  pub choices : List String
  pub status : HumanInterventionStatus
  pub created_at : ℕ
  pub response : Option String
  pub responded_at : Option ℕ

-- `not self.response`
abbrev pub lacks_response : Option String → Bool
lacks_response none = true
lacks_response (some response) = response == ""

-- `status in {RESPONDED, CLOSED}`
abbrev pub is_answered : HumanInterventionStatus → Bool
is_answered status =
    status == HumanInterventionStatus.responded || status == HumanInterventionStatus.closed

unfoldable pub intervention_post_init : HumanIntervention → Result HumanIntervention
unfolding required_all
intervention_post_init i = do
  required_all (i.id ∷ i.request_id ∷ i.kind ∷ i.question ∷ [])
  raise_if (is_answered i.status && lacks_response i.response) value_error
  ok i

-- The values that the code puts into a payload.
pub data PayloadValue : Type 0 where
  null : PayloadValue
  text : String → PayloadValue
  texts : List String → PayloadValue
  count : ℕ → PayloadValue

abbrev pub Payload : Type 0
Payload = List (String × PayloadValue)

pub record OperatorEvent : Type 0 where
  pub id : String
  pub request_id : Option String
  pub cycle_id : Option String
  pub event_type : String
  pub sequence : Option ℕ
  pub payload : Payload
  pub created_at : ℕ
  pub acknowledged_at : Option ℕ

unfoldable pub event_post_init : OperatorEvent → Result OperatorEvent
unfolding required_all
event_post_init e = do required_all (e.id ∷ e.event_type ∷ []); ok e

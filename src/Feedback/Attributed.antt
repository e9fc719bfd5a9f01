-- ===== src/Feedback/Attributed.antt =====
-- What `ingest` of application/feedback.py attributes a feedback to.
use autonomous_development.Prelude.{String, List, Option, none, some, false, ◌≡◌, ◌⊎◌}
use autonomous_development.Prelude.Raise.{ok}
use autonomous_development.Domain.Models.{ReleasedVersion, RequestAttribution}
use autonomous_development.Traffic.Ports.{TrafficRouteSnapshot}
use autonomous_development.Catalog.Sql.{get_serving}
use autonomous_development.Catalog.Service as Catalog
use autonomous_development.Feedback.Sql.{feedback_eq, get_attribution}
use autonomous_development.Feedback.Service.{
  FeedbackSubmission, FeedbackSources, has_candidate, current_route,
}

-- The attribution that the proxy recorded for the request.
pub record IsByRequest (submission : FeedbackSubmission) (sources : FeedbackSources)
    (release_id experiment_id : Option String) : Type 0 where
  pub request_ref : String
  pub rows : List RequestAttribution
  pub recorded : RequestAttribution
  pub named : submission.request_ref ≡ some request_ref
  pub known : sources.attributions ≡ some rows
  pub found : get_attribution request_ref rows ≡ ok (some recorded)
  pub own : recorded.target_id ≡ submission.target_id
  pub release : release_id ≡ recorded.release_id
  pub experiment : experiment_id ≡ some recorded.experiment_id

-- The release that serves the target, while no candidate has traffic; no request was named, or
-- the service has no record of requests.
pub record IsByServing (submission : FeedbackSubmission) (sources : FeedbackSources)
    (release_id deployment_id experiment_id : Option String) : Type 0 where
  pub no_request : (submission.request_ref ≡ none) ⊎ (sources.attributions ≡ none)
  pub serving : ReleasedVersion
  pub route : Option TrafficRouteSnapshot
  pub serves : get_serving submission.target_id sources.catalog ≡ ok (some serving)
  pub current : current_route sources.routes ≡ ok route
  pub alone : has_candidate submission serving route ≡ false
  pub release : release_id ≡ some serving.id
  pub deployment : deployment_id ≡ some serving.deployment_id
  pub experiment : experiment_id ≡ none

abbrev pub IsAttributed :
    FeedbackSubmission
    → FeedbackSources
    → (release_id deployment_id experiment_id : Option String) → Type 0
IsAttributed submission sources release_id deployment_id experiment_id =
    IsByRequest submission sources release_id experiment_id
    ⊎ IsByServing submission sources release_id deployment_id experiment_id

-- A claim of the reporter that was accepted.
abbrev pub Agrees : (reported attributed : Option String) → Type 0
Agrees none attributed = Unit
Agrees (some reported) attributed = attributed ≡ some reported

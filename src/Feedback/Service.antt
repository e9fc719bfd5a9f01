-- ===== src/Feedback/Service.antt =====
-- `FeedbackService` of application/feedback.py, with its repository of attributions and its reader
-- of routes, which are optional. `FeedbackAttributionError` is a `ValueError`.
use autonomous_development.Prelude.{
  ℕ, String, List, Option, none, some, Bool, false, ◌&&◌, ltb, ◌==◌, ◌!=◌, string_eq, option_eq,
  if◌then◌else◌,
}
use autonomous_development.Prelude.Raise.{
  Result, ok, err, raise_if, require, value_error, ◌>>=◌, ◌>>◌,
}
use autonomous_development.Domain.Enums.{FeedbackKind}
use autonomous_development.Domain.Models.{
  ReleasedVersion, UserFeedback, feedback_post_init, RequestAttribution,
}
use autonomous_development.Traffic.Ports.{TrafficRouteSnapshot}
use autonomous_development.Catalog.Sql.{CatalogDb}
use autonomous_development.Catalog.Service as Catalog
use autonomous_development.Feedback.Sql.{get_attribution, get_feedback, add_feedback}

pub record FeedbackSubmission : Type 0 where
  pub id : String
  pub target_id : String
  pub received_at : ℕ
  pub kind : FeedbackKind
  pub category : String
  pub severity : ℕ
  pub provenance : String
  pub request_ref : Option String
  pub free_text : Option String
  pub reported_release_id : Option String
  pub reported_deployment_id : Option String

-- What the service reads. Attributions and the current route are `none` where the service was
-- built without their reader.
pub record FeedbackSources : Type 0 where
  pub catalog : CatalogDb
  pub attributions : Option (List RequestAttribution)
  pub routes : Option (Result (Option TrafficRouteSnapshot))

-- The release, the deployment and the experiment of a feedback.
pub record Attribution : Type 0 where
  pub release_id : Option String
  pub deployment_id : Option String
  pub experiment_id : Option String

-- `deployment_id or release.deployment_id`
unfoldable pub or_released : Option String → ReleasedVersion → Option String
or_released none release = some release.deployment_id
or_released (some deployment_id) release =
    if deployment_id == "" then some release.deployment_id else some deployment_id

-- The deployment that goes with an attributed release.
unfoldable pub released_deployment :
    FeedbackSubmission
    → Option String
    → (deployment_id : Option String) → CatalogDb
    → Result (Option String)
unfolding or_released
released_deployment submission none deployment_id catalog = ok deployment_id
released_deployment submission (some release_id) deployment_id catalog = do
  release ← (Catalog.get release_id catalog).0
  raise_if (release.target_id != submission.target_id) value_error
  ok (or_released deployment_id release)

unfoldable pub by_request :
    FeedbackSubmission → Option RequestAttribution → CatalogDb → Result Attribution
unfolding released_deployment
by_request submission none catalog = err value_error
by_request submission (some attribution) catalog = do
  raise_if (attribution.target_id != submission.target_id) value_error
  deployment_id ←
      released_deployment submission attribution.release_id attribution.deployment_id catalog
  ok (record {
    release_id = attribution.release_id;
    deployment_id = deployment_id;
    experiment_id = some attribution.experiment_id;
  })

-- Whether the route sends the target's traffic to a candidate that is not the serving release.
unfoldable pub is_other_candidate : Option String → ReleasedVersion → Bool
is_other_candidate none serving = false
is_other_candidate (some deployment_id) serving = deployment_id != serving.deployment_id

unfoldable pub has_candidate :
    FeedbackSubmission → ReleasedVersion → Option TrafficRouteSnapshot → Bool
unfolding is_other_candidate
has_candidate submission serving none = false
has_candidate submission serving (some route) =
    route.target_id == some submission.target_id
    && (ltb 0 route.candidate_weight_percent
        && is_other_candidate route.candidate_deployment_id serving)

unfoldable pub current_route :
    Option (Result (Option TrafficRouteSnapshot)) → Result (Option TrafficRouteSnapshot)
current_route none = ok none
current_route (some read) = read

unfoldable pub by_serving : FeedbackSubmission → FeedbackSources → Result Attribution
unfolding has_candidate current_route
by_serving submission sources = do
  found ← (Catalog.serving submission.target_id sources.catalog).0
  serving ← require found value_error
  route ← current_route sources.routes
  raise_if (has_candidate submission serving route) value_error
  ok (record {
    release_id = some serving.id;
    deployment_id = some serving.deployment_id;
    experiment_id = none;
  })

-- The attribution on the server's side.
unfoldable pub attribute_from :
    FeedbackSubmission
    → Option (List RequestAttribution)
    → (request_ref : Option String) → FeedbackSources
    → Result Attribution
unfolding by_request by_serving
attribute_from submission (some rows) (some request_ref) sources = do
  attribution ← get_attribution request_ref rows
  by_request submission attribution sources.catalog
attribute_from submission _ _ sources = by_serving submission sources

unfoldable pub attribute : FeedbackSubmission → FeedbackSources → Result Attribution
unfolding attribute_from
attribute submission sources =
    attribute_from submission sources.attributions submission.request_ref sources

-- `reported is not None and reported != attributed`
unfoldable pub mismatches : (reported attributed : Option String) → Bool
mismatches none attributed = false
mismatches (some reported) attributed = some reported != attributed

unfoldable pub feedback_of : FeedbackSubmission → Attribution → UserFeedback
feedback_of submission attribution = record {
  id = submission.id;
  target_id = submission.target_id;
  received_at = submission.received_at;
  kind = submission.kind;
  category = submission.category;
  severity = submission.severity;
  provenance = submission.provenance;
  release_id = attribution.release_id;
  deployment_id = attribution.deployment_id;
  experiment_id = attribution.experiment_id;
  request_ref = submission.request_ref;
  free_text = submission.free_text;
}

-- `ingest` up to the call of the repository.
unfoldable pub checked_feedback : FeedbackSubmission → FeedbackSources → Result UserFeedback
unfolding attribute mismatches feedback_of
checked_feedback submission sources = do
  attribution ← attribute submission sources
  raise_if (mismatches submission.reported_release_id attribution.release_id) value_error
  raise_if (mismatches submission.reported_deployment_id attribution.deployment_id) value_error
  feedback_post_init (feedback_of submission attribution)

unfoldable pub store_feedback :
    Result UserFeedback → List UserFeedback → Result UserFeedback × List UserFeedback
store_feedback (ok feedback) rows = add_feedback feedback rows
store_feedback (err raised) rows = (err raised, rows)

unfoldable pub ingest :
    FeedbackSubmission
    → FeedbackSources
    → List UserFeedback
    → Result UserFeedback × List UserFeedback
unfolding checked_feedback store_feedback
ingest submission sources rows = store_feedback (checked_feedback submission sources) rows

unfoldable pub get : (feedback_id : String) → List UserFeedback → Result (Option UserFeedback)
get feedback_id rows = get_feedback feedback_id rows

-- ===== src/Tests/Feedback.antt =====
-- A feedback on a request that the proxy has recorded.
use autonomous_development.Prelude.{List, ◌∷◌, [], some, none}
use autonomous_development.Domain.Enums.{FeedbackKind}
use autonomous_development.Domain.Models.{UserFeedback, RequestAttribution}
use autonomous_development.Feedback.Service.{FeedbackSubmission, FeedbackSources}
use autonomous_development.Tests.Catalogue.{catalog}

abbrev recorded : RequestAttribution
recorded = record {
  request_ref = "q";
  target_id = "t";
  observed_at = 3;
  arm = "control";
  experiment_id = "e";
  release_id = some "r0";
  deployment_id = none;
}

abbrev sources : FeedbackSources
sources = record { catalog = catalog; attributions = some (recorded ∷ []); routes = none }

abbrev submission : FeedbackSubmission
submission = record {
  id = "f";
  target_id = "t";
  received_at = 4;
  kind = FeedbackKind.explicit;
  category = "latency";
  severity = 2;
  provenance = "user";
  request_ref = some "q";
  free_text = none;
  reported_release_id = some "r0";
  reported_deployment_id = none;
}

abbrev pub attributed : UserFeedback
attributed = record {
  id = "f";
  target_id = "t";
  received_at = 4;
  kind = FeedbackKind.explicit;
  category = "latency";
  severity = 2;
  provenance = "user";
  release_id = some "r0";
  deployment_id = some "d0";
  experiment_id = some "e";
  request_ref = some "q";
  free_text = none;
}

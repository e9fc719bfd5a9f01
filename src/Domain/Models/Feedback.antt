-- ===== src/Domain/Models/Feedback.antt =====
-- `UserFeedback` and `RequestAttribution` of domain/models.py.
use autonomous_development.Prelude.{
  ℕ, String, [], ◌∷◌, Option, none, some, Bool, false, not, ◌&&◌, ◌||◌, is_some, codes, length, ltb,
  leb, ◌==◌, string_eq,
}
use autonomous_development.Prelude.Raise.{Result, ok, raise_if, value_error, ◌>>◌}
use autonomous_development.Domain.Enums.{FeedbackKind}
use autonomous_development.Domain.Models.Fields.{required_all}

pub record UserFeedback : Type 0 where
  pub id : String
  pub target_id : String
  pub received_at : ℕ
  pub kind : FeedbackKind
  pub category : String
  pub severity : ℕ
  pub provenance : String
  pub release_id : Option String
  pub deployment_id : Option String
  pub experiment_id : Option String
  pub request_ref : Option String
  pub free_text : Option String

-- `value is not None and len(value) > limit`
abbrev overlong : ℕ → Option String → Bool
overlong limit none = false
overlong limit (some value) = ltb limit (length (codes value))

unfoldable pub feedback_post_init : UserFeedback → Result UserFeedback
unfolding required_all
feedback_post_init f = do
  required_all (f.id ∷ f.target_id ∷ f.category ∷ f.provenance ∷ [])
  raise_if (not (leb f.severity 5)) value_error
  raise_if (ltb 128 (length (codes f.category))) value_error
  raise_if (ltb 256 (length (codes f.provenance))) value_error
  raise_if (overlong 256 f.request_ref) value_error
  raise_if (overlong 4000 f.free_text) value_error
  ok f

-- `UserFeedback.attributable`
unfoldable pub attributable : UserFeedback → Bool
attributable f = is_some f.release_id || is_some f.deployment_id

pub record RequestAttribution : Type 0 where
  pub request_ref : String
  pub target_id : String
  pub observed_at : ℕ
  pub arm : String
  pub experiment_id : String
  pub release_id : Option String
  pub deployment_id : Option String

unfoldable pub attribution_post_init : RequestAttribution → Result RequestAttribution
unfolding required_all
attribution_post_init a = do
  required_all (a.request_ref ∷ a.target_id ∷ a.experiment_id ∷ [])
  raise_if (not (a.arm == "control" || a.arm == "candidate")) value_error
  raise_if (a.arm == "control" && not (is_some a.release_id)) value_error
  raise_if (a.arm == "candidate" && not (is_some a.deployment_id)) value_error
  ok a

-- ===== src/Domain/Enums/Work.antt =====
-- The enums of domain/enums.py on deployments, feedback, requests and interventions.
use autonomous_development.Prelude.{
  ℕ, String, List, [], ◌∷◌, get_elem?, or_default, Eq, tag_eq, ◌≡◌, refl,
}

pub data DeploymentState : Type 0 where
  planned starting ready serving draining stopped failed : DeploymentState

abbrev deployment_state_members : List DeploymentState
deployment_state_members =
    DeploymentState.planned ∷ DeploymentState.starting ∷ DeploymentState.ready
    ∷ DeploymentState.serving ∷ DeploymentState.draining ∷ DeploymentState.stopped
    ∷ DeploymentState.failed ∷ []

abbrev pub deployment_state_tag : DeploymentState → ℕ
deployment_state_tag DeploymentState.planned = 0
deployment_state_tag DeploymentState.starting = 1
deployment_state_tag DeploymentState.ready = 2
deployment_state_tag DeploymentState.serving = 3
deployment_state_tag DeploymentState.draining = 4
deployment_state_tag DeploymentState.stopped = 5
deployment_state_tag DeploymentState.failed = 6

abbrev deployment_state_of_tag : ℕ → DeploymentState
deployment_state_of_tag i =
    or_default DeploymentState.planned (get_elem? deployment_state_members i)

pub deployment_state_of_tag-tag :
    (a : DeploymentState) → deployment_state_of_tag (deployment_state_tag a) ≡ a
deployment_state_of_tag-tag DeploymentState.planned = refl
deployment_state_of_tag-tag _ = refl

instance abbrev pub deployment_state_eq : Eq DeploymentState
deployment_state_eq =
    tag_eq deployment_state_tag deployment_state_of_tag deployment_state_of_tag-tag

pub data FeedbackKind : Type 0 where
  explicit inferred : FeedbackKind

abbrev feedback_kind_members : List FeedbackKind
feedback_kind_members = FeedbackKind.explicit ∷ FeedbackKind.inferred ∷ []

abbrev pub feedback_kind_tag : FeedbackKind → ℕ
feedback_kind_tag FeedbackKind.explicit = 0
feedback_kind_tag FeedbackKind.inferred = 1

abbrev feedback_kind_of_tag : ℕ → FeedbackKind
feedback_kind_of_tag i = or_default FeedbackKind.explicit (get_elem? feedback_kind_members i)

pub feedback_kind_of_tag-tag : (a : FeedbackKind) → feedback_kind_of_tag (feedback_kind_tag a) ≡ a
feedback_kind_of_tag-tag FeedbackKind.explicit = refl
feedback_kind_of_tag-tag _ = refl

instance abbrev pub feedback_kind_eq : Eq FeedbackKind
feedback_kind_eq = tag_eq feedback_kind_tag feedback_kind_of_tag feedback_kind_of_tag-tag

pub data DevelopmentRequestStatus : Type 0 where
  received analyzing ready running needs_human completed rolled_back failed cancelled :
      DevelopmentRequestStatus

abbrev request_status_members : List DevelopmentRequestStatus
request_status_members =
    DevelopmentRequestStatus.received ∷ DevelopmentRequestStatus.analyzing
    ∷ DevelopmentRequestStatus.ready ∷ DevelopmentRequestStatus.running
    ∷ DevelopmentRequestStatus.needs_human ∷ DevelopmentRequestStatus.completed
    ∷ DevelopmentRequestStatus.rolled_back ∷ DevelopmentRequestStatus.failed
    ∷ DevelopmentRequestStatus.cancelled ∷ []

abbrev pub request_status_tag : DevelopmentRequestStatus → ℕ
request_status_tag DevelopmentRequestStatus.received = 0
request_status_tag DevelopmentRequestStatus.analyzing = 1
request_status_tag DevelopmentRequestStatus.ready = 2
request_status_tag DevelopmentRequestStatus.running = 3
request_status_tag DevelopmentRequestStatus.needs_human = 4
request_status_tag DevelopmentRequestStatus.completed = 5
request_status_tag DevelopmentRequestStatus.rolled_back = 6
request_status_tag DevelopmentRequestStatus.failed = 7
request_status_tag DevelopmentRequestStatus.cancelled = 8

abbrev request_status_of_tag : ℕ → DevelopmentRequestStatus
request_status_of_tag i =
    or_default DevelopmentRequestStatus.received (get_elem? request_status_members i)

pub request_status_of_tag-tag :
    (a : DevelopmentRequestStatus) → request_status_of_tag (request_status_tag a) ≡ a
request_status_of_tag-tag DevelopmentRequestStatus.received = refl
request_status_of_tag-tag _ = refl

instance abbrev pub request_status_eq : Eq DevelopmentRequestStatus
request_status_eq = tag_eq request_status_tag request_status_of_tag request_status_of_tag-tag

unfoldable pub request_status_value : DevelopmentRequestStatus → String
request_status_value DevelopmentRequestStatus.received = "received"
request_status_value DevelopmentRequestStatus.analyzing = "analyzing"
request_status_value DevelopmentRequestStatus.ready = "ready"
request_status_value DevelopmentRequestStatus.running = "running"
request_status_value DevelopmentRequestStatus.needs_human = "needs-human"
request_status_value DevelopmentRequestStatus.completed = "completed"
request_status_value DevelopmentRequestStatus.rolled_back = "rolled-back"
request_status_value DevelopmentRequestStatus.failed = "failed"
request_status_value DevelopmentRequestStatus.cancelled = "cancelled"

pub data HumanInterventionStatus : Type 0 where
  opened responded closed cancelled : HumanInterventionStatus

abbrev intervention_status_members : List HumanInterventionStatus
intervention_status_members =
    HumanInterventionStatus.opened ∷ HumanInterventionStatus.responded
    ∷ HumanInterventionStatus.closed ∷ HumanInterventionStatus.cancelled ∷ []

abbrev pub intervention_status_tag : HumanInterventionStatus → ℕ
intervention_status_tag HumanInterventionStatus.opened = 0
intervention_status_tag HumanInterventionStatus.responded = 1
intervention_status_tag HumanInterventionStatus.closed = 2
intervention_status_tag HumanInterventionStatus.cancelled = 3

abbrev intervention_status_of_tag : ℕ → HumanInterventionStatus
intervention_status_of_tag i =
    or_default HumanInterventionStatus.opened (get_elem? intervention_status_members i)

pub intervention_status_of_tag-tag :
    (a : HumanInterventionStatus) → intervention_status_of_tag (intervention_status_tag a) ≡ a
intervention_status_of_tag-tag HumanInterventionStatus.opened = refl
intervention_status_of_tag-tag _ = refl

instance abbrev pub intervention_status_eq : Eq HumanInterventionStatus
intervention_status_eq =
    tag_eq intervention_status_tag intervention_status_of_tag intervention_status_of_tag-tag

-- ===== src/Operator/Service.antt =====
-- `OperatorService` of application/operator.py, less `prepare` and the record of a request's end.
-- The reads of the clock are arguments `now`.
use autonomous_development.Prelude.{
  ℕ, ◌+◌, String, List, [], ◌∷◌, Option, none, some, Bool, true, false, ◌||◌, concat, decimal,
  strip, take_text, ◌==◌, ◌!=◌, string_eq, if◌then◌else◌,
}
use autonomous_development.Prelude.Raise.{Result, raise_if, require, value_error, key_error}
use autonomous_development.Prelude.Action.{Action, ◌>>=◌, ◌>>◌, pure, lift}
use autonomous_development.Domain.Enums.{
  DevelopmentRequestStatus, request_status_eq, HumanInterventionStatus,
}
use autonomous_development.Domain.Models.{
  DevelopmentRequest, request_post_init, RequirementAnalysis, HumanIntervention,
  intervention_post_init, PayloadValue, Payload, OperatorEvent, event_post_init,
}
use autonomous_development.Operator.Events.{EventTable, ℤ, append_event}
use autonomous_development.Operator.Events as Events
use autonomous_development.Operator.Requests.{add_request, update_request}
use autonomous_development.Operator.Requests as Requests
use autonomous_development.Operator.Interventions as Interventions
use autonomous_development.Operator.Interventions.{
  get_intervention, add_intervention, respond_intervention,
}

-- The tables of the repository.
pub record OperatorDb : Type 0 where
  pub requests : List DevelopmentRequest
  pub analyses : List RequirementAnalysis
  pub interventions : List HumanIntervention
  pub events : EventTable

abbrev pub on_requests : {A : Type 0} → Action (List DevelopmentRequest) A → Action OperatorDb A
on_requests m s = let (r, t) = m s.requests in (r, record s { requests = t })

abbrev pub on_interventions : {A : Type 0} → Action (List HumanIntervention) A → Action OperatorDb A
on_interventions m s = let (r, t) = m s.interventions in (r, record s { interventions = t })

abbrev pub on_events : {A : Type 0} → Action EventTable A → Action OperatorDb A
on_events m s = let (r, t) = m s.events in (r, record s { events = t })

abbrev pub query : {A : Type 0} → (OperatorDb → Result A) → Action OperatorDb A
query read s = (read s, s)

-- `RequirementPreparation`
pub record RequirementPreparation : Type 0 where
  pub status : String
  pub request : DevelopmentRequest
  pub cycle_id : Option String
  pub proposal_id : Option String
  pub intervention_id : Option String
  pub reason : Option String

-- The members of the terminal set that the methods test for.
unfoldable pub is_terminal_status : DevelopmentRequestStatus → Bool
is_terminal_status status =
    status == DevelopmentRequestStatus.completed
    || status == DevelopmentRequestStatus.rolled_back
    || status == DevelopmentRequestStatus.failed
    || status == DevelopmentRequestStatus.cancelled

abbrev pub or_null : Option String → PayloadValue
or_null none = PayloadValue.null
or_null (some value) = PayloadValue.text value

-- `value or default`
abbrev pub or_text : String → Option String → String
or_text default none = default
or_text default (some value) = if value == "" then default else value

-- The id under which `_emit` files an event.
unfoldable pub event_id : (event_type : String) → (request_id cycle_id : Option String) → String
event_id event_type request_id cycle_id = concat "operator-event:" (
    concat event_type
      (concat ":" (concat (or_text "global" request_id) (concat ":" (or_text "none" cycle_id)))))

unfoldable pub emitted :
    (request_id cycle_id : Option String)
    → (event_type : String) → Payload
    → (now : ℕ) → OperatorEvent
unfolding event_id
emitted request_id cycle_id event_type payload now = record {
  id = event_id event_type request_id cycle_id;
  request_id = request_id;
  cycle_id = cycle_id;
  event_type = event_type;
  sequence = none;
  payload = payload;
  created_at = now;
  acknowledged_at = none;
}

-- `_emit`
unfoldable pub emit :
    (request_id cycle_id : Option String)
    → (event_type : String) → Payload
    → (now : ℕ) → Action OperatorDb OperatorEvent
unfolding emitted
emit request_id cycle_id event_type payload now = do
  event ← lift (event_post_init (emitted request_id cycle_id event_type payload now))
  on_events (append_event event)

abbrev pub known_request : Option DevelopmentRequest → Result DevelopmentRequest
known_request request = require request key_error

unfoldable pub get_request : (request_id : String) → Action OperatorDb DevelopmentRequest
get_request request_id = do
  request ← query (λ s. Requests.get_request request_id s.requests)
  lift (known_request request)

-- The arguments of `submit_request`.
pub record RequirementSubmission : Type 0 where
  pub request_id : String
  pub target_id : String
  pub source : String
  pub external_reference_digest : String
  pub title : String
  pub normalized_requirement_text : String
  pub content_sha256 : String
  pub created_at : Option ℕ

-- `created_at or datetime.now(UTC)`
abbrev pub or_now : (created_at : Option ℕ) → (now : ℕ) → ℕ
or_now none now = now
or_now (some created_at) now = created_at

-- The request of a submission, with its defaults.
unfoldable pub submitted : RequirementSubmission → (now : ℕ) → DevelopmentRequest
submitted submission now = record {
  id = submission.request_id;
  target_id = submission.target_id;
  source = submission.source;
  external_reference_digest = submission.external_reference_digest;
  title = submission.title;
  normalized_requirement_text = submission.normalized_requirement_text;
  content_sha256 = submission.content_sha256;
  created_at = or_now submission.created_at now;
  status = DevelopmentRequestStatus.received;
  cycle_id = none;
  pending_intervention_id = none;
  workflow_attempt = 0;
  active_workflow_id = none;
}

-- Whether a stored request has other content than the one that is submitted.
unfoldable pub differs : (existing request : DevelopmentRequest) → Bool
differs existing request =
    existing.content_sha256 != request.content_sha256
    || existing.target_id != request.target_id
    || existing.source != request.source
    || existing.external_reference_digest != request.external_reference_digest
    || existing.title != request.title
    || existing.normalized_requirement_text != request.normalized_requirement_text

-- The stored request, or the one that is stored now.
unfoldable pub store_request :
    DevelopmentRequest → Option DevelopmentRequest → Action OperatorDb DevelopmentRequest
unfolding differs
store_request request none = do
  checked ← lift (request_post_init request)
  stored ← on_requests (add_request checked)
  lift (raise_if (stored.id != request.id) value_error)
  pure stored
store_request request (some existing) = do
  lift (raise_if (differs existing request) value_error)
  pure existing

unfoldable pub received_payload : DevelopmentRequest → Payload
received_payload stored =
    ("request_id", PayloadValue.text stored.id)
    ∷ ("target_id", PayloadValue.text stored.target_id)
    ∷ ("title", PayloadValue.text stored.title)
    ∷ ("content_sha256_prefix", PayloadValue.text (take_text 12 stored.content_sha256))
    ∷ []

-- `submit_request` with the request that its arguments make.
unfoldable pub submit_made :
    (request : DevelopmentRequest) → (emitted_at : ℕ) → Action OperatorDb DevelopmentRequest
unfolding store_request emit received_payload
submit_made request emitted_at = do
  existing ← query (λ s. Requests.get_request request.id s.requests)
  stored ← store_request request existing
  event ← emit (some stored.id) none "requirement_received" (received_payload stored) emitted_at
  pure stored

-- The clock is read for the request, and again for the event.
unfoldable pub submit_request :
    RequirementSubmission → (now emitted_at : ℕ) → Action OperatorDb DevelopmentRequest
unfolding submitted submit_made
submit_request submission now emitted_at = submit_made (submitted submission now) emitted_at

-- A request that waits no more.
unfoldable pub made_ready : DevelopmentRequest → DevelopmentRequest
made_ready request = record request {
  status = DevelopmentRequestStatus.ready;
  pending_intervention_id = none;
  active_workflow_id = none;
}

unfoldable pub respond :
    (intervention_id response : String) → (now : ℕ) → Action OperatorDb DevelopmentRequest
unfolding get_request made_ready emit
respond intervention_id response now = do
  intervention ← on_interventions (respond_intervention intervention_id (strip response) now)
  request ← get_request intervention.request_id
  updated ← lift (request_post_init (made_ready request))
  written ← on_requests (update_request updated)
  event ←
      emit (some updated.id) updated.cycle_id "requirement_ready"
        (("request_id", PayloadValue.text updated.id)
          ∷ ("intervention_id", PayloadValue.text intervention.id)
          ∷ [])
        now
  pure updated

unfoldable pub cancelled : DevelopmentRequest → DevelopmentRequest
cancelled request = record request {
  status = DevelopmentRequestStatus.cancelled;
  active_workflow_id = none;
}

-- `cancel_request` of a request that is not terminal.
unfoldable pub cancel_open : DevelopmentRequest → (now : ℕ) → Action OperatorDb DevelopmentRequest
unfolding cancelled emit
cancel_open request now = do
  lift (raise_if (request.status == DevelopmentRequestStatus.running) value_error)
  updated ← lift (request_post_init (cancelled request))
  written ← on_requests (update_request updated)
  event ←
      emit (some updated.id) updated.cycle_id "cancelled"
        (("request_id", PayloadValue.text updated.id) ∷ ("cycle_id", or_null updated.cycle_id) ∷ [])
        now
  pure updated

unfoldable pub cancel_request :
    (request_id : String) → (now : ℕ) → Action OperatorDb DevelopmentRequest
unfolding get_request is_terminal_status cancel_open
cancel_request request_id now = do
  request ← get_request request_id
  if is_terminal_status request.status then pure request else cancel_open request now

abbrev pub is_active_workflow : Option String → Bool
is_active_workflow none = false
is_active_workflow (some workflow_id) = workflow_id != ""

-- The request of the next attempt.
unfoldable pub next_attempt : DevelopmentRequest → DevelopmentRequest
next_attempt request = record request {
  status = DevelopmentRequestStatus.ready;
  workflow_attempt = request.workflow_attempt + 1;
  active_workflow_id = some (
      concat "requirement:"
        (concat request.id (concat ":" (decimal (request.workflow_attempt + 1)))));
}

unfoldable pub start_attempt : DevelopmentRequest → Action OperatorDb (DevelopmentRequest × Bool)
unfolding next_attempt
start_attempt request = do
  updated ← lift (request_post_init (next_attempt request))
  written ← on_requests (update_request updated)
  pure (updated, true)

-- The two early returns of `start_record`: the request has ended, or has a workflow.
unfoldable pub is_settled : DevelopmentRequest → Bool
unfolding is_terminal_status
is_settled request =
    is_terminal_status request.status || is_active_workflow request.active_workflow_id

unfoldable pub start_record : (request_id : String) → Action OperatorDb (DevelopmentRequest × Bool)
unfolding get_request is_settled start_attempt
start_record request_id = do
  request ← get_request request_id
  lift (raise_if (request.status == DevelopmentRequestStatus.needs_human) value_error)
  if is_settled request then pure (request, false) else start_attempt request

-- The intervention that `_needs_human` asks for.
unfoldable pub asked :
    DevelopmentRequest
    → (kind question : String) → (choices : List String) → (now : ℕ) → HumanIntervention
asked request kind question choices now = record {
  id = concat "intervention:" request.id;
  request_id = request.id;
  cycle_id = request.cycle_id;
  kind = kind;
  question = question;
  choices = choices;
  status = HumanInterventionStatus.opened;
  created_at = now;
  response = none;
  responded_at = none;
}

unfoldable pub ask_human :
    HumanIntervention → Option HumanIntervention → Action OperatorDb HumanIntervention
ask_human question (some existing) = pure existing
ask_human question none = do
  intervention ← lift (intervention_post_init question)
  on_interventions (add_intervention intervention)

unfoldable pub waiting : DevelopmentRequest → (intervention_id : String) → DevelopmentRequest
waiting request intervention_id = record request {
  status = DevelopmentRequestStatus.needs_human;
  pending_intervention_id = some intervention_id;
  active_workflow_id = none;
}

unfoldable pub human_payload : DevelopmentRequest → HumanIntervention → Payload
human_payload updated existing =
    ("request_id", PayloadValue.text updated.id)
    ∷ ("cycle_id", or_null updated.cycle_id)
    ∷ ("intervention_id", PayloadValue.text existing.id)
    ∷ ("kind", PayloadValue.text existing.kind)
    ∷ ("question", PayloadValue.text existing.question)
    ∷ ("choices", PayloadValue.texts existing.choices)
    ∷ []

-- `_needs_human`
unfoldable pub needs_human :
    DevelopmentRequest
    → (kind question : String) → (choices : List String) → (now : ℕ)
    → Action OperatorDb RequirementPreparation
unfolding asked ask_human waiting human_payload emit
needs_human request kind question choices now = do
  found ← query (λ s. get_intervention (concat "intervention:" request.id) s.interventions)
  existing ← ask_human (asked request kind question choices now) found
  updated ← lift (request_post_init (waiting request existing.id))
  written ← on_requests (update_request updated)
  event ← emit (some updated.id) updated.cycle_id "needs_human" (human_payload updated existing) now
  pure (record {
    status = "needs-human";
    request = updated;
    cycle_id = updated.cycle_id;
    proposal_id = none;
    intervention_id = some existing.id;
    reason = some existing.question;
  })

-- The methods that pass on to the repository.
unfoldable pub list_events : (after limit : ℤ) → Action OperatorDb (List OperatorEvent)
list_events after limit = query (λ s. Events.list_events after limit s.events)

unfoldable pub acknowledge_event : (event_id : String) → (now : ℕ) → Action OperatorDb OperatorEvent
acknowledge_event event_id now = on_events (Events.acknowledge_event event_id now)

unfoldable pub pending_event_count : OperatorDb → ℕ
pending_event_count s = Events.pending_event_count s.events

unfoldable pub pending_intervention_count : OperatorDb → ℕ
pending_intervention_count s = Interventions.pending_intervention_count s.interventions

unfoldable pub latest_event_sequence : OperatorDb → ℕ
latest_event_sequence s = Events.latest_event_sequence s.events

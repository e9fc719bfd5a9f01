-- ===== src/Operator/Outcome.antt =====
-- `finish` and `status` of application/operator.py. A result is a JSON value; a dict is its items.
use autonomous_development.Prelude.{
  ℕ, ◌+◌, String, [], ◌∷◌, ◌++◌, Option, none, some, Bool, ◌||◌, take_text, ltb, ◌==◌, string_eq,
  if◌then◌else◌,
}
use autonomous_development.Prelude.Raise.{Result, ok, err, type_error, is_lookup_error}
use autonomous_development.Prelude.Action.{Action, ◌>>=◌, pure, lift}
use autonomous_development.Domain.Enums.{
  cycle_state_value, DevelopmentRequestStatus, request_status_value,
}
use autonomous_development.Domain.Models.{
  DevelopmentCycle, DevelopmentRequest, request_post_init, HumanIntervention, PayloadValue, Payload,
  ReleasedVersion,
}
use autonomous_development.Cycles.Repository.{CycleRepository}
use autonomous_development.Cycles.Service as Cycles
use autonomous_development.Catalog.Sql.{CatalogDb}
use autonomous_development.Catalog.Service as Catalog
use autonomous_development.Operator.Requests.{update_request}
use autonomous_development.Operator.Interventions.{get_intervention}
use autonomous_development.Operator.Service.{OperatorDb, on_requests, get_request, emit, or_null}

mutual
  pub data Json : Type 0 where
    null : Json
    flag : Bool → Json
    number : ℕ → Json
    text : String → Json
    array : Elements → Json
    object : Fields → Json

  pub data Elements : Type 0 where
    none_left : Elements
    element : Json → Elements → Elements

  pub data Fields : Type 0 where
    no_fields : Fields
    field : String → Json → Fields → Fields

-- `mapping.get(key)`, which is `None` for a key that is not there.
unfoldable pub lookup : String → Fields → Json
lookup key no_fields = null
lookup key (field k value fields) = if k == key then value else lookup key fields

unfoldable pub count_elements : Elements → ℕ
count_elements none_left = 0
count_elements (element x xs) = count_elements xs + 1

-- `_terminal_status`; a list or a dict has no hash, so the test for membership raises.
unfoldable pub status_named : String → DevelopmentRequestStatus
status_named status =
    if status == "completed" || status == "promoted"
    then DevelopmentRequestStatus.completed
    else if status == "rolled-back" || status == "rollback" || status == "rolled_back"
    then DevelopmentRequestStatus.rolled_back
    else if status == "cancelled" || status == "canceled"
    then DevelopmentRequestStatus.cancelled
    else DevelopmentRequestStatus.failed

unfoldable pub status_of : Json → Result DevelopmentRequestStatus
unfolding status_named
status_of (text status) = ok (status_named status)
status_of (array xs) = err type_error
status_of (object items) = err type_error
status_of _ = ok DevelopmentRequestStatus.failed

unfoldable pub terminal_status : Fields → Result DevelopmentRequestStatus
unfolding status_of lookup
terminal_status result = status_of (lookup "status" result)

-- `_copy_safe_string`, as the items that it adds.
unfoldable pub safe_string : Json → (target_key : String) → Payload
safe_string (text value) target_key =
    if value == "" then [] else (target_key, PayloadValue.text (take_text 256 value)) ∷ []
safe_string _ target_key = []

unfoldable pub copy_safe_string : Fields → (source_key target_key : String) → Payload
unfolding safe_string lookup
copy_safe_string source source_key target_key = safe_string (lookup source_key source) target_key

-- The items that each part of a result adds, if it is a dict.
unfoldable pub release_items : Json → Payload
unfolding copy_safe_string
release_items (object release) =
    copy_safe_string release "id" "release_id"
    ++ copy_safe_string release "source_commit" "source_commit"
release_items _ = []

-- `min(len(changed_paths), 1000)`
unfoldable pub paths_count : Json → Payload
unfolding count_elements
paths_count (array xs) =
    let n = count_elements xs in
    ("changed_paths_count", PayloadValue.count (if ltb 1000 n then 1000 else n)) ∷ []
paths_count _ = []

unfoldable pub candidate_items : Json → Payload
unfolding copy_safe_string paths_count
candidate_items (object candidate) =
    copy_safe_string candidate "candidate_commit" "candidate_commit"
    ++ paths_count (lookup "changed_paths" candidate)
candidate_items _ = []

unfoldable pub execution_items : Json → Payload
unfolding copy_safe_string release_items candidate_items
execution_items (object execution) =
    copy_safe_string execution "release" "release"
    ++ copy_safe_string execution "status" "execution_status"
    ++ release_items (lookup "release" execution)
    ++ candidate_items (lookup "candidate" execution)
execution_items _ = []

unfoldable pub soak_items : Json → Payload
unfolding copy_safe_string
soak_items (object soak) = copy_safe_string soak "status" "soak_status"
soak_items _ = []

unfoldable pub finish_payload : DevelopmentRequest → Fields → Payload
unfolding copy_safe_string execution_items soak_items request_status_value
finish_payload updated result =
    ("request_id", PayloadValue.text updated.id)
      ∷ ("cycle_id", or_null updated.cycle_id)
      ∷ ("status", PayloadValue.text (request_status_value updated.status))
      ∷ copy_safe_string result "reason" "reason"
    ++ execution_items (lookup "execution" result)
    ++ soak_items (lookup "soak" result)

-- The event type of a status; `_terminal_status` gives no other.
unfoldable pub finish_event : DevelopmentRequestStatus → String
finish_event DevelopmentRequestStatus.completed = "completed"
finish_event DevelopmentRequestStatus.rolled_back = "rolled_back"
finish_event DevelopmentRequestStatus.cancelled = "cancelled"
finish_event _ = "failed"

unfoldable pub ended : DevelopmentRequest → DevelopmentRequestStatus → DevelopmentRequest
ended request status = record request { status = status; active_workflow_id = none }

-- `finish`, which returns the status, the request's id and its cycle's.
unfoldable pub finish :
    (request_id : String) → Fields → (now : ℕ) → Action OperatorDb (String × String × Option String)
unfolding get_request terminal_status ended finish_event finish_payload emit request_status_value
finish request_id result now = do
  request ← get_request request_id
  status ← lift (terminal_status result)
  updated ← lift (request_post_init (ended request status))
  written ← on_requests (update_request updated)
  event ←
      emit (some updated.id) updated.cycle_id (finish_event status) (finish_payload updated result)
        now
  pure (request_status_value status, updated.id, updated.cycle_id)

-- `OperatorStatus`
pub record OperatorStatus : Type 0 where
  pub request : DevelopmentRequest
  pub cycle_state : Option String
  pub serving_release_id : Option String
  pub pending_intervention : Option HumanIntervention

-- The three stores that `status` reads.
pub record StatusStore (S : Type 0) : Type 0 where
  pub operator : OperatorDb
  pub cycles : S
  pub catalog : CatalogDb

-- `except LookupError: cycle = None`
unfoldable pub state_or_none : Result DevelopmentCycle → Result (Option String)
unfolding cycle_state_value
state_or_none (ok cycle) = ok (some (cycle_state_value cycle.state))
state_or_none (err e) = if is_lookup_error e then ok none else err e

module _ {S : Type 0} (R : CycleRepository S) where
  unfoldable pub cycle_state_of : Option String → S → Result (Option String)
  unfolding state_or_none
  cycle_state_of none s = ok none
  cycle_state_of (some cycle_id) s = state_or_none (Cycles.get R cycle_id s).0

  unfoldable pub pending_of : Option String → OperatorDb → Result (Option HumanIntervention)
  pending_of none db = ok none
  pending_of (some intervention_id) db =
      if intervention_id == "" then ok none else get_intervention intervention_id db.interventions

  unfoldable pub serving_id : Option ReleasedVersion → Option String
  serving_id none = none
  serving_id (some release) = some release.id

  unfoldable pub status :
      (request_id : String) → StatusStore S → Result OperatorStatus × StatusStore S
  unfolding get_request cycle_state_of pending_of serving_id
  status request_id = do
    request ← (λ s. ((get_request request_id s.operator).0, s))
    cycle_state ← (λ (s : StatusStore S). (cycle_state_of request.cycle_id s.cycles, s))
    serving ← (λ (s : StatusStore S). ((Catalog.serving request.target_id s.catalog).0, s))
    intervention ←
        (λ (s : StatusStore S). (pending_of request.pending_intervention_id s.operator, s))
    pure (record {
      request = request;
      cycle_state = cycle_state;
      serving_release_id = serving_id serving;
      pending_intervention = intervention;
    })

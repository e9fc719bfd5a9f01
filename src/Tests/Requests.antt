-- ===== src/Tests/Requests.antt =====
-- The operator's requests and interventions on a small database.
use autonomous_development.Prelude.{
  ℕ, ◌≡◌, ◌==◌, option_eq, string_eq, strip, concat, refl, String, List, [], ◌∷◌, Option, none,
  some, Bool, true, false,
}
use autonomous_development.Prelude.Raise.{ok, err, value_error}
use autonomous_development.Domain.Enums.{DevelopmentRequestStatus, HumanInterventionStatus}
use autonomous_development.Domain.Models.{DevelopmentRequest, HumanIntervention}
use autonomous_development.Operator.Requests as Requests
use autonomous_development.Operator.Service.{
  OperatorDb, RequirementPreparation, RequirementSubmission, submitted, submit_request,
  start_record, next_attempt, needs_human, respond,
}
use autonomous_development.Operator.Submits.{submit_request_repeat}
use autonomous_development.Operator.Starts.{IsNextAttempt, start_record_once}
use autonomous_development.Operator.Humans.{second_question}
use autonomous_development.Operator.Answers.{respond-starts}

abbrev empty_db : OperatorDb
empty_db = record {
  requests = [];
  analyses = [];
  interventions = [];
  events = record { rows = []; last_sequence = 0 };
}

abbrev submission : RequirementSubmission
submission = record {
  request_id = "q";
  target_id = "t";
  source = "cli";
  external_reference_digest = "digest";
  title = "A title";
  normalized_requirement_text = "Do it";
  content_sha256 = "0123456789abcdef0123456789abcdef0123456789abcdef0123456789abcdef";
  created_at = none;
}

abbrev request : DevelopmentRequest
unfolding submitted
request = submitted submission 1

abbrev submitted_db : OperatorDb
unfolding submit_request
submitted_db = (submit_request submission 1 2 empty_db).1

submit_runs : submit_request submission 1 2 empty_db ≡ (ok request, submitted_db)
unfolding submit_request submitted_db Requests.get_request autonomous_development.Prelude.is_blank
    request Requests.add_request autonomous_development.Domain.Models.event_post_init
    autonomous_development.Operator.Events.append_event
submit_runs = refl

-- The later submission reads a later clock, and the stored request keeps its time.
submit_request_repeat_example :
    submit_request submission 8 9 submitted_db ≡ (ok request, submitted_db)
submit_request_repeat_example =
    submit_request_repeat submission none request 1 2 8 9 empty_db submitted_db submit_runs

abbrev requests_db : OperatorDb
unfolding request
requests_db = record empty_db { requests = request ∷ [] }

abbrev started : DevelopmentRequest
unfolding next_attempt request
started = next_attempt request

abbrev started_db : OperatorDb
unfolding start_record
started_db = (start_record "q" requests_db).1

start_runs : start_record "q" requests_db ≡ (ok (started, true), started_db)
unfolding start_record started_db started requests_db Requests.get_request
    autonomous_development.Prelude.is_blank Requests.update_request
start_runs = refl

start_record_once_example :
    (start_record "q" started_db ≡ (ok (started, false), started_db))
    × (before : DevelopmentRequest) × (Requests.get_request "q" requests_db.requests
        ≡ ok (some before))
    × IsNextAttempt before started
start_record_once_example = start_record_once "q" requests_db started_db started start_runs

-- A question, open and answered.
abbrev question : HumanIntervention
question = record {
  id = "intervention:q";
  request_id = "q";
  cycle_id = none;
  kind = "missing-baseline";
  question = "Restore the baseline?";
  choices = "restore-baseline" ∷ "cancel" ∷ [];
  status = HumanInterventionStatus.opened;
  created_at = 4;
  response = none;
  responded_at = none;
}

abbrev answered_question : HumanIntervention
answered_question = record question {
  status = HumanInterventionStatus.responded;
  response = some "done";
  responded_at = some 5;
}

-- The same answer again, after the request was cancelled.
abbrev cancelled_db : OperatorDb
unfolding requests_db
cancelled_db = record requests_db {
  requests = record request { status = DevelopmentRequestStatus.cancelled } ∷ [];
  interventions = answered_question ∷ [];
}

abbrev ready_request : DevelopmentRequest
ready_request = record request { status = DevelopmentRequestStatus.ready }

abbrev ready_db : OperatorDb
unfolding respond
ready_db = (respond "intervention:q" "done" 6 cancelled_db).1

respond_runs : respond "intervention:q" "done" 6 cancelled_db ≡ (ok ready_request, ready_db)
unfolding respond ready_db cancelled_db
    autonomous_development.Operator.Interventions.respond_intervention
    autonomous_development.Prelude.is_blank Requests.get_request Requests.update_request
    autonomous_development.Domain.Models.event_post_init
    autonomous_development.Operator.Events.append_event
respond_runs = refl

respond-starts_example :
    (ready_request.status ≡ DevelopmentRequestStatus.ready)
    × (before : DevelopmentRequest) × (next : DevelopmentRequest) × (Requests.get_request
          ready_request.id cancelled_db.requests
        ≡ ok (some before))
    × IsNextAttempt before next
    × ((start_record ready_request.id ready_db).0 ≡ ok (next, true))
respond-starts_example =
    respond-starts "intervention:q" "done" 6 cancelled_db ready_db ready_request respond_runs

abbrev answered_db : OperatorDb
unfolding requests_db
answered_db = record requests_db { interventions = answered_question ∷ [] }

abbrev preparation : RequirementPreparation
preparation = record {
  status = "needs-human";
  request = record request {
    status = DevelopmentRequestStatus.needs_human;
    pending_intervention_id = some "intervention:q";
  };
  cycle_id = none;
  proposal_id = none;
  intervention_id = some "intervention:q";
  reason = some "Restore the baseline?";
}

abbrev asked_db : OperatorDb
unfolding needs_human
asked_db = (needs_human request "requirement-ambiguity" "Which one?" [] 7 answered_db).1

needs_runs :
    needs_human request "requirement-ambiguity" "Which one?" [] 7 answered_db
    ≡ (ok preparation, asked_db)
unfolding needs_human asked_db answered_db
    autonomous_development.Operator.Interventions.get_intervention
    autonomous_development.Prelude.is_blank autonomous_development.Domain.Models.request_post_init
    Requests.update_request autonomous_development.Domain.Models.event_post_init
    autonomous_development.Operator.Events.append_event
needs_runs = refl

second_question_example :
    (preparation.reason ≡ some answered_question.question)
    × (start_record "q" asked_db ≡ (err value_error, asked_db))
    × ((response : String) (later : ℕ)
        → (answered_question.response == some (strip response)) ≡ false
        → respond (concat "intervention:" "q") response later asked_db
          ≡ (err value_error, asked_db))
unfolding autonomous_development.Operator.Interventions.get_intervention answered_db
    autonomous_development.Prelude.is_blank
second_question_example =
    second_question request "requirement-ambiguity" "Which one?" [] 7 answered_db asked_db
      preparation answered_question refl refl needs_runs

-- ===== src/Operator/Answers.antt =====
-- `respond_intervention` of application/operator.py, and the start that follows.
use autonomous_development.Prelude.{
  ℕ, String, List, [], ◌∷◌, none, some, true, false, count_if, strip, ◌==◌, nat_eq, string_eq, ◌≡◌,
  refl, sym, ap, subst, subst₂, ◌∙◌, arith, inl, inr,
}
use autonomous_development.Prelude.Raise.{ok, Result-cases}
use autonomous_development.Domain.Enums.{DevelopmentRequestStatus, request_status_eq}
use autonomous_development.Domain.Models.{
  DevelopmentRequest, request_post_init, HumanIntervention, PayloadValue, Payload,
}
use autonomous_development.Operator.Requests.{is_request, replace_rows, update_request}
use autonomous_development.Operator.Requests as Requests
use autonomous_development.Operator.Interventions.{respond_intervention}
use autonomous_development.Operator.Service.{
  OperatorDb, emit, get_request, made_ready, respond, is_terminal_status, is_settled, next_attempt,
  start_attempt, start_record,
}
use autonomous_development.Operator.Submits.{request_post_init-own, read_own, emit-requests}
use autonomous_development.Operator.Starts.{
  update_request-get, find_id, get_request-found, IsNextAttempt,
}

replaced-count :
    (id : String) (r : DevelopmentRequest) (rows : List DevelopmentRequest)
    → r.id ≡ id
    → count_if (is_request id) (replace_rows (is_request id) r rows) ≡ count_if (is_request id) rows
replaced-count id r [] h = refl
replaced-count id r (row ∷ rows) h =
    let s = string_eq.beq_iff r.id id in let k = replaced-count id r rows h in ground arith

next_attempt-valid :
    (r : DevelopmentRequest)
    → request_post_init r ≡ ok r
    → request_post_init (next_attempt r) ≡ ok (next_attempt r)
unfolding request_post_init next_attempt
next_attempt-valid r h = ground arith

-- The request is stored once and ready to start.
abbrev IsReady : DevelopmentRequest → List DevelopmentRequest → Type 0
IsReady r rows =
    (Requests.get_request r.id rows ≡ ok (some r))
    × (count_if (is_request r.id) rows ≡ 1)
    × (r.status ≡ DevelopmentRequestStatus.ready)
    × (r.active_workflow_id ≡ none)
    × (request_post_init r ≡ ok r)

ready-settled :
    (r : DevelopmentRequest)
    → r.status ≡ DevelopmentRequestStatus.ready
    → r.active_workflow_id ≡ none
    → (is_settled r ≡ false) × ((r.status == DevelopmentRequestStatus.needs_human) ≡ false)
unfolding is_settled is_terminal_status
ready-settled r ready idle = (ground arith, ground arith)

next_attempt_id : (r : DevelopmentRequest) → (next_attempt r).id ≡ r.id
unfolding next_attempt
next_attempt_id r = refl

ready-attempt :
    (r : DevelopmentRequest) (s : OperatorDb)
    → IsReady r s.requests
    → (start_attempt r s).0 ≡ ok (next_attempt r, true)
unfolding start_attempt update_request
ready-attempt r s (there, once, ready, idle, valid) =
    let v = next_attempt-valid r valid in
    let i : (next_attempt r).id ≡ r.id = next_attempt_id r in
    let o : count_if (is_request (next_attempt r).id) s.requests ≡ 1 =
      ap (λ x. count_if (is_request x) s.requests) i ∙ once in
    let n = nat_eq.beq_iff (count_if (is_request (next_attempt r).id) s.requests) 1 in ground arith

ready-start :
    (r : DevelopmentRequest) (s : OperatorDb)
    → IsReady r s.requests
    → (start_record r.id s).0 ≡ ok (next_attempt r, true)
unfolding start_record get_request
ready-start r s ready =
    let (there, once, is, idle, valid) = ready in
    let (open_still, free) = ready-settled r is idle in
    let started = ready-attempt r s ready in ground arith

made_ready-own :
    (r : DevelopmentRequest)
    → ((made_ready r).status ≡ DevelopmentRequestStatus.ready)
      × ((made_ready r).active_workflow_id ≡ none)
unfolding made_ready
made_ready-own r = (refl, refl)

update_request-once :
    (r x : DevelopmentRequest) (rows rows' : List DevelopmentRequest)
    → update_request r rows ≡ (ok x, rows')
    → count_if (is_request r.id) rows' ≡ 1
unfolding update_request
update_request-once r x rows rows' h =
    let n = nat_eq.beq_iff (count_if (is_request r.id) rows) 1 in
    let k = replaced-count r.id r rows refl in
    let last : replace_rows (is_request r.id) r rows ≡ rows' = ground arith in
    ap (count_if (is_request r.id)) (sym last) ∙ k ∙ ground arith

abbrev answer_payload : DevelopmentRequest → HumanIntervention → Payload
answer_payload updated intervention =
    ("request_id", PayloadValue.text updated.id)
    ∷ ("intervention_id", PayloadValue.text intervention.id)
    ∷ []

made_ready_id : (r : DevelopmentRequest) → (made_ready r).id ≡ r.id
unfolding made_ready
made_ready_id r = refl

made_ready-next :
    (before : DevelopmentRequest) → IsNextAttempt before (next_attempt (made_ready before))
unfolding made_ready next_attempt
made_ready-next before = record {
  same_request = refl;
  same_cycle = refl;
  same_content = refl;
  ready = refl;
  counted = refl;
  workflow = refl;
}

written-IsReady :
    (before x y : DevelopmentRequest) (rows rows' : List DevelopmentRequest)
    → request_post_init (made_ready before) ≡ ok x
    → update_request x rows ≡ (ok y, rows')
    → (made_ready before ≡ x) × IsReady x rows'
written-IsReady before x y rows rows' made written =
    let (own, valid) = request_post_init-own (made_ready before) x made in
    let (is, idle) = made_ready-own before in
    let valid' = subst (λ q. request_post_init q ≡ ok q) (sym own) valid in
    (
      sym own,
      (
        update_request-get x y rows rows' valid' written,
        update_request-once x y rows rows' written,
        ap (λ (q : DevelopmentRequest). q.status) own ∙ is,
        ap (λ (q : DevelopmentRequest). q.active_workflow_id) own ∙ idle,
        valid',
      ),
    )

-- What the start finds after an answer.
abbrev IsStarted : DevelopmentRequest → (s s' : OperatorDb) → Type 0
IsStarted r s s' =
    (before : DevelopmentRequest) × (next : DevelopmentRequest) × (Requests.get_request r.id
        s.requests
      ≡ ok (some before))
    × IsNextAttempt before next
    × ((start_record r.id s').0 ≡ ok (next, true))

ready-IsStarted :
    (id : String) (before r : DevelopmentRequest) (s s' : OperatorDb)
    → Requests.get_request id s.requests ≡ ok (some before)
    → made_ready before ≡ r
    → IsReady r s'.requests
    → IsStarted r s s'
ready-IsStarted id before r s s' there own ready =
    let (row, old) = read_own id s.requests before there in
    let same : r.id ≡ id =
      ap (λ (q : DevelopmentRequest). q.id) (sym own)
      ∙ made_ready_id before
      ∙ find_id id s.requests before row in
    (
      before,
      next_attempt r,
      subst (λ k. Requests.get_request k s.requests ≡ ok (some before)) (sym same) there,
      subst (λ q. IsNextAttempt before (next_attempt q)) own (made_ready-next before),
      ready-start r s' ready,
    )

-- An answer lets the request start, whatever status the stored request had: where a call of
-- `respond_intervention` returned, be it a first answer or the same one again, and be it on a request
-- that had completed or was cancelled, the request is ready, and `start_record` starts a workflow for
-- it, with the attempt number of the request before raised by one.
pub respond-starts :
    (intervention_id response : String) (now : ℕ) (s s' : OperatorDb) (r : DevelopmentRequest)
    → respond intervention_id response now s ≡ (ok r, s')
    → (r.status ≡ DevelopmentRequestStatus.ready)
      × (before : DevelopmentRequest) × (next : DevelopmentRequest) × (Requests.get_request r.id
            s.requests
          ≡ ok (some before))
      × IsNextAttempt before next
      × ((start_record r.id s').0 ≡ ok (next, true))
unfolding respond
respond-starts intervention_id response now s s' r h =
    elim (Result-cases
      (respond_intervention intervention_id (strip response) now s.interventions).0) [
        | inr (e, bad) ↦ absurd (ground arith)
        | inl (i, answered) ↦
            let t : OperatorDb = record s {
              interventions =
                  (respond_intervention intervention_id (strip response) now s.interventions).1;
            } in
            elim (Result-cases (get_request i.request_id t).0) [
              | inr (e, bad) ↦ absurd (ground arith)
              | inl (before, found) ↦
                  let u = (get_request i.request_id t).1 in
                  elim (Result-cases (request_post_init (made_ready before))) [
                    | inr (e, bad) ↦ absurd (ground arith)
                    | inl (x, made) ↦ elim (Result-cases (update_request x u.requests).0) [
                      | inr (e, bad) ↦ absurd (ground arith)
                      | inl (y, written) ↦
                          let rows = (update_request x u.requests).1 in
                          let v : OperatorDb = record u { requests = rows } in
                          let payload = answer_payload x i in
                          let event =
                            emit (some x.id) x.cycle_id "requirement_ready" payload now v in
                          elim (Result-cases event.0) [
                            | inr (e, bad) ↦ absurd (ground arith)
                            | inl (z, sent) ↦
                                let mine : x ≡ r = ground arith in
                                let last : event.1 ≡ s' = ground arith in
                                let kept : rows ≡ s'.requests =
                                  sym (
                                    emit-requests (some x.id) x.cycle_id "requirement_ready" payload
                                      now v)
                                  ∙ ap (λ (d : OperatorDb). d.requests) last in
                                let (own, ready) =
                                  written-IsReady before x y u.requests rows made
                                    (λ k. (written k, rows)) in
                                let (there, same) =
                                  get_request-found i.request_id t u before (λ k. (found k, u)) in
                                let ready' = subst₂ IsReady mine kept ready in
                                let (old, next, read, counted, starts) =
                                  ready-IsStarted i.request_id before r s s' there (own ∙ mine)
                                    ready' in
                                (ready'.2, old, next, read, counted, starts)
                          ]
                    ]
                  ]
            ]
      ]

-- ===== src/Operator/Humans.antt =====
-- Human interventions in application/operator.py: `_needs_human`, `respond_intervention` and what
-- follows them.
use autonomous_development.Prelude.{
  ℕ, String, List, Option, some, true, false, concat, strip, ◌==◌, nat_eq, string_eq, option_eq,
  ◌≡◌, sym, ap, subst, subst₂, ◌∙◌, arith, inl, inr,
}
use autonomous_development.Prelude.Raise.{ok, err, Result-cases, value_error}
use autonomous_development.Domain.Enums.{
  DevelopmentRequestStatus, request_status_eq, intervention_status_eq,
}
use autonomous_development.Domain.Models.{
  DevelopmentRequest, request_post_init, HumanIntervention, is_answered, event_post_init, Payload,
}
use autonomous_development.Operator.Requests.{update_request}
use autonomous_development.Operator.Requests as Requests
use autonomous_development.Operator.Interventions.{
  get_intervention, respond_found, respond_intervention,
}
use autonomous_development.Operator.Service.{
  OperatorDb, RequirementPreparation, emit, emitted, get_request, ask_human, waiting, human_payload,
  needs_human, respond, start_record,
}
use autonomous_development.Operator.Submits.{request_post_init-own, emit-requests}
use autonomous_development.Operator.Starts.{update_request-get}

emit-interventions :
    (request_id cycle_id : Option String) (event_type : String) (payload : Payload) (now : ℕ)
    (s : OperatorDb)
    → (emit request_id cycle_id event_type payload now s).1.interventions ≡ s.interventions
unfolding emit
emit-interventions request_id cycle_id event_type payload now s =
    elim (Result-cases (event_post_init (emitted request_id cycle_id event_type payload now))) [
      | inr (e, bad) ↦ ground arith
      | inl (f, made) ↦ ground arith
    ]

-- What a call of `_needs_human` that returns has left.
pub record IsWaiting (request : DevelopmentRequest) (existing : HumanIntervention) (s' : OperatorDb)
    (p : RequirementPreparation) : Type 0 where
  pub asked_for : p.reason ≡ some existing.question
  pub named : p.intervention_id ≡ some existing.id
  pub updated : p.request ≡ waiting request existing.id
  pub stored : Requests.get_request p.request.id s'.requests ≡ ok (some p.request)

needs_human-IsWaiting :
    (request : DevelopmentRequest) (kind question : String) (choices : List String) (now : ℕ)
    (s s' : OperatorDb) (p : RequirementPreparation) (existing : HumanIntervention)
    → get_intervention (concat "intervention:" request.id) s.interventions ≡ ok (some existing)
    → needs_human request kind question choices now s ≡ (ok p, s')
    → IsWaiting request existing s' p × (s'.interventions ≡ s.interventions)
unfolding needs_human ask_human
needs_human-IsWaiting request kind question choices now s s' p existing there h =
    elim (Result-cases (request_post_init (waiting request existing.id))) [
      | inr (e, bad) ↦ absurd (ground arith)
      | inl (x, made) ↦ elim (Result-cases (update_request x s.requests).0) [
        | inr (e, bad) ↦ absurd (ground arith)
        | inl (y, written) ↦
            let rows = (update_request x s.requests).1 in
            let u : OperatorDb = record s { requests = rows } in
            let payload = human_payload x existing in
            let event = emit (some x.id) x.cycle_id "needs_human" payload now u in
            elim (Result-cases event.0) [
              | inr (e, bad) ↦ absurd (ground arith)
              | inl (z, sent) ↦
                  let (own, valid) = request_post_init-own (waiting request existing.id) x made in
                  let valid' = subst (λ q. request_post_init q ≡ ok q) (sym own) valid in
                  let back =
                    update_request-get x y s.requests rows valid' (λ i. (written i, rows)) in
                  let kept = emit-requests (some x.id) x.cycle_id "needs_human" payload now u in
                  let same_notes =
                    emit-interventions (some x.id) x.cycle_id "needs_human" payload now u in
                  let mine : x ≡ p.request = ground arith in
                  let last : event.1 ≡ s' = ground arith in
                  (
                    record {
                      asked_for = ground arith;
                      named = ground arith;
                      updated = sym mine ∙ own;
                      stored =
                          subst₂
                            (λ (q : DevelopmentRequest) v.
                              Requests.get_request q.id v ≡ ok (some q))
                            mine (sym kept ∙ ap (λ (t : OperatorDb). t.requests) last) back;
                    },
                    sym (ap (λ (t : OperatorDb). t.interventions) last) ∙ same_notes,
                  )
            ]
      ]
    ]

-- A request that waits is not started.
waiting-start :
    (r : DevelopmentRequest) (s : OperatorDb)
    → Requests.get_request r.id s.requests ≡ ok (some r)
    → r.status ≡ DevelopmentRequestStatus.needs_human
    → start_record r.id s ≡ (err value_error, s)
unfolding start_record get_request
waiting-start r s there waits =
    let k = request_status_eq.beq_iff r.status DevelopmentRequestStatus.needs_human in ground arith

-- Another response to an answered intervention is refused.
answered-respond :
    (id response : String) (later : ℕ) (s : OperatorDb) (old : HumanIntervention)
    → get_intervention id s.interventions ≡ ok (some old)
    → is_answered old.status ≡ true
    → (old.response == some (strip response)) ≡ false
    → respond id response later s ≡ (err value_error, s)
unfolding respond respond_intervention respond_found
answered-respond id response later s old there over other = ground arith

-- A second question of a request cannot be answered anew: where the intervention of a request was
-- answered before, a call of `_needs_human` that returns asks the old question, whatever its own
-- one is, and leaves the request waiting; then the request is not started, and every response
-- other than the one that was given before is refused, and changes nothing.
pub second_question :
    (request : DevelopmentRequest) (kind question : String) (choices : List String) (now : ℕ)
    (s s' : OperatorDb) (p : RequirementPreparation) (old : HumanIntervention)
    → get_intervention (concat "intervention:" request.id) s.interventions ≡ ok (some old)
    → is_answered old.status ≡ true
    → needs_human request kind question choices now s ≡ (ok p, s')
    → (p.reason ≡ some old.question)
      × (start_record p.request.id s' ≡ (err value_error, s'))
      × ((response : String) (later : ℕ)
          → (old.response == some (strip response)) ≡ false
          → respond (concat "intervention:" request.id) response later s' ≡ (err value_error, s'))
unfolding waiting
second_question request kind question choices now s s' p old there over h =
    let (w, kept) = needs_human-IsWaiting request kind question choices now s s' p old there h in
    (
      w.asked_for,
      waiting-start p.request s' w.stored (ap (λ (r : DevelopmentRequest). r.status) w.updated),
      λ response later.
          answered-respond (concat "intervention:" request.id) response later s' old
            (ap (get_intervention (concat "intervention:" request.id)) kept ∙ there) over,
    )

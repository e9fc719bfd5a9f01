-- ===== src/Operator/Starts.antt =====
-- `start_record` of application/operator.py.
use autonomous_development.Prelude.{
  ◌+◌, String, List, [], ◌∷◌, none, some, true, false, find, count_if, length, codes, concat,
  decimal, ◌==◌, nat_eq, string_eq, ◌≡◌, refl, sym, ap, subst, subst₂, ◌∙◌, arith, inl, inr,
  Bool-cases,
}
use autonomous_development.Prelude.Raise.{ok, Result-cases}
use autonomous_development.Domain.Enums.{DevelopmentRequestStatus, request_status_eq}
use autonomous_development.Domain.Models.{DevelopmentRequest, request_post_init}
use autonomous_development.Operator.Requests.{is_request, replace_rows, update_request}
use autonomous_development.Operator.Requests as Requests
use autonomous_development.Operator.Service.{
  OperatorDb, get_request, is_terminal_status, is_settled, next_attempt, start_attempt,
  start_record,
}
use autonomous_development.Operator.Submits.{read_own, read_row, request_post_init-own}

replaced-find :
    (r : DevelopmentRequest) (rows : List DevelopmentRequest)
    → count_if (is_request r.id) rows ≡ 1
    → find (is_request r.id) (replace_rows (is_request r.id) r rows) ≡ some r
replaced-find r [] h = absurd (ground arith)
replaced-find r (row ∷ rows) h =
    let s = string_eq.beq_iff r.id r.id in
    elim (Bool-cases (is_request r.id row)) [
      | inl own ↦ ground arith
      | inr other ↦ let k = replaced-find r rows (ground arith) in ground arith
    ]

-- A request that was updated is read back.
pub update_request-get :
    (r x : DevelopmentRequest) (rows rows' : List DevelopmentRequest)
    → request_post_init r ≡ ok r
    → update_request r rows ≡ (ok x, rows')
    → Requests.get_request r.id rows' ≡ ok (some r)
unfolding update_request
update_request-get r x rows rows' valid h =
    let n = nat_eq.beq_iff (count_if (is_request r.id) rows) 1 in
    let k = replaced-find r rows (ground arith) in
    let last : replace_rows (is_request r.id) r rows ≡ rows' = ground arith in
    read_row r.id rows' r (ap (find (is_request r.id)) (sym last) ∙ k) valid

pub find_id :
    (id : String) (rows : List DevelopmentRequest) (r : DevelopmentRequest)
    → find (is_request id) rows ≡ some r
    → r.id ≡ id
find_id id [] r h = absurd (ground arith)
find_id id (row ∷ rows) r h =
    let s = string_eq.beq_iff row.id id in ground (arith, find_id id rows r)

-- A read that returns has found the request under its id.
pub get_request-found :
    (id : String) (s s' : OperatorDb) (r : DevelopmentRequest)
    → get_request id s ≡ (ok r, s')
    → (Requests.get_request id s.requests ≡ ok (some r)) × (s' ≡ s)
unfolding get_request
get_request-found id s s' r h = elim (Result-cases (Requests.get_request id s.requests)) [
  | inr (e, bad) ↦ absurd (ground arith)
  | inl (none, gone) ↦ absurd (ground arith)
  | inl (some x, there) ↦ (ground arith, ground arith)
]

workflow_named : (rest : String) → (concat "requirement:" rest == "") ≡ false
workflow_named rest = elim (Bool-cases (concat "requirement:" rest == "")) [
  | inr named ↦ named
  | inl empty ↦
      let same = (string_eq.beq_iff (concat "requirement:" rest) "").0 empty in
      let size = ap (λ s. length (codes s)) same in absurd (ground arith)
]

next_attempt-settled :
    (r : DevelopmentRequest)
    → (is_settled (next_attempt r) ≡ true)
      × ((next_attempt r).id ≡ r.id)
      × (((next_attempt r).status == DevelopmentRequestStatus.needs_human) ≡ false)
unfolding is_settled next_attempt is_terminal_status
next_attempt-settled r =
    let k = workflow_named (concat r.id (concat ":" (decimal (r.workflow_attempt + 1)))) in
    (ground arith, refl, refl)

-- The next attempt of a request: its number, its workflow's name, and what stays.
pub record IsNextAttempt (before r : DevelopmentRequest) : Type 0 where
  pub same_request : r.id ≡ before.id
  pub same_cycle : r.cycle_id ≡ before.cycle_id
  pub same_content : r.content_sha256 ≡ before.content_sha256
  pub ready : r.status ≡ DevelopmentRequestStatus.ready
  pub counted : r.workflow_attempt ≡ before.workflow_attempt + 1
  pub workflow :
      r.active_workflow_id
      ≡ some (
          concat "requirement:"
            (concat before.id (concat ":" (decimal (before.workflow_attempt + 1)))))

pub next_attempt-IsNextAttempt :
    (before : DevelopmentRequest) → IsNextAttempt before (next_attempt before)
unfolding next_attempt
next_attempt-IsNextAttempt before = record {
  same_request = refl;
  same_cycle = refl;
  same_content = refl;
  ready = refl;
  counted = refl;
  workflow = refl;
}

-- A start of a settled request reads only.
pub settled-start :
    (id : String) (s : OperatorDb) (r : DevelopmentRequest)
    → Requests.get_request id s.requests ≡ ok (some r)
    → (r.status == DevelopmentRequestStatus.needs_human) ≡ false
    → is_settled r ≡ true
    → start_record id s ≡ (ok (r, false), s)
unfolding start_record get_request
settled-start id s r there free settled = ground arith

-- What a start that starts a workflow has written.
pub start_attempt-made :
    (request r : DevelopmentRequest) (s s' : OperatorDb)
    → start_attempt request s ≡ (ok (r, true), s')
    → (r ≡ next_attempt request) × (Requests.get_request r.id s'.requests ≡ ok (some r))
unfolding start_attempt
start_attempt-made request r s s' h =
    elim (Result-cases (request_post_init (next_attempt request))) [
      | inr (e, bad) ↦ absurd (ground arith)
      | inl (x, made) ↦ elim (Result-cases (update_request x s.requests).0) [
        | inr (e, bad) ↦ absurd (ground arith)
        | inl (y, written) ↦
            let (own, valid) = request_post_init-own (next_attempt request) x made in
            let rows = (update_request x s.requests).1 in
            let valid' = subst (λ z. request_post_init z ≡ ok z) (sym own) valid in
            let back = update_request-get x y s.requests rows valid' (λ i. (written i, rows)) in
            let same : x ≡ r = ground arith in
            let last : rows ≡ s'.requests = ground arith in
            (
              sym same ∙ own,
              subst₂ (λ (z : DevelopmentRequest) v. Requests.get_request z.id v ≡ ok (some z)) same
                  last back,
            )
      ]
    ]

-- A workflow is started once: a call of `start_record` that starts one raises the attempt number of
-- the stored request by one, makes the request ready and gives it the workflow id of that attempt; a
-- second call then finds the workflow, starts nothing and changes nothing.
pub start_record_once :
    (id : String) (s s' : OperatorDb) (r : DevelopmentRequest)
    → start_record id s ≡ (ok (r, true), s')
    → (start_record id s' ≡ (ok (r, false), s'))
      × (before : DevelopmentRequest) × (Requests.get_request id s.requests ≡ ok (some before))
      × IsNextAttempt before r
unfolding start_record
start_record_once id s s' r h = elim (Result-cases (get_request id s).0) [
  | inr (e, bad) ↦ absurd (ground arith)
  | inl (before, found) ↦
      let u = (get_request id s).1 in
      let (there, same) = get_request-found id s u before (λ i. (found i, u)) in
      elim (Bool-cases (is_settled before)) [
        | inl settled ↦ absurd (ground arith)
        | inr free ↦
            let started : start_attempt before u ≡ (ok (r, true), s') = ground arith in
            let (own, back) = start_attempt-made before r u s' started in
            let (over, named, ready) = next_attempt-settled before in
            let (row, valid) = read_own id s.requests before there in
            let id' : r.id ≡ id =
              ap (λ (z : DevelopmentRequest). z.id) own
              ∙ named
              ∙ find_id id s.requests before row in
            (
              settled-start id s' r
                  (subst (λ i. Requests.get_request i s'.requests ≡ ok (some r)) id' back)
                  (ap (λ (z : DevelopmentRequest). z.status == DevelopmentRequestStatus.needs_human)
                      own
                    ∙ ready)
                  (ap is_settled own ∙ over),
              before,
              there,
              subst (λ z. IsNextAttempt before z) (sym own) (next_attempt-IsNextAttempt before),
            )
      ]
]

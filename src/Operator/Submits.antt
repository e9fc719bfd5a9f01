-- ===== src/Operator/Submits.antt =====
-- `submit_request` of application/operator.py, called once and called again.
use autonomous_development.Prelude.{
  ℕ, String, List, [], ◌∷◌, ◌++◌, Option, none, some, Bool, false, find, find-append_none, nat_eq,
  string_eq, ◌≡◌, refl, sym, ap, subst, subst₂, ◌∙◌, arith, inl, inr, Bool-cases,
}
use autonomous_development.Prelude.Raise.{Result, ok, err, Result-cases, integrity_error}
use autonomous_development.Domain.Models.{
  DevelopmentRequest, request_post_init, OperatorEvent, event_post_init, Payload,
}
use autonomous_development.Operator.Requests.{
  checked_row, is_request, is_external, get_by_external_digest, insert_request, same_content,
  by_external, settle_request, add_request_found, add_request,
}
use autonomous_development.Operator.Requests as Requests
use autonomous_development.Operator.Service.{
  OperatorDb, differs, store_request, received_payload, emitted, emit, RequirementSubmission,
  submitted, submit_made, submit_request,
}
use autonomous_development.Operator.Repeats.{emit_repeat}

pub request_post_init-own :
    (a b : DevelopmentRequest) → request_post_init a ≡ ok b → (b ≡ a) × (request_post_init a ≡ ok a)
unfolding request_post_init
request_post_init-own a b h = (ground arith, ground arith)

checked_row-own :
    (o : Option DevelopmentRequest) (r : DevelopmentRequest)
    → checked_row request_post_init o ≡ ok (some r)
    → (o ≡ some r) × (request_post_init r ≡ ok r)
checked_row-own none r h = absurd (ground arith)
checked_row-own (some row) r h = elim (Result-cases (request_post_init row)) [
  | inr (e, bad) ↦ absurd (ground arith)
  | inl (x, made) ↦
      let (own, again) = request_post_init-own row x made in
      let same : x ≡ r = ground arith in
      let row_same : row ≡ r = sym own ∙ same in
      (ap some row_same, subst (λ y. request_post_init y ≡ ok y) row_same again)
]

checked_row-none :
    (o : Option DevelopmentRequest) → checked_row request_post_init o ≡ ok none → o ≡ none
checked_row-none none h = refl
checked_row-none (some row) h = elim (Result-cases (request_post_init row)) [
  | inl (x, made) ↦ absurd (ground arith)
  | inr (e, bad) ↦ absurd (ground arith)
]

-- A request that is read is the row, which passed its constructor.
pub read_own :
    (id : String) (rows : List DevelopmentRequest) (r : DevelopmentRequest)
    → Requests.get_request id rows ≡ ok (some r)
    → (find (is_request id) rows ≡ some r) × (request_post_init r ≡ ok r)
unfolding Requests.get_request
read_own id rows r h = checked_row-own (find (is_request id) rows) r h

pub read_row :
    (id : String) (rows : List DevelopmentRequest) (r : DevelopmentRequest)
    → find (is_request id) rows ≡ some r
    → request_post_init r ≡ ok r
    → Requests.get_request id rows ≡ ok (some r)
unfolding Requests.get_request
read_row id rows r h valid = ap (checked_row request_post_init) h ∙ ground arith

find-excludes :
    (p q : DevelopmentRequest → Bool) (rows : List DevelopmentRequest) (x : DevelopmentRequest)
    → find p rows ≡ none
    → find q rows ≡ some x
    → p x ≡ false
find-excludes p q [] x h k = absurd (ground arith)
find-excludes p q (row ∷ rows) x h k = elim (Bool-cases (p row)) [
  | inl holds ↦ absurd (ground arith)
  | inr fails ↦ elim (Bool-cases (q row)) [
    | inl holds ↦ let same : row ≡ x = ground arith in subst (λ y. p y ≡ false) same fails
    | inr other ↦ find-excludes p q rows x (ground arith) (ground arith)
  ]
]

-- What `add_request` of a new id returns with that id is the new request.
settle_request-own :
    (r x : DevelopmentRequest) (rows rows' : List DevelopmentRequest)
    (written : Result (List DevelopmentRequest))
    → insert_request r rows ≡ written
    → find (is_request r.id) rows ≡ none
    → x.id ≡ r.id
    → settle_request r rows written ≡ (ok x, rows')
    → (x ≡ r) × (rows' ≡ rows ++ r ∷ [])
unfolding settle_request by_external same_content get_by_external_digest insert_request
settle_request-own r x rows rows' (ok new) made gone id h = (ground arith, ground arith)
settle_request-own r x rows rows' (err integrity_error) made gone id h =
    elim (Result-cases (get_by_external_digest r.external_reference_digest rows)) [
      | inr (e, bad) ↦ absurd (ground arith)
      | inl (none, missing) ↦ absurd (ground arith)
      | inl (some old, there) ↦
          let (found, valid) =
            checked_row-own (find (is_external r.external_reference_digest) rows) old there in
          let other =
            find-excludes (is_request r.id) (is_external r.external_reference_digest) rows old gone
              found in
          let same : old ≡ x = ground arith in
          let s = string_eq.beq_iff old.id r.id in absurd (ground arith)
    ]
settle_request-own r x rows rows' (err _) made gone id h = absurd (ground arith)

add_request-own :
    (r x : DevelopmentRequest) (rows : List DevelopmentRequest)
    → Requests.get_request r.id rows ≡ ok none
    → x.id ≡ r.id
    → (add_request r rows).0 ≡ ok x
    → (x ≡ r) × (add_request r rows ≡ (ok r, rows ++ r ∷ [])) × (find (is_request r.id) rows ≡ none)
unfolding add_request add_request_found Requests.get_request
add_request-own r x rows fresh id h =
    let gone = checked_row-none (find (is_request r.id) rows) fresh in
    let settled = settle_request r rows (insert_request r rows) in
    let made : settled.0 ≡ ok x = ground arith in
    let (same, new) =
      settle_request-own r x rows settled.1 (insert_request r rows) refl gone id
        (λ i. (made i, settled.1)) in
    (same, ground arith, gone)

differs_refl : (r : DevelopmentRequest) → differs r r ≡ false
unfolding differs
differs_refl r =
    let a = string_eq.beq_iff r.content_sha256 r.content_sha256 in
    let b = string_eq.beq_iff r.target_id r.target_id in
    let c = string_eq.beq_iff r.source r.source in
    let d = string_eq.beq_iff r.external_reference_digest r.external_reference_digest in
    let e = string_eq.beq_iff r.title r.title in
    let f = string_eq.beq_iff r.normalized_requirement_text r.normalized_requirement_text in
    ground arith

appended-read :
    (r : DevelopmentRequest) (rows : List DevelopmentRequest)
    → request_post_init r ≡ ok r
    → find (is_request r.id) rows ≡ none
    → Requests.get_request r.id (rows ++ r ∷ []) ≡ ok (some r)
appended-read r rows valid gone =
    let f = find-append_none (is_request r.id) rows (r ∷ []) gone in
    let s = string_eq.beq_iff r.id r.id in read_row r.id (rows ++ r ∷ []) r (f ∙ ground arith) valid

-- The request is stored under its id, with the content that was submitted.
abbrev IsKept : DevelopmentRequest → DevelopmentRequest → OperatorDb → Type 0
IsKept request stored s =
    (Requests.get_request request.id s.requests ≡ ok (some stored))
    × (differs stored request ≡ false)

store_request-IsKept :
    (request stored : DevelopmentRequest) (existing : Option DevelopmentRequest) (s s' : OperatorDb)
    → Requests.get_request request.id s.requests ≡ ok existing
    → store_request request existing s ≡ (ok stored, s')
    → IsKept request stored s'
unfolding store_request
store_request-IsKept request stored (some old) s s' there h =
    let same : old ≡ stored = ground arith in
    let last : s ≡ s' = ground arith in
    let d : differs old request ≡ false = ground arith in
    (
      subst (λ (u : OperatorDb). Requests.get_request request.id u.requests ≡ ok (some stored)) last
          (there ∙ ap (λ x. ok (some x)) same),
      subst (λ x. differs x request ≡ false) same d,
    )
store_request-IsKept request stored none s s' there h =
    elim (Result-cases (request_post_init request)) [
      | inr (e, bad) ↦ absurd (ground arith)
      | inl (r, made) ↦ elim (Result-cases (add_request r s.requests).0) [
        | inr (e, bad) ↦ absurd (ground arith)
        | inl (x, added) ↦
            let (own, valid) = request_post_init-own request r made in
            let i = string_eq.beq_iff x.id request.id in
            let id : x.id ≡ request.id = ground arith in
            let same : x ≡ stored = ground arith in
            let rows : (add_request r s.requests).1 ≡ s'.requests = ground arith in
            let added' : (add_request request s.requests).0 ≡ ok x =
              subst (λ y. (add_request y s.requests).0 ≡ ok x) own added in
            let (mine, all, gone) = add_request-own request x s.requests there id added' in
            let kept : s.requests ++ request ∷ [] ≡ s'.requests =
              sym (ap (λ q. q.1) all) ∙ ap (λ y. (add_request y s.requests).1) (sym own) ∙ rows in
            let last : request ≡ stored = sym mine ∙ same in
            (
              subst (λ v. Requests.get_request request.id v ≡ ok (some stored)) kept
                  (appended-read request s.requests valid gone ∙ ap (λ y. ok (some y)) last),
              subst (λ y. differs y request ≡ false) last (differs_refl request),
            )
      ]
    ]

pub emit-requests :
    (request_id cycle_id : Option String) (event_type : String) (payload : Payload) (now : ℕ)
    (s : OperatorDb)
    → (emit request_id cycle_id event_type payload now s).1.requests ≡ s.requests
unfolding emit
emit-requests request_id cycle_id event_type payload now s =
    elim (Result-cases (event_post_init (emitted request_id cycle_id event_type payload now))) [
      | inr (e, bad) ↦ ground arith
      | inl (f, made) ↦ ground arith
    ]

resubmit :
    (request x : DevelopmentRequest) (later : ℕ) (v : OperatorDb) (y : OperatorEvent)
    → Requests.get_request request.id v.requests ≡ ok (some x)
    → differs x request ≡ false
    → emit (some x.id) none "requirement_received" (received_payload x) later v ≡ (ok y, v)
    → submit_made request later v ≡ (ok x, v)
unfolding submit_made store_request
resubmit request x later v y there same again = ground arith

-- The second request may differ from the first where `differs` does not look.
submit_made_repeat :
    (request again_request stored : DevelopmentRequest) (now later : ℕ) (s s' : OperatorDb)
    → again_request.id ≡ request.id
    → ((x : DevelopmentRequest) → differs x again_request ≡ differs x request)
    → submit_made request now s ≡ (ok stored, s')
    → submit_made again_request later s' ≡ (ok stored, s')
unfolding submit_made
submit_made_repeat request again_request stored now later s s' same_id same_content h =
    elim (Result-cases (Requests.get_request request.id s.requests)) [
      | inr (e, bad) ↦ absurd (ground arith)
      | inl (existing, there) ↦ elim (Result-cases (store_request request existing s).0) [
        | inr (e, bad) ↦ absurd (ground arith)
        | inl (x, made) ↦
            let u = (store_request request existing s).1 in
            let event = emit (some x.id) none "requirement_received" (received_payload x) now u in
            elim (Result-cases event.0) [
              | inr (e, bad) ↦ absurd (ground arith)
              | inl (y, appended) ↦
                  let (back, same) =
                    store_request-IsKept request x existing s u there (λ i. (made i, u)) in
                  let v = event.1 in
                  let kept =
                    emit-requests (some x.id) none "requirement_received" (received_payload x) now
                      u in
                  let again =
                    emit_repeat (some x.id) none "requirement_received" (received_payload x) now
                      later u v y (λ i. (appended i, v)) in
                  let back' =
                    subst (λ i. Requests.get_request i v.requests ≡ ok (some x)) (sym same_id)
                      (ap (Requests.get_request request.id) kept ∙ back) in
                  let mine : x ≡ stored = ground arith in
                  let last : v ≡ s' = ground arith in
                  subst₂ (λ a t. submit_made again_request later t ≡ (ok a, t)) mine last
                    (resubmit again_request x later v y back' (same_content x ∙ same) again)
            ]
      ]
    ]

-- Submitting is idempotent: a submission that returned a stored request returns it again when it is
-- submitted later, with whatever clock and whatever time of creation, given or not, and stores
-- neither a second request nor a second event.
pub submit_request_repeat :
    (submission : RequirementSubmission) (created_at : Option ℕ) (stored : DevelopmentRequest)
    (now emitted_at later emitted_later : ℕ) (s s' : OperatorDb)
    → submit_request submission now emitted_at s ≡ (ok stored, s')
    → submit_request (record submission { created_at = created_at }) later emitted_later s'
      ≡ (ok stored, s')
unfolding submit_request submitted differs
submit_request_repeat submission created_at stored now emitted_at later emitted_later s s' h =
    submit_made_repeat (submitted submission now)
      (submitted (record submission { created_at = created_at }) later) stored emitted_at
      emitted_later s s' refl (λ x. refl) h

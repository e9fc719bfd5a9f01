-- ===== src/Operator/Requests.antt =====
-- Requests, analyses and interventions of `SqlOperatorRepository` in adapters/postgres/operator.py.
-- The tables hold the values themselves; a value that is read passes its constructor again.
use autonomous_development.Prelude.{
  ℕ, String, List, [], ◌∷◌, ◌++◌, Option, none, some, Bool, true, ◌&&◌, any, find, count_if, ◌==◌,
  ◌!=◌, nat_eq, string_eq, list_eq, if◌then◌else◌, Eq, ◌≡◌, ◌↔◌, option_eq, arith,
}
use autonomous_development.Prelude.Raise.{
  Error, Result, ok, err, raise_if, value_error, key_error, integrity_error, ◌>>=◌, ◌>>◌,
}
use autonomous_development.Domain.Enums.{intervention_status_eq}
use autonomous_development.Domain.Models.{
  DevelopmentRequest, request_post_init, RequirementAnalysis, analysis_post_init, HumanIntervention,
}

-- The dataclass equality of analyses and interventions.
abbrev analysis_beq : RequirementAnalysis → RequirementAnalysis → Bool
analysis_beq a b =
    a.id == b.id
    && (a.request_id == b.request_id
        && (a.summary == b.summary
            && (a.acceptance_criteria == b.acceptance_criteria
                && (a.requested_paths == b.requested_paths
                    && (a.expected_behavior == b.expected_behavior
                        && (a.risks == b.risks
                            && (a.missing_information == b.missing_information
                                && (a.ambiguity == b.ambiguity
                                    && (a.validation_expectations == b.validation_expectations
                                        && a.created_at == b.created_at)))))))))

pub analysis_beq_iff : (a b : RequirementAnalysis) → (analysis_beq a b ≡ true) ↔ (a ≡ b)
analysis_beq_iff a b =
    let i = string_eq.beq_iff a.id b.id in
    let r = string_eq.beq_iff a.request_id b.request_id in
    let s = string_eq.beq_iff a.summary b.summary in
    let c = (list_eq {A = String}).beq_iff a.acceptance_criteria b.acceptance_criteria in
    let p = (list_eq {A = String}).beq_iff a.requested_paths b.requested_paths in
    let e = (list_eq {A = String}).beq_iff a.expected_behavior b.expected_behavior in
    let k = (list_eq {A = String}).beq_iff a.risks b.risks in
    let m = (list_eq {A = String}).beq_iff a.missing_information b.missing_information in
    let y = (list_eq {A = String}).beq_iff a.ambiguity b.ambiguity in
    let v = (list_eq {A = String}).beq_iff a.validation_expectations b.validation_expectations in
    let t = nat_eq.beq_iff a.created_at b.created_at in ground arith

instance abbrev pub analysis_eq : Eq RequirementAnalysis
analysis_eq = record { beq = analysis_beq; beq_iff = analysis_beq_iff }

abbrev intervention_beq : HumanIntervention → HumanIntervention → Bool
intervention_beq a b =
    a.id == b.id
    && (a.request_id == b.request_id
        && (a.cycle_id == b.cycle_id
            && (a.kind == b.kind
                && (a.question == b.question
                    && (a.choices == b.choices
                        && (a.status == b.status
                            && (a.created_at == b.created_at
                                && (a.response == b.response
                                    && a.responded_at == b.responded_at))))))))

pub intervention_beq_iff : (a b : HumanIntervention) → (intervention_beq a b ≡ true) ↔ (a ≡ b)
intervention_beq_iff a b =
    let i = string_eq.beq_iff a.id b.id in
    let r = string_eq.beq_iff a.request_id b.request_id in
    let c = (option_eq {A = String}).beq_iff a.cycle_id b.cycle_id in
    let k = string_eq.beq_iff a.kind b.kind in
    let q = string_eq.beq_iff a.question b.question in
    let h = (list_eq {A = String}).beq_iff a.choices b.choices in
    let s = intervention_status_eq.beq_iff a.status b.status in
    let t = nat_eq.beq_iff a.created_at b.created_at in
    let p = (option_eq {A = String}).beq_iff a.response b.response in
    let d = (option_eq {A = ℕ}).beq_iff a.responded_at b.responded_at in ground arith

instance abbrev pub intervention_eq : Eq HumanIntervention
intervention_eq = record { beq = intervention_beq; beq_iff = intervention_beq_iff }

-- The value of a row that a query finds, checked by its constructor.
abbrev pub checked_row {ℓ} : {A : Type ℓ} → (A → Result A) → Option A → Result (Option A)
checked_row post_init none = ok none
checked_row post_init (some row) = do value ← post_init row; ok (some value)

abbrev pub is_request : String → DevelopmentRequest → Bool
is_request request_id r = r.id == request_id

abbrev pub is_external : String → DevelopmentRequest → Bool
is_external digest r = r.external_reference_digest == digest

unfoldable pub get_request : String → List DevelopmentRequest → Result (Option DevelopmentRequest)
unfolding request_post_init
get_request request_id rows = checked_row request_post_init (find (is_request request_id) rows)

-- `_get_by_external_digest`
unfoldable pub get_by_external_digest :
    String → List DevelopmentRequest → Result (Option DevelopmentRequest)
unfolding request_post_init
get_by_external_digest digest rows = checked_row request_post_init (find (is_external digest) rows)

-- The id is the primary key and the external digest is unique.
unfoldable pub insert_request :
    DevelopmentRequest → List DevelopmentRequest → Result (List DevelopmentRequest)
insert_request r rows = do
  raise_if (any (is_request r.id) rows) integrity_error
  raise_if (any (is_external r.external_reference_digest) rows) integrity_error
  ok (rows ++ r ∷ [])

unfoldable pub same_content : (request existing : DevelopmentRequest) → Result DevelopmentRequest
same_content request existing = do
  raise_if (existing.content_sha256 != request.content_sha256) value_error
  ok existing

-- `except IntegrityError` of `add_request`
unfoldable pub by_external :
    DevelopmentRequest → Option DevelopmentRequest → Result DevelopmentRequest
unfolding same_content
by_external request none = err integrity_error
by_external request (some existing) = same_content request existing

unfoldable pub settle_request :
    DevelopmentRequest
    → List DevelopmentRequest
    → Result (List DevelopmentRequest)
    → Result DevelopmentRequest × List DevelopmentRequest
unfolding by_external get_by_external_digest
settle_request r rows (ok rows') = (ok r, rows')
settle_request r rows (err integrity_error) = (
  do existing ← get_by_external_digest r.external_reference_digest rows; by_external r existing,
  rows,
)
settle_request r rows (err e) = (err e, rows)

unfoldable pub add_request_found :
    DevelopmentRequest
    → Result (Option DevelopmentRequest)
    → List DevelopmentRequest
    → Result DevelopmentRequest × List DevelopmentRequest
unfolding same_content settle_request insert_request
add_request_found r (err e) rows = (err e, rows)
add_request_found r (ok (some existing)) rows = (same_content r existing, rows)
add_request_found r (ok none) rows = settle_request r rows (insert_request r rows)

unfoldable pub add_request :
    DevelopmentRequest
    → List DevelopmentRequest
    → Result DevelopmentRequest × List DevelopmentRequest
unfolding add_request_found get_request
add_request r rows = add_request_found r (get_request r.id rows) rows

-- `UPDATE ... WHERE id`
abbrev pub replace_rows {ℓ} : {A : Type ℓ} → (A → Bool) → A → List A → List A
replace_rows is_row a [] = []
replace_rows is_row a (x ∷ xs) =
    let rest = replace_rows is_row a xs in if is_row x then a ∷ rest else x ∷ rest

unfoldable pub update_request :
    DevelopmentRequest
    → List DevelopmentRequest
    → Result DevelopmentRequest × List DevelopmentRequest
update_request r rows = (
  if count_if (is_request r.id) rows != 1 then err key_error else ok r,
  replace_rows (is_request r.id) r rows,
)

abbrev pub is_analysis : String → RequirementAnalysis → Bool
is_analysis request_id a = a.request_id == request_id

unfoldable pub get_analysis :
    String → List RequirementAnalysis → Result (Option RequirementAnalysis)
unfolding analysis_post_init
get_analysis request_id rows = checked_row analysis_post_init (find (is_analysis request_id) rows)

-- A value that is stored already has to be the same one: as a value error before the insert, and
-- as the insert's own error after it.
abbrev pub same_or {ℓ} : {A : Type ℓ} ⦃e : Eq A⦄ → Error → (value existing : A) → Result A
same_or e value existing = do raise_if (existing != value) e; ok existing

abbrev pub existing_or {ℓ} : {A : Type ℓ} ⦃e : Eq A⦄ → A → Option A → Result A
existing_or value none = err integrity_error
existing_or value (some existing) = same_or integrity_error value existing

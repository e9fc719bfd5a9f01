-- ===== src/Operator/Interventions.antt =====
-- Analyses and interventions of `SqlOperatorRepository` in adapters/postgres/operator.py.
use autonomous_development.Prelude.{
  ℕ, String, List, [], ◌∷◌, ◌++◌, Option, none, some, Bool, any, find, count_if, ◌==◌, ◌!=◌,
  string_eq, option_eq, if◌then◌else◌,
}
use autonomous_development.Prelude.Raise.{
  Result, ok, err, raise_if, value_error, key_error, integrity_error, ◌>>=◌, ◌>>◌,
}
use autonomous_development.Domain.Enums.{HumanInterventionStatus, intervention_status_eq}
use autonomous_development.Domain.Models.{
  RequirementAnalysis, HumanIntervention, is_answered, intervention_post_init,
}
use autonomous_development.Operator.Requests.{
  analysis_eq, intervention_eq, checked_row, replace_rows, is_analysis, get_analysis, same_or,
  existing_or,
}

-- The id is the primary key and a request has one analysis.
unfoldable pub insert_analysis :
    RequirementAnalysis → List RequirementAnalysis → Result (List RequirementAnalysis)
insert_analysis a rows = do
  raise_if (any (λ (x : RequirementAnalysis). x.id == a.id) rows) integrity_error
  raise_if (any (is_analysis a.request_id) rows) integrity_error
  ok (rows ++ a ∷ [])

unfoldable pub settle_analysis :
    RequirementAnalysis
    → List RequirementAnalysis
    → Result (List RequirementAnalysis)
    → Result RequirementAnalysis × List RequirementAnalysis
unfolding get_analysis
settle_analysis a rows (ok rows') = (ok a, rows')
settle_analysis a rows (err e) =
    (do existing ← get_analysis a.request_id rows; existing_or a existing, rows)

unfoldable pub add_analysis_found :
    RequirementAnalysis
    → Result (Option RequirementAnalysis)
    → List RequirementAnalysis
    → Result RequirementAnalysis × List RequirementAnalysis
unfolding insert_analysis settle_analysis
add_analysis_found a (err e) rows = (err e, rows)
add_analysis_found a (ok (some existing)) rows = (same_or value_error a existing, rows)
add_analysis_found a (ok none) rows = settle_analysis a rows (insert_analysis a rows)

unfoldable pub add_analysis :
    RequirementAnalysis
    → List RequirementAnalysis
    → Result RequirementAnalysis × List RequirementAnalysis
unfolding add_analysis_found get_analysis
add_analysis a rows = add_analysis_found a (get_analysis a.request_id rows) rows

abbrev pub is_intervention : String → HumanIntervention → Bool
is_intervention intervention_id i = i.id == intervention_id

unfoldable pub get_intervention :
    String → List HumanIntervention → Result (Option HumanIntervention)
unfolding intervention_post_init
get_intervention intervention_id rows =
    checked_row intervention_post_init (find (is_intervention intervention_id) rows)

unfoldable pub insert_intervention :
    HumanIntervention → List HumanIntervention → Result (List HumanIntervention)
insert_intervention i rows = do
  raise_if (any (is_intervention i.id) rows) integrity_error
  ok (rows ++ i ∷ [])

unfoldable pub settle_intervention :
    HumanIntervention
    → List HumanIntervention
    → Result (List HumanIntervention)
    → Result HumanIntervention × List HumanIntervention
unfolding get_intervention
settle_intervention i rows (ok rows') = (ok i, rows')
settle_intervention i rows (err e) =
    (do existing ← get_intervention i.id rows; existing_or i existing, rows)

unfoldable pub add_intervention_found :
    HumanIntervention
    → Result (Option HumanIntervention)
    → List HumanIntervention
    → Result HumanIntervention × List HumanIntervention
unfolding insert_intervention settle_intervention
add_intervention_found i (err e) rows = (err e, rows)
add_intervention_found i (ok (some existing)) rows = (same_or value_error i existing, rows)
add_intervention_found i (ok none) rows = settle_intervention i rows (insert_intervention i rows)

unfoldable pub add_intervention :
    HumanIntervention → List HumanIntervention → Result HumanIntervention × List HumanIntervention
unfolding add_intervention_found get_intervention
add_intervention i rows = add_intervention_found i (get_intervention i.id rows) rows

-- The intervention with its response.
unfoldable pub answered :
    HumanIntervention → (response : String) → (responded_at : ℕ) → HumanIntervention
answered i response responded_at = record i {
  status = HumanInterventionStatus.responded;
  response = some response;
  responded_at = some responded_at;
}

unfoldable pub write_response :
    (intervention_id : String)
    → Result HumanIntervention
    → List HumanIntervention
    → Result HumanIntervention × List HumanIntervention
write_response intervention_id (err e) rows = (err e, rows)
write_response intervention_id (ok updated) rows =
    (ok updated, replace_rows (is_intervention intervention_id) updated rows)

unfoldable pub respond_found :
    (intervention_id response : String)
    → (responded_at : ℕ) → Result (Option HumanIntervention)
    → List HumanIntervention
    → Result HumanIntervention × List HumanIntervention
unfolding answered write_response intervention_post_init
respond_found intervention_id response responded_at (err e) rows = (err e, rows)
respond_found intervention_id response responded_at (ok none) rows = (err key_error, rows)
respond_found intervention_id response responded_at (ok (some existing)) rows =
    if is_answered existing.status
    then (if existing.response != some response then err value_error else ok existing, rows)
    else write_response intervention_id
        (intervention_post_init (answered existing response responded_at)) rows

unfoldable pub respond_intervention :
    (intervention_id response : String)
    → (responded_at : ℕ) → List HumanIntervention
    → Result HumanIntervention × List HumanIntervention
unfolding respond_found get_intervention
respond_intervention intervention_id response responded_at rows =
    respond_found intervention_id response responded_at (get_intervention intervention_id rows) rows

abbrev pub is_open : HumanIntervention → Bool
is_open i = i.status == HumanInterventionStatus.opened

unfoldable pub pending_intervention_count : List HumanIntervention → ℕ
pending_intervention_count rows = count_if is_open rows

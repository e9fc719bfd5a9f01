-- ===== src/Windows/Service.antt =====
-- `EvidenceWindowService` of application/evidence_windows.py, over the `TelemetryProvider` of
-- ports/telemetry.py.
use autonomous_development.Prelude.{
  ℕ, String, List, [], ◌∷◌, Option, none, some, Bool, true, false, not, ◌&&◌, ◌||◌, elem, is_empty,
  is_blank, map, concat, ltb, leb, ◌!=◌, nat_eq, string_eq, option_eq, list_eq, if◌then◌else◌,
}
use autonomous_development.Prelude.Raise.{
  Result, ok, err, raise_if, require, value_error, ◌>>=◌, ◌>>◌,
}
use autonomous_development.Domain.Models.{
  ReleasedVersion, UserFeedback, EvidenceWindow, window_post_init,
}
use autonomous_development.Catalog.Sql.{CatalogDb}
use autonomous_development.Catalog.Service as Catalog
use autonomous_development.Feedback.Sql.{get_feedback, list_attributable}
use autonomous_development.Windows.Sql.{add_window, get_window}

pub record TelemetryEvidence : Type 0 where
  pub evidence_refs : List String
  pub missing_metrics : List String

-- `TelemetryProvider.collect`
abbrev pub Collect : Type 0
Collect = (target_id release_id : String) (opened_at closed_at : ℕ) → Result TelemetryEvidence

-- What `close` reads.
pub record WindowSources : Type 0 where
  pub catalog : CatalogDb
  pub feedback : List UserFeedback
  pub collect : Collect

pub record WindowRequest : Type 0 where
  pub window_id : String
  pub target_id : String
  pub opened_at : ℕ
  pub closed_at : ℕ
  pub feedback_ids : Option (List String)

-- `len(set(ids)) == len(ids)`
unfoldable pub is_distinct : List String → Bool
is_distinct [] = true
is_distinct (id ∷ ids) = not (elem id ids) && is_distinct ids

unfoldable pub refuses_ids : Option (List String) → Bool
unfolding is_distinct
refuses_ids none = false
refuses_ids (some ids) = is_empty ids || not (is_distinct ids)

unfoldable pub check_request : WindowRequest → Result (Unit {0})
unfolding refuses_ids
check_request request = do
  raise_if (is_blank request.window_id) value_error
  raise_if (ltb request.closed_at request.opened_at) value_error
  raise_if (refuses_ids request.feedback_ids) value_error

abbrev pub id_ref : String → String
id_ref feedback_id = concat "feedback:" feedback_id

abbrev pub feedback_ref : UserFeedback → String
feedback_ref f = id_ref f.id

unfoldable pub is_other_feedback : EvidenceWindow → Option (List String) → Bool
is_other_feedback window none = false
is_other_feedback window (some ids) = window.feedback_refs != map id_ref ids

-- `_validate_existing_window`
unfoldable pub validate_existing_window : WindowRequest → EvidenceWindow → Result EvidenceWindow
unfolding is_other_feedback
validate_existing_window request window = do
  raise_if
      (window.target_id != request.target_id
        || window.opened_at != request.opened_at
        || window.closed_at != request.closed_at)
      value_error
  raise_if (is_other_feedback window request.feedback_ids) value_error
  ok window

unfoldable pub check_item : WindowRequest → ReleasedVersion → UserFeedback → Result UserFeedback
check_item request serving item = do
  raise_if
      (item.target_id != request.target_id
        || item.release_id != some serving.id && item.deployment_id != some serving.deployment_id)
      value_error
  raise_if (not (leb request.opened_at item.received_at && leb item.received_at request.closed_at))
      value_error
  ok item

-- `_explicit_feedback`
unfoldable pub explicit_feedback :
    WindowRequest
    → ReleasedVersion
    → (feedback_ids : List String) → List UserFeedback
    → Result (List UserFeedback)
unfolding check_item
explicit_feedback request serving [] rows = ok []
explicit_feedback request serving (id ∷ ids) rows = do
  found ← get_feedback id rows
  read ← require found value_error
  item ← check_item request serving read
  items ← explicit_feedback request serving ids rows
  ok (item ∷ items)

unfoldable pub window_feedback :
    WindowRequest
    → ReleasedVersion
    → Option (List String)
    → List UserFeedback
    → Result (List UserFeedback)
unfolding explicit_feedback
window_feedback request serving (some ids) rows = explicit_feedback request serving ids rows
window_feedback request serving none rows =
    list_attributable request.target_id serving.id serving.deployment_id request.opened_at
      request.closed_at rows

abbrev pub later_of : ℕ → ℕ → ℕ
later_of a b = if leb b a then a else b

unfoldable pub window_telemetry :
    WindowRequest → ReleasedVersion → Collect → Result TelemetryEvidence
window_telemetry request serving collect =
    let telemetry_opened_at = later_of request.opened_at serving.promoted_at in
    if ltb request.closed_at telemetry_opened_at
    then ok
        (record { evidence_refs = []; missing_metrics = "serving-release-not-yet-promoted" ∷ [] })
    else collect request.target_id serving.id telemetry_opened_at request.closed_at

unfoldable pub window_of :
    WindowRequest → ReleasedVersion → List UserFeedback → TelemetryEvidence → EvidenceWindow
window_of request serving feedback telemetry = record {
  id = request.window_id;
  target_id = request.target_id;
  release_ids = serving.id ∷ [];
  opened_at = request.opened_at;
  closed_at = request.closed_at;
  telemetry_refs = telemetry.evidence_refs;
  feedback_refs = map feedback_ref feedback;
  regression_refs = [];
  incident_refs = [];
  missing_evidence = map (λ metric. concat "telemetry:" metric) telemetry.missing_metrics;
}

-- The window of an id that is new.
unfoldable pub new_window : WindowRequest → WindowSources → Result EvidenceWindow
unfolding window_feedback window_telemetry window_of
new_window request sources = do
  found ← (Catalog.serving request.target_id sources.catalog).0
  serving ← require found value_error
  feedback ← window_feedback request serving request.feedback_ids sources.feedback
  telemetry ← window_telemetry request serving sources.collect
  window_post_init (window_of request serving feedback telemetry)

unfoldable pub store_window :
    Result EvidenceWindow → List EvidenceWindow → Result EvidenceWindow × List EvidenceWindow
store_window (ok window) rows = add_window window rows
store_window (err raised) rows = (err raised, rows)

unfoldable pub close_found :
    WindowRequest
    → WindowSources
    → Result (Option EvidenceWindow)
    → List EvidenceWindow
    → Result EvidenceWindow × List EvidenceWindow
unfolding validate_existing_window new_window store_window
close_found request sources (err raised) rows = (err raised, rows)
close_found request sources (ok (some existing)) rows =
    (validate_existing_window request existing, rows)
close_found request sources (ok none) rows = store_window (new_window request sources) rows

unfoldable pub close_checked :
    WindowRequest
    → WindowSources
    → Result (Unit {0})
    → List EvidenceWindow
    → Result EvidenceWindow × List EvidenceWindow
unfolding close_found
close_checked request sources (err raised) rows = (err raised, rows)
close_checked request sources (ok u) rows =
    close_found request sources (get_window request.window_id rows) rows

unfoldable pub close :
    WindowRequest
    → WindowSources
    → List EvidenceWindow
    → Result EvidenceWindow × List EvidenceWindow
unfolding check_request close_checked
close request sources rows = close_checked request sources (check_request request) rows

unfoldable pub get : (window_id : String) → List EvidenceWindow → Result (Option EvidenceWindow)
get window_id rows = get_window window_id rows

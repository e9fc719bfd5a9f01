-- ===== src/Diagnoses/References.antt =====
-- `_feedback_for_window` of application/diagnosis.py.
use autonomous_development.Prelude.{
  ℕ, zero, suc, String, List, [], ◌∷◌, not, ◌||◌, starts_with, ◌!=◌, string_eq,
}
use autonomous_development.Prelude.Raise.{Result, ok, raise_if, require, value_error, ◌>>=◌, ◌>>◌}
use autonomous_development.Domain.Models.{EvidenceWindow, UserFeedback, attributable}
use autonomous_development.Feedback.Sql.{get_feedback}

-- `ref.removeprefix("feedback:")`, where the prefix is there
abbrev pub drop_text : ℕ → String → String
drop_text zero s = s
drop_text (suc n) String.[] = String.[]
drop_text (suc n) (String.◌∷◌ c s) = drop_text n s

unfoldable pub of_window : EvidenceWindow → UserFeedback → Result UserFeedback
unfolding attributable
of_window window feedback = do
  raise_if (feedback.target_id != window.target_id || not (attributable feedback)) value_error
  ok feedback

unfoldable pub resolve_ref : EvidenceWindow → String → List UserFeedback → Result UserFeedback
unfolding of_window
resolve_ref window ref rows = do
  raise_if (not (starts_with ref "feedback:")) value_error
  found ← get_feedback (drop_text 9 ref) rows
  feedback ← require found value_error
  of_window window feedback

unfoldable pub resolve_refs :
    EvidenceWindow → (refs : List String) → List UserFeedback → Result (List UserFeedback)
unfolding resolve_ref
resolve_refs window [] rows = ok []
resolve_refs window (ref ∷ refs) rows = do
  feedback ← resolve_ref window ref rows
  items ← resolve_refs window refs rows
  ok (feedback ∷ items)

unfoldable pub feedback_for_window : EvidenceWindow → List UserFeedback → Result (List UserFeedback)
unfolding resolve_refs
feedback_for_window window rows = resolve_refs window window.feedback_refs rows

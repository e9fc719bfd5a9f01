-- ===== src/Domain/Models/Proposal.antt =====
-- `ChangeProposal` of domain/models.py.
use autonomous_development.Prelude.{
  ℕ, String, List, [], ◌∷◌, Option, none, some, Bool, true, false, ◌&&◌, ◌||◌, is_empty, is_some,
  is_blank, codes, length, ltb,
}
use autonomous_development.Prelude.Raise.{Result, ok, raise_if, value_error, ◌>>◌}
use autonomous_development.Domain.Models.Fields.{required_all}

pub record ChangeProposal : Type 0 where
  pub id : String
  pub target_id : String
  pub baseline_release_id : String
  pub baseline_commit : String
  pub objective_revision_id : String
  pub diagnosis_id : Option String
  pub acceptance_criteria : List String
  pub allowed_paths : List String
  pub forbidden_paths : List String
  pub max_implementation_attempts : ℕ
  pub mandatory_gates : List String
  pub change_intent : Option String
  pub max_changed_files : ℕ

abbrev lacks_intent : Option String → Bool
lacks_intent none = true
lacks_intent (some intent) = is_blank intent

abbrev overlong_intent : Option String → Bool
overlong_intent none = false
overlong_intent (some intent) = ltb 4000 (length (codes intent))

unfoldable pub proposal_post_init : ChangeProposal → Result ChangeProposal
unfolding required_all
proposal_post_init p = do
  required_all (
      p.id ∷ p.target_id ∷ p.baseline_release_id ∷ p.baseline_commit ∷ p.objective_revision_id ∷ [])
  raise_if
      (is_empty p.acceptance_criteria || is_empty p.allowed_paths || is_empty p.mandatory_gates)
      value_error
  raise_if (ltb p.max_implementation_attempts 1) value_error
  raise_if (ltb p.max_changed_files 1) value_error
  raise_if (is_some p.diagnosis_id && lacks_intent p.change_intent) value_error
  raise_if (overlong_intent p.change_intent) value_error
  ok p

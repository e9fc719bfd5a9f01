-- ===== src/Domain/Models/Verification.antt =====
-- `VerificationCheck`, `VerificationRun` and `ReleaseDecision` of domain/models.py. The
-- measurements of a check are read by no modelled code.
use autonomous_development.Prelude.{
  ℕ, String, List, [], ◌∷◌, Bool, is_empty, ltb, ◌==◌, all, elem, string_eq, if◌then◌else◌,
}
use autonomous_development.Prelude.Raise.{Result, ok, raise_if, value_error, ◌>>◌}
use autonomous_development.Domain.Enums.{
  VerificationStatus, verification_status_eq, ReleaseDecisionKind,
}
use autonomous_development.Domain.Models.Fields.{required_all}

pub record VerificationCheck : Type 0 where
  pub id : String
  pub gate : String
  pub status : VerificationStatus
  pub started_at : ℕ
  pub ended_at : ℕ
  pub evidence_refs : List String

unfoldable pub check_post_init : VerificationCheck → Result VerificationCheck
unfolding required_all
check_post_init c = do
  required_all (c.id ∷ c.gate ∷ [])
  raise_if (ltb c.ended_at c.started_at) value_error
  raise_if (is_empty c.evidence_refs) value_error
  ok c

pub record VerificationRun : Type 0 where
  pub id : String
  pub candidate_id : String
  pub checks : List VerificationCheck

unfoldable pub run_post_init : VerificationRun → Result VerificationRun
unfolding required_all
run_post_init r = do
  required_all (r.id ∷ r.candidate_id ∷ [])
  raise_if (is_empty r.checks) value_error
  ok r

abbrev pub check_passed : VerificationCheck → Bool
check_passed c = c.status == VerificationStatus.passed

-- `VerificationRun.passed`
unfoldable pub run_passed : VerificationRun → Bool
run_passed r = all check_passed r.checks

-- `VerificationRun.passed_gates`, a set kept as a list without repetition.
unfoldable pub gates_passed : List VerificationCheck → List String
gates_passed [] = []
gates_passed (c ∷ checks) =
    let rest = gates_passed checks in
    if check_passed c then (if elem c.gate rest then rest else c.gate ∷ rest) else rest

unfoldable pub passed_gates : VerificationRun → List String
unfolding gates_passed
passed_gates r = gates_passed r.checks

pub record ReleaseDecision : Type 0 where
  pub kind : ReleaseDecisionKind
  pub cycle_id : String
  pub gate_refs : List String
  pub evidence_refs : List String
  pub reason : String

unfoldable pub release_decision_post_init : ReleaseDecision → Result ReleaseDecision
unfolding required_all
release_decision_post_init d = do required_all (d.cycle_id ∷ d.reason ∷ []); ok d

-- ===== src/Proposals/Service.antt =====
-- `ProposalService` of application/proposals.py.
use autonomous_development.Prelude.{
  String, List, Option, some, is_blank, codes, concat, length, ltb, ◌!=◌, string_eq,
}
use autonomous_development.Prelude.Raise.{Result, ok, err, raise_if, value_error, ◌>>=◌, ◌>>◌}
use autonomous_development.Domain.Canary.Floats.{Floats}
use autonomous_development.Domain.Models.{
  Diagnosis, ProductObjectiveRevision, ReleasedVersion, ChangeProposal, proposal_post_init,
}
use autonomous_development.Domain.Policies.Scope.{validate_changed_paths}
use autonomous_development.Proposals.Sql.{add_proposal, get_proposal}

unfoldable pub store_proposal :
    Result ChangeProposal → List ChangeProposal → Result ChangeProposal × List ChangeProposal
store_proposal (ok proposal) rows = add_proposal proposal rows
store_proposal (err raised) rows = (err raised, rows)

unfoldable pub add :
    ChangeProposal → List ChangeProposal → Result ChangeProposal × List ChangeProposal
add proposal rows = add_proposal proposal rows

unfoldable pub get : (proposal_id : String) → List ChangeProposal → Result (Option ChangeProposal)
get proposal_id rows = get_proposal proposal_id rows

module _ {fl : Floats} where
  -- `_change_intent`
  unfoldable pub intent_text : Diagnosis fl → String
  intent_text d = concat "Observed problem: " (
      concat d.observed_problem (
        concat "\nLikely root cause: "
          (concat d.likely_root_cause (concat "\nExpected outcome: " d.expected_outcome))))

  unfoldable pub change_intent : Diagnosis fl → Result String
  unfolding intent_text
  change_intent d = do
    raise_if (ltb 4000 (length (codes (intent_text d)))) value_error
    ok (intent_text d)

  -- The fields of the guard and of the proposal, which differ in `allowed_paths`.
  abbrev pub drafted :
      Diagnosis fl
      → ProductObjectiveRevision
      → ReleasedVersion
      → (proposal_id : String) (mandatory_gates allowed_paths : List String) (intent : String)
      → ChangeProposal
  drafted diagnosis objective baseline proposal_id mandatory_gates allowed_paths intent = record {
    id = proposal_id;
    target_id = objective.target_id;
    baseline_release_id = baseline.id;
    baseline_commit = baseline.source_commit;
    objective_revision_id = objective.id;
    diagnosis_id = some diagnosis.id;
    acceptance_criteria = objective.acceptance_criteria;
    allowed_paths = allowed_paths;
    forbidden_paths = objective.mutation_policy.forbidden_paths;
    max_implementation_attempts = objective.mutation_policy.max_implementation_attempts;
    mandatory_gates = mandatory_gates;
    change_intent = some intent;
    max_changed_files = objective.mutation_policy.max_changed_files;
  }

  unfoldable pub draft :
      Diagnosis fl
      → ProductObjectiveRevision
      → ReleasedVersion
      → (proposal_id : String) (mandatory_gates allowed_paths : List String) → Result ChangeProposal
  unfolding change_intent
  draft diagnosis objective baseline proposal_id mandatory_gates allowed_paths = do
    intent ← change_intent diagnosis
    proposal_post_init
        (drafted diagnosis objective baseline proposal_id mandatory_gates allowed_paths intent)

  -- `from_diagnosis` up to the call of the repository.
  unfoldable pub scoped :
      Diagnosis fl
      → ProductObjectiveRevision
      → ReleasedVersion
      → (proposal_id : String) (mandatory_gates : List String) → Result ChangeProposal
  unfolding draft
  scoped diagnosis objective baseline proposal_id mandatory_gates = do
    raise_if (is_blank proposal_id) value_error
    raise_if (baseline.target_id != objective.target_id) value_error
    raise_if (baseline.objective_revision_id != objective.id) value_error
    raise_if (ltb objective.mutation_policy.max_changed_files (length diagnosis.requested_paths))
        value_error
    guard ←
        draft diagnosis objective baseline proposal_id mandatory_gates
          objective.mutation_policy.allowed_paths
    validate_changed_paths guard diagnosis.requested_paths
    draft diagnosis objective baseline proposal_id mandatory_gates diagnosis.requested_paths

  unfoldable pub from_diagnosis :
      Diagnosis fl
      → ProductObjectiveRevision
      → ReleasedVersion
      → (proposal_id : String) (mandatory_gates : List String) → List ChangeProposal
      → Result ChangeProposal × List ChangeProposal
  unfolding scoped store_proposal
  from_diagnosis diagnosis objective baseline proposal_id mandatory_gates rows =
      store_proposal (scoped diagnosis objective baseline proposal_id mandatory_gates) rows

-- ===== src/Proposals/Sql.antt =====
-- `SqlChangeProposalRepository` of adapters/postgres/proposals.py.
use autonomous_development.Prelude.{
  ℕ, String, List, Option, nat_eq, string_eq, option_eq, list_eq, Eq, refl,
}
use autonomous_development.Prelude.Raise.{Result}
use autonomous_development.Domain.Models.{ChangeProposal, proposal_post_init}
use autonomous_development.Records as Records
use autonomous_development.Records.Dataclass.{pair_eq, dataclass_eq}

abbrev ChangeProposalFields : Type 0
ChangeProposalFields =
    String
    × (String
        × (String
            × (String
                × (String
                    × (Option String
                        × (List String
                            × (List String
                                × (List String × (ℕ × (List String × (Option String × ℕ)))))))))))

abbrev proposal_of_fields : ChangeProposalFields → ChangeProposal
proposal_of_fields (x1, (x2, (x3, (x4, (x5, (x6, (x7, (x8, (x9, (x10, (x11, (x12, x13)))))))))))) =
    record {
      id = x1;
      target_id = x2;
      baseline_release_id = x3;
      baseline_commit = x4;
      objective_revision_id = x5;
      diagnosis_id = x6;
      acceptance_criteria = x7;
      allowed_paths = x8;
      forbidden_paths = x9;
      max_implementation_attempts = x10;
      mandatory_gates = x11;
      change_intent = x12;
      max_changed_files = x13;
    }

abbrev fields_of_proposal : ChangeProposal → ChangeProposalFields
fields_of_proposal p = (
  p.id,
  (
    p.target_id,
    (
      p.baseline_release_id,
      (
        p.baseline_commit,
        (
          p.objective_revision_id,
          (
            p.diagnosis_id,
            (
              p.acceptance_criteria,
              (
                p.allowed_paths,
                (
                  p.forbidden_paths,
                  (
                    p.max_implementation_attempts,
                    (p.mandatory_gates, (p.change_intent, p.max_changed_files)),
                  ),
                ),
              ),
            ),
          ),
        ),
      ),
    ),
  ),
)

instance abbrev pub proposal_eq : Eq ChangeProposal
proposal_eq = dataclass_eq fields_of_proposal proposal_of_fields (λ p. refl)

abbrev pub proposal_id_of : ChangeProposal → String
proposal_id_of p = p.id

unfoldable pub add_proposal :
    ChangeProposal → List ChangeProposal → Result ChangeProposal × List ChangeProposal
unfolding Records.add
add_proposal = Records.add proposal_id_of proposal_post_init

unfoldable pub get_proposal :
    (proposal_id : String) → List ChangeProposal → Result (Option ChangeProposal)
unfolding Records.get
get_proposal = Records.get proposal_id_of proposal_post_init

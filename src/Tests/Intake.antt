-- ===== src/Tests/Intake.antt =====
-- A target with its objective, a proposal for a diagnosis, and an evidence window.
use autonomous_development.Prelude.{String, List, ◌∷◌, [], some, none, ◌≡◌, refl}
use autonomous_development.Prelude.Raise.{ok}
use autonomous_development.Domain.Models.{
  MutationPolicy, ProductObjectiveRevision, DevelopmentTarget, Diagnosis, ChangeProposal,
  EvidenceWindow,
}
use autonomous_development.Targets.Sql.{RegistryDb, target_from_row, objective_from_row}
use autonomous_development.Targets.Service.{register, get_target, get_active_objective}
use autonomous_development.Targets.Registered.{IsValidTarget, IsValidObjective, register-get}
use autonomous_development.Proposals.Sql.{get_proposal}
use autonomous_development.Proposals.Service.{intent_text, drafted, from_diagnosis}
use autonomous_development.Proposals.InScope.{IsAllowed, IsProposalOf, from_diagnosis-IsAllowed}
use autonomous_development.Windows.Service.{WindowSources, WindowRequest, close}
use autonomous_development.Windows.Repeats.{close-repeat}
use autonomous_development.Tests.Data.{thousandths}
use autonomous_development.Tests.Catalogue.{catalog, release_one}
use autonomous_development.Tests.Feedback.{attributed}

abbrev policy : MutationPolicy
policy = record {
  allowed_paths = "app" ∷ [];
  forbidden_paths = "app/keys" ∷ [];
  max_changed_files = 5;
  max_implementation_attempts = 2;
}

abbrev pub objective : ProductObjectiveRevision
objective = record {
  id = "o";
  target_id = "t";
  statement = "answer fast";
  acceptance_criteria = "p95" ∷ [];
  primary_metrics = [];
  reliability_constraints = [];
  performance_constraints = [];
  security_constraints = [];
  mutation_policy = policy;
  created_at = 1;
}

abbrev pub target : DevelopmentTarget
target = record {
  id = "t";
  repository = "repo";
  default_branch = "main";
  target_contract_revision = "1";
  active_objective_revision_id = "o";
  mutation_policy = policy;
  current_release_id = none;
}

abbrev empty_registry : RegistryDb
empty_registry = record { targets = []; objectives = [] }

abbrev pub registry : RegistryDb
registry = record { targets = target ∷ []; objectives = objective ∷ [] }

target_valid : IsValidTarget target
unfolding target_from_row autonomous_development.Prelude.is_blank
target_valid = refl

objective_valid : IsValidObjective objective
unfolding objective_from_row autonomous_development.Prelude.is_blank
objective_valid = refl

register_runs : register target objective empty_registry ≡ (ok target, registry)
unfolding register autonomous_development.Targets.Service.put_objective
    autonomous_development.Targets.Sql.add_objective autonomous_development.Targets.Sql.add_target
register_runs = refl

register-get_example :
    (target ≡ target)
    × (get_target "t" registry ≡ ok target)
    × (get_active_objective target registry ≡ ok objective)
    × (policy ≡ policy)
register-get_example =
    register-get target target objective empty_registry registry target_valid objective_valid
      register_runs

abbrev diagnosis : Diagnosis thousandths
diagnosis = record {
  id = "g";
  evidence_window_id = "w";
  observed_problem = "slow";
  affected_journey = "search";
  evidence_refs = "feedback:f" ∷ [];
  confidence = 700;
  competing_hypotheses = [];
  likely_root_cause = "loop";
  proposed_change_class = "code";
  expected_outcome = "fast";
  risks = [];
  requested_paths = "app/search.py" ∷ [];
  required_validation = [];
}

abbrev proposal : ChangeProposal
unfolding intent_text
proposal =
    drafted diagnosis objective release_one "p" ("unit" ∷ []) ("app/search.py" ∷ [])
      (intent_text diagnosis)

from_diagnosis_runs :
    from_diagnosis diagnosis objective release_one "p" ("unit" ∷ []) []
    ≡ (ok proposal, proposal ∷ [])
unfolding from_diagnosis autonomous_development.Prelude.is_blank
    autonomous_development.Domain.Models.proposal_post_init
    autonomous_development.Domain.Policies.Scope.validate_changed_paths
    autonomous_development.Domain.Policies.Scope.canonical
    autonomous_development.Domain.Policies.Scope.normalize_all
    autonomous_development.Domain.Policies.Scope.normalize_prefix
    autonomous_development.Domain.Policies.Scope.normalize_path
    autonomous_development.Domain.Policies.Paths.starts_with
    autonomous_development.Domain.Policies.Paths.contains
    autonomous_development.Domain.Policies.Scope.check_paths
    autonomous_development.Domain.Policies.Scope.check_path
    autonomous_development.Domain.Policies.Scope.matches
    autonomous_development.Domain.Policies.Paths.parts
    autonomous_development.Domain.Policies.Paths.parents
    autonomous_development.Proposals.Sql.add_proposal
from_diagnosis_runs = refl

from_diagnosis-IsAllowed_example :
    IsProposalOf diagnosis objective release_one "p" ("unit" ∷ []) proposal
    × IsAllowed objective ("app/search.py" ∷ [])
    × (get_proposal "p" (proposal ∷ []) ≡ ok (some proposal))
unfolding proposal
from_diagnosis-IsAllowed_example =
    from_diagnosis-IsAllowed diagnosis objective release_one "p" ("unit" ∷ []) [] (proposal ∷ [])
      proposal from_diagnosis_runs

-- The feedback is of the release that serves, once it is attributed to it.
abbrev request : WindowRequest
request = record {
  window_id = "w";
  target_id = "t";
  opened_at = 2;
  closed_at = 9;
  feedback_ids = some ("f" ∷ []);
}

abbrev pub sources : WindowSources
sources = record {
  catalog = catalog;
  feedback = record attributed { release_id = some "r1" } ∷ [];
  collect = λ t r o c. ok (record { evidence_refs = "m" ∷ []; missing_metrics = [] });
}

abbrev later : WindowSources
later = record sources { feedback = [] }

abbrev pub window : EvidenceWindow
window = record {
  id = "w";
  target_id = "t";
  release_ids = "r1" ∷ [];
  opened_at = 2;
  closed_at = 9;
  telemetry_refs = "m" ∷ [];
  feedback_refs = "feedback:f" ∷ [];
  regression_refs = [];
  incident_refs = [];
  missing_evidence = [];
}

close_runs : close request sources [] ≡ (ok window, window ∷ [])
unfolding close autonomous_development.Prelude.is_blank
    autonomous_development.Windows.Sql.get_window autonomous_development.Catalog.Service.serving
    autonomous_development.Catalog.Sql.get_serving
    autonomous_development.Domain.Models.release_post_init
    autonomous_development.Feedback.Sql.get_feedback
    autonomous_development.Domain.Models.feedback_post_init
    autonomous_development.Domain.Models.window_post_init
    autonomous_development.Windows.Sql.add_window
close_runs = refl

close-repeat_example : close request later (window ∷ []) ≡ (ok window, window ∷ [])
close-repeat_example = close-repeat request sources later [] (window ∷ []) window close_runs

-- ===== src/Proposals/InScope.antt =====
-- What is known of a proposal that `from_diagnosis` of application/proposals.py returns.
use autonomous_development.Prelude.{
  ◌≤◌, String, List, some, false, any, All, length, codes, ◌==◌, nat_eq, string_eq, list_eq, ◌≡◌,
  sym, subst, ap, arith, inl, inr,
}
use autonomous_development.Prelude.Raise.{ok, >>=-eq-ok, Result-cases}
use autonomous_development.Domain.Canary.Floats.{Floats}
use autonomous_development.Domain.Models.{
  Diagnosis, ProductObjectiveRevision, ReleasedVersion, ChangeProposal, proposal_post_init,
}
use autonomous_development.Domain.Policies.Paths.{Text}
use autonomous_development.Domain.Policies.Scope.{
  canonical, contract, normalize_all, validate_changed_paths,
}
use autonomous_development.Domain.Policies.Accepted.{IsInScope, validate_changed_paths_sound}
use autonomous_development.Records.{add-get}
use autonomous_development.Proposals.Sql.{proposal_eq, proposal_id_of, add_proposal, get_proposal}
use autonomous_development.Proposals.Service.{
  store_proposal, drafted, change_intent, draft, scoped, from_diagnosis,
}

-- The requested paths lie in the scope that the objective allows.
pub record IsAllowed (objective : ProductObjectiveRevision) (paths : List String) : Type 0 where
  pub some_path : 1 ≤ length paths
  pub within_budget : length paths ≤ objective.mutation_policy.max_changed_files
  -- As texts: a path that only normalises to the contract is not excluded.
  pub no_contract : any (λ p. canonical (codes p) == contract) paths ≡ false
  pub allowed : List (List Text)
  pub forbidden : List (List Text)
  pub allowed_by_policy : normalize_all objective.mutation_policy.allowed_paths ≡ ok allowed
  pub forbidden_by_policy : normalize_all objective.mutation_policy.forbidden_paths ≡ ok forbidden
  pub in_scope : All (IsInScope allowed forbidden) paths

post_init-own :
    (p q : ChangeProposal) → proposal_post_init p ≡ ok q → (q ≡ p) × (proposal_post_init p ≡ ok p)
unfolding proposal_post_init
post_init-own p q h = (ground arith, ground arith)

module _ {fl : Floats} where
  -- The proposal of a diagnosis, an objective and the baseline that the objective governs.
  pub record IsProposalOf (diagnosis : Diagnosis fl) (objective : ProductObjectiveRevision)
      (baseline : ReleasedVersion) (proposal_id : String) (mandatory_gates : List String)
      (proposal : ChangeProposal) : Type 0 where
    pub intent : String
    pub governed : baseline.objective_revision_id ≡ objective.id
    pub same_target : baseline.target_id ≡ objective.target_id
    pub explained : change_intent diagnosis ≡ ok intent
    pub id : proposal.id ≡ proposal_id
    pub target_id : proposal.target_id ≡ objective.target_id
    pub baseline_release_id : proposal.baseline_release_id ≡ baseline.id
    pub baseline_commit : proposal.baseline_commit ≡ baseline.source_commit
    pub objective_revision_id : proposal.objective_revision_id ≡ objective.id
    pub diagnosis_id : proposal.diagnosis_id ≡ some diagnosis.id
    pub acceptance_criteria : proposal.acceptance_criteria ≡ objective.acceptance_criteria
    pub allowed_paths : proposal.allowed_paths ≡ diagnosis.requested_paths
    pub forbidden_paths : proposal.forbidden_paths ≡ objective.mutation_policy.forbidden_paths
    pub max_implementation_attempts :
        proposal.max_implementation_attempts ≡ objective.mutation_policy.max_implementation_attempts
    pub gates : proposal.mandatory_gates ≡ mandatory_gates
    pub change_intent : proposal.change_intent ≡ some intent
    pub max_changed_files : proposal.max_changed_files ≡ objective.mutation_policy.max_changed_files

  drafted-IsProposalOf :
      (d : Diagnosis fl) (o : ProductObjectiveRevision) (b : ReleasedVersion) (id intent : String)
      (gates : List String) (p : ChangeProposal)
      → b.objective_revision_id ≡ o.id
      → b.target_id ≡ o.target_id
      → change_intent d ≡ ok intent
      → p ≡ drafted d o b id gates d.requested_paths intent
      → IsProposalOf d o b id gates p
  drafted-IsProposalOf d o b id intent gates p governed same_target explained own = record {
    intent = intent;
    governed = governed;
    same_target = same_target;
    explained = explained;
    id = ap (λ (z : ChangeProposal). z.id) own;
    target_id = ap (λ (z : ChangeProposal). z.target_id) own;
    baseline_release_id = ap (λ (z : ChangeProposal). z.baseline_release_id) own;
    baseline_commit = ap (λ (z : ChangeProposal). z.baseline_commit) own;
    objective_revision_id = ap (λ (z : ChangeProposal). z.objective_revision_id) own;
    diagnosis_id = ap (λ (z : ChangeProposal). z.diagnosis_id) own;
    acceptance_criteria = ap (λ (z : ChangeProposal). z.acceptance_criteria) own;
    allowed_paths = ap (λ (z : ChangeProposal). z.allowed_paths) own;
    forbidden_paths = ap (λ (z : ChangeProposal). z.forbidden_paths) own;
    max_implementation_attempts = ap (λ (z : ChangeProposal). z.max_implementation_attempts) own;
    gates = ap (λ (z : ChangeProposal). z.mandatory_gates) own;
    change_intent = ap (λ (z : ChangeProposal). z.change_intent) own;
    max_changed_files = ap (λ (z : ChangeProposal). z.max_changed_files) own;
  }

  draft-drafted :
      (d : Diagnosis fl) (o : ProductObjectiveRevision) (b : ReleasedVersion) (id : String)
      (gates allowed : List String) (p : ChangeProposal)
      → draft d o b id gates allowed ≡ ok p
      → (intent : String) × (change_intent d ≡ ok intent)
        × (p ≡ drafted d o b id gates allowed intent)
        × (proposal_post_init p ≡ ok p)
  unfolding draft
  draft-drafted d o b id gates allowed p h =
      let (intent, explained, made) =
        >>=-eq-ok (change_intent d)
          (λ intent. proposal_post_init (drafted d o b id gates allowed intent)) h in
      let (own, valid) = post_init-own (drafted d o b id gates allowed intent) p made in
      (intent, explained, own, subst (λ z. proposal_post_init z ≡ ok z) (sym own) valid)

  guard-IsAllowed :
      (d : Diagnosis fl) (o : ProductObjectiveRevision) (b : ReleasedVersion) (id : String)
      (gates : List String) (guard : ChangeProposal)
      → draft d o b id gates o.mutation_policy.allowed_paths ≡ ok guard
      → validate_changed_paths guard d.requested_paths ≡ ok tt
      → IsAllowed o d.requested_paths
  guard-IsAllowed d o b id gates guard made checked =
      let (intent, explained, own, valid) =
        draft-drafted d o b id gates o.mutation_policy.allowed_paths guard made in
      let policy = drafted d o b id gates o.mutation_policy.allowed_paths intent in
      let (full, fits, other, (allowed, forbidden, a, f, inside)) =
        validate_changed_paths_sound policy d.requested_paths
          (subst (λ z. validate_changed_paths z d.requested_paths ≡ ok tt) own checked) in
      record {
        some_path = full;
        within_budget = fits;
        no_contract = other;
        allowed = allowed;
        forbidden = forbidden;
        allowed_by_policy = a;
        forbidden_by_policy = f;
        in_scope = inside;
      }

  scoped-IsAllowed :
      (d : Diagnosis fl) (o : ProductObjectiveRevision) (b : ReleasedVersion) (id : String)
      (gates : List String) (p : ChangeProposal)
      → scoped d o b id gates ≡ ok p
      → IsProposalOf d o b id gates p
        × IsAllowed o d.requested_paths
        × (proposal_post_init p ≡ ok p)
  unfolding scoped
  scoped-IsAllowed d o b id gates p h =
      let t = string_eq.beq_iff b.target_id o.target_id in
      let r = string_eq.beq_iff b.objective_revision_id o.id in
      elim (Result-cases (draft d o b id gates o.mutation_policy.allowed_paths)) [
        | inr (e, bad) ↦ absurd (ground arith)
        | inl (guard, made) ↦ elim (Result-cases (validate_changed_paths guard d.requested_paths)) [
          | inr (e, bad) ↦ absurd (ground arith)
          | inl (tt, checked) ↦
              let last : draft d o b id gates d.requested_paths ≡ ok p = ground arith in
              let (intent, explained, own, valid) =
                draft-drafted d o b id gates d.requested_paths p last in
              (
                drafted-IsProposalOf d o b id intent gates p (ground arith) (ground arith) explained
                    own,
                guard-IsAllowed d o b id gates guard made checked,
                valid,
              )
        ]
      ]

  -- A proposal that comes from a diagnosis has exactly the requested paths as its allowed paths, and
  -- the criteria, forbidden paths and budgets of the objective that governs its baseline; the
  -- requested paths are at least one and within the budget, none of them is, as a text with
  -- backslashes turned and outer slashes taken off, the name of the target contract, which does not
  -- exclude a path that only normalises to that name; and each lies in the scope that the objective
  -- allows and outside the forbidden one; and the proposal is stored under its id.
  pub from_diagnosis-IsAllowed :
      (diagnosis : Diagnosis fl) (objective : ProductObjectiveRevision) (baseline : ReleasedVersion)
      (proposal_id : String) (mandatory_gates : List String) (rows rows' : List ChangeProposal)
      (proposal : ChangeProposal)
      → from_diagnosis diagnosis objective baseline proposal_id mandatory_gates rows
        ≡ (ok proposal, rows')
      → IsProposalOf diagnosis objective baseline proposal_id mandatory_gates proposal
        × IsAllowed objective diagnosis.requested_paths
        × (get_proposal proposal.id rows' ≡ ok (some proposal))
  unfolding from_diagnosis store_proposal add_proposal get_proposal
  from_diagnosis-IsAllowed d o b id gates rows rows' p h =
      elim (Result-cases (scoped d o b id gates)) [
        | inr (e, bad) ↦ absurd (ground arith)
        | inl (q, made) ↦
            let (shape, allowed, valid) = scoped-IsAllowed d o b id gates q made in
            let stored : add_proposal q rows ≡ (ok p, rows') = ground arith in
            let (same, back) =
              add-get proposal_id_of proposal_post_init q p rows rows' valid stored in
            (
              subst (λ z. IsProposalOf d o b id gates z) (sym same) shape,
              allowed,
              subst (λ (z : ChangeProposal). get_proposal z.id rows' ≡ ok (some z)) (sym same) back,
            )
      ]

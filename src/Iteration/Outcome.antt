-- ===== src/Iteration/Outcome.antt =====
-- What is known of an outcome of `prepare_from_evidence` of application/iteration.py.
use autonomous_development.Prelude.{
  some, true, false, string_eq, option_eq, ◌≡◌, ◌⊎◌, subst, ◌∙◌, inl, inr,
}
use autonomous_development.Prelude.Raise.{ok}
use autonomous_development.Domain.Canary.Floats.{Floats}
use autonomous_development.Domain.Enums.{CycleState, cycle_state_eq}
use autonomous_development.Domain.Models.{DevelopmentCycle, Diagnosis, ChangeProposal}
use autonomous_development.Proposals.Sql.{get_proposal}
use autonomous_development.Proposals.InScope.{IsProposalOf, IsAllowed}
use autonomous_development.Iteration.Context.{IterationRequest}
use autonomous_development.Iteration.Service.{
  IterationStore, IterationOutcome, prepared, insufficient,
}

module _ {fl : Floats} {S W : Type 0} (r : IterationRequest fl) (s s' : IterationStore fl S W) where
  -- The proposal of the cycle was stored before.
  pub record WasProposed (c : DevelopmentCycle) (p : ChangeProposal) : Type 0 where
    pub named : c.change_proposal_id ≡ some r.proposal_id
    pub found : get_proposal r.proposal_id s.proposals ≡ ok (some p)
    pub unchanged : s'.proposals ≡ s.proposals

  -- The proposal is new: of a diagnosis that is confident enough, in the scope of the objective.
  pub record IsProposed (c : DevelopmentCycle) (d : Diagnosis fl) (p : ChangeProposal)
      : Type 0 where
    pub confident : fl.lt d.confidence r.minimum_diagnosis_confidence ≡ false
    pub moved : c.state ≡ CycleState.change_proposed
    pub content : IsProposalOf d r.objective r.baseline r.proposal_id r.mandatory_gates p
    pub allowed : IsAllowed r.objective d.requested_paths
    pub stored : get_proposal p.id s'.proposals ≡ ok (some p)

  abbrev pub IsOutcome : IterationOutcome fl → Type 0
  IsOutcome (prepared c d p) = WasProposed c p ⊎ IsProposed c d p
  IsOutcome (insufficient c d) =
      (fl.lt d.confidence r.minimum_diagnosis_confidence ≡ true) × (s'.proposals ≡ s.proposals)

-- An outcome of the later part of a run, where the proposals have not changed before.
pub IsOutcome-from :
    {fl : Floats} {S W : Type 0} (r : IterationRequest fl) (s t s' : IterationStore fl S W)
    (o : IterationOutcome fl)
    → t.proposals ≡ s.proposals
    → IsOutcome r t s' o
    → IsOutcome r s s' o
IsOutcome-from r s t s' (prepared c d p) same (inl was) = inl (record {
  named = was.named;
  found = subst (λ rows. get_proposal r.proposal_id rows ≡ ok (some p)) same was.found;
  unchanged = was.unchanged ∙ same;
})
IsOutcome-from r s t s' (prepared c d p) same (inr new) = inr (record {
  confident = new.confident;
  moved = new.moved;
  content = new.content;
  allowed = new.allowed;
  stored = new.stored;
})
IsOutcome-from r s t s' (insufficient c d) same (low, kept) = (low, kept ∙ same)

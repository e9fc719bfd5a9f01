-- ===== src/Iteration/Proposed.antt =====
-- The proposal of an iteration of application/iteration.py, made or read.
use autonomous_development.Prelude.{
  String, some, true, false, ◌==◌, string_eq, option_eq, Eq, ◌≡◌, ◌⊎◌, subst, subst₂, arith, inl,
  inr, Bool-cases,
}
use autonomous_development.Prelude.Raise.{ok, Result-cases}
use autonomous_development.Domain.Canary.Floats.{Floats}
use autonomous_development.Domain.Enums.{CycleState, cycle_state_eq}
use autonomous_development.Domain.Models.{DevelopmentCycle, Diagnosis, ChangeProposal}
use autonomous_development.Proposals.Sql.{get_proposal}
use autonomous_development.Proposals.Service as Proposals
use autonomous_development.Proposals.InScope.{IsProposalOf, IsAllowed, from_diagnosis-IsAllowed}
use autonomous_development.Iteration.Context.{IterationRequest}
use autonomous_development.Iteration.Service.{
  IterationWiring, IterationStore, IterationOutcome, prepared, require_proposal, proposed, propose,
}
use autonomous_development.Iteration.Outcome.{WasProposed, IsOutcome}

module _ {fl : Floats} ⦃float_eq : Eq fl.Float⦄ {S W : Type 0} (wiring : IterationWiring fl S W)
    (r : IterationRequest fl) where
  pub require_proposal-found :
      (c : DevelopmentCycle) (s s' : IterationStore fl S W) (p : ChangeProposal)
      → require_proposal wiring r c s ≡ (ok p, s')
      → WasProposed r s s' c p
  unfolding require_proposal Proposals.get
  require_proposal-found c s s' p h =
      let n = (option_eq {A = String}).beq_iff c.change_proposal_id (some r.proposal_id) in
      record { named = ground arith; found = ground arith; unchanged = ground arith }

  -- The proposal of a diagnosis, in the scope of the objective.
  abbrev IsFiled : Diagnosis fl → ChangeProposal → IterationStore fl S W → Type 0
  IsFiled d p s' =
      IsProposalOf d r.objective r.baseline r.proposal_id r.mandatory_gates p
      × IsAllowed r.objective d.requested_paths
      × (get_proposal p.id s'.proposals ≡ ok (some p))

  proposed-new :
      (c c' : DevelopmentCycle) (d : Diagnosis fl) (s s' : IterationStore fl S W)
      (p : ChangeProposal)
      → (c.state == CycleState.diagnosed) ≡ true
      → proposed wiring r c d s ≡ (ok (c', p), s')
      → IsFiled d p s'
  unfolding proposed
  proposed-new c c' d s s' p new h =
      let filed =
        Proposals.from_diagnosis d r.objective r.baseline r.proposal_id r.mandatory_gates
          s.proposals in
      elim (Result-cases filed.0) [
        | inr (e, bad) ↦ absurd (ground arith)
        | inl (q, made) ↦
            let same : q ≡ p = ground arith in
            let last : filed.1 ≡ s'.proposals = ground arith in
            let (content, allowed, stored) =
              from_diagnosis-IsAllowed d r.objective r.baseline r.proposal_id r.mandatory_gates
                s.proposals filed.1 q (ground arith) in
            (
              subst (λ z. IsProposalOf d r.objective r.baseline r.proposal_id r.mandatory_gates z)
                  same content,
              allowed,
              subst₂ (λ rows (z : ChangeProposal). get_proposal z.id rows ≡ ok (some z)) last same
                  stored,
            )
      ]

  proposed-cases :
      (c c' : DevelopmentCycle) (d : Diagnosis fl) (s s' : IterationStore fl S W)
      (p : ChangeProposal)
      → proposed wiring r c d s ≡ (ok (c', p), s')
      → WasProposed r s s' c' p ⊎ IsFiled d p s'
  unfolding proposed
  proposed-cases c c' d s s' p h = elim (Bool-cases (c.state == CycleState.diagnosed)) [
    | inl new ↦ inr (proposed-new c c' d s s' p new h)
    | inr old ↦
        let read = require_proposal wiring r c s in
        elim (Result-cases read.0) [
          | inr (e, bad) ↦ absurd (ground arith)
          | inl (q, found) ↦
              let same : q ≡ p = ground arith in
              let here : c ≡ c' = ground arith in
              let last : read.1 ≡ s' = ground arith in
              let was = require_proposal-found c s read.1 q (ground arith) in
              inl (
                subst (λ z. WasProposed r s s' z p) here
                  (subst₂ (λ t z. WasProposed r s t c z) last same was))
        ]
  ]

  pub propose-IsOutcome :
      (c : DevelopmentCycle) (d : Diagnosis fl) (s s' : IterationStore fl S W)
      (o : IterationOutcome fl)
      → fl.lt d.confidence r.minimum_diagnosis_confidence ≡ false
      → propose wiring r c d s ≡ (ok o, s')
      → IsOutcome r s s' o
  unfolding propose
  propose-IsOutcome c d s s' o confident h =
      let done = proposed wiring r c d s in
      elim (Result-cases done.0) [
        | inr (e, bad) ↦ absurd (ground arith)
        | inl ((c', p), moved) ↦
            let shape : prepared c' d p ≡ o = ground arith in
            let at = cycle_state_eq.beq_iff c'.state CycleState.change_proposed in
            let stands : c'.state ≡ CycleState.change_proposed = ground arith in
            subst (λ q. IsOutcome r s s' q) shape
              (elim (proposed-cases c c' d s s' p (ground arith)) [
                | inl was ↦ inl was
                | inr (content, allowed, stored) ↦ inr (record {
                  confident = confident;
                  moved = stands;
                  content = content;
                  allowed = allowed;
                  stored = stored;
                })
              ])
      ]

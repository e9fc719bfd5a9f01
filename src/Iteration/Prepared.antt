-- ===== src/Iteration/Prepared.antt =====
-- What `prepare_from_evidence` of application/iteration.py returns.
use autonomous_development.Prelude.{
  List, is_some, ◌&&◌, ◌==◌, string_eq, option_eq, Eq, ◌≡◌, refl, subst, subst₂, ◌∙◌, arith, inl,
  inr, Bool-cases,
}
use autonomous_development.Prelude.Raise.{ok, Result-cases}
use autonomous_development.Domain.Canary.Floats.{Floats}
use autonomous_development.Domain.Enums.{CycleState, cycle_state_eq}
use autonomous_development.Domain.Models.{DevelopmentCycle, Diagnosis, UserFeedback}
use autonomous_development.Domain.Transitions.Guard.{no_evidence}
use autonomous_development.Iteration.Context.{
  IterationRequest, validate_context, validate_cycle_identity, IsBound, validate_context-IsBound,
}
use autonomous_development.Iteration.Service.{
  IterationWiring, IterationStore, IterationOutcome, prepared, insufficient, open_cycle, step,
  require_diagnosis, require_proposal, load_prepared, refuse_again, load_blocked, verify_baseline,
  bind_evidence, diagnosed, refuse, judge, advance, continue_cycle, run_request,
  prepare_from_evidence,
}
use autonomous_development.Iteration.Keeps.{
  require_diagnosis-Keeps, verify_baseline-Keeps, bind_evidence-Keeps, diagnosed-Keeps,
  refuse-Keeps,
}
use autonomous_development.Iteration.Outcome.{IsOutcome, IsOutcome-from}
use autonomous_development.Iteration.Proposed.{require_proposal-found, propose-IsOutcome}

module _ {fl : Floats} ⦃float_eq : Eq fl.Float⦄ {S W : Type 0} (wiring : IterationWiring fl S W)
    (r : IterationRequest fl) where
  load_prepared-IsOutcome :
      (c : DevelopmentCycle) (s s' : IterationStore fl S W) (o : IterationOutcome fl)
      → load_prepared wiring r c s ≡ (ok o, s')
      → IsOutcome r s s' o
  unfolding load_prepared
  load_prepared-IsOutcome c s s' o h =
      let one = require_diagnosis wiring r c s in
      elim (Result-cases one.0) [
        | inr (e, bad) ↦ absurd (ground arith)
        | inl (d, read) ↦
            let two = require_proposal wiring r c one.1 in
            elim (Result-cases two.0) [
              | inr (e, bad) ↦ absurd (ground arith)
              | inl (p, found) ↦
                  let was = require_proposal-found wiring r c one.1 two.1 p (ground arith) in
                  let kept = require_diagnosis-Keeps wiring r c s in
                  let shape : prepared c d p ≡ o = ground arith in
                  let last : two.1 ≡ s' = ground arith in
                  subst₂ (λ z q. IsOutcome r s z q) last shape
                    (IsOutcome-from r s one.1 two.1 (prepared c d p) kept (inl was))
            ]
      ]

  refuse-insufficient :
      (c : DevelopmentCycle) (d : Diagnosis fl) (s s' : IterationStore fl S W)
      (o : IterationOutcome fl)
      → refuse wiring r c d s ≡ (ok o, s')
      → (c' : DevelopmentCycle) × (insufficient c' d ≡ o)
  unfolding refuse
  refuse-insufficient c d s s' o h = elim (Bool-cases (c.state == CycleState.diagnosed)) [
    | inr other ↦ (c, ground arith)
    | inl here ↦
        let moved = step wiring r c CycleState.blocked ":low-confidence" no_evidence s in
        elim (Result-cases moved.0) [
          | inr (e, bad) ↦ absurd (ground arith)
          | inl (c', done) ↦ (c', ground arith)
        ]
  ]

  judge-IsOutcome :
      (c : DevelopmentCycle) (d : Diagnosis fl) (s s' : IterationStore fl S W)
      (o : IterationOutcome fl)
      → judge wiring r (c, d) s ≡ (ok o, s')
      → IsOutcome r s s' o
  unfolding judge
  judge-IsOutcome c d s s' o h =
      elim (Bool-cases (fl.lt d.confidence r.minimum_diagnosis_confidence)) [
        | inr confident ↦ propose-IsOutcome wiring r c d s s' o confident (ground arith)
        | inl low ↦
            let refused : refuse wiring r c d s ≡ (ok o, s') = ground arith in
            let (c', shape) = refuse-insufficient c d s s' o refused in
            let kept = refuse-Keeps wiring r c d s in
            let same : s'.proposals ≡ s.proposals = ground arith in
            subst (λ q. IsOutcome r s s' q) shape (low, same)
      ]

  advance-IsOutcome :
      (rows : List UserFeedback) (c : DevelopmentCycle) (s s' : IterationStore fl S W)
      (o : IterationOutcome fl)
      → advance wiring r rows c s ≡ (ok o, s')
      → IsOutcome r s s' o
  unfolding advance
  advance-IsOutcome rows c s s' o h =
      let one = verify_baseline wiring r c s in
      elim (Result-cases one.0) [
        | inr (e, bad) ↦ absurd (ground arith)
        | inl (c1, verified) ↦
            let two = bind_evidence wiring r c1 one.1 in
            elim (Result-cases two.0) [
              | inr (e, bad) ↦ absurd (ground arith)
              | inl (c2, ready) ↦
                  let three = diagnosed wiring r rows c2 two.1 in
                  elim (Result-cases three.0) [
                    | inr (e, bad) ↦ absurd (ground arith)
                    | inl ((c3, d), judged) ↦
                        IsOutcome-from r s three.1 s' o
                          (diagnosed-Keeps wiring r rows c2 two.1
                            ∙ bind_evidence-Keeps wiring r c1 one.1
                            ∙ verify_baseline-Keeps wiring r c s)
                          (judge-IsOutcome c3 d three.1 s' o (ground arith))
                  ]
            ]
      ]

  load_blocked-IsOutcome :
      (c : DevelopmentCycle) (s s' : IterationStore fl S W) (o : IterationOutcome fl)
      → load_blocked wiring r c s ≡ (ok o, s')
      → IsOutcome r s s' o
  unfolding load_blocked refuse_again
  load_blocked-IsOutcome c s s' o h =
      let read = require_diagnosis wiring r c s in
      elim (Result-cases read.0) [
        | inr (e, bad) ↦ absurd (ground arith)
        | inl (d, found) ↦ elim (Bool-cases (fl.lt d.confidence r.minimum_diagnosis_confidence)) [
          | inr high ↦ absurd (ground arith)
          | inl low ↦
              let shape : insufficient c d ≡ o = ground arith in
              let kept = require_diagnosis-Keeps wiring r c s in
              let same : s'.proposals ≡ s.proposals = ground arith in
              subst (λ q. IsOutcome r s s' q) shape (low, same)
        ]
      ]

  continue-IsOutcome :
      (rows : List UserFeedback) (c : DevelopmentCycle) (s s' : IterationStore fl S W)
      (o : IterationOutcome fl)
      → continue_cycle wiring r rows c s ≡ (ok o, s')
      → IsOutcome r s s' o
  unfolding continue_cycle
  continue-IsOutcome rows c s s' o h = elim (Bool-cases (is_some c.change_proposal_id)) [
    | inl has ↦ load_prepared-IsOutcome c s s' o (ground arith)
    | inr lacks ↦ elim (Bool-cases (c.state == CycleState.blocked && is_some c.diagnosis_id)) [
      | inl blocked ↦ load_blocked-IsOutcome c s s' o (ground arith)
      | inr going ↦ advance-IsOutcome rows c s s' o (ground arith)
    ]
  ]

  run_request-IsOutcome :
      (rows : List UserFeedback) (s s' : IterationStore fl S W) (o : IterationOutcome fl)
      → run_request wiring r rows s ≡ (ok o, s')
      → IsOutcome r s s' o
  unfolding run_request
  run_request-IsOutcome rows s s' o h =
      let opened = open_cycle wiring r s.cycles in
      let t = record s { cycles = opened.1 } in
      elim (Result-cases opened.0) [
        | inr (e, bad) ↦ absurd (ground arith)
        | inl (c, found) ↦ elim (Result-cases (validate_cycle_identity r c)) [
          | inr (e, bad) ↦ absurd (ground arith)
          | inl (u, own) ↦
              IsOutcome-from r s t s' o refl (continue-IsOutcome rows c t s' o (ground arith))
        ]
      ]

  -- An iteration is prepared only from target, objective, baseline release and evidence window that
  -- belong together. When it is prepared, either its proposal was stored before, or the proposal is
  -- new, the confidence of its diagnosis is not below the minimum, its paths are in the scope of the
  -- objective, it is stored, and the cycle stands at change-proposed. When the confidence is below
  -- the minimum, no proposal is stored.
  pub prepare-IsOutcome :
      (rows : List UserFeedback) (s s' : IterationStore fl S W) (o : IterationOutcome fl)
      → prepare_from_evidence wiring r rows s ≡ (ok o, s')
      → IsBound r × IsOutcome r s s' o
  unfolding prepare_from_evidence
  prepare-IsOutcome rows s s' o h = elim (Result-cases (validate_context r)) [
    | inr (e, bad) ↦ absurd (ground arith)
    | inl (u, good) ↦
        let run : run_request wiring r rows s ≡ (ok o, s') = ground arith in
        (validate_context-IsBound r good, run_request-IsOutcome rows s s' o run)
  ]

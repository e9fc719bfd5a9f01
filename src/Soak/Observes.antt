-- ===== src/Soak/Observes.antt =====
-- `observe` and `start` of application/soak.py, called once and called again.
use autonomous_development.Prelude.{
  String, none, some, nat_eq, string_eq, option_eq, ◌≡◌, sym, ap, subst₂, ◌∙◌, arith, inl, inr,
  Option-cases,
}
use autonomous_development.Prelude.Raise.{ok, Result-cases}
use autonomous_development.Domain.Enums.{cycle_state_eq}
use autonomous_development.Domain.Models.{CanaryStage}
use autonomous_development.Domain.Canary.Floats.{Floats}
use autonomous_development.Domain.Canary.Evidence.{CanaryGuardrails, CanaryStageEvidence}
use autonomous_development.Domain.Canary.Soak.{
  PostPromotionSoakDecision, soak_decision_post_init, evaluate_post_promotion_soak,
}
use autonomous_development.Cycles.Repository.{CycleRepository}
use autonomous_development.Cycles.Service as Cycles
use autonomous_development.Soak.Decisions.{SoakDecisionReceipt, record_soak, record_soak-get}
use autonomous_development.Soak.Decisions as Decisions
use autonomous_development.Soak.Service.{
  SoakWiring, SoakStore, route_and_observe, observe_new, observe,
}

evaluated-valid :
    (fl : Floats) (stage : CanaryStage) (e : CanaryStageEvidence fl) (g : CanaryGuardrails fl)
    (d : PostPromotionSoakDecision)
    → evaluate_post_promotion_soak fl stage e g ≡ ok d
    → soak_decision_post_init d ≡ ok d
unfolding evaluate_post_promotion_soak soak_decision_post_init
evaluated-valid fl stage e g d h = ground arith

module _ {fl : Floats} {S W : Type 0} (R : CycleRepository S) (w : SoakWiring fl W) where
  observe_new-recorded :
      (id : String) (stage : CanaryStage) (g : CanaryGuardrails fl) (route op : String)
      (s s' : SoakStore S W) (d : PostPromotionSoakDecision)
      → observe_new R w id stage g route op s ≡ (ok d, s')
      → Decisions.get op s'.decisions
        ≡ ok (some (record { operation_id = op; cycle_id = id; decision = d }))
  unfolding observe_new
  observe_new-recorded id stage g route op s s' d h =
      elim (Result-cases (Cycles.get R id s.cycles).0) [
        | inr (e, bad) ↦ absurd (ground arith)
        | inl (cycle, found) ↦ elim (Option-cases cycle.experiment_id) [
          | inl gone ↦ absurd (ground arith)
          | inr (x, here) ↦
              elim (Result-cases (route_and_observe R w cycle x stage route s.runtime).0) [
                | inr (e, bad) ↦ absurd (ground arith)
                | inl (evidence, seen) ↦
                    elim (Result-cases (evaluate_post_promotion_soak fl stage evidence g)) [
                      | inr (e, bad) ↦ absurd (ground arith)
                      | inl (wanted, decided) ↦
                          elim (Result-cases (record_soak op id wanted s.decisions).0) [
                            | inr (e, bad) ↦ absurd (ground arith)
                            | inl (receipt, made) ↦
                                let rows = (record_soak op id wanted s.decisions).1 in
                                let valid = evaluated-valid fl stage evidence g wanted decided in
                                let (own, back) =
                                  record_soak-get op id wanted s.decisions rows receipt valid
                                    (λ i. (made i, rows)) in
                                let last : rows ≡ s'.decisions = ground arith in
                                let mine : receipt.decision ≡ d = ground arith in
                                subst₂ (λ r x. Decisions.get op r ≡ ok (some x)) last
                                  (own
                                    ∙ ap
                                        (λ y. record {
                                          operation_id = op;
                                          cycle_id = id;
                                          decision = y;
                                        })
                                        (sym (ap (λ (z : SoakDecisionReceipt). z.decision) own)
                                          ∙ mine))
                                  back
                          ]
                    ]
              ]
        ]
      ]

  -- An observation that returned is durable: repeated under its decision id, whatever stage,
  -- guardrails and route operation it then names, it returns the same decision, routes and
  -- observes nothing, and changes nothing.
  pub observe_repeat :
      (id : String) (stage stage' : CanaryStage) (g g' : CanaryGuardrails fl)
      (route route' op : String) (s s' : SoakStore S W) (d : PostPromotionSoakDecision)
      → observe R w id stage g route op s ≡ (ok d, s')
      → observe R w id stage' g' route' op s' ≡ (ok d, s')
  unfolding observe
  observe_repeat id stage stage' g g' route route' op s s' d h =
      elim (Result-cases (Decisions.get op s.decisions)) [
        | inr (e, bad) ↦ absurd (ground arith)
        | inl (some receipt, there) ↦ ground arith
        | inl (none, fresh) ↦
            let back = observe_new-recorded id stage g route op s s' d (ground arith) in
            let same = string_eq.beq_iff id id in ground arith
      ]

-- ===== src/Releases/Ready.antt =====
-- What `apply_canary_decision` of application/releases.py has seen when it returns.
use autonomous_development.Prelude.{
  ℕ, String, List, some, ◌≡◌, subst, ◌⊎◌, inl, inr, get_last?, concat, arith, Bool-cases, nat_eq,
  ◌==◌, option_eq, string_eq,
}
use autonomous_development.Prelude.Raise.{ok, Result-cases}
use autonomous_development.Domain.Enums.{CycleState, CanaryDecisionKind}
use autonomous_development.Domain.Models.{DevelopmentCycle}
use autonomous_development.Domain.Canary.Evidence.{CanaryStageDecision}
use autonomous_development.Domain.Transitions.Guard.{no_evidence}
use autonomous_development.Experiments.Receipts.{decision_eq}
use autonomous_development.Cycles.Repository.{CycleRepository}
use autonomous_development.Cycles.Service as Cycles
use autonomous_development.Experiments.Service as Experiments
use autonomous_development.Releases.Decisions.{release_decision_eq}
use autonomous_development.Releases.Promote.{get_found, get_reads}
use autonomous_development.Releases.Service.{
  ReleaseStore, require_version, apply_kind, make_ready, is_not_final, apply_canary_decision,
}

module _ {S : Type 0} (R : CycleRepository S) where
  -- What lies behind a cycle that became promotion-ready.
  pub record IsReady (id : String) (decision : CanaryStageDecision) (version : ℕ) (op : String)
      (s s' : ReleaseStore S) (after : DevelopmentCycle) : Type 0 where
    pub cycle : DevelopmentCycle
    pub found : R.get id s.cycles ≡ ok (some cycle)
    pub own : cycle.experiment_id ≡ some decision.experiment_id
    pub history : List CanaryStageDecision
    pub gathered : Experiments.promotion_history decision.experiment_id s.experiments ≡ ok history
    pub last : get_last? history ≡ some decision
    pub effect :
        Cycles.transition R id CycleState.promotion_ready version
          (concat op ":promotion-ready")
          no_evidence
          s.cycles
        ≡ (ok after, s'.cycles)

  IsReady-made :
      (id : String) (decision : CanaryStageDecision) (version : ℕ) (op : String)
      (s s' : ReleaseStore S) (after cycle : DevelopmentCycle)
      → (Cycles.get R id s.cycles).0 ≡ ok cycle
      → cycle.experiment_id ≡ some decision.experiment_id
      → apply_kind R CanaryDecisionKind.promotion_ready cycle id decision version op
          (record s { cycles = (Cycles.get R id s.cycles).1 })
        ≡ (ok after, s')
      → IsReady id decision version op s s' after
  unfolding apply_kind make_ready is_not_final
  IsReady-made id decision version op s s' after cycle there own h =
      elim (Result-cases
        (Experiments.require_recorded_decision decision.experiment_id decision s.experiments)) [
          | inr (e, bad) ↦ absurd (ground arith)
          | inl (u, recorded) ↦
              elim (Result-cases
                (Experiments.promotion_history decision.experiment_id s.experiments)) [
                  | inr (e, bad) ↦ absurd (ground arith)
                  | inl (history, gathered) ↦
                      elim (Bool-cases (get_last? history == some decision)) [
                        | inr other ↦ absurd (ground arith)
                        | inl last ↦ record {
                          cycle = cycle;
                          found = get_found R id s.cycles cycle there;
                          own = own;
                          history = history;
                          gathered = gathered;
                          last =
                              ((option_eq {A = CanaryStageDecision}).beq_iff (get_last? history)
                                  (some decision)).0
                                last;
                          effect =
                              subst
                                (λ t.
                                  Cycles.transition R id CycleState.promotion_ready version
                                    (concat op ":promotion-ready") no_evidence t
                                  ≡ (ok after, s'.cycles))
                                (get_reads R id s.cycles) (ground arith);
                        }
                      ]
                ]
        ]

  -- A promotion-ready decision that is applied is the last of the complete stored history of the
  -- cycle's own experiment, and the cycle makes the transition to `PROMOTION_READY`.
  pub apply_canary_decision-IsReady :
      (id : String) (decision : CanaryStageDecision) (version : ℕ) (op : String)
      (s s' : ReleaseStore S) (after : DevelopmentCycle)
      → decision.kind ≡ CanaryDecisionKind.promotion_ready
      → apply_canary_decision R id decision version op s ≡ (ok after, s')
      → IsReady id decision version op s s' after
  unfolding apply_canary_decision
  apply_canary_decision-IsReady id decision version op s s' after k h =
      elim (Result-cases (Cycles.get R id s.cycles).0) [
        | inr (e, bad) ↦ absurd (ground arith)
        | inl (cycle, there) ↦
            elim (Bool-cases (cycle.experiment_id == some decision.experiment_id)) [
              | inr foreign ↦ absurd (ground arith)
              | inl own ↦
                  IsReady-made id decision version op s s' after cycle there
                    (((option_eq {A = String}).beq_iff cycle.experiment_id
                        (some decision.experiment_id)).0
                      own)
                    (subst
                      (λ kind.
                        apply_kind R kind cycle id decision version op
                          (record s { cycles = (Cycles.get R id s.cycles).1 })
                        ≡ (ok after, s'))
                      k (ground arith))
            ]
      ]

  -- Applying a decision that advances or holds changes no store, whether it returns or raises.
  pub apply_canary_decision-waits :
      (id : String) (decision : CanaryStageDecision) (version : ℕ) (op : String)
      (s : ReleaseStore S)
      → (decision.kind ≡ CanaryDecisionKind.advance) ⊎ (decision.kind ≡ CanaryDecisionKind.hold)
      → (apply_canary_decision R id decision version op s).1 ≡ s
  unfolding apply_canary_decision apply_kind require_version
  apply_canary_decision-waits id decision version op s k =
      let same = get_reads R id s.cycles in
      elim (Result-cases (Cycles.get R id s.cycles).0) [
        | inr (e, bad) ↦ ground arith
        | inl (cycle, there) ↦
            elim (Bool-cases (cycle.experiment_id == some decision.experiment_id)) [
              | inr foreign ↦ ground arith
              | inl own ↦ elim k [ inl moves ↦ ground arith | inr holds ↦ ground arith ]
            ]
      ]

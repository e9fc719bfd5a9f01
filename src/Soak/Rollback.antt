-- ===== src/Soak/Rollback.antt =====
-- What `apply` of application/soak.py has done when it returns, and when it raises.
use autonomous_development.Prelude.{
  String, some, concat, nat_eq, string_eq, option_eq, ◌≡◌, arith, inl, inr, Option-cases,
}
use autonomous_development.Prelude.Raise.{Result, Error, ok, err, Result-cases}
use autonomous_development.Domain.Enums.{
  CycleState, cycle_state_eq, ReleaseDecisionKind, SoakDecisionKind,
}
use autonomous_development.Domain.Models.{DevelopmentCycle}
use autonomous_development.Domain.Transitions.Guard.{Evidence, no_evidence}
use autonomous_development.Domain.Canary.Floats.{Floats}
use autonomous_development.Cycles.Repository.{CycleRepository}
use autonomous_development.Cycles.Service as Cycles
use autonomous_development.Soak.Decisions.{SoakDecisionReceipt}
use autonomous_development.Soak.Decisions as Decisions
use autonomous_development.Catalog.Service as Catalog
use autonomous_development.Soak.Runtime.{RuntimeStore, resolve}
use autonomous_development.Soak.Service.{
  SoakWiring, SoakStore, recorded_for, restore_traffic, restore_release, retire_candidate,
  rollback_to_baseline, soak_route, unless_done, apply_kind, apply,
}
use autonomous_development.Soak.Restores.{
  IsTrafficRestored, restore_traffic-IsTrafficRestored, IsReleaseRestored,
  restore_release-IsReleaseRestored, IsRetired, retire_candidate-IsRetired,
}

abbrev by_rollback : Evidence
by_rollback = record no_evidence { release_decision = some ReleaseDecisionKind.rollback }

module _ {fl : Floats} {S W : Type 0} (R : CycleRepository S) (w : SoakWiring fl W) where
  abbrev cycle_moves : DevelopmentCycle → (op : String) → S → Result DevelopmentCycle × S
  cycle_moves cycle op t =
      Cycles.transition R cycle.id CycleState.rolled_back cycle.version (concat op ":cycle")
        by_rollback t

  -- The effects of a rollback: on the traffic, the serving release and the source, the candidate and
  -- the cycle.
  pub record IsRolledBack (cycle : DevelopmentCycle) (op : String) (s s' : SoakStore S W)
      (after : DevelopmentCycle) : Type 0 where
    pub experiment : String
    pub named : cycle.experiment_id ≡ some experiment
    pub routed : RuntimeStore W
    pub served : RuntimeStore W
    pub traffic : IsTrafficRestored R w cycle (concat experiment "-soak") op s.runtime routed
    pub release : IsReleaseRestored R w cycle routed served
    pub candidate : IsRetired R w cycle served.world s'.runtime.world
    pub catalog : s'.runtime.catalog ≡ served.catalog
    pub moved : cycle_moves cycle op s.cycles ≡ (ok after, s'.cycles)

  rollback_to_baseline-IsRolledBack :
      (cycle after : DevelopmentCycle) (op : String) (s s' : SoakStore S W)
      → rollback_to_baseline R w cycle op s ≡ (ok after, s')
      → IsRolledBack cycle op s s' after
  unfolding rollback_to_baseline
  rollback_to_baseline-IsRolledBack cycle after op s s' h =
      elim (Option-cases cycle.experiment_id) [
        | inl gone ↦ absurd (ground arith)
        | inr (x, here) ↦
            let first = restore_traffic R w cycle (concat x "-soak") op s.runtime in
            elim (Result-cases first.0) [
              | inr (e, bad) ↦ absurd (ground arith)
              | inl (tt, routed) ↦
                  let second = restore_release R w cycle op first.1 in
                  elim (Result-cases second.0) [
                    | inr (e, bad) ↦ absurd (ground arith)
                    | inl (tt, served) ↦
                        let third = retire_candidate R w cycle second.1.world in
                        elim (Result-cases third.0) [
                          | inr (e, bad) ↦ absurd (ground arith)
                          | inl (tt, retired) ↦
                              let last =
                                Cycles.transition R cycle.id CycleState.rolled_back cycle.version
                                  (concat op ":cycle") by_rollback s.cycles in
                              elim (Result-cases last.0) [
                                | inr (e, bad) ↦ absurd (ground arith)
                                | inl (c, made) ↦
                                    let there : third.1 ≡ s'.runtime.world = ground arith in
                                    record {
                                      experiment = x;
                                      named = here;
                                      routed = first.1;
                                      served = second.1;
                                      traffic =
                                          restore_traffic-IsTrafficRestored R w cycle
                                            (concat x "-soak") op s.runtime first.1
                                            (λ i. (routed i, first.1));
                                      release =
                                          restore_release-IsReleaseRestored R w cycle op first.1
                                            second.1 (λ i. (served i, second.1));
                                      candidate =
                                          retire_candidate-IsRetired R w cycle second.1.world
                                            s'.runtime.world (λ i. (retired i, there i));
                                      catalog = ground arith;
                                      moved = ground arith;
                                    }
                              ]
                        ]
                  ]
            ]
      ]

  -- Where a rollback that raises has stopped: before the release is restored, before the cycle is
  -- moved, or in its transition.
  pub data IsInterrupted (cycle : DevelopmentCycle) (op : String) (e : Error) (s s' : SoakStore S W)
      : Type 0 where
    before_release :
        s'.runtime.catalog ≡ s.runtime.catalog
        → s'.cycles ≡ s.cycles
        → IsInterrupted cycle op e s s'
    before_cycle :
        (experiment : String) (routed : RuntimeStore W)
        → IsTrafficRestored R w cycle (concat experiment "-soak") op s.runtime routed
        → routed.catalog ≡ s.runtime.catalog
        → s'.cycles ≡ s.cycles
        → IsInterrupted cycle op e s s'
    in_cycle :
        (experiment : String) (routed served : RuntimeStore W)
        → IsTrafficRestored R w cycle (concat experiment "-soak") op s.runtime routed
        → IsReleaseRestored R w cycle routed served
        → IsRetired R w cycle served.world s'.runtime.world
        → cycle_moves cycle op s.cycles ≡ (err e, s'.cycles)
        → IsInterrupted cycle op e s s'

  unfoldable pub IsOutcome :
      DevelopmentCycle
      → (op : String) → Result DevelopmentCycle
      → SoakStore S W
      → SoakStore S W
      → Type 0
  IsOutcome cycle op (ok after) s s' = IsRolledBack cycle op s s' after
  IsOutcome cycle op (err e) s s' = IsInterrupted cycle op e s s'

  resolve-catalog :
      (id : String) (s : RuntimeStore W)
      → (resolve w.deployment w.contract_target_id w.container_port id s).1.catalog ≡ s.catalog
  unfolding resolve Catalog.get
  resolve-catalog id s = elim (Result-cases (Catalog.get id s.catalog).0) [
    | inl (release, found) ↦ ground arith
    | inr (e, bad) ↦ ground arith
  ]

  restore_traffic-catalog :
      (cycle : DevelopmentCycle) (experiment op : String) (s : RuntimeStore W)
      → (restore_traffic R w cycle experiment op s).1.catalog ≡ s.catalog
  unfolding restore_traffic
  restore_traffic-catalog cycle experiment op s =
      let same = resolve-catalog cycle.baseline_release_id s in
      let call =
        resolve w.deployment w.contract_target_id w.container_port cycle.baseline_release_id s in
      let u = call.1 in
      elim (Result-cases call.0) [
        | inr (e, bad) ↦ ground arith
        | inl (control, resolved) ↦ elim (Result-cases (w.traffic.read_current u.world)) [
          | inr (e, bad) ↦ ground arith
          | inl (o, read) ↦ elim (Result-cases (soak_route cycle experiment o)) [
            | inr (e, bad) ↦ ground arith
            | inl (route, fits) ↦
                let last =
                  w.traffic.restore_control experiment 0 control.base_url route.candidate_base_url
                    (concat op ":traffic") u.world in
                elim (Result-cases last.0) [
                  | inr (e, bad) ↦ ground arith
                  | inl (state, restored) ↦ ground arith
                ]
          ]
        ]
      ]

  rollback_to_baseline-IsInterrupted :
      (cycle : DevelopmentCycle) (op : String) (s s' : SoakStore S W) (e : Error)
      → rollback_to_baseline R w cycle op s ≡ (err e, s')
      → IsInterrupted cycle op e s s'
  unfolding rollback_to_baseline
  rollback_to_baseline-IsInterrupted cycle op s s' e h = elim (Option-cases cycle.experiment_id) [
    | inl gone ↦ before_release (ground arith) (ground arith)
    | inr (x, here) ↦
        let first = restore_traffic R w cycle (concat x "-soak") op s.runtime in
        let same = restore_traffic-catalog cycle (concat x "-soak") op s.runtime in
        elim (Result-cases first.0) [
          | inr (f, bad) ↦ before_release (ground arith) (ground arith)
          | inl (tt, routed) ↦
              let traffic =
                restore_traffic-IsTrafficRestored R w cycle (concat x "-soak") op s.runtime first.1
                  (λ i. (routed i, first.1)) in
              let second = restore_release R w cycle op first.1 in
              elim (Result-cases second.0) [
                | inr (f, bad) ↦ before_cycle x first.1 traffic same (ground arith)
                | inl (tt, served) ↦
                    let third = retire_candidate R w cycle second.1.world in
                    elim (Result-cases third.0) [
                      | inr (f, bad) ↦ before_cycle x first.1 traffic same (ground arith)
                      | inl (tt, retired) ↦
                          let last = cycle_moves cycle op s.cycles in
                          elim (Result-cases last.0) [
                            | inl (c, made) ↦ absurd (ground arith)
                            | inr (f, bad) ↦
                                let there : third.1 ≡ s'.runtime.world = ground arith in
                                in_cycle x first.1 second.1 traffic
                                  (restore_release-IsReleaseRestored R w cycle op first.1 second.1
                                    (λ i. (served i, second.1)))
                                  (retire_candidate-IsRetired R w cycle second.1.world
                                    s'.runtime.world (λ i. (retired i, there i)))
                                  (ground arith)
                          ]
                    ]
              ]
        ]
  ]

  rollback_to_baseline-IsOutcome :
      (cycle : DevelopmentCycle) (op : String) (s s' : SoakStore S W)
      (result : Result DevelopmentCycle)
      → rollback_to_baseline R w cycle op s ≡ (result, s')
      → IsOutcome cycle op result s s'
  unfolding IsOutcome
  rollback_to_baseline-IsOutcome cycle op s s' (ok after) h =
      rollback_to_baseline-IsRolledBack cycle after op s s' h
  rollback_to_baseline-IsOutcome cycle op s s' (err e) h =
      rollback_to_baseline-IsInterrupted cycle op s s' e h

  -- The rollback of a soak, where the decision recorded for the cycle is a rollback and the stored
  -- cycle soaks. A call of `apply` that returns has sent the traffic of the soak's own route back
  -- to the control, made the baseline release serve the target and restored the source to its
  -- commit, stopped the candidate's deployment and removed its worktree, and moved the cycle to
  -- `ROLLED_BACK` with a rollback decision. A call that raises either has left the catalogue and
  -- the cycles as they were, or has sent the traffic back with the catalogue still as it was and
  -- has left the cycles as they were, or has done all of the effects and failed in the transition
  -- of the cycle.
  pub apply-IsRolledBack :
      (id decision_op op : String) (s s' : SoakStore S W) (receipt : SoakDecisionReceipt)
      (cycle : DevelopmentCycle) (result : Result DevelopmentCycle)
      → Decisions.get decision_op s.decisions ≡ ok (some receipt)
      → receipt.cycle_id ≡ id
      → receipt.decision.kind ≡ SoakDecisionKind.rollback
      → Cycles.get R id s.cycles ≡ (ok cycle, s.cycles)
      → cycle.state ≡ CycleState.soaking
      → apply R w id decision_op op s ≡ (result, s')
      → IsOutcome cycle op result s s'
  unfolding apply recorded_for apply_kind unless_done
  apply-IsRolledBack id decision_op op s s' receipt cycle result there own kind found soaks h =
      rollback_to_baseline-IsOutcome cycle op s s' result
        (ground (arith, string_eq.beq_iff receipt.cycle_id id))

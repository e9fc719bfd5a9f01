-- ===== src/Rollout/Restores.antt =====
-- Where `CanaryService` of application/canary.py leaves the traffic.
use autonomous_development.Prelude.{
  ℕ, String, none, some, concat, get_elem?, ◌≡◌, subst, ◌⊎◌, inl, inr, arith,
}
use autonomous_development.Prelude.Raise.{ok, require, index_error, Result-cases}
use autonomous_development.Prelude.Action.{◌>>◌, pure}
use autonomous_development.Domain.Enums.{CanaryDecisionKind, canary_kind_value}
use autonomous_development.Domain.Models.{Experiment}
use autonomous_development.Domain.Canary.Floats.{Floats}
use autonomous_development.Domain.Canary.Evidence.{
  CanaryStageDecision, CanaryGuardrails, CanaryStageEvidence,
}
use autonomous_development.Domain.Canary.Evaluate.{evaluate_canary_stage}
use autonomous_development.Experiments.Service as Experiments
use autonomous_development.Traffic.Ports.{TrafficRouteState, TrafficDirector}
use autonomous_development.Rollout.Service.{
  CanaryObserver, CanaryStageResult, CanaryStore, restore_control, ensure_post_decision_routing,
  route_and_observe, conclude, decide_stage, run_stage,
}

module _ {W : Type 0} (fl : Floats) (T : TrafficDirector W) (O : CanaryObserver fl W) where
  -- The last call on the traffic was a restoration of the control, and it returned.
  pub record IsRestored (control candidate : String) (w' : W) : Type 0 where
    pub experiment_id : String
    pub stage_index : ℕ
    pub operation_id : String
    pub before : W
    pub state : TrafficRouteState
    pub last :
        T.restore_control experiment_id stage_index control candidate operation_id before
        ≡ (ok state, w')

  abbrev pub StopsCandidate : CanaryDecisionKind → Type 0
  StopsCandidate k = (k ≡ CanaryDecisionKind.hold) ⊎ (k ≡ CanaryDecisionKind.rollback)

  restored :
      (i : String) (n : ℕ) (control candidate op : String) (w w' : W) (u : Unit {0})
      → (do T.restore_control i n control candidate op; pure tt) w ≡ (ok u, w')
      → IsRestored control candidate w'
  restored i n control candidate op w w' u h =
      elim (Result-cases (T.restore_control i n control candidate op w).0) [
        | inr (e, bad) ↦ absurd (ground arith)
        | inl (state, made) ↦ record {
          experiment_id = i;
          stage_index = n;
          operation_id = op;
          before = w;
          state = state;
          last = ground arith;
        }
      ]

  routing-IsRestored :
      (k : CanaryDecisionKind) (x : Experiment) (d : CanaryStageDecision)
      (control candidate op : String) (w w' : W) (u : Unit {0})
      → StopsCandidate k
      → ensure_post_decision_routing fl T O k x d control candidate op w ≡ (ok u, w')
      → IsRestored control candidate w'
  unfolding ensure_post_decision_routing restore_control
  routing-IsRestored CanaryDecisionKind.hold x d control candidate op w w' u k h =
      let id =
        concat op (concat ":" (concat (canary_kind_value CanaryDecisionKind.hold) ":restore")) in
      restored x.id d.stage_index control candidate id w w' u (λ i. h i)
  routing-IsRestored CanaryDecisionKind.rollback x d control candidate op w w' u k h =
      let id =
        concat op
          (concat ":" (concat (canary_kind_value CanaryDecisionKind.rollback) ":restore")) in
      restored x.id d.stage_index control candidate id w w' u (λ i. h i)
  routing-IsRestored CanaryDecisionKind.advance x d control candidate op w w' u k h =
      absurd (ground arith)
  routing-IsRestored CanaryDecisionKind.promotion_ready x d control candidate op w w' u k h =
      absurd (ground arith)

  pub conclude-IsRestored :
      (x : Experiment) (d : CanaryStageDecision) (control candidate op : String)
      (s s' : CanaryStore W) (r : CanaryStageResult)
      → conclude fl T O x d control candidate op s ≡ (ok r, s')
      → (r.decision ≡ d)
        × (r.experiment ≡ x)
        × (s'.experiments ≡ s.experiments)
        × (StopsCandidate d.kind → IsRestored control candidate s'.world)
  unfolding conclude
  conclude-IsRestored x d control candidate op s s' r h =
      elim (Result-cases
        (ensure_post_decision_routing fl T O d.kind x d control candidate op s.world).0) [
          | inr (e, bad) ↦ absurd (ground arith)
          | inl (u, made) ↦ (
            ground arith,
            ground arith,
            ground arith,
            λ k.
                routing-IsRestored d.kind x d control candidate op s.world s'.world u k
                  (ground arith),
          )
        ]

  -- How a stage that was not decided before has ended.
  pub record IsDecided (id : String) (g : CanaryGuardrails fl) (control candidate op : String)
      (s s' : CanaryStore W) (r : CanaryStageResult) : Type 0 where
    pub experiment : Experiment
    pub evidence : CanaryStageEvidence fl
    pub decision : CanaryStageDecision
    pub persisted : Experiment
    pub after : CanaryStore W
    pub found : Experiments.get id s.experiments ≡ ok experiment
    pub evaluated : evaluate_canary_stage fl experiment evidence g ≡ ok decision
    pub recorded :
        Experiments.record_decision experiment.id decision experiment.current_stage_index
          (concat op ":decision")
          s.experiments
        ≡ (ok persisted, after.experiments)
    pub concluded : conclude fl T O persisted decision control candidate op after ≡ (ok r, s')

  pub decide_stage-IsDecided :
      (id : String) (g : CanaryGuardrails fl) (control candidate op : String) (s s' : CanaryStore W)
      (r : CanaryStageResult)
      → decide_stage fl T O id g control candidate op s ≡ (ok r, s')
      → IsDecided id g control candidate op s s' r
  unfolding decide_stage
  decide_stage-IsDecided id g control candidate op s s' r h =
      elim (Result-cases (Experiments.get id s.experiments)) [
        | inr (e, bad) ↦ absurd (ground arith)
        | inl (x, found) ↦
            elim (Result-cases (require (get_elem? x.stages x.current_stage_index) index_error)) [
              | inr (e, bad) ↦ absurd (ground arith)
              | inl (stage, there) ↦
                  let observe = route_and_observe fl T O x stage control candidate op in
                  elim (Result-cases (observe s.world).0) [
                    | inr (e, bad) ↦ absurd (ground arith)
                    | inl (evidence, seen) ↦
                        elim (Result-cases (evaluate_canary_stage fl x evidence g)) [
                          | inr (e, bad) ↦ absurd (ground arith)
                          | inl (d, evaluated) ↦
                              let write =
                                Experiments.record_decision x.id d x.current_stage_index
                                  (concat op ":decision") s.experiments in
                              elim (Result-cases write.0) [
                                | inr (e, bad) ↦ absurd (ground arith)
                                | inl (persisted, recorded) ↦ record {
                                  experiment = x;
                                  evidence = evidence;
                                  decision = d;
                                  persisted = persisted;
                                  after = record {
                                    world = (observe s.world).1;
                                    experiments = write.1;
                                  };
                                  found = found;
                                  evaluated = evaluated;
                                  recorded = λ i. (recorded i, write.1);
                                  concluded = ground arith;
                                }
                              ]
                        ]
                  ]
            ]
      ]

  -- A stage that ends with a decision to hold or to roll back has restored the control: that is
  -- the last call on the traffic, and it returned, whether the decision is new or was recorded before.
  pub run_stage-IsRestored :
      (id : String) (g : CanaryGuardrails fl) (control candidate op : String) (s s' : CanaryStore W)
      (r : CanaryStageResult)
      → run_stage fl T O id g control candidate op s ≡ (ok r, s')
      → StopsCandidate r.decision.kind
      → IsRestored control candidate s'.world
  unfolding run_stage
  run_stage-IsRestored id g control candidate op s s' r h k =
      elim (Result-cases (Experiments.replay_decision (concat op ":decision") s.experiments)) [
        | inr (e, bad) ↦ absurd (ground arith)
        | inl (some (x, d), replayed) ↦
            let (same, own, kept, restores) =
              conclude-IsRestored x d control candidate op s s' r (ground arith) in
            restores (subst (λ e. StopsCandidate e.kind) same k)
        | inl (none, fresh) ↦
            let m = decide_stage-IsDecided id g control candidate op s s' r (ground arith) in
            let (same, own, kept, restores) =
              conclude-IsRestored m.persisted m.decision control candidate op m.after s' r
                m.concluded in
            restores (subst (λ e. StopsCandidate e.kind) same k)
      ]

-- ===== src/Rollout/Repeat.antt =====
-- A stage of `CanaryService` of application/canary.py that is run again.
use autonomous_development.Prelude.{
  String, none, some, concat, is_blank, get_elem?, ◌≡◌, subst, Option-cases, inl, inr, arith,
  Bool-cases,
}
use autonomous_development.Prelude.Raise.{ok, require, index_error, Result-cases}
use autonomous_development.Domain.Models.{Experiment}
use autonomous_development.Domain.Canary.Floats.{Floats}
use autonomous_development.Domain.Canary.Evidence.{
  CanaryStageDecision, stage_decision_post_init, CanaryGuardrails, CanaryStageEvidence,
}
use autonomous_development.Domain.Canary.Evaluate.{
  evaluate_canary_stage, stage_outcome, stage_guardrail_violations, stage_insufficient_reasons,
}
use autonomous_development.Experiments.Sql.{ExperimentDb}
use autonomous_development.Experiments.Service as Experiments
use autonomous_development.Traffic.Ports.{TrafficDirector}
use autonomous_development.Experiments.Sql.{get_stage_decision}
use autonomous_development.Experiments.Receipts.{decision_from_receipt}
use autonomous_development.Experiments.Record.{record_decision-replay}
use autonomous_development.Rollout.Restores.{conclude-IsRestored, decide_stage-IsDecided}
use autonomous_development.Rollout.Service.{
  CanaryObserver, CanaryStageResult, CanaryStore, conclude, run_stage,
}

post_init-formed :
    (y d : CanaryStageDecision)
    → stage_decision_post_init y ≡ ok d
    → stage_decision_post_init d ≡ ok d
unfolding stage_decision_post_init
post_init-formed y d h =
    let same : y ≡ d = ground arith in subst (λ z. stage_decision_post_init z ≡ ok d) same h

evaluate-formed :
    (fl : Floats) (x : Experiment) (e : CanaryStageEvidence fl) (g : CanaryGuardrails fl)
    (d : CanaryStageDecision)
    → evaluate_canary_stage fl x e g ≡ ok d
    → stage_decision_post_init d ≡ ok d
unfolding evaluate_canary_stage
evaluate-formed fl x e g d h =
    elim (Result-cases (require (get_elem? x.stages x.current_stage_index) index_error)) [
      | inr (bad, gone) ↦ absurd (ground arith)
      | inl (stage, there) ↦
          let y =
            stage_outcome fl x e (stage_guardrail_violations fl e g)
              (stage_insufficient_reasons fl stage e) in
          post_init-formed y d (ground arith)
    ]

replay-none :
    (op : String) (db : ExperimentDb)
    → Experiments.replay_decision op db ≡ ok none
    → get_stage_decision op db ≡ none
unfolding Experiments.replay_decision
replay-none op db h = elim (Option-cases (get_stage_decision op db)) [
  | inl fresh ↦ fresh
  | inr (r, there) ↦ elim (Result-cases (Experiments.get r.experiment_id db)) [
    | inr (e, bad) ↦ absurd (ground arith)
    | inl (x, found) ↦ elim (Result-cases (decision_from_receipt r)) [
      | inr (e, bad) ↦ absurd (ground arith)
      | inl (d, made) ↦ absurd (ground arith)
    ]
  ]
]

module _ {W : Type 0} (fl : Floats) (T : TrafficDirector W) (O : CanaryObserver fl W) where
  -- The result of a stage that returned is durable: it is what `replay_decision` reads back from then on
  -- under the operation's decision id.
  pub run_stage-durable :
      (id : String) (g : CanaryGuardrails fl) (control candidate op : String) (s s' : CanaryStore W)
      (r : CanaryStageResult)
      → run_stage fl T O id g control candidate op s ≡ (ok r, s')
      → Experiments.replay_decision (concat op ":decision") s'.experiments
        ≡ ok (some (r.experiment, r.decision))
  unfolding run_stage
  run_stage-durable id g control candidate op s s' r h =
      elim (Result-cases (Experiments.replay_decision (concat op ":decision") s.experiments)) [
        | inr (e, bad) ↦ absurd (ground arith)
        | inl (some (x, d), replayed) ↦
            let (same, own, kept, restores) =
              conclude-IsRestored fl T O x d control candidate op s s' r (ground arith) in
            ground arith
        | inl (none, fresh) ↦
            let m = decide_stage-IsDecided fl T O id g control candidate op s s' r (ground arith) in
            let (same, own, kept, restores) =
              conclude-IsRestored fl T O m.persisted m.decision control candidate op m.after s' r
                m.concluded in
            let read =
              record_decision-replay m.experiment.id m.decision m.experiment.current_stage_index
                (concat op ":decision") s.experiments m.after.experiments m.persisted
                (evaluate-formed fl m.experiment m.evidence g m.decision m.evaluated)
                (replay-none (concat op ":decision") s.experiments fresh) m.recorded in
            ground arith
      ]

  -- A stage that returned, run again under its operation id, routes and observes nothing: it only
  -- repeats the routing of the decision that was recorded.
  pub run_stage-repeat :
      (id id' : String) (g g' : CanaryGuardrails fl) (control candidate op : String)
      (s s' : CanaryStore W) (r : CanaryStageResult)
      → run_stage fl T O id g control candidate op s ≡ (ok r, s')
      → run_stage fl T O id' g' control candidate op s'
        ≡ conclude fl T O r.experiment r.decision control candidate op s'
  unfolding run_stage
  run_stage-repeat id id' g g' control candidate op s s' r h =
      let read = run_stage-durable id g control candidate op s s' r h in
      elim (Bool-cases (is_blank op)) [
        | inl blank ↦ absurd (ground arith)
        | inr named ↦ ground arith
      ]

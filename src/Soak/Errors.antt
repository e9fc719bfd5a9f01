-- ===== src/Soak/Errors.antt =====
-- What the methods of application/soak.py leave of the cycles when they raise.
use autonomous_development.Prelude.{
  String, concat, Option, some, ◌==◌, inl, inr, Bool-cases, ◌≡◌, refl, ◌∙◌, arith,
}
use autonomous_development.Prelude.Raise.{Result, ok, err, Error, require, value_error}
use autonomous_development.Prelude.Action.{Action, ◌>>=◌, ◌>>◌, lift}
use autonomous_development.Domain.Enums.{
  CycleState, cycle_state_eq, ReleaseDecisionKind, SoakDecisionKind,
}
use autonomous_development.Domain.Models.{DevelopmentCycle}
use autonomous_development.Domain.Transitions.Guard.{Evidence, no_evidence}
use autonomous_development.Domain.Canary.Floats.{Floats}
use autonomous_development.Cycles.Repository.{CycleRepository, IsLawful}
use autonomous_development.Cycles.Replay.{transition_error_unchanged}
use autonomous_development.Cycles.Service as Cycles
use autonomous_development.Releases.Promote.{get_reads}
use autonomous_development.Soak.Decisions.{SoakDecisionReceipt}
use autonomous_development.Soak.Decisions as Decisions
use autonomous_development.Soak.Runtime.{on_world, stop_release, cleanup_cycle}
use autonomous_development.Soak.Service.{
  SoakWiring, SoakStore, on_cycles, on_decisions, on_runtime, recorded_for, restore_traffic,
  restore_release, retire_candidate, rollback_to_baseline, complete_cycle, unless_done, apply_kind,
  apply,
}

module _ {S W : Type 0} where
  -- An exception leaves the cycles alone.
  abbrev KeepsOnError : {A : Type 0} → Action (SoakStore S W) A → Type 0
  KeepsOnError m = (s : SoakStore S W) (e : Error) → (m s).0 ≡ err e → (m s).1.cycles ≡ s.cycles

  Keeps : {A : Type 0} → Action (SoakStore S W) A → Type 0
  Keeps m = (s : SoakStore S W) → (m s).1.cycles ≡ s.cycles

  split_error :
      {A B : Type 0} (r : Result A) (t : SoakStore S W) (f : A → Action (SoakStore S W) B)
      → ((a : A) → KeepsOnError (f a))
      → (e : Error)
      → let q : Result B × SoakStore S W = elim r [ ok a ↦ f a t | err x ↦ (err x, t) ] in
        (q.0 ≡ err e) → (q.1.cycles ≡ t.cycles)
  split_error (ok a) t f keeps e h = keeps a t e h
  split_error (err x) t f keeps e h = refl

  then-KeepsOnError :
      {A B : Type 0} (m : Action (SoakStore S W) A) (f : A → Action (SoakStore S W) B)
      → Keeps m
      → ((a : A) → KeepsOnError (f a))
      → KeepsOnError (m >>= f)
  unfolding Keeps
  then-KeepsOnError m f first rest s e h = split_error (m s).0 (m s).1 f rest e h ∙ first s

  lift-KeepsOnError : {A : Type 0} (r : Result A) → KeepsOnError (lift r)
  lift-KeepsOnError r s e h = refl

module _ {fl : Floats} {S W : Type 0} (R : CycleRepository S) (w : SoakWiring fl W)
    (Valid : S → Type 0) (L : IsLawful R Valid) where
  move-KeepsOnError :
      (c : DevelopmentCycle) (to : CycleState) (op : String) (e : Evidence)
      → KeepsOnError {W = W} (on_cycles (Cycles.transition R c.id to c.version op e))
  move-KeepsOnError c to op e s x h =
      transition_error_unchanged R Valid L c.id to c.version op e s.cycles x h

  rollback-KeepsOnError :
      (cycle : DevelopmentCycle) (op : String) → KeepsOnError (rollback_to_baseline R w cycle op)
  unfolding rollback_to_baseline Keeps
  rollback-KeepsOnError cycle op =
      let route =
        λ (x : String). on_runtime {S = S} (restore_traffic R w cycle (concat x "-soak") op) in
      let serve = on_runtime {S = S} (restore_release R w cycle op) in
      let retire = on_runtime {S = S} (on_world (retire_candidate R w cycle)) in
      let move = on_cycles {W = W} (
        Cycles.transition R cycle.id CycleState.rolled_back cycle.version (concat op ":cycle")
          (record no_evidence { release_decision = some ReleaseDecisionKind.rollback })) in
      then-KeepsOnError (lift (require cycle.experiment_id value_error))
        (λ x. route x >> (serve >> (retire >> move))) (λ s. refl)
        λ x.
          then-KeepsOnError (route x) (λ _. serve >> (retire >> move)) (λ s. refl)
            λ _.
              then-KeepsOnError serve (λ _. retire >> move) (λ s. refl)
                λ _.
                  then-KeepsOnError retire (λ _. move) (λ s. refl)
                    λ _.
                      move-KeepsOnError cycle CycleState.rolled_back (concat op ":cycle")
                        (record no_evidence {
                          release_decision = some ReleaseDecisionKind.rollback;
                        })

  complete-KeepsOnError :
      (cycle : DevelopmentCycle) (op : String) → KeepsOnError (complete_cycle R w cycle op)
  unfolding complete_cycle Keeps
  complete-KeepsOnError cycle op =
      let stop = on_runtime {S = S} (
        stop_release w.deployment w.contract_target_id w.container_port
          cycle.baseline_release_id) in
      let clean =
        on_runtime {S = S}
          (on_world (cleanup_cycle w.repository w.repository_root w.worktree_root cycle.id)) in
      let move = on_cycles {W = W} (
        Cycles.transition R cycle.id CycleState.completed cycle.version (concat op ":complete")
          no_evidence) in
      then-KeepsOnError stop (λ _. clean >> move) (λ s. refl)
        λ _.
          then-KeepsOnError clean (λ _. move) (λ s. refl)
            λ _. move-KeepsOnError cycle CycleState.completed (concat op ":complete") no_evidence

  unless_done-KeepsOnError :
      (done : CycleState) (cycle : DevelopmentCycle) (act : Action (SoakStore S W) DevelopmentCycle)
      → KeepsOnError act
      → KeepsOnError (unless_done R w done cycle act)
  unfolding unless_done
  unless_done-KeepsOnError done cycle act keeps s e h = elim (Bool-cases (cycle.state == done)) [
    | inl over ↦ ground arith
    | inr going ↦ elim (Bool-cases (cycle.state == CycleState.soaking)) [
      | inl soaks ↦ rw (going, soaks) (keeps s e (rw (going, soaks) at h))
      | inr other ↦ ground arith
    ]
  ]

  apply_kind-KeepsOnError :
      (kind : SoakDecisionKind) (cycle : DevelopmentCycle) (op : String)
      → KeepsOnError (apply_kind R w kind cycle op)
  unfolding apply_kind Keeps
  apply_kind-KeepsOnError SoakDecisionKind.hold cycle op = λ s e h. ground arith
  apply_kind-KeepsOnError SoakDecisionKind.complete cycle op =
      unless_done-KeepsOnError CycleState.completed cycle _ (complete-KeepsOnError cycle op)
  apply_kind-KeepsOnError SoakDecisionKind.rollback cycle op =
      unless_done-KeepsOnError CycleState.rolled_back cycle _ (rollback-KeepsOnError cycle op)

  -- Over a lawful cycle repository, a call of `apply` that raises leaves every cycle as it was,
  -- so that an interrupted rollback or completion can be applied again: the transition is the last
  -- of the effects.
  pub apply_error_unchanged :
      (id decision_op op : String) (s : SoakStore S W) (e : Error)
      → (apply R w id decision_op op s).0 ≡ err e
      → (apply R w id decision_op op s).1.cycles ≡ s.cycles
  unfolding apply Keeps
  apply_error_unchanged id decision_op op =
      let read : Action (SoakStore S W) (Option SoakDecisionReceipt) =
        on_decisions (λ rows. (Decisions.get decision_op rows, rows)) in
      let fetch = on_cycles {W = W} (Cycles.get R id) in
      then-KeepsOnError read
        (λ r. lift (recorded_for id r) >>= λ d. fetch >>= λ c. apply_kind R w d.kind c op)
        (λ s. refl)
        λ r.
          then-KeepsOnError (lift (recorded_for id r))
            (λ d. fetch >>= λ c. apply_kind R w d.kind c op) (λ s. refl)
            λ d.
              then-KeepsOnError fetch (λ c. apply_kind R w d.kind c op)
                (λ s. get_reads R id s.cycles) λ c. apply_kind-KeepsOnError d.kind c op

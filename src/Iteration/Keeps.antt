-- ===== src/Iteration/Keeps.antt =====
-- The steps of application/iteration.py that leave the proposals alone.
use autonomous_development.Prelude.{List, Eq, ◌≡◌, arith}
use autonomous_development.Prelude.Action.{Action}
use autonomous_development.Domain.Canary.Floats.{Floats}
use autonomous_development.Domain.Enums.{cycle_state_eq}
use autonomous_development.Domain.Models.{DevelopmentCycle, Diagnosis, UserFeedback}
use autonomous_development.Iteration.Context.{IterationRequest}
use autonomous_development.Iteration.Service.{
  IterationWiring, IterationStore, require_diagnosis, require_proposal, load_prepared, refuse_again,
  load_blocked, verify_baseline, bind_evidence, diagnosed, refuse,
}

module _ {fl : Floats} {S W : Type 0} where
  abbrev pub Keeps : {A : Type 0} → Action (IterationStore fl S W) A → Type 0
  Keeps m = (s : IterationStore fl S W) → (m s).1.proposals ≡ s.proposals

module _ {fl : Floats} ⦃float_eq : Eq fl.Float⦄ {S W : Type 0} (wiring : IterationWiring fl S W)
    (r : IterationRequest fl) where
  pub require_diagnosis-Keeps : (c : DevelopmentCycle) → Keeps (require_diagnosis wiring r c)
  unfolding require_diagnosis
  require_diagnosis-Keeps c s = ground arith

  pub require_proposal-Keeps : (c : DevelopmentCycle) → Keeps (require_proposal wiring r c)
  unfolding require_proposal
  require_proposal-Keeps c s = ground arith

  pub load_prepared-Keeps : (c : DevelopmentCycle) → Keeps (load_prepared wiring r c)
  unfolding load_prepared require_diagnosis require_proposal
  load_prepared-Keeps c s = ground arith

  pub load_blocked-Keeps : (c : DevelopmentCycle) → Keeps (load_blocked wiring r c)
  unfolding load_blocked refuse_again require_diagnosis
  load_blocked-Keeps c s = ground arith

  pub verify_baseline-Keeps : (c : DevelopmentCycle) → Keeps (verify_baseline wiring r c)
  unfolding verify_baseline
  verify_baseline-Keeps c s = ground arith

  pub bind_evidence-Keeps : (c : DevelopmentCycle) → Keeps (bind_evidence wiring r c)
  unfolding bind_evidence
  bind_evidence-Keeps c s = ground arith

  pub diagnosed-Keeps :
      (rows : List UserFeedback) (c : DevelopmentCycle) → Keeps (diagnosed wiring r rows c)
  unfolding diagnosed require_diagnosis
  diagnosed-Keeps rows c s = ground arith

  pub refuse-Keeps : (c : DevelopmentCycle) (d : Diagnosis fl) → Keeps (refuse wiring r c d)
  unfolding refuse
  refuse-Keeps c d s = ground arith

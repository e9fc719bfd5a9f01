-- ===== src/Domain/Transitions/Keeps.antt =====
-- What no transition loses.
use autonomous_development.Prelude.{◌≡◌, List, true, is_some, arith}
use autonomous_development.Prelude.Raise.{ok}
use autonomous_development.Domain.Enums.{CycleState}
use autonomous_development.Domain.Models.{DevelopmentCycle, cycle_post_init}
use autonomous_development.Domain.Transitions.Guard.{Evidence, merged}
use autonomous_development.Domain.Transitions.Lifecycle.{
  Request, transition_all, transition_all_induction,
}

-- `c'` is the same cycle as `c`, and has every reference that `c` has.
pub record Extends (c c' : DevelopmentCycle) : Type 0 where
  pub id : c'.id ≡ c.id
  pub target_id : c'.target_id ≡ c.target_id
  pub objective_revision_id : c'.objective_revision_id ≡ c.objective_revision_id
  pub baseline_release_id : c'.baseline_release_id ≡ c.baseline_release_id
  pub evidence_window : is_some c.evidence_window_id ≡ true → is_some c'.evidence_window_id ≡ true
  pub diagnosis : is_some c.diagnosis_id ≡ true → is_some c'.diagnosis_id ≡ true
  pub change_proposal : is_some c.change_proposal_id ≡ true → is_some c'.change_proposal_id ≡ true
  pub candidate : is_some c.candidate_id ≡ true → is_some c'.candidate_id ≡ true
  pub verification_run :
      is_some c.verification_run_id ≡ true → is_some c'.verification_run_id ≡ true
  pub artifact : is_some c.artifact_id ≡ true → is_some c'.artifact_id ≡ true
  pub deployment :
      is_some c.candidate_deployment_id ≡ true → is_some c'.candidate_deployment_id ≡ true
  pub experiment : is_some c.experiment_id ≡ true → is_some c'.experiment_id ≡ true
  pub decision : is_some c.release_decision ≡ true → is_some c'.release_decision ≡ true

Extends-refl : (c : DevelopmentCycle) → Extends c c
Extends-refl c = ground arith

Extends-merged :
    (c d : DevelopmentCycle) (to : CycleState) (e : Evidence)
    → Extends c d
    → Extends c (merged d to e)
unfolding merged
Extends-merged c d to e h = ground arith

-- Accepted transitions of a well-formed cycle keep its identity, its target, objective and
-- baseline, and never drop a reference that it has.
pub transition_all-Extends :
    (c : DevelopmentCycle) (rs : List Request) (c' : DevelopmentCycle)
    → cycle_post_init c ≡ ok c
    → transition_all c rs ≡ ok c'
    → Extends c c'
transition_all-Extends c rs c' v h =
    transition_all_induction {P = Extends c}
      (λ d q w p edge full. Extends-merged c d q.to_state q.evidence p) c rs c' v (Extends-refl c) h

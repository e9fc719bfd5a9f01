-- ===== src/Domain/Transitions/Promotion.antt =====
-- What a promoted cycle has behind it, and how a cycle can end: domain/transitions.py.
use autonomous_development.Prelude.{
  ℕ, ◌+◌, ◌≤◌, ◌≡◌, refl, List, String, Bool, true, false, length, leb, is_some, some,
  if◌then◌else◌, arith,
}
use autonomous_development.Prelude.Raise.{ok}
use autonomous_development.Domain.Enums.{CycleState, ReleaseDecisionKind}
use autonomous_development.Domain.Models.{DevelopmentCycle, fresh_cycle, cycle_post_init}
use autonomous_development.Domain.Transitions.Table.{is_terminal, rank}
use autonomous_development.Domain.Transitions.Guard.{
  Evidence, no_evidence, merged, transition_cycle,
}
use autonomous_development.Domain.Transitions.Accepts.{
  HasEvidence, is_past, diagram, transition_cycle_iff,
}
use autonomous_development.Domain.Transitions.Lifecycle.{
  Request, transition_all, transition_all_induction, transition_all-rank,
}

-- The least number of transitions from `new` to a state.
abbrev pub depth : CycleState → ℕ
depth CycleState.new = 0
depth CycleState.baseline_verified = 1
depth CycleState.evidence_ready = 2
depth CycleState.diagnosed = 3
depth CycleState.change_proposed = 2
depth CycleState.developing = 3
depth CycleState.failed_recoverable = 4
depth CycleState.candidate_ready = 4
depth CycleState.verifying = 5
depth CycleState.verified = 6
depth CycleState.built = 7
depth CycleState.staged = 8
depth CycleState.canarying = 9
depth CycleState.promotion_ready = 10
depth CycleState.promoted = 11
depth CycleState.soaking = 12
depth CycleState.completed = 13
depth CycleState.rejected = 5
depth CycleState.rolled_back = 10
depth CycleState.blocked = 1
depth CycleState.cancelled = 1
depth CycleState.failed_terminal = 4

diagram-depth : (from to : CycleState) → diagram from to ≡ true → depth to ≤ depth from + 1
diagram-depth CycleState.new to h = ground arith
diagram-depth _ to h = ground arith

-- The version is at least the depth, and the evidence is there.
record IsEarned (c : DevelopmentCycle) : Type 0 where
  deep : depth c.state ≤ c.version
  complete : HasEvidence c

merged-deep :
    (c : DevelopmentCycle) (to : CycleState) (e : Evidence)
    → diagram c.state to ≡ true
    → depth c.state ≤ c.version
    → depth (merged c to e).state ≤ (merged c to e).version
unfolding merged
merged-deep c to e d h = omega (arith, diagram-depth c.state to d)

depth_past :
    (s : CycleState)
    → is_past s 13 ≡ true
    → (11 ≤ depth s)
      × (is_past s 6 ≡ true)
      × (is_past s 8 ≡ true)
      × (is_past s 9 ≡ true)
      × (is_past s 10 ≡ true)
      × (is_past s 11 ≡ true)
depth_past CycleState.new h = cc
depth_past _ h = ground arith

-- A cycle that was created well-formed and is promoted, soaking or completed has made at least
-- eleven transitions from `new`, whatever the requests were, and carries its candidate, its
-- verification run, its artifact, its deployment, its experiment and an explicit promote
-- decision.
pub promoted_is_earned :
    (i t o b : String) (rs : List Request) (c : DevelopmentCycle)
    → cycle_post_init (fresh_cycle i t o b) ≡ ok (fresh_cycle i t o b)
    → transition_all (fresh_cycle i t o b) rs ≡ ok c
    → is_past c.state 13 ≡ true
    → (11 ≤ length rs)
      × (is_some c.candidate_id ≡ true)
      × (is_some c.verification_run_id ≡ true)
      × (is_some c.artifact_id ≡ true)
      × (is_some c.candidate_deployment_id ≡ true)
      × (is_some c.experiment_id ≡ true)
      × (c.release_decision ≡ some ReleaseDecisionKind.promote)
promoted_is_earned i t o b rs c v h past =
    let start : IsEarned (fresh_cycle i t o b) = unfold fresh_cycle in ground arith in
    let earned : IsEarned c =
      transition_all_induction {P = IsEarned}
        (λ d r w p edge full. record {
          deep = merged-deep d r.to_state r.evidence edge p.deep;
          complete = full;
        })
        (fresh_cycle i t o b) rs c v start h in
    let (count, far) = transition_all-rank (fresh_cycle i t o b) rs c v h in
    let (deep, past6, past8, past9, past10, past11) = depth_past c.state past in
    let zero_start : (fresh_cycle i t o b).version ≡ 0 = unfold fresh_cycle in refl in
    let full = earned.complete in
    (
      omega (arith, earned.deep),
      full.candidate past6,
      full.verification_run past8,
      full.artifact past9,
      full.deployment past10,
      full.experiment past11,
      full.decision past,
    )

-- Once promoted, a cycle only soaks, completes or rolls back.
abbrev pub is_released : CycleState → Bool
is_released CycleState.promoted = true
is_released CycleState.soaking = true
is_released CycleState.completed = true
is_released CycleState.rolled_back = true
is_released _ = false

diagram-released :
    (from to : CycleState)
    → is_released from ≡ true
    → diagram from to ≡ true
    → is_released to ≡ true
diagram-released CycleState.new to r h = cc
diagram-released _ to r h = ground arith

merged-released :
    (c : DevelopmentCycle) (to : CycleState) (e : Evidence)
    → is_released c.state ≡ true
    → diagram c.state to ≡ true
    → is_released (merged c to e).state ≡ true
unfolding merged
merged-released c to e r d = diagram-released c.state to r d

-- A well-formed promoted, soaking, completed or rolled-back cycle stays among these four states:
-- it can no longer be rejected, cancelled, blocked or failed.
pub released_absorbs :
    (c : DevelopmentCycle) (rs : List Request) (c' : DevelopmentCycle)
    → cycle_post_init c ≡ ok c
    → is_released c.state ≡ true
    → transition_all c rs ≡ ok c'
    → is_released c'.state ≡ true
released_absorbs c rs c' v r h =
    transition_all_induction {P = λ d. is_released d.state ≡ true}
      (λ d q w p edge full. merged-released d q.to_state q.evidence p edge) c rs c' v r h

-- The way out of a state that is not terminal.
abbrev pub way_out : CycleState → CycleState
way_out s = if leb (rank s) 12 then CycleState.cancelled else CycleState.rolled_back

way_out_open : (s : CycleState) → is_terminal s ≡ false → diagram s (way_out s) ≡ true
unfolding is_terminal
way_out_open CycleState.new h = refl
way_out_open _ h = ground arith

way_out_complete : (c : DevelopmentCycle) → HasEvidence (merged c (way_out c.state) no_evidence)
unfolding merged
way_out_complete c = ground arith

-- Whatever evidence it carries, a well-formed cycle that is not terminal can be ended at its
-- version: cancelled before it is promoted, rolled back from then on.
pub can_always_end :
    (c : DevelopmentCycle)
    → cycle_post_init c ≡ ok c
    → is_terminal c.state ≡ false
    → (is_terminal (way_out c.state) ≡ true)
      × (transition_cycle c (way_out c.state) c.version no_evidence
          ≡ ok (merged c (way_out c.state) no_evidence))
unfolding is_terminal
can_always_end c v h = (
  ground arith,
  (transition_cycle_iff c (way_out c.state) c.version no_evidence
        (merged c (way_out c.state) no_evidence) v).1
      (refl, way_out_open c.state h, way_out_complete c, refl),
)

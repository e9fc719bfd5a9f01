-- ===== src/Domain/Transitions/Accepts.antt =====
-- When `transition_cycle` succeeds, and what it returns.
use autonomous_development.Prelude.{
  ℕ, ◌+◌, ◌≡◌, ◌↔◌, ◌≢◌, ◌⊎◌, some, String, Option, Bool, true, false, ◌&&◌, ◌||◌, is_some, leb,
  ◌==◌, nat_eq, refl, arith, nat_beq_iff,
}
use autonomous_development.Prelude.Raise.{
  Error, raise_if, ◌>>◌, ok, err, stale_cycle, transition_error,
}
use autonomous_development.Domain.Enums.{CycleState, ReleaseDecisionKind, cycle_state_eq}
use autonomous_development.Domain.Models.{DevelopmentCycle, cycle_post_init}
use autonomous_development.Domain.Transitions.Table.{is_terminal, permits, rank}
use autonomous_development.Domain.Transitions.Guard.{
  lacks, lacks_promote, needs_candidate, needs_run, needs_artifact, needs_deployment,
  needs_experiment, Evidence, merged, validate_required_reference, transition_cycle,
}

-- The stage at which a cycle stands, if it did not end in a failure: `k` or later.
abbrev pub is_past : CycleState → ℕ → Bool
is_past CycleState.rejected k = false
is_past CycleState.rolled_back k = false
is_past CycleState.blocked k = false
is_past CycleState.cancelled k = false
is_past CycleState.failed_terminal k = false
is_past s k = leb k (rank s)

-- What a cycle must carry: each reference from the stage that makes it onwards.
pub record HasEvidence (c : DevelopmentCycle) : Type 0 where
  pub candidate : is_past c.state 6 ≡ true → is_some c.candidate_id ≡ true
  pub verification_run : is_past c.state 8 ≡ true → is_some c.verification_run_id ≡ true
  pub artifact : is_past c.state 9 ≡ true → is_some c.artifact_id ≡ true
  pub deployment : is_past c.state 10 ≡ true → is_some c.candidate_deployment_id ≡ true
  pub experiment : is_past c.state 11 ≡ true → is_some c.experiment_id ≡ true
  pub decision : is_past c.state 13 ≡ true → c.release_decision ≡ some ReleaseDecisionKind.promote

validate_iff :
    (c : DevelopmentCycle) (s : CycleState)
    → c.state ≡ s
    → (validate_required_reference s c.candidate_id c.verification_run_id c.artifact_id
          c.candidate_deployment_id c.experiment_id c.release_decision
        ≡ ok tt)
      ↔ HasEvidence c
unfolding validate_required_reference
validate_iff c CycleState.new h = ground arith
validate_iff c _ h = ground arith

-- The diagram of the lifecycle: the way forward, and from where each way out can be taken.
abbrev pub forward : CycleState → CycleState → Bool
forward CycleState.baseline_verified CycleState.change_proposed = true
forward CycleState.failed_recoverable CycleState.developing = true
forward CycleState.failed_recoverable _ = false
forward _ CycleState.failed_recoverable = false
forward from to = rank from + 1 == rank to

abbrev pub diagram : CycleState → CycleState → Bool
diagram from CycleState.cancelled = leb (rank from) 12
diagram from CycleState.blocked = leb (rank from) 5
diagram from CycleState.rejected = leb 6 (rank from) && leb (rank from) 12
diagram from CycleState.rolled_back = leb 11 (rank from) && leb (rank from) 14
diagram CycleState.failed_recoverable CycleState.failed_terminal = true
diagram from CycleState.failed_terminal = leb 5 (rank from) && leb (rank from) 12
diagram from CycleState.failed_recoverable =
    from == CycleState.developing || from == CycleState.verifying
diagram from to = forward from to

-- The table of the source permits exactly the edges of the lifecycle diagram.
pub permits-eq-diagram : (from to : CycleState) → permits from to ≡ diagram from to
unfolding permits is_terminal
permits-eq-diagram CycleState.new to = ground arith
permits-eq-diagram _ to = ground arith

-- A state is terminal exactly when the table has no way out of it.
pub is_terminal_iff :
    (s : CycleState) → (is_terminal s ≡ true) ↔ ((to : CycleState) → permits s to ≡ false)
unfolding is_terminal permits
is_terminal_iff CycleState.completed = (λ h to. refl, λ h. refl)
is_terminal_iff s =
    (λ h to. ground arith, λ h. ground (arith, h CycleState.cancelled, h CycleState.rolled_back))

diagram_open : (s to : CycleState) → diagram s to ≡ true → is_terminal s ≡ false
unfolding is_terminal
diagram_open CycleState.new to h = refl
diagram_open _ to h = ground arith

pub merged-valid :
    (c : DevelopmentCycle) (to : CycleState) (e : Evidence)
    → cycle_post_init c ≡ ok c
    → cycle_post_init (merged c to e) ≡ ok (merged c to e)
unfolding cycle_post_init merged
merged-valid c to e h = ground arith

-- The evidence test reads the updated cycle.
validate_merged_iff :
    (c : DevelopmentCycle) (to : CycleState) (e : Evidence)
    → let n = merged c to e in
      (validate_required_reference to n.candidate_id n.verification_run_id n.artifact_id
          n.candidate_deployment_id n.experiment_id n.release_decision
        ≡ ok tt)
      ↔ HasEvidence n
validate_merged_iff c to e = validate_iff (merged c to e) to (unfold merged in refl)

-- `transition_cycle` on a well-formed cycle succeeds exactly when the caller knows the version,
-- the diagram has the edge and the updated cycle carries its evidence; the result is the update.
pub transition_cycle_iff :
    (c : DevelopmentCycle) (to : CycleState) (v : ℕ) (e : Evidence) (c' : DevelopmentCycle)
    → cycle_post_init c ≡ ok c
    → (transition_cycle c to v e ≡ ok c') ↔ (
        (v ≡ c.version)
        × (diagram c.state to ≡ true)
        × HasEvidence (merged c to e)
        × (c' ≡ merged c to e))
unfolding transition_cycle
transition_cycle_iff c to v e c' h =
    let known = permits-eq-diagram c.state to in
    let open_state = diagram_open c.state to in
    let valid = merged-valid c to e h in
    let (complete, enough) = validate_merged_iff c to e in
    (
      λ k. (ground arith, ground arith, complete (ground arith), ground arith),
      λ k. ground (arith, enough k.2),
    )

-- Six tests in a row that raise one exception raise no other.
six_raises :
    (a b c d e f : Bool) (x : Error)
    → (do
      raise_if a transition_error
      raise_if b transition_error
      raise_if c transition_error
      raise_if d transition_error
      raise_if e transition_error
      raise_if f transition_error)
      ≡ err x
    → x ≡ transition_error
six_raises a b c d e f x h = ground arith

validate_error :
    (s : CycleState) (a b c d e : Option String) (k : Option ReleaseDecisionKind) (x : Error)
    → validate_required_reference s a b c d e k ≡ err x
    → x ≡ transition_error
unfolding validate_required_reference
validate_error s a b c d e k =
    six_raises (lacks s needs_candidate a) (lacks s needs_run b) (lacks s needs_artifact c)
      (lacks s needs_deployment d) (lacks s needs_experiment e) (lacks_promote s k)

-- A refused transition of a well-formed cycle is a stale one, or one that the lifecycle forbids;
-- the two are told apart by the version alone, and no other exception is raised.
pub transition_cycle_error :
    (c : DevelopmentCycle) (to : CycleState) (v : ℕ) (e : Evidence) (x : Error)
    → cycle_post_init c ≡ ok c
    → transition_cycle c to v e ≡ err x
    → (v ≢ c.version) × (x ≡ stale_cycle) ⊎ (v ≡ c.version) × (x ≡ transition_error)
unfolding transition_cycle
transition_cycle_error c to v e x h k =
    let n = merged c to e in
    let valid = merged-valid c to e h in
    ground (
      arith,
      nat_beq_iff v c.version,
      validate_error to n.candidate_id n.verification_run_id n.artifact_id n.candidate_deployment_id
          n.experiment_id n.release_decision x,
    )

-- ===== src/Domain/Transitions/Table.antt =====
-- The lifecycle table of domain/transitions.py, read against a diagram of ranks.
use autonomous_development.Prelude.{
  ℕ, ◌+◌, ◌*◌, ◌<◌, ◌≤◌, ◌≡◌, List, [], ◌∷◌, Bool, true, elem, arith,
}
use autonomous_development.Domain.Enums.{CycleState, cycle_state_eq}

-- `TERMINAL_STATES`
unfoldable pub terminal_states : List CycleState
terminal_states =
    CycleState.completed ∷ CycleState.rejected ∷ CycleState.rolled_back ∷ CycleState.blocked
    ∷ CycleState.cancelled ∷ CycleState.failed_terminal ∷ []

unfoldable pub is_terminal : CycleState → Bool
unfolding terminal_states
is_terminal s = elem s terminal_states

-- `_ALLOWED.get(state, frozenset())`
unfoldable pub allowed : CycleState → List CycleState
allowed CycleState.new =
    CycleState.baseline_verified ∷ CycleState.blocked ∷ CycleState.cancelled ∷ []
allowed CycleState.baseline_verified =
    CycleState.evidence_ready ∷ CycleState.change_proposed ∷ CycleState.blocked
    ∷ CycleState.cancelled ∷ []
allowed CycleState.evidence_ready =
    CycleState.diagnosed ∷ CycleState.blocked ∷ CycleState.cancelled ∷ []
allowed CycleState.diagnosed =
    CycleState.change_proposed ∷ CycleState.blocked ∷ CycleState.cancelled ∷ []
allowed CycleState.change_proposed =
    CycleState.developing ∷ CycleState.blocked ∷ CycleState.cancelled ∷ []
allowed CycleState.developing =
    CycleState.candidate_ready ∷ CycleState.failed_recoverable ∷ CycleState.failed_terminal
    ∷ CycleState.blocked ∷ CycleState.cancelled ∷ []
allowed CycleState.failed_recoverable =
    CycleState.developing ∷ CycleState.failed_terminal ∷ CycleState.blocked ∷ CycleState.cancelled
    ∷ []
allowed CycleState.candidate_ready =
    CycleState.verifying ∷ CycleState.rejected ∷ CycleState.failed_terminal ∷ CycleState.cancelled
    ∷ []
allowed CycleState.verifying =
    CycleState.verified ∷ CycleState.rejected ∷ CycleState.failed_recoverable
    ∷ CycleState.failed_terminal ∷ CycleState.cancelled ∷ []
allowed CycleState.verified =
    CycleState.built ∷ CycleState.rejected ∷ CycleState.failed_terminal ∷ CycleState.cancelled ∷ []
allowed CycleState.built =
    CycleState.staged ∷ CycleState.rejected ∷ CycleState.failed_terminal ∷ CycleState.cancelled ∷ []
allowed CycleState.staged =
    CycleState.canarying ∷ CycleState.rejected ∷ CycleState.failed_terminal ∷ CycleState.cancelled
    ∷ []
allowed CycleState.canarying =
    CycleState.promotion_ready ∷ CycleState.rejected ∷ CycleState.rolled_back
    ∷ CycleState.failed_terminal ∷ CycleState.cancelled ∷ []
allowed CycleState.promotion_ready =
    CycleState.promoted ∷ CycleState.rejected ∷ CycleState.rolled_back ∷ CycleState.failed_terminal
    ∷ CycleState.cancelled ∷ []
allowed CycleState.promoted = CycleState.soaking ∷ CycleState.rolled_back ∷ []
allowed CycleState.soaking = CycleState.completed ∷ CycleState.rolled_back ∷ []
allowed _ = []

unfoldable pub permits : CycleState → CycleState → Bool
unfolding allowed
permits from to = elem to (allowed from)

-- How far a cycle has come: the working states in order, every final state past them, and a
-- recoverable failure just before the work that it repeats.
abbrev pub rank : CycleState → ℕ
rank CycleState.new = 0
rank CycleState.baseline_verified = 1
rank CycleState.evidence_ready = 2
rank CycleState.diagnosed = 3
rank CycleState.change_proposed = 4
rank CycleState.failed_recoverable = 4
rank CycleState.developing = 5
rank CycleState.candidate_ready = 6
rank CycleState.verifying = 7
rank CycleState.verified = 8
rank CycleState.built = 9
rank CycleState.staged = 10
rank CycleState.canarying = 11
rank CycleState.promotion_ready = 12
rank CycleState.promoted = 13
rank CycleState.soaking = 14
rank CycleState.completed = 15
rank CycleState.rejected = 15
rank CycleState.rolled_back = 15
rank CycleState.blocked = 15
rank CycleState.cancelled = 15
rank CycleState.failed_terminal = 15

-- One failed attempt costs four ranks at most.
abbrev pub is_retry : CycleState → ℕ
is_retry CycleState.failed_recoverable = 1
is_retry _ = 0

pub permits-rank :
    (from to : CycleState) → permits from to ≡ true → rank from < rank to + 4 * is_retry to
unfolding permits
permits-rank CycleState.new to h = ground arith
permits-rank _ to h = ground arith

pub rank-le : (s : CycleState) → rank s ≤ 15
rank-le CycleState.new = omega arith
rank-le _ = omega arith

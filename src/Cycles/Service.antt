-- ===== src/Cycles/Service.antt =====
-- `CycleService` of application/cycles.py, over any repository.
use autonomous_development.Prelude.{
  ℕ, String, Option, none, some, ◌||◌, ltb, ◌!=◌, nat_eq, string_eq,
}
use autonomous_development.Prelude.Raise.{
  Result, raise_if, value_error, cycle_not_found, stale_cycle, operation_conflict, runtime_error,
}
use autonomous_development.Prelude.Action.{Action, ◌>>=◌, ◌>>◌, pure, raise, lift}
use autonomous_development.Domain.Enums.{CycleState, cycle_state_eq}
use autonomous_development.Domain.Models.{DevelopmentCycle}
use autonomous_development.Domain.Transitions.Guard.{Evidence, transition_cycle}
use autonomous_development.Cycles.Repository.{TransitionReceipt, CycleRepository}

-- A read, which leaves the store alone.
abbrev pub query : {S A : Type 0} → (S → Result A) → Action S A
query read s = (read s, s)

module _ {S : Type 0} (R : CycleRepository S) where
  unfoldable pub create : DevelopmentCycle → Action S DevelopmentCycle
  create cycle = do
    active ← query (R.find_active_for_target cycle.target_id)
    elim active [ some other ↦ raise value_error | none ↦ R.add cycle ]

  abbrev or_missing : Option DevelopmentCycle → Action S DevelopmentCycle
  or_missing none = raise cycle_not_found
  or_missing (some cycle) = pure cycle

  unfoldable pub get : String → Action S DevelopmentCycle
  get cycle_id = do found ← query (R.get cycle_id); or_missing found

  unfoldable pub active_for_target : String → Action S (Option DevelopmentCycle)
  active_for_target target_id = query (R.find_active_for_target target_id)

  -- The receipt of an operation that is repeated.
  unfoldable pub replay :
      TransitionReceipt
      → (cycle_id : String) → CycleState
      → (expected_version : ℕ) → Action S DevelopmentCycle
  unfolding get
  replay existing cycle_id to_state expected_version = do
    lift (
        raise_if
          (existing.cycle_id != cycle_id
            || existing.from_version != expected_version
            || existing.to_state != to_state)
          operation_conflict)
    current ← get cycle_id
    lift (raise_if (ltb current.version existing.result_version) runtime_error)
    pure current

  unfoldable pub perform :
      (cycle_id : String)
      → CycleState
      → (expected_version : ℕ) → (operation_id : String) → Evidence
      → Action S DevelopmentCycle
  unfolding get
  perform cycle_id to_state expected_version operation_id evidence = do
    current ← get cycle_id
    lift (raise_if (current.version != expected_version) stale_cycle)
    updated ← lift (transition_cycle current to_state expected_version evidence)
    R.commit_transition updated expected_version operation_id to_state
    pure updated

  unfoldable pub transition :
      (cycle_id : String)
      → CycleState
      → (expected_version : ℕ) → (operation_id : String) → Evidence
      → Action S DevelopmentCycle
  transition cycle_id to_state expected_version operation_id evidence = do
    existing ← query (R.get_transition operation_id)
    elim existing [
      | some receipt ↦ replay receipt cycle_id to_state expected_version
      | none ↦ perform cycle_id to_state expected_version operation_id evidence
    ]

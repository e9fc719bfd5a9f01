-- ===== src/Cycles/Repository.antt =====
-- The `CycleRepository` protocol and `TransitionReceipt` of ports/persistence.py. Reads leave the
-- store alone; each method is one atomic step on it.
use autonomous_development.Prelude.{ℕ, String, Option, none, some, ◌≡◌}
use autonomous_development.Prelude.Raise.{Error, Result, ok, err}
use autonomous_development.Domain.Enums.{CycleState}
use autonomous_development.Domain.Models.{DevelopmentCycle, cycle_post_init}

pub record TransitionReceipt : Type 0 where
  pub operation_id : String
  pub cycle_id : String
  pub from_version : ℕ
  pub result_version : ℕ
  pub to_state : CycleState

abbrev pub receipt_of :
    DevelopmentCycle
    → (expected_version : ℕ) → (operation_id : String) → CycleState
    → TransitionReceipt
receipt_of c expected_version operation_id to_state = record {
  operation_id = operation_id;
  cycle_id = c.id;
  from_version = expected_version;
  result_version = c.version;
  to_state = to_state;
}

pub record CycleRepository (S : Type 0) : Type 0 where
  pub add : DevelopmentCycle → S → Result DevelopmentCycle × S
  pub get : String → S → Result (Option DevelopmentCycle)
  pub find_active_for_target : String → S → Result (Option DevelopmentCycle)
  pub get_transition : String → S → Result (Option TransitionReceipt)
  pub commit_transition :
      DevelopmentCycle
      → (expected_version : ℕ) → (operation_id : String) → CycleState
      → S
      → Result TransitionReceipt × S

-- What a client relies on, for the stores that the repository's own methods leave.
pub record IsLawful {S : Type 0} (R : CycleRepository S) (Valid : S → Type 0) : Type 0 where
  pub commit-Valid :
      (c : DevelopmentCycle) (v : ℕ) (op : String) (to : CycleState) (s : S)
      → Valid s
      → Valid (R.commit_transition c v op to s).1
  -- A cycle that is read is the one asked for, and passed its constructor.
  pub get-ok :
      (id : String) (s : S) (c : DevelopmentCycle)
      → R.get id s ≡ ok (some c)
      → (c.id ≡ id) × (cycle_post_init c ≡ ok c)
  -- A commit that raises writes nothing.
  pub commit-err :
      (c : DevelopmentCycle) (v : ℕ) (op : String) (to : CycleState) (s s' : S) (e : Error)
      → R.commit_transition c v op to s ≡ (err e, s')
      → s' ≡ s
  -- A new commit replaces the cycle that stood at the expected version, and leaves its receipt.
  pub commit-ok :
      (c : DevelopmentCycle) (v : ℕ) (op : String) (to : CycleState) (s s' : S)
      (r : TransitionReceipt)
      → Valid s
      → cycle_post_init c ≡ ok c
      → R.get_transition op s ≡ ok none
      → R.commit_transition c v op to s ≡ (ok r, s')
      → (R.get_transition op s' ≡ ok (some (receipt_of c v op to))) × (R.get c.id s' ≡ ok (some c))

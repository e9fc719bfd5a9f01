-- ===== src/Domain/Enums.antt =====
-- The enums of src/autonomous_development/domain/enums.py that the modelled code reads.
mod Work
unfoldable pub use Work.*
use autonomous_development.Prelude.{
  ℕ, ◌≡◌, refl, List, [], ◌∷◌, get_elem?, Option, or_default, Eq, tag_eq, String, some, find, ◌==◌,
  string_eq,
}

pub data CycleState : Type 0 where
  new baseline_verified evidence_ready diagnosed change_proposed developing : CycleState
  candidate_ready verifying verified built staged canarying promotion_ready : CycleState
  promoted soaking completed rejected rolled_back blocked cancelled : CycleState
  failed_recoverable failed_terminal : CycleState

abbrev cycle_state_members : List CycleState
cycle_state_members =
    CycleState.new ∷ CycleState.baseline_verified ∷ CycleState.evidence_ready ∷ CycleState.diagnosed
    ∷ CycleState.change_proposed ∷ CycleState.developing ∷ CycleState.candidate_ready
    ∷ CycleState.verifying ∷ CycleState.verified ∷ CycleState.built ∷ CycleState.staged
    ∷ CycleState.canarying ∷ CycleState.promotion_ready ∷ CycleState.promoted ∷ CycleState.soaking
    ∷ CycleState.completed ∷ CycleState.rejected ∷ CycleState.rolled_back ∷ CycleState.blocked
    ∷ CycleState.cancelled ∷ CycleState.failed_recoverable ∷ CycleState.failed_terminal ∷ []

abbrev pub cycle_state_tag : CycleState → ℕ
cycle_state_tag CycleState.new = 0
cycle_state_tag CycleState.baseline_verified = 1
cycle_state_tag CycleState.evidence_ready = 2
cycle_state_tag CycleState.diagnosed = 3
cycle_state_tag CycleState.change_proposed = 4
cycle_state_tag CycleState.developing = 5
cycle_state_tag CycleState.candidate_ready = 6
cycle_state_tag CycleState.verifying = 7
cycle_state_tag CycleState.verified = 8
cycle_state_tag CycleState.built = 9
cycle_state_tag CycleState.staged = 10
cycle_state_tag CycleState.canarying = 11
cycle_state_tag CycleState.promotion_ready = 12
cycle_state_tag CycleState.promoted = 13
cycle_state_tag CycleState.soaking = 14
cycle_state_tag CycleState.completed = 15
cycle_state_tag CycleState.rejected = 16
cycle_state_tag CycleState.rolled_back = 17
cycle_state_tag CycleState.blocked = 18
cycle_state_tag CycleState.cancelled = 19
cycle_state_tag CycleState.failed_recoverable = 20
cycle_state_tag CycleState.failed_terminal = 21

abbrev cycle_state_of_tag : ℕ → CycleState
cycle_state_of_tag i = or_default CycleState.new (get_elem? cycle_state_members i)

pub cycle_state_of_tag-tag : (a : CycleState) → cycle_state_of_tag (cycle_state_tag a) ≡ a
cycle_state_of_tag-tag CycleState.new = refl
cycle_state_of_tag-tag _ = refl

instance abbrev pub cycle_state_eq : Eq CycleState
cycle_state_eq = tag_eq cycle_state_tag cycle_state_of_tag cycle_state_of_tag-tag

pub data VerificationStatus : Type 0 where
  passed failed blocked : VerificationStatus

abbrev verification_status_members : List VerificationStatus
verification_status_members =
    VerificationStatus.passed ∷ VerificationStatus.failed ∷ VerificationStatus.blocked ∷ []

abbrev pub verification_status_tag : VerificationStatus → ℕ
verification_status_tag VerificationStatus.passed = 0
verification_status_tag VerificationStatus.failed = 1
verification_status_tag VerificationStatus.blocked = 2

abbrev verification_status_of_tag : ℕ → VerificationStatus
verification_status_of_tag i =
    or_default VerificationStatus.passed (get_elem? verification_status_members i)

pub verification_status_of_tag-tag :
    (a : VerificationStatus) → verification_status_of_tag (verification_status_tag a) ≡ a
verification_status_of_tag-tag VerificationStatus.passed = refl
verification_status_of_tag-tag _ = refl

instance abbrev pub verification_status_eq : Eq VerificationStatus
verification_status_eq =
    tag_eq verification_status_tag verification_status_of_tag verification_status_of_tag-tag

pub data CanaryDecisionKind : Type 0 where
  advance hold rollback promotion_ready : CanaryDecisionKind

abbrev canary_kind_members : List CanaryDecisionKind
canary_kind_members =
    CanaryDecisionKind.advance ∷ CanaryDecisionKind.hold ∷ CanaryDecisionKind.rollback
    ∷ CanaryDecisionKind.promotion_ready ∷ []

abbrev pub canary_kind_tag : CanaryDecisionKind → ℕ
canary_kind_tag CanaryDecisionKind.advance = 0
canary_kind_tag CanaryDecisionKind.hold = 1
canary_kind_tag CanaryDecisionKind.rollback = 2
canary_kind_tag CanaryDecisionKind.promotion_ready = 3

abbrev canary_kind_of_tag : ℕ → CanaryDecisionKind
canary_kind_of_tag i = or_default CanaryDecisionKind.advance (get_elem? canary_kind_members i)

pub canary_kind_of_tag-tag : (a : CanaryDecisionKind) → canary_kind_of_tag (canary_kind_tag a) ≡ a
canary_kind_of_tag-tag CanaryDecisionKind.advance = refl
canary_kind_of_tag-tag _ = refl

instance abbrev pub canary_kind_eq : Eq CanaryDecisionKind
canary_kind_eq = tag_eq canary_kind_tag canary_kind_of_tag canary_kind_of_tag-tag

pub data SoakDecisionKind : Type 0 where
  hold rollback complete : SoakDecisionKind

abbrev soak_kind_members : List SoakDecisionKind
soak_kind_members =
    SoakDecisionKind.hold ∷ SoakDecisionKind.rollback ∷ SoakDecisionKind.complete ∷ []

abbrev pub soak_kind_tag : SoakDecisionKind → ℕ
soak_kind_tag SoakDecisionKind.hold = 0
soak_kind_tag SoakDecisionKind.rollback = 1
soak_kind_tag SoakDecisionKind.complete = 2

abbrev soak_kind_of_tag : ℕ → SoakDecisionKind
soak_kind_of_tag i = or_default SoakDecisionKind.hold (get_elem? soak_kind_members i)

pub soak_kind_of_tag-tag : (a : SoakDecisionKind) → soak_kind_of_tag (soak_kind_tag a) ≡ a
soak_kind_of_tag-tag SoakDecisionKind.hold = refl
soak_kind_of_tag-tag _ = refl

instance abbrev pub soak_kind_eq : Eq SoakDecisionKind
soak_kind_eq = tag_eq soak_kind_tag soak_kind_of_tag soak_kind_of_tag-tag

pub data ReleaseDecisionKind : Type 0 where
  promote reject rollback hold_insufficient_evidence blocked : ReleaseDecisionKind

abbrev release_kind_members : List ReleaseDecisionKind
release_kind_members =
    ReleaseDecisionKind.promote ∷ ReleaseDecisionKind.reject ∷ ReleaseDecisionKind.rollback
    ∷ ReleaseDecisionKind.hold_insufficient_evidence ∷ ReleaseDecisionKind.blocked ∷ []

abbrev pub release_kind_tag : ReleaseDecisionKind → ℕ
release_kind_tag ReleaseDecisionKind.promote = 0
release_kind_tag ReleaseDecisionKind.reject = 1
release_kind_tag ReleaseDecisionKind.rollback = 2
release_kind_tag ReleaseDecisionKind.hold_insufficient_evidence = 3
release_kind_tag ReleaseDecisionKind.blocked = 4

abbrev release_kind_of_tag : ℕ → ReleaseDecisionKind
release_kind_of_tag i = or_default ReleaseDecisionKind.promote (get_elem? release_kind_members i)

pub release_kind_of_tag-tag :
    (a : ReleaseDecisionKind) → release_kind_of_tag (release_kind_tag a) ≡ a
release_kind_of_tag-tag ReleaseDecisionKind.promote = refl
release_kind_of_tag-tag _ = refl

instance abbrev pub release_kind_eq : Eq ReleaseDecisionKind
release_kind_eq = tag_eq release_kind_tag release_kind_of_tag release_kind_of_tag-tag

-- `StrEnum.value`
unfoldable pub cycle_state_value : CycleState → String
cycle_state_value CycleState.new = "new"
cycle_state_value CycleState.baseline_verified = "baseline-verified"
cycle_state_value CycleState.evidence_ready = "evidence-ready"
cycle_state_value CycleState.diagnosed = "diagnosed"
cycle_state_value CycleState.change_proposed = "change-proposed"
cycle_state_value CycleState.developing = "developing"
cycle_state_value CycleState.candidate_ready = "candidate-ready"
cycle_state_value CycleState.verifying = "verifying"
cycle_state_value CycleState.verified = "verified"
cycle_state_value CycleState.built = "built"
cycle_state_value CycleState.staged = "staged"
cycle_state_value CycleState.canarying = "canarying"
cycle_state_value CycleState.promotion_ready = "promotion-ready"
cycle_state_value CycleState.promoted = "promoted"
cycle_state_value CycleState.soaking = "soaking"
cycle_state_value CycleState.completed = "completed"
cycle_state_value CycleState.rejected = "rejected"
cycle_state_value CycleState.rolled_back = "rolled-back"
cycle_state_value CycleState.blocked = "blocked"
cycle_state_value CycleState.cancelled = "cancelled"
cycle_state_value CycleState.failed_recoverable = "failed-recoverable"
cycle_state_value CycleState.failed_terminal = "failed-terminal"

unfoldable pub canary_kind_value : CanaryDecisionKind → String
canary_kind_value CanaryDecisionKind.advance = "advance"
canary_kind_value CanaryDecisionKind.hold = "hold"
canary_kind_value CanaryDecisionKind.rollback = "rollback"
canary_kind_value CanaryDecisionKind.promotion_ready = "promotion-ready"

unfoldable pub release_kind_value : ReleaseDecisionKind → String
release_kind_value ReleaseDecisionKind.promote = "promote"
release_kind_value ReleaseDecisionKind.reject = "reject"
release_kind_value ReleaseDecisionKind.rollback = "rollback"
release_kind_value ReleaseDecisionKind.hold_insufficient_evidence = "hold-insufficient-evidence"
release_kind_value ReleaseDecisionKind.blocked = "blocked"

-- `CycleState(text)` and `ReleaseDecisionKind(text)`: the member with that value, or `ValueError`.
unfoldable pub parse_cycle_state : String → Option CycleState
unfolding cycle_state_value
parse_cycle_state v = find (λ s. cycle_state_value s == v) cycle_state_members

unfoldable pub parse_release_kind : String → Option ReleaseDecisionKind
unfolding release_kind_value
parse_release_kind v = find (λ s. release_kind_value s == v) release_kind_members

pub parse_cycle_state-value : (s : CycleState) → parse_cycle_state (cycle_state_value s) ≡ some s
unfolding parse_cycle_state
parse_cycle_state-value CycleState.new = refl
parse_cycle_state-value _ = refl

pub parse_release_kind-value :
    (k : ReleaseDecisionKind) → parse_release_kind (release_kind_value k) ≡ some k
unfolding parse_release_kind
parse_release_kind-value ReleaseDecisionKind.promote = refl
parse_release_kind-value _ = refl

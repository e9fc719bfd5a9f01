-- ===== src/Releases/Recompute.antt =====
-- The decision that `decide_and_apply_promotion` of application/releases.py makes again at every
-- call, from what is stored.
use autonomous_development.Prelude.{
  ℕ, String, List, none, some, ◌≡◌, arith, ◌==◌, nat_eq, if◌then◌else◌,
}
use autonomous_development.Prelude.Raise.{Result, ok, require, value_error, ◌>>=◌, >>=-eq-ok}
use autonomous_development.Domain.Enums.{CycleState}
use autonomous_development.Domain.Models.{
  DevelopmentCycle, cycle_post_init, Experiment, VerificationRun, ReleaseDecision,
}
use autonomous_development.Domain.Canary.Evidence.{CanaryStageDecision}
use autonomous_development.Domain.Promotion.{decide_promotion}
use autonomous_development.Experiments.Sql.{ExperimentDb}
use autonomous_development.Experiments.Service as Experiments

-- The cycle as it stood before the effect, for an operation that is repeated.
unfoldable pub decision_cycle : DevelopmentCycle → (expected_version : ℕ) → Result DevelopmentCycle
decision_cycle cycle expected_version =
    if cycle.version == expected_version
    then ok cycle
    else cycle_post_init (record cycle {
      state = CycleState.promotion_ready;
      version = expected_version;
      release_decision = none;
    })

unfoldable pub recompute :
    DevelopmentCycle
    → VerificationRun
    → (mandatory_gates : List String) → (expected_version : ℕ) → ExperimentDb
    → Result ReleaseDecision
unfolding decision_cycle
recompute cycle verification mandatory_gates expected_version db = do
  experiment_id ← require cycle.experiment_id value_error
  experiment ← Experiments.get experiment_id db
  history ← Experiments.promotion_history experiment.id db
  before ← decision_cycle cycle expected_version
  decide_promotion before verification experiment history mandatory_gates

-- What the recomputed decision was made from.
pub record IsRecomputed (cycle : DevelopmentCycle) (v : VerificationRun) (gates : List String)
    (version : ℕ) (db : ExperimentDb) (d : ReleaseDecision) : Type 0 where
  pub experiment_id : String
  pub before : DevelopmentCycle
  pub experiment : Experiment
  pub history : List CanaryStageDecision
  pub named : cycle.experiment_id ≡ some experiment_id
  pub stored : Experiments.get experiment_id db ≡ ok experiment
  pub gathered : Experiments.promotion_history experiment.id db ≡ ok history
  pub rewound : decision_cycle cycle version ≡ ok before
  pub decides : decide_promotion before v experiment history gates ≡ ok d

pub recompute-IsRecomputed :
    (cycle : DevelopmentCycle) (v : VerificationRun) (gates : List String) (version : ℕ)
    (db : ExperimentDb) (d : ReleaseDecision)
    → recompute cycle v gates version db ≡ ok d
    → IsRecomputed cycle v gates version db d
unfolding recompute
recompute-IsRecomputed cycle v gates version db d h =
    let (id, a, h1) = >>=-eq-ok (require cycle.experiment_id value_error) _ h in
    let (x, b, h2) = >>=-eq-ok (Experiments.get id db) _ h1 in
    let (history, c, h3) = >>=-eq-ok (Experiments.promotion_history x.id db) _ h2 in
    let (before, e, h4) = >>=-eq-ok (decision_cycle cycle version) _ h3 in
    record {
      experiment_id = id;
      before = before;
      experiment = x;
      history = history;
      named = ground arith;
      stored = b;
      gathered = c;
      rewound = e;
      decides = h4;
    }

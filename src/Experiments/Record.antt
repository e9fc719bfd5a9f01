-- ===== src/Experiments/Record.antt =====
-- `record_decision` of application/experiments.py: what it leaves, and what `replay_decision` reads.
use autonomous_development.Prelude.{
  ℕ, ◌+◌, ◌≡◌, ◌≢◌, sym, ap, ◌∙◌, subst, String, List, [], ◌∷◌, ◌++◌, none, some, find,
  find-append_none, ◌==◌, nat_eq, string_eq, option_eq, list_eq, arith, Bool-cases, Option-cases,
  inl, inr,
}
use autonomous_development.Prelude.Raise.{
  Result, ok, err, Result-cases, integrity_error, require, experiment_not_found,
}
use autonomous_development.Domain.Enums.{CanaryDecisionKind, canary_kind_eq}
use autonomous_development.Domain.Models.{Experiment, experiment_post_init}
use autonomous_development.Domain.Canary.Evidence.{CanaryStageDecision, stage_decision_post_init}
use autonomous_development.Domain.Canary.Evaluate.{advance_experiment}
use autonomous_development.Experiments.Receipts.{
  ExperimentStageReceipt, receipt_eq, decision_from_receipt,
}
use autonomous_development.Experiments.Sql.{
  ExperimentDb, is_experiment, is_operation, get_experiment, get_stage_decision, move_experiments,
  stage_receipt, write_stage, settle_stage, commit_checked, commit_stage_decision,
}
use autonomous_development.Experiments.Service.{
  get, replay_decision, decided_experiment, store_decision, record_decision,
}

-- The database after a decision was written.
abbrev written : Experiment → CanaryStageDecision → ℕ → String → ExperimentDb → ExperimentDb
written x d v op db = record {
  experiments = move_experiments x.id v x.current_stage_index db.experiments;
  operations = db.operations ++ stage_receipt x d v op ∷ [];
}

write_stage-ok :
    (x : Experiment) (d : CanaryStageDecision) (v : ℕ) (op : String) (db db' : ExperimentDb)
    → write_stage x (stage_receipt x d v op) v db ≡ ok db'
    → db' ≡ written x d v op db
unfolding write_stage
write_stage-ok x d v op db db' h = ground arith

settle_stage-ok :
    (r r' : ExperimentStageReceipt) (db db' : ExperimentDb) (w : Result ExperimentDb)
    → get_stage_decision r.operation_id db ≡ none
    → settle_stage r db w ≡ (ok r', db')
    → w ≡ ok db'
unfolding settle_stage
settle_stage-ok r r' db db' (ok d) fresh h = ground arith
settle_stage-ok r r' db db' (err integrity_error) fresh h = absurd (ground arith)
settle_stage-ok r r' db db' (err _) fresh h = absurd (ground arith)

commit-ok :
    (x : Experiment) (d : CanaryStageDecision) (v : ℕ) (op : String) (db db' : ExperimentDb)
    (r : ExperimentStageReceipt)
    → get_stage_decision op db ≡ none
    → commit_stage_decision x d v op db ≡ (ok r, db')
    → (db' ≡ written x d v op db) × (d.experiment_id ≡ x.id) × (d.stage_index ≡ v)
unfolding commit_stage_decision commit_checked stage_receipt
commit-ok x d v op db db' r fresh h =
    let named = string_eq.beq_iff d.experiment_id x.id in
    let w = write_stage x (stage_receipt x d v op) v db in
    elim (Bool-cases (d.experiment_id == x.id)) [
      | inr foreign ↦ absurd (ground arith)
      | inl own ↦ elim (Bool-cases (d.stage_index == v)) [
        | inr elsewhere ↦ absurd (ground arith)
        | inl here ↦ (
          write_stage-ok x d v op db db'
              (settle_stage-ok (stage_receipt x d v op) r db db' w fresh (ground arith)),
          named.0 own,
          ground arith,
        )
      ]
    ]

store_decision-ok :
    (d : CanaryStageDecision) (v : ℕ) (op : String) (db db' : ExperimentDb) (u : Result Experiment)
    (x : Experiment)
    → get_stage_decision op db ≡ none
    → store_decision d v op db u ≡ (ok x, db')
    → (u ≡ ok x) × (db' ≡ written x d v op db) × (d.experiment_id ≡ x.id) × (d.stage_index ≡ v)
unfolding store_decision
store_decision-ok d v op db db' (err e) x fresh h = absurd (ground arith)
store_decision-ok d v op db db' (ok u) x fresh h =
    elim (Result-cases (commit_stage_decision u d v op db).0) [
      | inr (e, bad) ↦ absurd (ground arith)
      | inl (r, made) ↦
          let same : u ≡ x = ground arith in
          let after : (commit_stage_decision u d v op db).1 ≡ db' = ground arith in
          let facts = commit-ok u d v op db db' r fresh (λ i. (made i, after i)) in
          (
            ap (λ y. ok y) same,
            subst (λ y. db' ≡ written y d v op db) same facts.0,
            facts.1 ∙ ap (λ y. y.id) same,
            facts.2,
          )
    ]

advanced :
    (c x : Experiment) (d : CanaryStageDecision)
    → advance_experiment c d ≡ ok x
    → (x ≡ record c { current_stage_index = x.current_stage_index })
      × (x.current_stage_index ≡ c.current_stage_index + 1)
      × (d.next_stage_index ≡ some (c.current_stage_index + 1))
unfolding advance_experiment experiment_post_init
advanced c x d h = elim (Option-cases d.next_stage_index) [
  | inl gone ↦ absurd (ground arith)
  | inr (n, there) ↦ (ground arith, ground arith, ground arith)
]

-- What `decided_experiment` gives: the stored experiment, moved on exactly if the decision advances.
decided_facts :
    (id : String) (d : CanaryStageDecision) (v : ℕ) (db : ExperimentDb) (x : Experiment)
    → decided_experiment id d v db ≡ ok x
    → (c : Experiment) × (get id db ≡ ok c)
      × (c.current_stage_index ≡ v)
      × (x ≡ record c { current_stage_index = x.current_stage_index })
      × (d.kind ≡ CanaryDecisionKind.advance
          → (x.current_stage_index ≡ v + 1) × (d.next_stage_index ≡ some (v + 1)))
      × (d.kind ≢ CanaryDecisionKind.advance → x.current_stage_index ≡ v)
unfolding decided_experiment
decided_facts id d v db x h = elim (Result-cases (get id db)) [
  | inr (e, bad) ↦ absurd (ground arith)
  | inl (c, found) ↦ elim (Bool-cases (d.kind == CanaryDecisionKind.advance)) [
    | inl moves ↦
        let k = canary_kind_eq.beq_iff d.kind CanaryDecisionKind.advance in
        let made : advance_experiment c d ≡ ok x = ground arith in
        let (same, moved, next) = advanced c x d made in
        (
          c,
          found,
          ground arith,
          same,
          λ a. (ground arith, ground arith),
          λ other. absurd (ground arith),
        )
    | inr stays ↦
        let k = canary_kind_eq.beq_iff d.kind CanaryDecisionKind.advance in
        let same : c ≡ x = ground arith in
        (c, found, ground arith, ground arith, λ a. absurd (ground arith), λ other. ground arith)
  ]
]

pub get-own_id :
    (id : String) (xs : List Experiment) (x : Experiment)
    → find (is_experiment id) xs ≡ some x
    → x.id ≡ id
get-own_id id [] x h = cc
get-own_id id (y ∷ ys) x h = elim (Bool-cases (is_experiment id y)) [
  | inl own ↦ ground (arith, string_eq.beq_iff y.id id)
  | inr other ↦ get-own_id id ys x (ground arith)
]

find_moved :
    (id : String) (v n : ℕ) (xs : List Experiment) (c : Experiment)
    → find (is_experiment id) xs ≡ some c
    → c.current_stage_index ≡ v
    → find (is_experiment id) (move_experiments id v n xs)
      ≡ some (record c { current_stage_index = n })
unfolding move_experiments
find_moved id v n [] c h here = absurd (ground arith)
find_moved id v n (x ∷ xs) c h here = elim (Bool-cases (is_experiment id x)) [
  | inl own ↦ ground arith
  | inr other ↦ let later = find_moved id v n xs c (ground arith) here in ground arith
]

receipt_found :
    (x : Experiment) (d : CanaryStageDecision) (v : ℕ) (op : String) (db : ExperimentDb)
    → get_stage_decision op db ≡ none
    → get_stage_decision op (written x d v op db) ≡ some (stage_receipt x d v op)
unfolding get_stage_decision stage_receipt
receipt_found x d v op db fresh =
    find-append_none (is_operation op) db.operations (stage_receipt x d v op ∷ []) fresh
    ∙ ground (arith, string_eq.beq_iff op op)

experiment_found :
    (id : String) (c x : Experiment) (d : CanaryStageDecision) (v : ℕ) (op : String)
    (db : ExperimentDb)
    → get id db ≡ ok c
    → c.current_stage_index ≡ v
    → x ≡ record c { current_stage_index = x.current_stage_index }
    → get x.id (written x d v op db) ≡ ok x
unfolding get get_experiment
experiment_found id c x d v op db found at_stage same =
    let own : c.id ≡ id = get-own_id id db.experiments c (ground arith) in
    let named : x.id ≡ id = ap (λ y. y.id) same ∙ own in
    let there = find_moved id v x.current_stage_index db.experiments c (ground arith) at_stage in
    subst
      (λ i.
        require (find (is_experiment i) (move_experiments i v x.current_stage_index db.experiments))
          experiment_not_found
        ≡ ok x)
      (sym named) (rw there (ap (λ y. ok y) (sym same)))

decision_read :
    (x : Experiment) (d : CanaryStageDecision) (v : ℕ) (op : String)
    → stage_decision_post_init d ≡ ok d
    → d.experiment_id ≡ x.id
    → d.stage_index ≡ v
    → (d.kind ≡ CanaryDecisionKind.advance
        → (x.current_stage_index ≡ v + 1) × (d.next_stage_index ≡ some (v + 1)))
    → decision_from_receipt (stage_receipt x d v op) ≡ ok d
unfolding decision_from_receipt stage_receipt stage_decision_post_init
decision_read x d v op formed own here moves =
    let k = canary_kind_eq.beq_iff d.kind CanaryDecisionKind.advance in
    elim (Bool-cases (d.kind == CanaryDecisionKind.advance)) [
      | inl advances ↦ let m = moves (k.0 advances) in ground arith
      | inr stays ↦ elim (Option-cases d.next_stage_index) [
        | inl gone ↦ ground arith
        | inr (n, there) ↦ absurd (ground arith)
      ]
    ]

replayed :
    (x : Experiment) (d : CanaryStageDecision) (v : ℕ) (op : String) (db db' : ExperimentDb)
    → db' ≡ written x d v op db
    → get_stage_decision op (written x d v op db) ≡ some (stage_receipt x d v op)
    → get x.id (written x d v op db) ≡ ok x
    → decision_from_receipt (stage_receipt x d v op) ≡ ok d
    → replay_decision op db' ≡ ok (some (x, d))
unfolding replay_decision stage_receipt
replayed x d v op db db' after receipt experiment decision = ground arith

-- A well-formed decision that `record_decision` has recorded under a new operation id is durable:
-- `replay_decision` of that id reads the decision back, with the experiment that was returned.
pub record_decision-replay :
    (id : String) (d : CanaryStageDecision) (v : ℕ) (op : String) (db db' : ExperimentDb)
    (x : Experiment)
    → stage_decision_post_init d ≡ ok d
    → get_stage_decision op db ≡ none
    → record_decision id d v op db ≡ (ok x, db')
    → replay_decision op db' ≡ ok (some (x, d))
unfolding record_decision replay_decision
record_decision-replay id d v op db db' x formed fresh h =
    let (made, after, own, here) =
      store_decision-ok d v op db db' (decided_experiment id d v db) x fresh (ground arith) in
    let (c, found, at_stage, same, moves, stays) = decided_facts id d v db x made in
    let receipt = receipt_found x d v op db fresh in
    let experiment = experiment_found id c x d v op db found at_stage same in
    let decision = decision_read x d v op formed own here moves in
    replayed x d v op db db' after receipt experiment decision

-- ===== src/Targets/Registered.antt =====
-- What is known of a target after `register` of application/target_registry.py.
use autonomous_development.Prelude.{List, some, string_eq, ◌≡◌, subst, arith, inl, inr}
use autonomous_development.Prelude.Raise.{ok, Result-cases}
use autonomous_development.Domain.Models.{ProductObjectiveRevision, DevelopmentTarget}
use autonomous_development.Records.{add-get}
use autonomous_development.Targets.Sql.{
  RegistryDb, policy_eq, objective_eq, target_eq, target_id_of, objective_id_of, target_from_row,
  objective_from_row, add_target, add_objective, get_objective,
}
use autonomous_development.Targets.Sql as Sql
use autonomous_development.Targets.Service.{
  register_target, put_objective, belongs, register_checked, register, get_target,
  get_active_objective,
}

abbrev pub IsValidTarget : DevelopmentTarget → Type 0
IsValidTarget target = target_from_row target ≡ ok target

abbrev pub IsValidObjective : ProductObjectiveRevision → Type 0
IsValidObjective objective = objective_from_row objective ≡ ok objective

added_target :
    (target t : DevelopmentTarget) (rows rows' : List DevelopmentTarget)
    → IsValidTarget target
    → add_target target rows ≡ (ok t, rows')
    → (t ≡ target) × (Sql.get_target target.id rows' ≡ ok (some target))
unfolding add_target Sql.get_target
added_target target t rows rows' valid h =
    add-get target_id_of target_from_row target t rows rows' valid h

added_objective :
    (objective o : ProductObjectiveRevision) (rows rows' : List ProductObjectiveRevision)
    → IsValidObjective objective
    → add_objective objective rows ≡ (ok o, rows')
    → get_objective objective.id rows' ≡ ok (some objective)
unfolding add_objective get_objective
added_objective objective o rows rows' valid h =
    (add-get objective_id_of objective_from_row objective o rows rows' valid h).1

-- The objective that `register` accepts is the active one of the target.
pub record IsActive (target : DevelopmentTarget) (objective : ProductObjectiveRevision)
    : Type 0 where
  pub own : objective.target_id ≡ target.id
  pub active : objective.id ≡ target.active_objective_revision_id
  pub policy : objective.mutation_policy ≡ target.mutation_policy

belongs-IsActive :
    (target : DevelopmentTarget) (objective : ProductObjectiveRevision)
    → belongs target objective ≡ ok tt
    → IsActive target objective
unfolding belongs
belongs-IsActive target objective h =
    let t = string_eq.beq_iff objective.target_id target.id in
    let a = string_eq.beq_iff objective.id target.active_objective_revision_id in
    let p = policy_eq.beq_iff objective.mutation_policy target.mutation_policy in
    record { own = ground arith; active = ground arith; policy = ground arith }

active_found :
    (target : DevelopmentTarget) (objective : ProductObjectiveRevision) (db : RegistryDb)
    → IsActive target objective
    → get_objective objective.id db.objectives ≡ ok (some objective)
    → get_active_objective target db ≡ ok objective
unfolding get_active_objective
active_found target objective db h found =
    let t = string_eq.beq_iff objective.target_id target.id in
    let p = policy_eq.beq_iff objective.mutation_policy target.mutation_policy in
    let there = subst (λ i. get_objective i db.objectives ≡ ok (some objective)) h.active found in
    let own = h.own in let policy = h.policy in ground arith

-- A valid target that was registered with a valid objective is found under its id, the registration
-- having returned it, and the objective is its active one, which is found from the target; both
-- have the same mutation policy.
pub register-get :
    (target t : DevelopmentTarget) (objective : ProductObjectiveRevision) (db db' : RegistryDb)
    → IsValidTarget target
    → IsValidObjective objective
    → register target objective db ≡ (ok t, db')
    → (t ≡ target)
      × (get_target target.id db' ≡ ok target)
      × (get_active_objective target db' ≡ ok objective)
      × (objective.mutation_policy ≡ target.mutation_policy)
unfolding register register_checked put_objective register_target get_target
register-get target t objective db db' valid_target valid_objective h =
    elim (Result-cases (belongs target objective)) [
      | inr (e, bad) ↦ absurd (ground arith)
      | inl (u, good) ↦ elim (Result-cases (add_objective objective db.objectives).0) [
        | inr (e, bad) ↦ absurd (ground arith)
        | inl (o, stored) ↦
            let active = belongs-IsActive target objective good in
            let objectives = (add_objective objective db.objectives).1 in
            let targets = (add_target target db.targets).1 in
            let fresh : add_objective objective db.objectives ≡ (ok o, objectives) = ground arith in
            let there =
              added_objective objective o db.objectives objectives valid_objective fresh in
            let last : record db { targets = targets; objectives = objectives } ≡ db' =
              ground arith in
            let made : add_target target db.targets ≡ (ok t, targets) = ground arith in
            let (same, back) = added_target target t db.targets targets valid_target made in
            let back' : get_target target.id (record { targets = targets; objectives = objectives })
                ≡ ok target =
              ground arith in
            (
              same,
              subst (λ d. get_target target.id d ≡ ok target) last back',
              subst (λ d. get_active_objective target d ≡ ok objective) last
                  (active_found target objective
                    (record { targets = targets; objectives = objectives }) active there),
              active.policy,
            )
      ]
    ]

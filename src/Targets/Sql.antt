-- ===== src/Targets/Sql.antt =====
-- `SqlTargetRepository` and `SqlObjectiveRepository` of adapters/postgres/target_registry.py. A row
-- keeps its mutation policy in columns, which is made again when the row is read.
use autonomous_development.Prelude.{
  ℕ, String, List, [], ◌∷◌, Option, sorted, text_le, nat_eq, string_eq, option_eq, list_eq, Eq,
  refl,
}
use autonomous_development.Prelude.Raise.{Result, ok, ◌>>=◌}
use autonomous_development.Domain.Models.{
  MutationPolicy, policy_post_init, ProductObjectiveRevision, objective_post_init,
  DevelopmentTarget, target_post_init,
}
use autonomous_development.Records as Records
use autonomous_development.Records.Dataclass.{pair_eq, dataclass_eq}

abbrev MutationPolicyFields : Type 0
MutationPolicyFields = List String × (List String × (ℕ × ℕ))

abbrev policy_of_fields : MutationPolicyFields → MutationPolicy
policy_of_fields (x1, (x2, (x3, x4))) = record {
  allowed_paths = x1;
  forbidden_paths = x2;
  max_changed_files = x3;
  max_implementation_attempts = x4;
}

abbrev fields_of_policy : MutationPolicy → MutationPolicyFields
fields_of_policy p =
    (p.allowed_paths, (p.forbidden_paths, (p.max_changed_files, p.max_implementation_attempts)))

instance abbrev pub policy_eq : Eq MutationPolicy
policy_eq = dataclass_eq fields_of_policy policy_of_fields (λ p. refl)

abbrev ProductObjectiveRevisionFields : Type 0
ProductObjectiveRevisionFields =
    String
    × (String
        × (String
            × (List String
                × (List String
                    × (List String × (List String × (List String × (MutationPolicy × ℕ))))))))

abbrev objective_of_fields : ProductObjectiveRevisionFields → ProductObjectiveRevision
objective_of_fields (x1, (x2, (x3, (x4, (x5, (x6, (x7, (x8, (x9, x10))))))))) = record {
  id = x1;
  target_id = x2;
  statement = x3;
  acceptance_criteria = x4;
  primary_metrics = x5;
  reliability_constraints = x6;
  performance_constraints = x7;
  security_constraints = x8;
  mutation_policy = x9;
  created_at = x10;
}

abbrev fields_of_objective : ProductObjectiveRevision → ProductObjectiveRevisionFields
fields_of_objective o = (
  o.id,
  (
    o.target_id,
    (
      o.statement,
      (
        o.acceptance_criteria,
        (
          o.primary_metrics,
          (
            o.reliability_constraints,
            (
              o.performance_constraints,
              (o.security_constraints, (o.mutation_policy, o.created_at)),
            ),
          ),
        ),
      ),
    ),
  ),
)

instance abbrev pub objective_eq : Eq ProductObjectiveRevision
objective_eq = dataclass_eq fields_of_objective objective_of_fields (λ o. refl)

abbrev DevelopmentTargetFields : Type 0
DevelopmentTargetFields =
    String × (String × (String × (String × (String × (MutationPolicy × Option String)))))

abbrev target_of_fields : DevelopmentTargetFields → DevelopmentTarget
target_of_fields (x1, (x2, (x3, (x4, (x5, (x6, x7)))))) = record {
  id = x1;
  repository = x2;
  default_branch = x3;
  target_contract_revision = x4;
  active_objective_revision_id = x5;
  mutation_policy = x6;
  current_release_id = x7;
}

abbrev fields_of_target : DevelopmentTarget → DevelopmentTargetFields
fields_of_target t = (
  t.id,
  (
    t.repository,
    (
      t.default_branch,
      (
        t.target_contract_revision,
        (t.active_objective_revision_id, (t.mutation_policy, t.current_release_id)),
      ),
    ),
  ),
)

instance abbrev pub target_eq : Eq DevelopmentTarget
target_eq = dataclass_eq fields_of_target target_of_fields (λ t. refl)

-- The tables `development_targets` and `product_objective_revisions`.
pub record RegistryDb : Type 0 where
  pub targets : List DevelopmentTarget
  pub objectives : List ProductObjectiveRevision

abbrev pub target_id_of : DevelopmentTarget → String
target_id_of t = t.id

abbrev pub objective_id_of : ProductObjectiveRevision → String
objective_id_of o = o.id

-- `_target_from_row` and `_objective_from_row`, which make the policy first.
unfoldable pub target_from_row : DevelopmentTarget → Result DevelopmentTarget
unfolding policy_post_init target_post_init
target_from_row row = do
  policy ← policy_post_init row.mutation_policy
  target_post_init (record row { mutation_policy = policy })

unfoldable pub objective_from_row : ProductObjectiveRevision → Result ProductObjectiveRevision
unfolding policy_post_init objective_post_init
objective_from_row row = do
  policy ← policy_post_init row.mutation_policy
  objective_post_init (record row { mutation_policy = policy })

unfoldable pub add_target :
    DevelopmentTarget → List DevelopmentTarget → Result DevelopmentTarget × List DevelopmentTarget
unfolding Records.add
add_target = Records.add target_id_of target_from_row

unfoldable pub get_target :
    (target_id : String) → List DevelopmentTarget → Result (Option DevelopmentTarget)
unfolding Records.get
get_target = Records.get target_id_of target_from_row

unfoldable pub targets_from_rows : List DevelopmentTarget → Result (List DevelopmentTarget)
unfolding target_from_row
targets_from_rows [] = ok []
targets_from_rows (row ∷ rows) = do
  target ← target_from_row row
  rest ← targets_from_rows rows
  ok (target ∷ rest)

-- `list_all`, ordered by id
unfoldable pub list_all : List DevelopmentTarget → Result (List DevelopmentTarget)
unfolding targets_from_rows
list_all rows = targets_from_rows (sorted (λ a b. text_le a.id b.id) rows)

unfoldable pub add_objective :
    ProductObjectiveRevision
    → List ProductObjectiveRevision
    → Result ProductObjectiveRevision × List ProductObjectiveRevision
unfolding Records.add
add_objective = Records.add objective_id_of objective_from_row

unfoldable pub get_objective :
    (objective_id : String)
    → List ProductObjectiveRevision
    → Result (Option ProductObjectiveRevision)
unfolding Records.get
get_objective = Records.get objective_id_of objective_from_row

-- ===== src/Catalog/Finalized.antt =====
-- What `finalize` of application/release_finalization.py leaves in the catalogue.
use autonomous_development.Prelude.{
  ℕ, String, List, [], ◌∷◌, ◌++◌, none, some, any, find, find-append_none, false, concat, nat_eq,
  string_eq, option_eq, ◌≡◌, refl, sym, ap, subst, subst₂, ◌∙◌, arith, inl, inr, Option-cases,
}
use autonomous_development.Prelude.Raise.{ok, Result-cases}
use autonomous_development.Domain.Enums.{
  CycleState, cycle_state_eq, ReleaseDecisionKind, release_kind_eq,
}
use autonomous_development.Domain.Models.{
  DevelopmentCycle, CandidateRevision, BuildArtifact, Deployment, ReleasedVersion,
  release_post_init,
}
use autonomous_development.Catalog.Sql.{
  CatalogDb, is_release, release_eq, release_from_row, get_serving, same_release, insert_release,
  settle_add, add_found, add,
}
use autonomous_development.Catalog.Sql as Sql
use autonomous_development.Catalog.Service.{register, set_serving}
use autonomous_development.Catalog.Serving.{from_row-own}
use autonomous_development.Catalog.Served.{served-get, set_serving-releases, set_serving-serves}
use autonomous_development.Catalog.Finalization.{
  matches_cycle, release_of, checked_release, finalize,
}

none-any :
    (id : String) (rows : List ReleasedVersion)
    → find (is_release id) rows ≡ none
    → any (is_release id) rows ≡ false
none-any id [] h = refl
none-any id (row ∷ rows) h = ground (arith, none-any id rows)

get-none_row :
    (id : String) (db : CatalogDb)
    → Sql.get id db ≡ ok none
    → find (is_release id) db.releases ≡ none
unfolding Sql.get release_from_row release_post_init
get-none_row id db h = elim (Option-cases (find (is_release id) db.releases)) [
  | inl gone ↦ gone
  | inr (row, there) ↦ elim (Result-cases (release_post_init row)) [
    | inl (r, made) ↦ absurd (ground arith)
    | inr (e, bad) ↦ absurd (ground arith)
  ]
]

inserted-get :
    (r : ReleasedVersion) (db : CatalogDb)
    → release_post_init r ≡ ok r
    → find (is_release r.id) db.releases ≡ none
    → Sql.get r.id (record db { releases = db.releases ++ r ∷ [] }) ≡ ok (some r)
unfolding Sql.get release_from_row
inserted-get r db valid gone =
    let f = find-append_none (is_release r.id) db.releases (r ∷ []) gone in
    let s = string_eq.beq_iff r.id r.id in ground arith

-- A release that is registered is the one that was given, and is read back.
pub add-get :
    (r x : ReleasedVersion) (db db' : CatalogDb)
    → release_post_init r ≡ ok r
    → add r db ≡ (ok x, db')
    → (x ≡ r) × (Sql.get r.id db' ≡ ok (some r))
unfolding add add_found same_release settle_add insert_release
add-get r x db db' valid h = elim (Result-cases (Sql.get r.id db)) [
  | inr (e, bad) ↦ absurd (ground arith)
  | inl (some old, there) ↦
      let s = release_eq.beq_iff old r in
      (
        ground arith,
        let p : db' ≡ db = ground arith in
            let q : old ≡ r = ground arith in
            subst (λ u. Sql.get r.id u ≡ ok (some r)) (sym p) (there ∙ ap (λ y. ok (some y)) q),
      )
  | inl (none, fresh) ↦
      let gone = get-none_row r.id db fresh in
      let free = none-any r.id db.releases gone in
      let back = inserted-get r db valid gone in
      (
        ground arith,
        subst (λ u. Sql.get r.id u ≡ ok (some r))
            {x = record db { releases = db.releases ++ r ∷ [] }} {y = db'} (ground arith) back,
      )
]

-- Reads of one id agree while the releases stay as they are.
read_same :
    (u w : CatalogDb) (x y : ReleasedVersion)
    → w.releases ≡ u.releases
    → y.id ≡ x.id
    → Sql.get x.id u ≡ ok (some x)
    → Sql.get y.id w ≡ ok (some y)
    → y ≡ x
unfolding Sql.get
read_same u w x y kept id there back =
    let a = from_row-own (find (is_release x.id) u.releases) x there in
    let b = from_row-own (find (is_release y.id) w.releases) y back in
    let c : find (is_release y.id) w.releases ≡ find (is_release x.id) u.releases =
      ap (λ i. find (is_release i) w.releases) id ∙ ap (find (is_release x.id)) kept in
    ground arith

module _ (cycle : DevelopmentCycle) (candidate : CandidateRevision) (artifact : BuildArtifact)
    (deployment : Deployment) where
  -- A promoted cycle, and the objects that belong to it.
  pub record IsComplete : Type 0 where
    pub promoted : cycle.state ≡ CycleState.promoted
    pub decided : cycle.release_decision ≡ some ReleaseDecisionKind.promote
    pub candidate_of : cycle.candidate_id ≡ some candidate.id
    pub artifact_of : cycle.artifact_id ≡ some artifact.id
    pub deployment_of : cycle.candidate_deployment_id ≡ some deployment.id
    pub built_from : artifact.candidate_id ≡ candidate.id
    pub built_tree : artifact.source_tree_hash ≡ candidate.tree_hash
    pub deployed : deployment.artifact_id ≡ artifact.id
    pub target : deployment.target_id ≡ cycle.target_id

  -- What the release says, field by field.
  pub record IsReleaseOf (release_id : String) (promoted_at : ℕ) (r : ReleasedVersion)
      : Type 0 where
    pub id : r.id ≡ release_id
    pub target_id : r.target_id ≡ cycle.target_id
    pub source_commit : r.source_commit ≡ candidate.candidate_commit
    pub source_tree : r.source_tree ≡ candidate.tree_hash
    pub artifact_digest : r.artifact_digest ≡ artifact.image_digest
    pub objective_revision_id : r.objective_revision_id ≡ cycle.objective_revision_id
    pub deployment_id : r.deployment_id ≡ deployment.id
    pub promoted : r.promoted_at ≡ promoted_at

  release_of-IsReleaseOf :
      (release_id : String) (promoted_at : ℕ) (r : ReleasedVersion)
      → r ≡ release_of cycle candidate artifact deployment release_id promoted_at
      → IsReleaseOf release_id promoted_at r
  unfolding release_of
  release_of-IsReleaseOf release_id promoted_at r h = record {
    id = ap (λ (z : ReleasedVersion). z.id) h;
    target_id = ap (λ (z : ReleasedVersion). z.target_id) h;
    source_commit = ap (λ (z : ReleasedVersion). z.source_commit) h;
    source_tree = ap (λ (z : ReleasedVersion). z.source_tree) h;
    artifact_digest = ap (λ (z : ReleasedVersion). z.artifact_digest) h;
    objective_revision_id = ap (λ (z : ReleasedVersion). z.objective_revision_id) h;
    deployment_id = ap (λ (z : ReleasedVersion). z.deployment_id) h;
    promoted = ap (λ (z : ReleasedVersion). z.promoted_at) h;
  }

  matches_cycle-IsComplete : matches_cycle cycle candidate artifact deployment ≡ ok tt → IsComplete
  unfolding matches_cycle
  matches_cycle-IsComplete h =
      let s = cycle_state_eq.beq_iff cycle.state CycleState.promoted in
      let d =
        (option_eq {A = ReleaseDecisionKind}).beq_iff cycle.release_decision
          (some ReleaseDecisionKind.promote) in
      let c = (option_eq {A = String}).beq_iff cycle.candidate_id (some candidate.id) in
      let a = (option_eq {A = String}).beq_iff cycle.artifact_id (some artifact.id) in
      let y = (option_eq {A = String}).beq_iff cycle.candidate_deployment_id (some deployment.id) in
      let ac = string_eq.beq_iff artifact.candidate_id candidate.id in
      let at = string_eq.beq_iff artifact.source_tree_hash candidate.tree_hash in
      let da = string_eq.beq_iff deployment.artifact_id artifact.id in
      let dt = string_eq.beq_iff deployment.target_id cycle.target_id in
      record {
        promoted = ground arith;
        decided = ground arith;
        candidate_of = ground arith;
        artifact_of = ground arith;
        deployment_of = ground arith;
        built_from = ground arith;
        built_tree = ground arith;
        deployed = ground arith;
        target = ground arith;
      }

  checked_release-own :
      (release_id : String) (promoted_at : ℕ) (op : String) (r : ReleasedVersion)
      → checked_release cycle candidate artifact deployment release_id promoted_at op ≡ ok r
      → (matches_cycle cycle candidate artifact deployment ≡ ok tt)
        × (r ≡ release_of cycle candidate artifact deployment release_id promoted_at)
        × (release_post_init r ≡ ok r)
  unfolding checked_release release_post_init
  checked_release-own release_id promoted_at op r h =
      elim (Result-cases (matches_cycle cycle candidate artifact deployment)) [
        | inr (e, bad) ↦ absurd (ground arith)
        | inl (tt, fits) ↦ (fits, ground arith, ground arith)
      ]

  -- A release that is finalized is the promoted candidate, and it serves: the cycle is promoted by
  -- an explicit decision and the candidate, the artifact and the deployment are its own; the
  -- release has the given id and time, the cycle's target and objective, the candidate's commit and
  -- tree, the image digest of the artifact that was built from that tree and the deployment of that
  -- artifact; and the cycle's target now serves it.
  pub finalize-serves :
      (release_id : String) (promoted_at : ℕ) (op : String) (db db' : CatalogDb)
      (r : ReleasedVersion)
      → finalize cycle candidate artifact deployment release_id promoted_at op db ≡ (ok r, db')
      → IsComplete
        × IsReleaseOf release_id promoted_at r
        × (get_serving cycle.target_id db' ≡ ok (some r))
  unfolding finalize register
  finalize-serves release_id promoted_at op db db' r h =
      elim (Result-cases
        (checked_release cycle candidate artifact deployment release_id promoted_at op)) [
          | inr (e, bad) ↦ absurd (ground arith)
          | inl (wanted, built) ↦ elim (Result-cases (add wanted db).0) [
            | inr (e, bad) ↦ absurd (ground arith)
            | inl (x, stored) ↦
                let u = (add wanted db).1 in
                let serving_id = concat op ":serving" in
                elim (Result-cases (set_serving cycle.target_id x.id serving_id u).0) [
                  | inr (e, bad) ↦ absurd (ground arith)
                  | inl (y, set) ↦
                      let (fits, own, valid) =
                        checked_release-own release_id promoted_at op wanted built in
                      let w = (set_serving cycle.target_id x.id serving_id u).1 in
                      let (same, there) = add-get wanted x db u valid (λ i. (stored i, u)) in
                      let (serves, id) =
                        set_serving-serves cycle.target_id x.id serving_id u w y
                          (λ i. (set i, w)) in
                      let kept = set_serving-releases cycle.target_id x.id serving_id u in
                      let back = served-get cycle.target_id w y serves in
                      let one : y ≡ wanted =
                        read_same u w wanted y kept (ground arith) there back in
                      let last : w ≡ db' = ground arith in
                      let mine : x ≡ r = ground arith in
                      (
                        matches_cycle-IsComplete fits,
                        release_of-IsReleaseOf release_id promoted_at r (ground arith),
                        subst₂ (λ d z. get_serving cycle.target_id d ≡ ok (some z)) last
                            (one ∙ sym same ∙ mine) serves,
                      )
                ]
          ]
        ]

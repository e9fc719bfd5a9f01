-- ===== src/Tests/Catalogue.antt =====
-- The release catalogue on a small database.
use autonomous_development.Prelude.{◌≤◌, ◌≡◌, refl, [], ◌∷◌, some, Bool, count_if, is_blank, arith}
use autonomous_development.Prelude.Raise.{ok}
use autonomous_development.Domain.Enums.{CycleState, ReleaseDecisionKind, DeploymentState}
use autonomous_development.Domain.Models.{
  DevelopmentCycle, CandidateRevision, BuildArtifact, Deployment, ReleasedVersion,
  release_post_init,
}
use autonomous_development.Catalog.Sql.{
  ServingRow, CatalogDb, points_of, release_from_row, get, get_serving, get_operation,
}
use autonomous_development.Catalog.Pointer.{HasOnePointer}
use autonomous_development.Catalog.Service.{set_serving}
use autonomous_development.Catalog.Serving.{IsServed, set_serving-IsServed}
use autonomous_development.Catalog.Finalization.{release_of, finalize}
use autonomous_development.Catalog.Finalized.{IsComplete, IsReleaseOf, finalize-serves}
use autonomous_development.Tests.Data.{ready_cycle}

abbrev pub release_zero : ReleasedVersion
release_zero = record {
  id = "r0";
  target_id = "t";
  source_commit = "c0";
  source_tree = "t0";
  artifact_digest = "sha256:0";
  objective_revision_id = "o";
  deployment_id = "d0";
  promoted_at = 1;
}

abbrev pub release_one : ReleasedVersion
release_one = record release_zero {
  id = "r1";
  source_commit = "c1";
  source_tree = "t1";
  artifact_digest = "sha256:1";
  deployment_id = "d1";
}

abbrev pub catalog : CatalogDb
catalog = record {
  releases = release_zero ∷ release_one ∷ [];
  serving = record { target_id = "t"; release_id = "r1" } ∷ [];
  operations = [];
}

one_row : (p : ServingRow → Bool) (row : ServingRow) → count_if p (row ∷ []) ≤ 1
one_row p row = ground arith

catalog-HasOnePointer : HasOnePointer catalog.serving
catalog-HasOnePointer t = one_row (points_of t) (record { target_id = "t"; release_id = "r1" })

set_serving-IsServed_example :
    (db' : CatalogDb) × (set_serving "t" "r0" "op" catalog ≡ (ok release_zero, db'))
    × IsServed "t" "r0" "op" catalog db' release_zero
unfolding get is_blank get_operation release_post_init
set_serving-IsServed_example =
    set_serving-IsServed "t" "r0" "op" catalog release_zero catalog-HasOnePointer refl refl refl
      refl

-- A promoted cycle with its candidate, artifact and deployment.
abbrev promoted_cycle : DevelopmentCycle
promoted_cycle = record ready_cycle {
  state = CycleState.promoted;
  version = 13;
  release_decision = some ReleaseDecisionKind.promote;
}

abbrev candidate : CandidateRevision
candidate = record {
  id = "k";
  cycle_id = "c";
  worktree_path = "/w";
  branch_name = "b";
  base_commit = "c0";
  candidate_commit = "c2";
  tree_hash = "t2";
  changed_paths = "a.py" ∷ [];
  codex_thread_id = "x";
  implementation_attempt = 1;
}

abbrev artifact : BuildArtifact
artifact = record {
  id = "a";
  candidate_id = "k";
  image_digest = "sha256:2";
  source_tree_hash = "t2";
  build_definition_digest = "b";
  dependency_lock_digest = "l";
  build_evidence_ref = "e";
  sbom_digest = "s";
  sbom_ref = "s";
  vulnerability_scan_ref = "v";
}

abbrev deployment : Deployment
deployment = record {
  id = "d1";
  target_id = "t";
  artifact_id = "a";
  environment = "canary";
  state = DeploymentState.ready;
  observed_at = some 5;
  observation_refs = "o" ∷ [];
}

abbrev release_two : ReleasedVersion
unfolding release_of
release_two = release_of promoted_cycle candidate artifact deployment "r2" 7

abbrev finalized : CatalogDb
unfolding finalize
finalized = (finalize promoted_cycle candidate artifact deployment "r2" 7 "fin" catalog).1

finalize_runs :
    finalize promoted_cycle candidate artifact deployment "r2" 7 "fin" catalog
    ≡ (ok release_two, finalized)
unfolding finalize finalized release_two is_blank release_post_init
    autonomous_development.Catalog.Service.register autonomous_development.Catalog.Sql.add
    set_serving autonomous_development.Catalog.Sql.set_serving get_serving
finalize_runs = refl

finalize-serves_example :
    IsComplete promoted_cycle candidate artifact deployment
    × IsReleaseOf promoted_cycle candidate artifact deployment "r2" 7 release_two
    × (get_serving "t" finalized ≡ ok (some release_two))
finalize-serves_example =
    finalize-serves promoted_cycle candidate artifact deployment "r2" 7 "fin" catalog finalized
      release_two finalize_runs

-- ===== src/Soak/Restores.antt =====
-- The effects of the rollback of application/soak.py, one by one.
use autonomous_development.Prelude.{
  String, Option, none, some, concat, nat_eq, string_eq, option_eq, ◌≡◌, sym, ap, subst, subst₂,
  ◌∙◌, arith, inl, inr, Option-cases,
}
use autonomous_development.Prelude.Raise.{ok, Result-cases}
use autonomous_development.Domain.Enums.{cycle_state_eq}
use autonomous_development.Domain.Models.{DevelopmentCycle, ReleasedVersion}
use autonomous_development.Domain.Canary.Floats.{Floats}
use autonomous_development.Cycles.Repository.{CycleRepository}
use autonomous_development.Traffic.Ports.{TrafficRouteState, TrafficRouteSnapshot}
use autonomous_development.Catalog.Sql.{CatalogDb, get_serving}
use autonomous_development.Catalog.Sql as Sql
use autonomous_development.Catalog.Service as Catalog
use autonomous_development.Catalog.Served.{served-get, set_serving-serves}
use autonomous_development.Soak.Ports.{DeploymentRuntime, RepositoryBaseline}
use autonomous_development.Soak.Runtime.{
  RuntimeStore, resolve, stop_deployment, cleanup_cycle, restore_baseline,
}
use autonomous_development.Soak.Service.{
  SoakWiring, soak_route, restore_traffic, restore_release, retire_candidate,
}

module _ {fl : Floats} {S W : Type 0} (R : CycleRepository S) (w : SoakWiring fl W) where
  -- The control was resolved, the route of the soak was read, and traffic went back to the control.
  pub record IsTrafficRestored (cycle : DevelopmentCycle) (experiment op : String)
      (s s' : RuntimeStore W) : Type 0 where
    pub control : DeploymentRuntime
    pub middle : RuntimeStore W
    pub route : TrafficRouteSnapshot
    pub state : TrafficRouteState
    pub resolved :
        resolve w.deployment w.contract_target_id w.container_port cycle.baseline_release_id s
        ≡ (ok control, middle)
    pub current : w.traffic.read_current middle.world ≡ ok (some route)
    pub own : route.experiment_id ≡ experiment
    pub restored :
        w.traffic.restore_control experiment 0 control.base_url route.candidate_base_url
          (concat op ":traffic")
          middle.world
        ≡ (ok state, s'.world)

  soak_route-own :
      (cycle : DevelopmentCycle) (experiment : String) (o : Option TrafficRouteSnapshot)
      (route : TrafficRouteSnapshot)
      → soak_route cycle experiment o ≡ ok route
      → (o ≡ some route) × (route.experiment_id ≡ experiment)
  unfolding soak_route
  soak_route-own cycle experiment none route h = absurd (ground arith)
  soak_route-own cycle experiment (some r) route h =
      let s = string_eq.beq_iff r.experiment_id experiment in (ground arith, ground arith)

  pub restore_traffic-IsTrafficRestored :
      (cycle : DevelopmentCycle) (experiment op : String) (s s' : RuntimeStore W)
      → restore_traffic R w cycle experiment op s ≡ (ok tt, s')
      → IsTrafficRestored cycle experiment op s s'
  unfolding restore_traffic
  restore_traffic-IsTrafficRestored cycle experiment op s s' h =
      let call =
        resolve w.deployment w.contract_target_id w.container_port cycle.baseline_release_id s in
      let u = call.1 in
      elim (Result-cases call.0) [
        | inr (e, bad) ↦ absurd (ground arith)
        | inl (control, resolved) ↦ elim (Result-cases (w.traffic.read_current u.world)) [
          | inr (e, bad) ↦ absurd (ground arith)
          | inl (o, read) ↦ elim (Result-cases (soak_route cycle experiment o)) [
            | inr (e, bad) ↦ absurd (ground arith)
            | inl (route, fits) ↦
                let back = concat op ":traffic" in
                let last =
                  w.traffic.restore_control experiment 0 control.base_url route.candidate_base_url
                    back u.world in
                elim (Result-cases last.0) [
                  | inr (e, bad) ↦ absurd (ground arith)
                  | inl (state, restored) ↦
                      let (same, own) = soak_route-own cycle experiment o route fits in
                      record {
                        control = control;
                        middle = u;
                        route = route;
                        state = state;
                        resolved = λ i. (resolved i, u);
                        current = read ∙ ap ok same;
                        own = own;
                        restored = ground arith;
                      }
                ]
          ]
        ]
      ]

  -- The baseline release serves the target, and the source is back at its commit.
  pub record IsReleaseRestored (cycle : DevelopmentCycle) (s s' : RuntimeStore W) : Type 0 where
    pub baseline : ReleasedVersion
    pub named : baseline.id ≡ cycle.baseline_release_id
    pub serves : get_serving cycle.target_id s'.catalog ≡ ok (some baseline)
    pub source : RepositoryBaseline
    pub restored :
        w.repository.restore_baseline w.repository_root w.default_branch baseline.source_commit
          s.world
        ≡ (ok source, s'.world)
    pub commit : source.commit ≡ baseline.source_commit

  get_same :
      (id : String) (db : CatalogDb) (x y : ReleasedVersion)
      → Sql.get y.id db ≡ ok (some y)
      → y.id ≡ id
      → (Catalog.get id db).0 ≡ ok x
      → x ≡ y
  unfolding Catalog.get
  get_same id db x y there named h =
      let k : Sql.get id db ≡ ok (some y) = subst (λ i. Sql.get i db ≡ ok (some y)) named there in
      ground arith

  pub restore_release-IsReleaseRestored :
      (cycle : DevelopmentCycle) (op : String) (s s' : RuntimeStore W)
      → restore_release R w cycle op s ≡ (ok tt, s')
      → IsReleaseRestored cycle s s'
  unfolding restore_release restore_baseline Catalog.get
  restore_release-IsReleaseRestored cycle op s s' h =
      let id = cycle.baseline_release_id in
      let call = Catalog.set_serving cycle.target_id id (concat op ":serving") s.catalog in
      let db = call.1 in
      elim (Result-cases call.0) [
        | inr (e, bad) ↦ absurd (ground arith)
        | inl (served, set) ↦ elim (Result-cases (Catalog.get id db).0) [
          | inr (e, bad) ↦ absurd (ground arith)
          | inl (x, found) ↦
              let last =
                w.repository.restore_baseline w.repository_root w.default_branch x.source_commit
                  s.world in
              elim (Result-cases last.0) [
                | inr (e, bad) ↦ absurd (ground arith)
                | inl (source, made) ↦
                    let (serves, named) =
                      set_serving-serves cycle.target_id id (concat op ":serving") s.catalog db
                        served (λ i. (set i, db)) in
                    let there = served-get cycle.target_id db served serves in
                    let same : x ≡ served = get_same id db x served there named found in
                    let c = string_eq.beq_iff source.commit x.source_commit in
                    record {
                      baseline = x;
                      named = ap (λ (r : ReleasedVersion). r.id) same ∙ named;
                      serves =
                          subst₂ (λ d z. get_serving cycle.target_id d ≡ ok (some z)) {x = db}
                            {y = s'.catalog} (ground arith) (sym same) serves;
                      source = source;
                      restored = ground arith;
                      commit = ground arith;
                    }
              ]
        ]
      ]

  -- The candidate's deployment was stopped, then its worktree removed.
  pub record IsRetired (cycle : DevelopmentCycle) (v v' : W) : Type 0 where
    pub deployment_id : String
    pub named : cycle.candidate_deployment_id ≡ some deployment_id
    pub middle : W
    pub stopped : w.deployment.stop deployment_id v ≡ (ok tt, middle)
    pub removed :
        w.repository.cleanup_cycle w.repository_root cycle.id w.worktree_root middle ≡ (ok tt, v')

  pub retire_candidate-IsRetired :
      (cycle : DevelopmentCycle) (v v' : W)
      → retire_candidate R w cycle v ≡ (ok tt, v')
      → IsRetired cycle v v'
  unfolding retire_candidate stop_deployment cleanup_cycle
  retire_candidate-IsRetired cycle v v' h = elim (Option-cases cycle.candidate_deployment_id) [
    | inl gone ↦ absurd (ground arith)
    | inr (d, here) ↦ elim (Result-cases (w.deployment.stop d v).0) [
      | inr (e, bad) ↦ absurd (ground arith)
      | inl (tt, stopped) ↦ record {
        deployment_id = d;
        named = here;
        middle = (w.deployment.stop d v).1;
        stopped = λ i. (stopped i, (w.deployment.stop d v).1);
        removed = ground arith;
      }
    ]
  ]

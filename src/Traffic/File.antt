-- ===== src/Traffic/File.antt =====
-- `AtomicFileTrafficDirector` of adapters/traffic/file.py. `current.json` and the receipts are
-- values; a receipt is kept under the operation id itself, not its digest. The lock makes every
-- call one step.
use autonomous_development.Prelude.{
  ℕ, ◌+◌, String, List, ◌∷◌, Option, none, some, Bool, true, not, ◌&&◌, find, ◌==◌, ◌!=◌,
  if◌then◌else◌, nat_eq, string_eq, option_eq, ◌≡◌, ◌↔◌, Eq, arith,
}
use autonomous_development.Prelude.Raise.{Result, ok, err, raise_if, value_error}
use autonomous_development.Prelude.Action.{Action, ◌>>=◌, lift, gets}
use autonomous_development.Traffic.Ports.{
  TrafficSplit, split_post_init, TrafficRouteState, TrafficRouteSnapshot, TrafficDirector,
}

-- The dataclass fields of two splits, one by one.
abbrev split_beq : TrafficSplit → TrafficSplit → Bool
split_beq a b =
    a.experiment_id == b.experiment_id
    && (a.stage_index == b.stage_index
        && (a.control_base_url == b.control_base_url
            && (a.candidate_base_url == b.candidate_base_url
                && (a.candidate_weight_percent == b.candidate_weight_percent
                    && (a.operation_id == b.operation_id
                        && (a.target_id == b.target_id
                            && (a.control_release_id == b.control_release_id
                                && a.candidate_deployment_id == b.candidate_deployment_id)))))))

pub split_beq_iff : (a b : TrafficSplit) → (split_beq a b ≡ true) ↔ (a ≡ b)
split_beq_iff a b =
    let p = string_eq.beq_iff a.experiment_id b.experiment_id in
    let q = string_eq.beq_iff a.control_base_url b.control_base_url in
    let r = string_eq.beq_iff a.candidate_base_url b.candidate_base_url in
    let s = string_eq.beq_iff a.operation_id b.operation_id in
    let t = (option_eq {A = String}).beq_iff a.target_id b.target_id in
    let u = (option_eq {A = String}).beq_iff a.control_release_id b.control_release_id in
    let v = (option_eq {A = String}).beq_iff a.candidate_deployment_id b.candidate_deployment_id in
    ground arith

instance abbrev pub split_eq : Eq TrafficSplit
split_eq = record { beq = split_beq; beq_iff = split_beq_iff }

-- `current.json`: the split with its generation and evidence.
pub record Document : Type 0 where
  pub split : TrafficSplit
  pub generation : ℕ
  pub evidence_ref : String

pub record TrafficReceipt : Type 0 where
  pub split : TrafficSplit
  pub state : TrafficRouteState

-- The directory, and the evidence store beside it.
pub record TrafficFiles (E : Type 0) : Type 0 where
  pub current : Option Document
  pub receipts : List TrafficReceipt
  pub evidence : E

-- `_state_from_document`
unfoldable pub state_from_document : Document → TrafficRouteState
state_from_document d = record {
  experiment_id = d.split.experiment_id;
  stage_index = d.split.stage_index;
  candidate_weight_percent = d.split.candidate_weight_percent;
  generation = d.generation;
  evidence_ref = d.evidence_ref;
  target_id = d.split.target_id;
  control_release_id = d.split.control_release_id;
  candidate_deployment_id = d.split.candidate_deployment_id;
}

-- `_snapshot_from_document`
unfoldable pub snapshot_from_document : Document → TrafficRouteSnapshot
snapshot_from_document d = record {
  experiment_id = d.split.experiment_id;
  stage_index = d.split.stage_index;
  control_base_url = d.split.control_base_url;
  candidate_base_url = d.split.candidate_base_url;
  candidate_weight_percent = d.split.candidate_weight_percent;
  operation_id = d.split.operation_id;
  generation = d.generation;
  evidence_ref = d.evidence_ref;
  target_id = d.split.target_id;
  control_release_id = d.split.control_release_id;
  candidate_deployment_id = d.split.candidate_deployment_id;
}

abbrev pub is_receipt : String → TrafficReceipt → Bool
is_receipt operation_id r = r.split.operation_id == operation_id

-- `_validate_current_matches`; `TrafficOperationConflict` is a `ValueError`.
unfoldable pub validate_matches : (stored split : TrafficSplit) → Result (Unit {0})
validate_matches stored split = raise_if (stored != split) value_error

-- `int(current["generation"]) + 1 if current is not None else 1`
abbrev pub next_generation : Option Document → ℕ
next_generation none = 1
next_generation (some d) = d.generation + 1

module _ {E : Type 0} (is_loopback : String → Bool)
    (write_json : TrafficSplit → (generation : ℕ) → Action E String) where
  -- A new operation: evidence, then the route, then the receipt.
  unfoldable pub perform : TrafficSplit → Action (TrafficFiles E) TrafficRouteState
  unfolding state_from_document
  perform split files =
      let generation = next_generation files.current in
      let (ref, evidence) = write_json split generation files.evidence in
      elim ref [
        | err e ↦ (err e, record files { evidence = evidence })
        | ok evidence_ref ↦
            let document : Document = record {
              split = split;
              generation = generation;
              evidence_ref = evidence_ref;
            } in
            (
              ok (state_from_document document),
              record {
                current = some document;
                receipts =
                    record { split = split; state = state_from_document document } ∷ files.receipts;
                evidence = evidence;
              },
            )
      ]

  -- The operation that `current.json` names stopped before its receipt.
  unfoldable pub finish : Document → TrafficSplit → Action (TrafficFiles E) TrafficRouteState
  unfolding state_from_document validate_matches
  finish d split files = elim (validate_matches d.split split) [
    | err e ↦ (err e, files)
    | ok valid ↦ (
      ok (state_from_document d),
      record files {
        receipts = record { split = split; state = state_from_document d } ∷ files.receipts;
      },
    )
  ]

  -- An operation without a receipt.
  unfoldable pub apply_current :
      Option Document → TrafficSplit → Action (TrafficFiles E) TrafficRouteState
  unfolding perform finish
  apply_current none split = perform split
  apply_current (some d) split =
      if d.split.operation_id == split.operation_id then finish d split else perform split

  -- `_replay_receipt`, or the operation itself.
  unfoldable pub apply_recorded :
      Option TrafficReceipt → TrafficSplit → Action (TrafficFiles E) TrafficRouteState
  unfolding apply_current validate_matches
  apply_recorded (some receipt) split files = elim (validate_matches receipt.split split) [
    | err e ↦ (err e, files)
    | ok valid ↦ (ok receipt.state, files)
  ]
  apply_recorded none split files = apply_current files.current split files

  unfoldable pub apply : TrafficSplit → Action (TrafficFiles E) TrafficRouteState
  unfolding apply_recorded
  apply split files =
      if not (is_loopback split.control_base_url)
      then (err value_error, files)
      else if not (is_loopback split.candidate_base_url)
      then (err value_error, files)
      else apply_recorded (find (is_receipt split.operation_id) files.receipts) split files

  abbrev pub snapshot_of : Option Document → Option TrafficRouteSnapshot
  unfolding snapshot_from_document
  snapshot_of none = none
  snapshot_of (some d) = some (snapshot_from_document d)

  unfoldable pub read_current : TrafficFiles E → Result (Option TrafficRouteSnapshot)
  read_current files = ok (snapshot_of files.current)

  abbrev pub target_of : Option Document → Option String
  target_of none = none
  target_of (some d) = d.split.target_id

  abbrev pub release_of : Option Document → Option String
  release_of none = none
  release_of (some d) = d.split.control_release_id

  abbrev pub deployment_of : Option Document → Option String
  deployment_of none = none
  deployment_of (some d) = d.split.candidate_deployment_id

  -- The split of `restore_control`.
  unfoldable pub control_split :
      Option Document
      → (experiment_id : String) (stage_index : ℕ) (control_base_url candidate_base_url : String)
        (operation_id : String)
      → TrafficSplit
  control_split current experiment_id stage_index control_base_url candidate_base_url operation_id =
      record {
        experiment_id = experiment_id;
        stage_index = stage_index;
        control_base_url = control_base_url;
        candidate_base_url = candidate_base_url;
        candidate_weight_percent = 0;
        operation_id = operation_id;
        target_id = target_of current;
        control_release_id = release_of current;
        candidate_deployment_id = deployment_of current;
      }

  unfoldable pub restore_control :
      (experiment_id : String) (stage_index : ℕ) (control_base_url candidate_base_url : String)
      (operation_id : String)
      → Action (TrafficFiles E) TrafficRouteState
  unfolding apply control_split
  restore_control experiment_id stage_index control_base_url candidate_base_url operation_id = do
    current ← gets (λ files. files.current)
    split ← lift (
        split_post_init (
          control_split current experiment_id stage_index control_base_url candidate_base_url
            operation_id))
    apply split

  unfoldable pub file_director : TrafficDirector (TrafficFiles E)
  unfolding read_current apply restore_control
  file_director = record {
    read_current = read_current;
    apply = apply;
    restore_control = restore_control;
  }

-- ===== src/Traffic/Route.antt =====
-- `apply` and `restore_control` of adapters/traffic/file.py, called once and called again.
use autonomous_development.Prelude.{
  ℕ, String, Option, none, some, Bool, find, Bool-cases, ◌==◌, nat_eq, string_eq, ◌≡◌, refl, inl,
  inr, arith,
}
use autonomous_development.Prelude.Raise.{ok, Result-cases}
use autonomous_development.Prelude.Action.{Action, ◌>>=◌, lift}
use autonomous_development.Traffic.Ports.{
  TrafficSplit, split_post_init, TrafficRouteState, TrafficRouteSnapshot,
}
use autonomous_development.Traffic.File.{
  Document, TrafficReceipt, TrafficFiles, split_eq, is_receipt, validate_matches, next_generation,
  perform, finish, apply_current, apply_recorded, apply, read_current, snapshot_from_document,
  control_split, restore_control,
}

module _ {E : Type 0} (is_loopback : String → Bool)
    (write_json : TrafficSplit → (generation : ℕ) → Action E String) where
  -- What an operation that returned has left: its receipt, and the state that it returned.
  IsRecorded : TrafficSplit → TrafficRouteState → TrafficFiles E → Type 0
  IsRecorded split state files =
      find (is_receipt split.operation_id) files.receipts
      ≡ some (record { split = split; state = state })

  perform-IsRecorded :
      (split : TrafficSplit) (files files' : TrafficFiles E) (state : TrafficRouteState)
      → perform is_loopback write_json split files ≡ (ok state, files')
      → IsRecorded split state files'
  unfolding perform IsRecorded
  perform-IsRecorded split files files' state h =
      elim (Result-cases (write_json split (next_generation files.current) files.evidence).0) [
        | inr (e, bad) ↦ absurd (ground arith)
        | inl (ref, written) ↦
            ground (arith, string_eq.beq_iff split.operation_id split.operation_id)
      ]

  finish-IsRecorded :
      (d : Document) (split : TrafficSplit) (files files' : TrafficFiles E)
      (state : TrafficRouteState)
      → finish is_loopback write_json d split files ≡ (ok state, files')
      → IsRecorded split state files'
  unfolding finish IsRecorded validate_matches
  finish-IsRecorded d split files files' state h =
      ground (arith, string_eq.beq_iff split.operation_id split.operation_id)

  current-IsRecorded :
      (o : Option Document) (split : TrafficSplit) (files files' : TrafficFiles E)
      (state : TrafficRouteState)
      → apply_current is_loopback write_json o split files ≡ (ok state, files')
      → IsRecorded split state files'
  unfolding apply_current
  current-IsRecorded none split files files' state h = perform-IsRecorded split files files' state h
  current-IsRecorded (some d) split files files' state h =
      elim (Bool-cases (d.split.operation_id == split.operation_id)) [
        | inl stopped ↦ finish-IsRecorded d split files files' state (ground arith)
        | inr other ↦ perform-IsRecorded split files files' state (ground arith)
      ]

  IsRecorded-or_kept :
      (o : Option TrafficReceipt) (split : TrafficSplit) (files files' : TrafficFiles E)
      (state : TrafficRouteState)
      → find (is_receipt split.operation_id) files.receipts ≡ o
      → apply_recorded is_loopback write_json o split files ≡ (ok state, files')
      → IsRecorded split state files'
  unfolding apply_recorded validate_matches IsRecorded
  IsRecorded-or_kept (some r) split files files' state there h =
      let matched = split_eq.beq_iff r.split split in ground arith
  IsRecorded-or_kept none split files files' state there h =
      current-IsRecorded files.current split files files' state h

  -- An operation that returned can be repeated: it returns the same state and changes nothing.
  pub apply_idempotent :
      (split : TrafficSplit) (files files' : TrafficFiles E) (state : TrafficRouteState)
      → apply is_loopback write_json split files ≡ (ok state, files')
      → apply is_loopback write_json split files' ≡ (ok state, files')
  unfolding apply IsRecorded apply_recorded validate_matches
  apply_idempotent split files files' state h =
      let there : IsRecorded split state files' =
        IsRecorded-or_kept (find (is_receipt split.operation_id) files.receipts) split files files'
          state refl (ground arith) in
      let matched = split_eq.beq_iff split split in ground arith

  perform-routed :
      (split : TrafficSplit) (files files' : TrafficFiles E) (state : TrafficRouteState)
      → perform is_loopback write_json split files ≡ (ok state, files')
      → (d : Document) × (files'.current ≡ some d) × (d.split ≡ split)
  unfolding perform
  perform-routed split files files' state h =
      elim (Result-cases (write_json split (next_generation files.current) files.evidence).0) [
        | inr (e, bad) ↦ absurd (ground arith)
        | inl (ref, written) ↦ (
          record { split = split; generation = next_generation files.current; evidence_ref = ref },
          ground arith,
          refl,
        )
      ]

  -- The route after an operation that had no receipt.
  routed :
      (o : Option Document) (split : TrafficSplit) (files files' : TrafficFiles E)
      (state : TrafficRouteState)
      → files.current ≡ o
      → apply_current is_loopback write_json o split files ≡ (ok state, files')
      → (d : Document) × (files'.current ≡ some d) × (d.split ≡ split)
  unfolding apply_current finish validate_matches
  routed none split files files' state here h = perform-routed split files files' state h
  routed (some d) split files files' state here h =
      elim (Bool-cases (d.split.operation_id == split.operation_id)) [
        | inr other ↦ perform-routed split files files' state (ground arith)
        | inl stopped ↦
            let matched = split_eq.beq_iff d.split split in (d, ground arith, ground arith)
      ]

  applied :
      (split : TrafficSplit) (files files' : TrafficFiles E) (state : TrafficRouteState)
      → find (is_receipt split.operation_id) files.receipts ≡ none
      → (do checked ← lift (split_post_init split); apply is_loopback write_json checked) files
        ≡ (ok state, files')
      → apply_current is_loopback write_json files.current split files ≡ (ok state, files')
  unfolding apply apply_recorded split_post_init
  applied split files files' state fresh h = ground arith

  -- Under an operation id that has no receipt, `restore_control`, if it returns, leaves a route
  -- to the given control that sends the candidate nothing.
  pub restore_control-serves :
      (experiment_id : String) (stage_index : ℕ) (control_base_url candidate_base_url : String)
      (operation_id : String) (files files' : TrafficFiles E) (state : TrafficRouteState)
      → find (is_receipt operation_id) files.receipts ≡ none
      → restore_control is_loopback write_json experiment_id stage_index control_base_url
          candidate_base_url operation_id files
        ≡ (ok state, files')
      → (snap : TrafficRouteSnapshot) × (read_current is_loopback write_json files'
          ≡ ok (some snap))
        × (snap.candidate_weight_percent ≡ 0)
        × (snap.control_base_url ≡ control_base_url)
  unfolding restore_control control_split read_current snapshot_from_document
  restore_control-serves experiment_id stage_index control_base_url candidate_base_url operation_id
        files files' state fresh h =
      let split =
        control_split is_loopback write_json files.current experiment_id stage_index
          control_base_url candidate_base_url operation_id in
      let (d, here, own) =
        routed files.current split files files' state refl
          (applied split files files' state fresh h) in
      (snapshot_from_document d, ground arith, ground arith, ground arith)

-- ===== src/Tests/Database.antt =====
-- Cycles and experiments in their databases.
use autonomous_development.Domain.Transitions.Table.{permits, is_terminal}
use autonomous_development.Prelude.{
  is_blank, ◌≤◌, ◌≡◌, ◌≢◌, refl, ◌⊎◌, String, [], ◌∷◌, some, Bool, find, count_if, arith,
}
use autonomous_development.Prelude.Raise.{ok}
use autonomous_development.Domain.Enums.{parse_cycle_state, CycleState}
use autonomous_development.Domain.Models.{experiment_post_init, cycle_post_init}
use autonomous_development.Domain.Transitions.Guard.{
  merged, validate_required_reference, transition_cycle, no_evidence,
}
use autonomous_development.Domain.Canary.Evidence.{stage_decision_post_init}
use autonomous_development.Domain.Canary.Evaluate.{advance_experiment, promotion_evidence_refs}
use autonomous_development.Domain.Canary.History.{all_refs}
use autonomous_development.Cycles.Rows.{CycleRow, cycle_values, cycle_from_row}
use autonomous_development.Cycles.Sql.{
  settle, get, CycleDb, has_id, is_active, get_transition, write_transition, commit_transition,
  sql_repository,
}
use autonomous_development.Cycles.Constraints.{IsConsistent}
use autonomous_development.Cycles.Sound.{is_open, IsSound, commit_transition-IsSound}
use autonomous_development.Cycles.Commit.{commit_no_lost_update, sql_repository-IsLawful}
use autonomous_development.Cycles.Service as Cycles
use autonomous_development.Cycles.Replay.{HasEffect, transition_effect, transition_idempotent}
use autonomous_development.Experiments.Receipts.{decision_from_receipt}
use autonomous_development.Experiments.Sql.{
  list_stage_decisions, commit_stage_decision, get_experiment, ExperimentDb, get_stage_decision,
}
use autonomous_development.Experiments.Service as Experiments
use autonomous_development.Experiments.Record.{record_decision-replay}
use autonomous_development.Experiments.History.{promotion_history_evidence}
use autonomous_development.Tests.Data.{
  ready_cycle, canary_cycle, first_stage, last_stage, advance_decision, history, experiment_db,
}

abbrev cycle_db : CycleDb
unfolding cycle_values
cycle_db = record { cycles = cycle_values canary_cycle ∷ []; transitions = [] }

at_most_one : (p : CycleRow → Bool) (row : CycleRow) → count_if p (row ∷ []) ≤ 1
at_most_one p row = ground arith

cycle_db-IsConsistent : IsConsistent cycle_db
unfolding cycle_db
cycle_db-IsConsistent = record {
  unique_id = λ id. at_most_one (has_id id) (cycle_values canary_cycle);
  one_active = λ target_id. at_most_one (is_active target_id) (cycle_values canary_cycle);
}

cycle_db-IsSound : IsSound cycle_db
unfolding cycle_db cycle_values parse_cycle_state is_terminal
cycle_db-IsSound = record {
  unique_id = λ id. at_most_one (has_id id) (cycle_values canary_cycle);
  one_open = λ target_id. at_most_one (is_open target_id) (cycle_values canary_cycle);
  flagged = refl;
}

commit_transition-IsSound_example :
    IsSound (commit_transition ready_cycle 11 "op" CycleState.promotion_ready cycle_db).1
commit_transition-IsSound_example =
    commit_transition-IsSound ready_cycle 11 "op" CycleState.promotion_ready cycle_db
      cycle_db-IsSound

abbrev committed : CycleDb
unfolding commit_transition
committed = (commit_transition ready_cycle 11 "op" CycleState.promotion_ready cycle_db).1

commit_no_lost_update_example :
    (committed ≡ cycle_db)
    ⊎ (((r : CycleRow) × (find (has_id "c") cycle_db.cycles ≡ some r) × (r.version ≡ 11))
        × (find (has_id "c") committed.cycles ≡ some (cycle_values ready_cycle))
        × ((j : String)
            → "c" ≢ j
            → find (has_id j) committed.cycles ≡ find (has_id j) cycle_db.cycles))
unfolding committed commit_transition
commit_no_lost_update_example =
    commit_no_lost_update ready_cycle 11 "op" CycleState.promotion_ready cycle_db
      cycle_db-IsConsistent

-- The same step through the service.
becomes_ready :
    Cycles.transition sql_repository "c" CycleState.promotion_ready 11 "op" no_evidence cycle_db
    ≡ (ok ready_cycle, committed)
unfolding Cycles.transition get_transition cycle_db Cycles.perform get cycle_from_row
    parse_cycle_state cycle_post_init is_blank transition_cycle is_terminal permits
    validate_required_reference merged commit_transition settle write_transition
becomes_ready = refl

transition_effect_example :
    HasEffect sql_repository IsConsistent sql_repository-IsLawful "c" CycleState.promotion_ready 11
      "op" no_evidence cycle_db committed ready_cycle
unfolding get_transition cycle_db
transition_effect_example =
    transition_effect sql_repository IsConsistent sql_repository-IsLawful "c"
      CycleState.promotion_ready 11 "op" no_evidence cycle_db committed ready_cycle
      cycle_db-IsConsistent refl becomes_ready

transition_idempotent_example :
    Cycles.transition sql_repository "c" CycleState.promotion_ready 11 "op" no_evidence committed
    ≡ (ok ready_cycle, committed)
transition_idempotent_example =
    transition_idempotent sql_repository IsConsistent sql_repository-IsLawful "c"
      CycleState.promotion_ready 11 "op" no_evidence no_evidence cycle_db committed ready_cycle
      cycle_db-IsConsistent becomes_ready

abbrev fresh_db : ExperimentDb
fresh_db = record { experiments = first_stage ∷ []; operations = [] }

abbrev decided_db : ExperimentDb
unfolding Experiments.record_decision
decided_db = (Experiments.record_decision "x" advance_decision 0 "op" fresh_db).1

record_decision-replay_example :
    Experiments.replay_decision "op" decided_db ≡ ok (some (last_stage, advance_decision))
unfolding stage_decision_post_init get_stage_decision Experiments.record_decision is_blank
    get_experiment advance_experiment experiment_post_init commit_stage_decision
record_decision-replay_example =
    record_decision-replay "x" advance_decision 0 "op" fresh_db decided_db last_stage refl refl refl

promotion_history_evidence_example :
    promotion_evidence_refs last_stage history ≡ ok (all_refs history)
unfolding Experiments.get Experiments.promotion_history get_experiment list_stage_decisions
    decision_from_receipt stage_decision_post_init is_blank
promotion_history_evidence_example =
    promotion_history_evidence "x" experiment_db last_stage history refl refl refl

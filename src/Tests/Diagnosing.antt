-- ===== src/Tests/Diagnosing.antt =====
-- A diagnosis by a Codex that counts its turns.
use autonomous_development.Prelude.{ℕ, suc, String, List, ◌∷◌, [], some, none, nat_eq, ◌≡◌, refl}
use autonomous_development.Prelude.Raise.{ok}
use autonomous_development.Domain.Models.{Diagnosis}
use autonomous_development.Diagnoses.Output.{text, number, array, Value}
use autonomous_development.Diagnoses.Service.{DiagnosisStore, DiagnosisWiring, diagnose}
use autonomous_development.Diagnoses.Grounded.{IsGrounded, diagnose-IsGrounded}
use autonomous_development.Tests.Data.{thousandths}
use autonomous_development.Tests.Intake.{objective, sources, window}

abbrev answer : List (String × Value thousandths)
answer =
    ("observed_problem", text "slow")
    ∷ ("affected_journey", text "search")
    ∷ ("confidence", number 700)
    ∷ ("competing_hypotheses", array [])
    ∷ ("likely_root_cause", text "loop")
    ∷ ("proposed_change_class", text "code")
    ∷ ("expected_outcome", text "fast")
    ∷ ("risks", array [])
    ∷ ("requested_paths", array (some "app/search.py" ∷ []))
    ∷ ("required_validation", array [])
    ∷ []

abbrev pub wiring : DiagnosisWiring thousandths ℕ
wiring = record {
  codex = record {
    run_turn = λ request turns. (
      ok (record {
        thread_id = "th";
        turn_id = "tu";
        status = "completed";
        agent_messages = "{}" ∷ [];
      }),
      suc turns,
    );
  };
  prompt_of = λ w o f. "diagnose";
  loads = λ message. ok (some answer);
}

abbrev pub empty_store : DiagnosisStore thousandths ℕ
empty_store = record { world = 0; diagnoses = [] }

abbrev pub made : Diagnosis thousandths
made = record {
  id = "g";
  evidence_window_id = "w";
  observed_problem = "slow";
  affected_journey = "search";
  evidence_refs = "m" ∷ "feedback:f" ∷ [];
  confidence = 700;
  competing_hypotheses = [];
  likely_root_cause = "loop";
  proposed_change_class = "code";
  expected_outcome = "fast";
  risks = [];
  requested_paths = "app/search.py" ∷ [];
  required_validation = [];
}

abbrev pub full_store : DiagnosisStore thousandths ℕ
full_store = record { world = 1; diagnoses = made ∷ [] }

diagnose_runs :
    diagnose wiring window objective "g" "/repo" 1200 sources.feedback empty_store
    ≡ (ok made, full_store)
unfolding diagnose autonomous_development.Prelude.is_blank
    autonomous_development.Diagnoses.Sql.get_diagnosis
    autonomous_development.Diagnoses.References.feedback_for_window
    autonomous_development.Feedback.Sql.get_feedback
    autonomous_development.Domain.Models.feedback_post_init
    autonomous_development.Diagnoses.Output.parse_output
    autonomous_development.Domain.Models.diagnosis_post_init
    autonomous_development.Diagnoses.Sql.add_diagnosis
diagnose_runs = refl

diagnose-IsGrounded_example :
    IsGrounded window "g" empty_store full_store made
    × (diagnose wiring window objective "g" "/repo" 60 [] full_store ≡ (ok made, full_store))
diagnose-IsGrounded_example =
    diagnose-IsGrounded wiring window objective "g" "/repo" 1200 sources.feedback wiring 60 []
      empty_store full_store made diagnose_runs

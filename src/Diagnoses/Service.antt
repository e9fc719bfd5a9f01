-- ===== src/Diagnoses/Service.antt =====
-- `DiagnosisService` of application/diagnosis.py. The text of the prompt is a parameter, of the
-- window, the objective and the feedback, and `json.loads` is another.
use autonomous_development.Prelude.{
  ℕ, String, List, ◌++◌, Option, none, some, not, is_blank, is_empty, concat, ◌!=◌, string_eq, Eq,
}
use autonomous_development.Prelude.Raise.{Result, raise_if, value_error, runtime_error}
use autonomous_development.Prelude.Action.{Action, ◌>>=◌, ◌>>◌, pure, lift}
use autonomous_development.Domain.Canary.Floats.{Floats}
use autonomous_development.Domain.Models.{
  EvidenceWindow, ProductObjectiveRevision, UserFeedback, Diagnosis, diagnosis_post_init,
}
use autonomous_development.Diagnoses.References.{feedback_for_window}
use autonomous_development.Diagnoses.Codex.{
  CodexSandbox, CodexTurnRequest, turn_post_init, is_absolute, completed, CodexProvider,
}
use autonomous_development.Diagnoses.Sql.{get_diagnosis, add_diagnosis}
use autonomous_development.Diagnoses.Output.{Parsed, DiagnosisOutput, parse_output}

pub record DiagnosisStore (fl : Floats) (W : Type 0) : Type 0 where
  pub world : W
  pub diagnoses : List (Diagnosis fl)

abbrev pub all_refs : EvidenceWindow → List String
all_refs w = w.telemetry_refs ++ w.feedback_refs ++ w.regression_refs ++ w.incident_refs

unfoldable pub diagnosis_of :
    {fl : Floats} → EvidenceWindow → (diagnosis_id : String) → DiagnosisOutput fl → Diagnosis fl
diagnosis_of window diagnosis_id output = record {
  id = diagnosis_id;
  evidence_window_id = window.id;
  observed_problem = output.observed_problem;
  affected_journey = output.affected_journey;
  evidence_refs = all_refs window;
  confidence = output.confidence;
  competing_hypotheses = output.competing_hypotheses;
  likely_root_cause = output.likely_root_cause;
  proposed_change_class = output.proposed_change_class;
  expected_outcome = output.expected_outcome;
  risks = output.risks;
  requested_paths = output.requested_paths;
  required_validation = output.required_validation;
}

unfoldable pub turn_request :
    (prompt repository_root diagnosis_id : String) (timeout_seconds : ℕ) → CodexTurnRequest
turn_request prompt repository_root diagnosis_id timeout_seconds = record {
  prompt = prompt;
  cwd = repository_root;
  sandbox = CodexSandbox.read_only;
  thread_id = none;
  resume_key = some (concat "diagnosis:" diagnosis_id);
  model = none;
  timeout_seconds = timeout_seconds;
}

module _ {fl : Floats} {W : Type 0} where
  abbrev pub on_world : {A : Type 0} → Action W A → Action (DiagnosisStore fl W) A
  on_world m s = let (r, t) = m s.world in (r, record s { world = t })

  abbrev pub on_diagnoses :
      {A : Type 0} → Action (List (Diagnosis fl)) A → Action (DiagnosisStore fl W) A
  on_diagnoses m s = let (r, t) = m s.diagnoses in (r, record s { diagnoses = t })

  abbrev pub query :
      {A : Type 0} → (DiagnosisStore fl W → Result A) → Action (DiagnosisStore fl W) A
  query read s = (read s, s)

-- What the service is wired to.
pub record DiagnosisWiring (fl : Floats) (W : Type 0) : Type 0 where
  pub codex : CodexProvider W
  pub prompt_of : EvidenceWindow → ProductObjectiveRevision → List UserFeedback → String
  pub loads : String → Result (Parsed fl)

module _ {fl : Floats} ⦃float_eq : Eq fl.Float⦄ {W : Type 0} where
  unfoldable pub get :
      (diagnosis_id : String) → DiagnosisStore fl W → Result (Option (Diagnosis fl))
  get diagnosis_id s = get_diagnosis diagnosis_id s.diagnoses

  -- The diagnosis of an answer is stored.
  unfoldable pub file_diagnosis :
      EvidenceWindow
      → (diagnosis_id : String) → DiagnosisOutput fl
      → Action (DiagnosisStore fl W) (Diagnosis fl)
  unfolding diagnosis_of
  file_diagnosis window diagnosis_id output = do
    lift (raise_if (is_empty (all_refs window)) value_error)
    diagnosis ← lift (diagnosis_post_init fl (diagnosis_of window diagnosis_id output))
    on_diagnoses (add_diagnosis diagnosis)

module _ {fl : Floats} ⦃float_eq : Eq fl.Float⦄ {W : Type 0} (wiring : DiagnosisWiring fl W) where
  unfoldable pub ask_codex :
      EvidenceWindow
      → ProductObjectiveRevision
      → (diagnosis_id repository_root : String) (timeout_seconds : ℕ) → List UserFeedback
      → Action (DiagnosisStore fl W) (DiagnosisOutput fl)
  unfolding turn_request turn_post_init completed
  ask_codex window objective diagnosis_id repository_root timeout_seconds feedback = do
    request ← lift (
        turn_post_init (
          turn_request (wiring.prompt_of window objective feedback) repository_root diagnosis_id
            timeout_seconds))
    result ← on_world (wiring.codex.run_turn request)
    lift (raise_if (not (completed result)) runtime_error)
    lift (parse_output wiring.loads result.agent_messages)

  -- A diagnosis with an id that is new.
  unfoldable pub new_diagnosis :
      EvidenceWindow
      → ProductObjectiveRevision
      → (diagnosis_id repository_root : String) (timeout_seconds : ℕ) → List UserFeedback
      → Action (DiagnosisStore fl W) (Diagnosis fl)
  unfolding ask_codex file_diagnosis
  new_diagnosis window objective diagnosis_id repository_root timeout_seconds rows = do
    feedback ← lift (feedback_for_window window rows)
    output ← ask_codex window objective diagnosis_id repository_root timeout_seconds feedback
    file_diagnosis window diagnosis_id output

  unfoldable pub known_diagnosis :
      EvidenceWindow → Diagnosis fl → Action (DiagnosisStore fl W) (Diagnosis fl)
  known_diagnosis window existing = do
    lift (raise_if (existing.evidence_window_id != window.id) value_error)
    pure existing

  unfoldable pub diagnose :
      EvidenceWindow
      → ProductObjectiveRevision
      → (diagnosis_id repository_root : String) (timeout_seconds : ℕ) → List UserFeedback
      → Action (DiagnosisStore fl W) (Diagnosis fl)
  unfolding new_diagnosis known_diagnosis
  diagnose window objective diagnosis_id repository_root timeout_seconds rows = do
    lift (raise_if (is_blank diagnosis_id) value_error)
    lift (raise_if (window.target_id != objective.target_id) value_error)
    lift (raise_if (not (is_absolute repository_root)) value_error)
    existing ← query (λ s. get_diagnosis diagnosis_id s.diagnoses)
    elim existing [
      | some diagnosis ↦ known_diagnosis window diagnosis
      | none ↦ new_diagnosis window objective diagnosis_id repository_root timeout_seconds rows
    ]

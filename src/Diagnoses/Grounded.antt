-- ===== src/Diagnoses/Grounded.antt =====
-- What is known of a diagnosis that `diagnose` of application/diagnosis.py returns.
use autonomous_development.Prelude.{
  ℕ, String, List, ◌++◌, none, some, true, false, is_blank, ◌!=◌, string_eq, Eq, ◌≡◌, sym, ap,
  subst, ◌∙◌, ◌⊎◌, arith, inl, inr,
}
use autonomous_development.Prelude.Raise.{ok, Result-cases}
use autonomous_development.Domain.Canary.Floats.{Floats}
use autonomous_development.Domain.Models.{
  EvidenceWindow, ProductObjectiveRevision, UserFeedback, Diagnosis, diagnosis_post_init,
}
use autonomous_development.Records.{add-get}
use autonomous_development.Diagnoses.References.{feedback_for_window}
use autonomous_development.Diagnoses.Codex.{is_absolute}
use autonomous_development.Diagnoses.Output.{DiagnosisOutput}
use autonomous_development.Diagnoses.Sql.{
  diagnosis_id_of, diagnosis_eq, get_diagnosis, add_diagnosis,
}
use autonomous_development.Diagnoses.Service.{
  DiagnosisStore, DiagnosisWiring, diagnosis_of, on_diagnoses, ask_codex, file_diagnosis,
  new_diagnosis, known_diagnosis, diagnose,
}

post_init-own :
    {fl : Floats} (d e : Diagnosis fl)
    → diagnosis_post_init fl d ≡ ok e
    → (e ≡ d) × (diagnosis_post_init fl d ≡ ok d)
unfolding diagnosis_post_init
post_init-own d e h = (ground arith, ground arith)

-- Every reference of the window: telemetry, feedback, regressions, incidents.
abbrev pub evidence_of : EvidenceWindow → List String
evidence_of w = w.telemetry_refs ++ w.feedback_refs ++ w.regression_refs ++ w.incident_refs

module _ {fl : Floats} ⦃float_eq : Eq fl.Float⦄ {W : Type 0} where
  -- The diagnosis is of the window and is stored under the id; it was there, or it is new and rests on
  -- all the evidence of the window.
  pub record IsGrounded (window : EvidenceWindow) (diagnosis_id : String)
      (s s' : DiagnosisStore fl W) (d : Diagnosis fl) : Type 0 where
    pub bound : d.evidence_window_id ≡ window.id
    pub stored : get_diagnosis diagnosis_id s'.diagnoses ≡ ok (some d)
    pub source :
        ((get_diagnosis diagnosis_id s.diagnoses ≡ ok (some d)) × (s' ≡ s))
        ⊎ ((get_diagnosis diagnosis_id s.diagnoses ≡ ok none)
            × (d.evidence_refs ≡ evidence_of window))

  stored_diagnosis :
      (d e : Diagnosis fl) (s s' : DiagnosisStore fl W)
      → diagnosis_post_init fl d ≡ ok d
      → on_diagnoses (add_diagnosis d) s ≡ (ok e, s')
      → (e ≡ d) × (get_diagnosis d.id s'.diagnoses ≡ ok (some d))
  unfolding add_diagnosis get_diagnosis
  stored_diagnosis d e s s' valid h =
      let rows = (add_diagnosis d s.diagnoses).1 in
      let made : add_diagnosis d s.diagnoses ≡ (ok e, rows) = ground arith in
      let (same, back) =
        add-get diagnosis_id_of (diagnosis_post_init fl) d e s.diagnoses rows valid made in
      let last : rows ≡ s'.diagnoses = ground arith in
      (same, subst (λ r. get_diagnosis d.id r ≡ ok (some d)) last back)

  module _ (wiring : DiagnosisWiring fl W) (window : EvidenceWindow)
      (objective : ProductObjectiveRevision) (id root : String) (timeout : ℕ)
      (rows : List UserFeedback) where
    abbrev IsMade : DiagnosisStore fl W → Diagnosis fl → Type 0
    IsMade s' d =
        (d.evidence_window_id ≡ window.id)
        × (d.evidence_refs ≡ evidence_of window)
        × (get_diagnosis id s'.diagnoses ≡ ok (some d))

    drafted_diagnosis :
        (output : DiagnosisOutput fl) (s s' : DiagnosisStore fl W) (made d : Diagnosis fl)
        → diagnosis_post_init fl (diagnosis_of window id output) ≡ ok made
        → on_diagnoses (add_diagnosis made) s ≡ (ok d, s')
        → IsMade s' d
    unfolding diagnosis_of
    drafted_diagnosis output s s' made d checked added =
        let drafted = diagnosis_of window id output in
        let (own, valid) = post_init-own drafted made checked in
        let (same, back) =
          stored_diagnosis made d s s'
            (subst (λ z. diagnosis_post_init fl z ≡ ok z) (sym own) valid) added in
        let all : d ≡ drafted = same ∙ own in
        (
          ap (λ (z : Diagnosis fl). z.evidence_window_id) all,
          ap (λ (z : Diagnosis fl). z.evidence_refs) all,
          subst (λ (z : Diagnosis fl). get_diagnosis z.id s'.diagnoses ≡ ok (some made)) own back
              ∙ ap (λ z. ok (some z)) (sym same),
        )

    file_diagnosis-IsMade :
        (output : DiagnosisOutput fl) (s s' : DiagnosisStore fl W) (d : Diagnosis fl)
        → file_diagnosis window id output s ≡ (ok d, s')
        → IsMade s' d
    unfolding file_diagnosis
    file_diagnosis-IsMade output s s' d h =
        elim (Result-cases (diagnosis_post_init fl (diagnosis_of window id output))) [
          | inr (e, bad) ↦ absurd (ground arith)
          | inl (made, checked) ↦ drafted_diagnosis output s s' made d checked (ground arith)
        ]

    new_diagnosis-IsMade :
        (s s' : DiagnosisStore fl W) (d : Diagnosis fl)
        → new_diagnosis wiring window objective id root timeout rows s ≡ (ok d, s')
        → IsMade s' d
    unfolding new_diagnosis
    new_diagnosis-IsMade s s' d h = elim (Result-cases (feedback_for_window window rows)) [
      | inr (e, bad) ↦ absurd (ground arith)
      | inl (feedback, resolved) ↦
          let asked = ask_codex wiring window objective id root timeout feedback s in
          elim (Result-cases asked.0) [
            | inr (e, bad) ↦ absurd (ground arith)
            | inl (output, answered) ↦ file_diagnosis-IsMade output asked.1 s' d (ground arith)
          ]
    ]

    -- What the guards and the store say when `diagnose` returned.
    diagnosed :
        (s s' : DiagnosisStore fl W) (d : Diagnosis fl)
        → diagnose wiring window objective id root timeout rows s ≡ (ok d, s')
        → IsGrounded window id s s' d
    unfolding diagnose known_diagnosis
    diagnosed s s' d h = elim (Result-cases (get_diagnosis id s.diagnoses)) [
      | inr (e, bad) ↦ absurd (ground arith)
      | inl (some old, there) ↦
          let w = string_eq.beq_iff old.evidence_window_id window.id in
          let own : d ≡ old = ground arith in
          let kept : s' ≡ s = ground arith in
          record {
            bound = ground arith;
            stored =
                subst (λ t. get_diagnosis id t.diagnoses ≡ ok (some d)) (sym kept)
                  (there ∙ ap (λ z. ok (some z)) (sym own));
            source = inl (there ∙ ap (λ z. ok (some z)) (sym own), kept);
          }
      | inl (none, fresh) ↦
          let (bound, refs, stored) = new_diagnosis-IsMade s s' d (ground arith) in
          record { bound = bound; stored = stored; source = inr (fresh, refs) }
    ]

    -- A diagnosis is made once: what `diagnose` returns is bound to the window and stored under its
    -- id, was there already or rests on exactly the telemetry, feedback, regression and incident references
    -- of the window, and a later call with the
    -- same id and window, whatever Codex and the feedback have become, returns it and changes
    -- nothing, so that Codex is not asked again.
    pub diagnose-IsGrounded :
        (later : DiagnosisWiring fl W) (timeout' : ℕ) (rows' : List UserFeedback)
        (s s' : DiagnosisStore fl W) (d : Diagnosis fl)
        → diagnose wiring window objective id root timeout rows s ≡ (ok d, s')
        → IsGrounded window id s s' d
          × (diagnose later window objective id root timeout' rows' s' ≡ (ok d, s'))
    unfolding diagnose known_diagnosis
    diagnose-IsGrounded later timeout' rows' s s' d h =
        let grounded = diagnosed s s' d h in
        let bound = grounded.bound in
        let stored = grounded.stored in
        let w = string_eq.beq_iff d.evidence_window_id window.id in
        let good : (is_blank id ≡ false)
            × (window.target_id != objective.target_id ≡ false)
            × (is_absolute root ≡ true) =
          (ground arith, ground arith, ground arith) in
        (grounded, ground arith)

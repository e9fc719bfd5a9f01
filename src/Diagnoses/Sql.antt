-- ===== src/Diagnoses/Sql.antt =====
-- `SqlDiagnosisRepository` of adapters/postgres/diagnoses.py. The equality of floats is a parameter:
-- a confidence that a diagnosis holds is no NaN, and its two zeros count as one.
use autonomous_development.Prelude.{String, List, Option, string_eq, list_eq, Eq, refl}
use autonomous_development.Prelude.Raise.{Result}
use autonomous_development.Domain.Canary.Floats.{Floats}
use autonomous_development.Domain.Models.{Diagnosis, diagnosis_post_init}
use autonomous_development.Records as Records
use autonomous_development.Records.Dataclass.{pair_eq, dataclass_eq}

abbrev DiagnosisFields : Floats → Type 0
DiagnosisFields fl =
    String
    × (String
        × (String
            × (String
                × (List String
                    × (fl.Float
                        × (List String
                            × (String
                                × (String
                                    × (String × (List String × (List String × List String)))))))))))

module _ {fl : Floats} where
  abbrev diagnosis_of_fields : DiagnosisFields fl → Diagnosis fl
  diagnosis_of_fields
        (x1, (x2, (x3, (x4, (x5, (x6, (x7, (x8, (x9, (x10, (x11, (x12, x13)))))))))))) =
      record {
        id = x1;
        evidence_window_id = x2;
        observed_problem = x3;
        affected_journey = x4;
        evidence_refs = x5;
        confidence = x6;
        competing_hypotheses = x7;
        likely_root_cause = x8;
        proposed_change_class = x9;
        expected_outcome = x10;
        risks = x11;
        requested_paths = x12;
        required_validation = x13;
      }

  abbrev fields_of_diagnosis : Diagnosis fl → DiagnosisFields fl
  fields_of_diagnosis d = (
    d.id,
    (
      d.evidence_window_id,
      (
        d.observed_problem,
        (
          d.affected_journey,
          (
            d.evidence_refs,
            (
              d.confidence,
              (
                d.competing_hypotheses,
                (
                  d.likely_root_cause,
                  (
                    d.proposed_change_class,
                    (d.expected_outcome, (d.risks, (d.requested_paths, d.required_validation))),
                  ),
                ),
              ),
            ),
          ),
        ),
      ),
    ),
  )

  abbrev pub diagnosis_id_of : Diagnosis fl → String
  diagnosis_id_of d = d.id

  module _ ⦃float_eq : Eq fl.Float⦄ where
    instance abbrev pub diagnosis_eq : Eq (Diagnosis fl)
    diagnosis_eq = dataclass_eq fields_of_diagnosis diagnosis_of_fields (λ d. refl)

    unfoldable pub add_diagnosis :
        Diagnosis fl → List (Diagnosis fl) → Result (Diagnosis fl) × List (Diagnosis fl)
    unfolding Records.add
    add_diagnosis = Records.add diagnosis_id_of (diagnosis_post_init fl)

    unfoldable pub get_diagnosis :
        (diagnosis_id : String) → List (Diagnosis fl) → Result (Option (Diagnosis fl))
    unfolding Records.get
    get_diagnosis = Records.get diagnosis_id_of (diagnosis_post_init fl)

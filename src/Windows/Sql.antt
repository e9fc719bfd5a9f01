-- ===== src/Windows/Sql.antt =====
-- `SqlEvidenceWindowRepository` of adapters/postgres/evidence_windows.py.
use autonomous_development.Prelude.{ℕ, String, List, Option, nat_eq, string_eq, list_eq, Eq, refl}
use autonomous_development.Prelude.Raise.{Result}
use autonomous_development.Domain.Models.{EvidenceWindow, window_post_init}
use autonomous_development.Records as Records
use autonomous_development.Records.Dataclass.{pair_eq, dataclass_eq}

abbrev EvidenceWindowFields : Type 0
EvidenceWindowFields =
    String
    × (String
        × (List String
            × (ℕ
                × (ℕ
                    × (List String
                        × (List String × (List String × (List String × List String))))))))

abbrev window_of_fields : EvidenceWindowFields → EvidenceWindow
window_of_fields (x1, (x2, (x3, (x4, (x5, (x6, (x7, (x8, (x9, x10))))))))) = record {
  id = x1;
  target_id = x2;
  release_ids = x3;
  opened_at = x4;
  closed_at = x5;
  telemetry_refs = x6;
  feedback_refs = x7;
  regression_refs = x8;
  incident_refs = x9;
  missing_evidence = x10;
}

abbrev fields_of_window : EvidenceWindow → EvidenceWindowFields
fields_of_window w = (
  w.id,
  (
    w.target_id,
    (
      w.release_ids,
      (
        w.opened_at,
        (
          w.closed_at,
          (
            w.telemetry_refs,
            (w.feedback_refs, (w.regression_refs, (w.incident_refs, w.missing_evidence))),
          ),
        ),
      ),
    ),
  ),
)

instance abbrev pub window_eq : Eq EvidenceWindow
window_eq = dataclass_eq fields_of_window window_of_fields (λ w. refl)

abbrev pub window_id_of : EvidenceWindow → String
window_id_of w = w.id

unfoldable pub add_window :
    EvidenceWindow → List EvidenceWindow → Result EvidenceWindow × List EvidenceWindow
unfolding Records.add
add_window = Records.add window_id_of window_post_init

unfoldable pub get_window :
    (window_id : String) → List EvidenceWindow → Result (Option EvidenceWindow)
unfolding Records.get
get_window = Records.get window_id_of window_post_init

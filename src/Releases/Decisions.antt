-- ===== src/Releases/Decisions.antt =====
-- `SqlReleaseDecisionRepository` of adapters/postgres/release_decisions.py. The table holds the
-- receipts themselves: its JSON columns are left out. A failed insert is rolled back.
use autonomous_development.Prelude.{
  String, List, [], ◌∷◌, ◌++◌, Option, none, some, Bool, true, ◌&&◌, any, find, is_blank, ◌==◌,
  ◌!=◌, string_eq, list_eq, if◌then◌else◌, Eq, ◌≡◌, ◌↔◌, arith, Option-cases, inl, inr,
}
use autonomous_development.Prelude.Raise.{
  Result, ok, err, raise_if, value_error, integrity_error, operation_conflict, ◌>>◌,
}
use autonomous_development.Domain.Enums.{release_kind_eq}
use autonomous_development.Domain.Models.{ReleaseDecision}

pub record ReleaseDecisionReceipt : Type 0 where
  pub operation_id : String
  pub decision : ReleaseDecision

-- The dataclass equality of decisions, and that of receipts.
abbrev release_decision_beq : ReleaseDecision → ReleaseDecision → Bool
release_decision_beq a b =
    a.kind == b.kind
    && (a.cycle_id == b.cycle_id
        && (a.gate_refs == b.gate_refs
            && (a.evidence_refs == b.evidence_refs && a.reason == b.reason)))

pub release_decision_beq_iff : (a b : ReleaseDecision) → (release_decision_beq a b ≡ true) ↔ (a ≡ b)
release_decision_beq_iff a b =
    let k = release_kind_eq.beq_iff a.kind b.kind in
    let c = string_eq.beq_iff a.cycle_id b.cycle_id in
    let g = (list_eq {A = String}).beq_iff a.gate_refs b.gate_refs in
    let r = (list_eq {A = String}).beq_iff a.evidence_refs b.evidence_refs in
    let s = string_eq.beq_iff a.reason b.reason in ground arith

instance abbrev pub release_decision_eq : Eq ReleaseDecision
release_decision_eq = record { beq = release_decision_beq; beq_iff = release_decision_beq_iff }

abbrev release_receipt_beq : ReleaseDecisionReceipt → ReleaseDecisionReceipt → Bool
release_receipt_beq a b = a.operation_id == b.operation_id && a.decision == b.decision

pub release_receipt_beq_iff :
    (a b : ReleaseDecisionReceipt) → (release_receipt_beq a b ≡ true) ↔ (a ≡ b)
release_receipt_beq_iff a b =
    let o = string_eq.beq_iff a.operation_id b.operation_id in
    let d = release_decision_eq.beq_iff a.decision b.decision in ground arith

instance abbrev pub release_receipt_eq : Eq ReleaseDecisionReceipt
release_receipt_eq = record { beq = release_receipt_beq; beq_iff = release_receipt_beq_iff }

abbrev pub is_receipt : String → ReleaseDecisionReceipt → Bool
is_receipt operation_id r = r.operation_id == operation_id

unfoldable pub get : String → List ReleaseDecisionReceipt → Option ReleaseDecisionReceipt
get operation_id rows = find (is_receipt operation_id) rows

-- `_validate_existing`
unfoldable pub validate_existing :
    (existing requested : ReleaseDecisionReceipt) → Result ReleaseDecisionReceipt
validate_existing existing requested = do
  raise_if (existing != requested) operation_conflict
  ok existing

-- The transaction: the operation id is the primary key.
unfoldable pub insert_receipt :
    ReleaseDecisionReceipt → List ReleaseDecisionReceipt → Result (List ReleaseDecisionReceipt)
insert_receipt r rows = do
  raise_if (any (is_receipt r.operation_id) rows) integrity_error
  ok (rows ++ r ∷ [])

-- The `try` around the transaction, whose `except` reads the same rows again.
unfoldable pub settle :
    ReleaseDecisionReceipt
    → List ReleaseDecisionReceipt
    → Result (List ReleaseDecisionReceipt)
    → Result ReleaseDecisionReceipt × List ReleaseDecisionReceipt
unfolding get validate_existing
settle r rows (ok rows') = (ok r, rows')
settle r rows (err integrity_error) = (
  elim (get r.operation_id rows) [
    | none ↦ err integrity_error
    | some existing ↦ validate_existing existing r
  ],
  rows,
)
settle r rows (err e) = (err e, rows)

unfoldable pub record_receipt :
    ReleaseDecisionReceipt
    → List ReleaseDecisionReceipt
    → Result ReleaseDecisionReceipt × List ReleaseDecisionReceipt
unfolding get validate_existing insert_receipt settle
record_receipt r rows = elim (get r.operation_id rows) [
  | some existing ↦ (validate_existing existing r, rows)
  | none ↦ settle r rows (insert_receipt r rows)
]

unfoldable pub record_release :
    (operation_id : String)
    → ReleaseDecision
    → List ReleaseDecisionReceipt
    → Result ReleaseDecisionReceipt × List ReleaseDecisionReceipt
unfolding record_receipt
record_release operation_id decision rows =
    if is_blank operation_id
    then (err value_error, rows)
    else record_receipt (record { operation_id = operation_id; decision = decision }) rows

validated :
    (existing requested r : ReleaseDecisionReceipt)
    → validate_existing existing requested ≡ ok r
    → r ≡ requested
unfolding validate_existing
validated existing requested r h = ground (arith, release_receipt_eq.beq_iff existing requested)

-- What `settle` returns is what was asked for.
settle-own :
    (r r' : ReleaseDecisionReceipt) (rows rows' : List ReleaseDecisionReceipt)
    (t : Result (List ReleaseDecisionReceipt))
    → settle r rows t ≡ (ok r', rows')
    → r' ≡ r
unfolding settle get validate_existing
settle-own r r' rows rows' (ok new) h = ground arith
settle-own r r' rows rows' (err integrity_error) h =
    elim (Option-cases (find (is_receipt r.operation_id) rows)) [
      | inl gone ↦ absurd (ground arith)
      | inr (old, there) ↦ validated old r r' (ground arith)
    ]
settle-own r r' rows rows' (err _) h = absurd (ground arith)

-- A decision that is recorded is the one that was asked for, whether the operation is new or repeated.
pub record_release-own :
    (operation_id : String) (d : ReleaseDecision) (rows rows' : List ReleaseDecisionReceipt)
    (r : ReleaseDecisionReceipt)
    → record_release operation_id d rows ≡ (ok r, rows')
    → r ≡ record { operation_id = operation_id; decision = d }
unfolding record_release record_receipt get
record_release-own operation_id d rows rows' r h =
    let asked : ReleaseDecisionReceipt = record { operation_id = operation_id; decision = d } in
    elim (Option-cases (find (is_receipt operation_id) rows)) [
      | inr (old, there) ↦ validated old asked r (ground arith)
      | inl fresh ↦ settle-own asked r rows rows' (insert_receipt asked rows) (ground arith)
    ]

-- ===== src/Soak/Decisions.antt =====
-- `SqlSoakDecisionRepository` of adapters/postgres/soak_decisions.py. The table holds the receipts
-- themselves: its JSON columns are left out. A failed insert is rolled back.
use autonomous_development.Prelude.{
  String, List, [], ◌∷◌, ◌++◌, Option, none, some, Bool, true, false, ◌&&◌, any, find,
  find-append_none, is_blank, ◌==◌, ◌!=◌, string_eq, list_eq, if◌then◌else◌, Eq, ◌≡◌, refl, sym,
  subst₂, ◌↔◌, arith, Bool-cases, inl, inr,
}
use autonomous_development.Prelude.Raise.{
  Result, ok, err, raise_if, value_error, integrity_error, operation_conflict, ◌>>◌, ◌>>=◌,
  Result-cases,
}
use autonomous_development.Domain.Enums.{soak_kind_eq}
use autonomous_development.Domain.Canary.Soak.{PostPromotionSoakDecision, soak_decision_post_init}

-- `SoakDecisionReceipt` of ports/persistence.py
pub record SoakDecisionReceipt : Type 0 where
  pub operation_id : String
  pub cycle_id : String
  pub decision : PostPromotionSoakDecision

-- The dataclass equality of decisions, and that of receipts.
abbrev soak_decision_beq : PostPromotionSoakDecision → PostPromotionSoakDecision → Bool
soak_decision_beq a b =
    a.kind == b.kind
    && (a.evidence_refs == b.evidence_refs
        && (a.violated_guardrails == b.violated_guardrails && a.reason == b.reason))

pub soak_decision_beq_iff :
    (a b : PostPromotionSoakDecision) → (soak_decision_beq a b ≡ true) ↔ (a ≡ b)
soak_decision_beq_iff a b =
    let k = soak_kind_eq.beq_iff a.kind b.kind in
    let e = (list_eq {A = String}).beq_iff a.evidence_refs b.evidence_refs in
    let v = (list_eq {A = String}).beq_iff a.violated_guardrails b.violated_guardrails in
    let r = string_eq.beq_iff a.reason b.reason in ground arith

instance abbrev pub soak_decision_eq : Eq PostPromotionSoakDecision
soak_decision_eq = record { beq = soak_decision_beq; beq_iff = soak_decision_beq_iff }

abbrev soak_receipt_beq : SoakDecisionReceipt → SoakDecisionReceipt → Bool
soak_receipt_beq a b =
    a.operation_id == b.operation_id && (a.cycle_id == b.cycle_id && a.decision == b.decision)

pub soak_receipt_beq_iff : (a b : SoakDecisionReceipt) → (soak_receipt_beq a b ≡ true) ↔ (a ≡ b)
soak_receipt_beq_iff a b =
    let o = string_eq.beq_iff a.operation_id b.operation_id in
    let c = string_eq.beq_iff a.cycle_id b.cycle_id in
    let d = soak_decision_eq.beq_iff a.decision b.decision in ground arith

instance abbrev pub soak_receipt_eq : Eq SoakDecisionReceipt
soak_receipt_eq = record { beq = soak_receipt_beq; beq_iff = soak_receipt_beq_iff }

abbrev pub is_soak_receipt : String → SoakDecisionReceipt → Bool
is_soak_receipt operation_id r = r.operation_id == operation_id

-- `_receipt_from_row` of the row, if there is one: the constructor of the decision checks it.
unfoldable pub receipt_from_row : Option SoakDecisionReceipt → Result (Option SoakDecisionReceipt)
receipt_from_row none = ok none
receipt_from_row (some row) = do
  decision ← soak_decision_post_init row.decision
  ok (some (record row { decision = decision }))

unfoldable pub get : String → List SoakDecisionReceipt → Result (Option SoakDecisionReceipt)
unfolding receipt_from_row
get operation_id rows = receipt_from_row (find (is_soak_receipt operation_id) rows)

-- `_validate_existing`
unfoldable pub validate_existing :
    (existing requested : SoakDecisionReceipt) → Result SoakDecisionReceipt
validate_existing existing requested = do
  raise_if (existing != requested) operation_conflict
  ok existing

-- The transaction: the operation id is the primary key.
unfoldable pub insert_receipt :
    SoakDecisionReceipt → List SoakDecisionReceipt → Result (List SoakDecisionReceipt)
insert_receipt r rows = do
  raise_if (any (is_soak_receipt r.operation_id) rows) integrity_error
  ok (rows ++ r ∷ [])

unfoldable pub existing_or_raise :
    SoakDecisionReceipt → Option SoakDecisionReceipt → Result SoakDecisionReceipt
unfolding validate_existing
existing_or_raise r none = err integrity_error
existing_or_raise r (some existing) = validate_existing existing r

-- The `try` around the transaction, whose `except` reads the same rows again.
unfoldable pub settle :
    SoakDecisionReceipt
    → List SoakDecisionReceipt
    → Result (List SoakDecisionReceipt)
    → Result SoakDecisionReceipt × List SoakDecisionReceipt
unfolding get existing_or_raise
settle r rows (ok rows') = (ok r, rows')
settle r rows (err integrity_error) =
    (do existing ← get r.operation_id rows; existing_or_raise r existing, rows)
settle r rows (err e) = (err e, rows)

unfoldable pub record_found :
    SoakDecisionReceipt
    → Result (Option SoakDecisionReceipt)
    → List SoakDecisionReceipt
    → Result SoakDecisionReceipt × List SoakDecisionReceipt
unfolding validate_existing insert_receipt settle
record_found r (err e) rows = (err e, rows)
record_found r (ok (some existing)) rows = (validate_existing existing r, rows)
record_found r (ok none) rows = settle r rows (insert_receipt r rows)

unfoldable pub record_soak :
    (operation_id cycle_id : String)
    → PostPromotionSoakDecision
    → List SoakDecisionReceipt
    → Result SoakDecisionReceipt × List SoakDecisionReceipt
unfolding get record_found
record_soak operation_id cycle_id decision rows =
    if is_blank operation_id
    then (err value_error, rows)
    else if is_blank cycle_id
    then (err value_error, rows)
    else record_found
        (record { operation_id = operation_id; cycle_id = cycle_id; decision = decision })
        (get operation_id rows) rows

from_row-own :
    (o : Option SoakDecisionReceipt) (r : SoakDecisionReceipt)
    → receipt_from_row o ≡ ok (some r)
    → o ≡ some r
unfolding receipt_from_row soak_decision_post_init
from_row-own none r h = absurd (ground arith)
from_row-own (some row) r h = ground arith

from_row-none : (o : Option SoakDecisionReceipt) → receipt_from_row o ≡ ok none → o ≡ none
unfolding receipt_from_row soak_decision_post_init
from_row-none none h = refl
from_row-none (some row) h = elim (Result-cases (soak_decision_post_init row.decision)) [
  | inl (d, made) ↦ absurd (ground arith)
  | inr (e, bad) ↦ absurd (ground arith)
]

none-any :
    (op : String) (rows : List SoakDecisionReceipt)
    → find (is_soak_receipt op) rows ≡ none
    → any (is_soak_receipt op) rows ≡ false
none-any op [] h = refl
none-any op (row ∷ rows) h = ground (arith, none-any op rows)

appended-get :
    (r : SoakDecisionReceipt) (rows : List SoakDecisionReceipt)
    → soak_decision_post_init r.decision ≡ ok r.decision
    → find (is_soak_receipt r.operation_id) rows ≡ none
    → get r.operation_id (rows ++ r ∷ []) ≡ ok (some r)
unfolding get receipt_from_row
appended-get r rows valid gone =
    let f = find-append_none (is_soak_receipt r.operation_id) rows (r ∷ []) gone in
    let s = string_eq.beq_iff r.operation_id r.operation_id in ground arith

-- A well-formed decision that is recorded is the one that was asked for, and is read back.
pub record_soak-get :
    (op cycle_id : String) (d : PostPromotionSoakDecision) (rows rows' : List SoakDecisionReceipt)
    (r : SoakDecisionReceipt)
    → soak_decision_post_init d ≡ ok d
    → record_soak op cycle_id d rows ≡ (ok r, rows')
    → (r ≡ record { operation_id = op; cycle_id = cycle_id; decision = d })
      × (get op rows' ≡ ok (some r))
unfolding record_soak record_found settle insert_receipt validate_existing
record_soak-get op cycle_id d rows rows' r valid h =
    let asked : SoakDecisionReceipt = record {
      operation_id = op;
      cycle_id = cycle_id;
      decision = d;
    } in
    elim (Bool-cases (is_blank op)) [
      | inl blank ↦ absurd (ground arith)
      | inr named ↦ elim (Bool-cases (is_blank cycle_id)) [
        | inl blank ↦ absurd (ground arith)
        | inr identified ↦ elim (Result-cases (get op rows)) [
          | inr (e, bad) ↦ absurd (ground arith)
          | inl (some old, there) ↦
              let s = soak_receipt_beq_iff old asked in
              (
                ground arith,
                subst₂ (λ u x. get op u ≡ ok (some x)) {x = rows} {y = rows'} {u = old} {v = r}
                    (ground arith) (ground arith) there,
              )
          | inl (none, fresh) ↦
              let gone = from_row-none (find (is_soak_receipt op) rows) fresh in
              let free = none-any op rows gone in
              let back = appended-get asked rows valid gone in
              let same : r ≡ asked = ground arith in
              (
                same,
                subst₂ (λ u x. get op u ≡ ok (some x)) {x = rows ++ asked ∷ []} {y = rows'}
                    {u = asked} {v = r} (ground arith) (sym same) back,
              )
        ]
      ]
    ]

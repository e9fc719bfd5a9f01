-- ===== src/Operator/Repeats.antt =====
-- Events that are emitted again: `append_event` of adapters/postgres/operator.py and `_emit` of
-- application/operator.py.
use autonomous_development.Prelude.{
  ℕ, suc, String, [], ◌∷◌, ◌++◌, Option, none, some, find, find-append_none, is_some, nat_eq,
  string_eq, list_eq, ◌≡◌, refl, sym, ap, subst, ◌∙◌, arith, inl, inr, Bool-cases,
}
use autonomous_development.Prelude.Raise.{Result, ok, err, Result-cases}
use autonomous_development.Domain.Models.{PayloadValue, Payload, OperatorEvent, event_post_init}
use autonomous_development.Operator.Events.{
  item_eq, EventRow, EventTable, event_values, event_from_row, is_event, event_from_option,
  event_by_id, insert_event, same_event, settle_event, append_found, append_event,
}
use autonomous_development.Operator.Service.{OperatorDb, emitted, emit}

from_option-none : (o : Option EventRow) → event_from_option o ≡ ok none → o ≡ none
unfolding event_from_option event_from_row event_post_init
from_option-none none h = refl
from_option-none (some row) h = elim (Result-cases (event_from_row row)) [
  | inl (e, read) ↦ absurd (ground arith)
  | inr (x, bad) ↦ absurd (ground arith)
]

from_option-some :
    (o : Option EventRow) (e : OperatorEvent)
    → event_from_option o ≡ ok (some e)
    → (row : EventRow) × (o ≡ some row) × (event_from_row row ≡ ok e)
unfolding event_from_option
from_option-some none e h = absurd (ground arith)
from_option-some (some row) e h = elim (Result-cases (event_from_row row)) [
  | inl (x, read) ↦ (row, refl, ground arith)
  | inr (x, bad) ↦ absurd (ground arith)
]

from_row-content :
    (row : EventRow) (e : OperatorEvent)
    → event_from_row row ≡ ok e
    → (e.payload ≡ row.payload) × (e.event_type ≡ row.event_type)
unfolding event_from_row event_post_init
from_row-content row e h = (ground arith, ground arith)

-- The event is stored under its id with this content.
pub IsStored : OperatorEvent → OperatorEvent → EventTable → Type 0
IsStored e x t =
    (event_by_id e.id t ≡ ok (some x)) × (x.payload ≡ e.payload) × (x.event_type ≡ e.event_type)

inserted-content :
    (e x : OperatorEvent) (t t' : EventTable)
    → event_by_id e.id t ≡ ok none
    → insert_event e t ≡ ok t'
    → event_by_id e.id t' ≡ ok (some x)
    → (x.payload ≡ e.payload) × (x.event_type ≡ e.event_type)
unfolding event_by_id insert_event event_values
inserted-content e x t t' fresh made back =
    let gone = from_option-none (find (is_event e.id) t.rows) fresh in
    let row = event_values e (suc t.last_sequence) in
    let f = find-append_none (is_event e.id) t.rows (row ∷ []) gone in
    let s = string_eq.beq_iff e.id e.id in
    let rows : t'.rows ≡ t.rows ++ row ∷ [] = ground arith in
    let here : find (is_event e.id) t'.rows ≡ some row =
      ap (find (is_event e.id)) rows ∙ f ∙ ground arith in
    let (r, found, read) = from_option-some (find (is_event e.id) t'.rows) x back in
    let (p, y) = from_row-content r x read in
    let same : r ≡ row = ground arith in (ground arith, ground arith)

settle_event-IsStored :
    (e x : OperatorEvent) (t u : EventTable) (written : Result EventTable)
    → event_by_id e.id t ≡ ok none
    → insert_event e t ≡ written
    → settle_event e t written ≡ (ok x, u)
    → IsStored e x u
unfolding settle_event IsStored
settle_event-IsStored e x t u (err y) fresh made h = absurd (ground arith)
settle_event-IsStored e x t u (ok t') fresh made h = elim (Result-cases (event_by_id e.id t')) [
  | inr (y, bad) ↦ absurd (ground arith)
  | inl (none, gone) ↦ absurd (ground arith)
  | inl (some z, there) ↦
      let same : z ≡ x = ground arith in
      let last : t' ≡ u = ground arith in
      let back : event_by_id e.id t' ≡ ok (some x) = ground arith in
      let (p, y) = inserted-content e x t t' fresh made back in
      (subst (λ v. event_by_id e.id v ≡ ok (some x)) last back, p, y)
]

append_event-IsStored :
    (e x : OperatorEvent) (t t' : EventTable) → append_event e t ≡ (ok x, t') → IsStored e x t'
unfolding append_event append_found same_event IsStored
append_event-IsStored e x t t' h = elim (Result-cases (event_by_id e.id t)) [
  | inr (y, bad) ↦ absurd (ground arith)
  | inl (some old, there) ↦
      let p = (list_eq {A = String × PayloadValue}).beq_iff old.payload e.payload in
      let y = string_eq.beq_iff old.event_type e.event_type in
      let same : old ≡ x = ground arith in
      let last : t ≡ t' = ground arith in
      (
        subst (λ v. event_by_id e.id v ≡ ok (some x)) last (ground arith),
        ground arith,
        ground arith,
      )
  | inl (none, fresh) ↦ elim (Bool-cases (is_some e.sequence)) [
    | inl numbered ↦ absurd (ground arith)
    | inr plain ↦ settle_event-IsStored e x t t' (insert_event e t) fresh refl (ground arith)
  ]
]

-- An event that was appended is appended once: another one of its id and content, whatever its
-- time, returns the stored event and changes nothing.
pub append_event_repeat :
    (e e' x : OperatorEvent) (t t' : EventTable)
    → append_event e t ≡ (ok x, t')
    → e'.id ≡ e.id
    → e'.payload ≡ e.payload
    → e'.event_type ≡ e.event_type
    → append_event e' t' ≡ (ok x, t')
unfolding append_event append_found same_event IsStored
append_event_repeat e e' x t t' h id payload kind =
    let (there, p, y) = append_event-IsStored e x t t' h in
    let there' : event_by_id e'.id t' ≡ ok (some x) =
      subst (λ i. event_by_id i t' ≡ ok (some x)) (sym id) there in
    let q = (list_eq {A = String × PayloadValue}).beq_iff x.payload e'.payload in
    let z = string_eq.beq_iff x.event_type e'.event_type in ground arith

post_init-again :
    (e e' f : OperatorEvent)
    → event_post_init e ≡ ok f
    → e'.id ≡ e.id
    → e'.event_type ≡ e.event_type
    → (f ≡ e) × (event_post_init e' ≡ ok e')
unfolding event_post_init
post_init-again e e' f h id kind = (ground arith, ground arith)

emitted-again :
    (request_id cycle_id : Option String) (event_type : String) (payload : Payload) (now later : ℕ)
    → ((emitted request_id cycle_id event_type payload later).id
        ≡ (emitted request_id cycle_id event_type payload now).id)
      × ((emitted request_id cycle_id event_type payload later).payload
          ≡ (emitted request_id cycle_id event_type payload now).payload)
      × ((emitted request_id cycle_id event_type payload later).event_type
          ≡ (emitted request_id cycle_id event_type payload now).event_type)
unfolding emitted
emitted-again request_id cycle_id event_type payload now later = (refl, refl, refl)

pub emit_repeat :
    (request_id cycle_id : Option String) (event_type : String) (payload : Payload) (now later : ℕ)
    (s s' : OperatorDb) (e : OperatorEvent)
    → emit request_id cycle_id event_type payload now s ≡ (ok e, s')
    → emit request_id cycle_id event_type payload later s' ≡ (ok e, s')
unfolding emit
emit_repeat request_id cycle_id event_type payload now later s s' e h =
    let first = emitted request_id cycle_id event_type payload now in
    let second = emitted request_id cycle_id event_type payload later in
    let (id, content, kind) = emitted-again request_id cycle_id event_type payload now later in
    elim (Result-cases (event_post_init first)) [
      | inr (y, bad) ↦ absurd (ground arith)
      | inl (f, made) ↦
          let (own, again) = post_init-again first second f made id kind in
          let done : append_event f s.events ≡ (ok e, s'.events) = ground arith in
          let once =
            append_event_repeat f second e s.events s'.events done
              (id ∙ sym (ap (λ (z : OperatorEvent). z.id) own))
              (content ∙ sym (ap (λ (z : OperatorEvent). z.payload) own))
              (kind ∙ sym (ap (λ (z : OperatorEvent). z.event_type) own)) in
          ground arith
    ]

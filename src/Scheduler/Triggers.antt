-- ===== src/Scheduler/Triggers.antt =====
-- `SqlFeedbackTriggerRepository` of adapters/postgres/feedback_triggers.py, and the selection of a
-- feedback by application/iteration_scheduler.py. The id of the feedback is the primary key, and the
-- id of the cycle is unique.
use autonomous_development.Prelude.{
  ℕ, ◌≤◌, String, List, [], ◌∷◌, ◌++◌, Option, none, some, Bool, true, ◌&&◌, ◌||◌, any, elem, find,
  is_some, ltb, find-append_none, ◌==◌, ◌!=◌, string_eq, option_eq, if◌then◌else◌, Eq, ◌≡◌, ◌↔◌,
  arith, subst, inl, inr, Bool-cases, Option-cases,
}
use autonomous_development.Prelude.Raise.{
  Result, ok, err, raise_if, operation_conflict, integrity_error, ◌>>◌,
}
use autonomous_development.Domain.Models.{UserFeedback}
use autonomous_development.Feedback.Sql.{feedback_eq}
use autonomous_development.Feedback.Listed.{elem-here, elem-there}

pub record FeedbackTriggerReceipt : Type 0 where
  pub feedback_id : String
  pub target_id : String
  pub release_id : String
  pub evidence_window_id : String
  pub cycle_id : String
  pub proposal_id : Option String
  pub outcome : String

abbrev trigger_beq : FeedbackTriggerReceipt → FeedbackTriggerReceipt → Bool
trigger_beq a b =
    a.feedback_id == b.feedback_id
    && (a.target_id == b.target_id
        && (a.release_id == b.release_id
            && (a.evidence_window_id == b.evidence_window_id
                && (a.cycle_id == b.cycle_id
                    && (a.proposal_id == b.proposal_id && a.outcome == b.outcome)))))

pub trigger_beq_iff : (a b : FeedbackTriggerReceipt) → (trigger_beq a b ≡ true) ↔ (a ≡ b)
trigger_beq_iff a b =
    let f = string_eq.beq_iff a.feedback_id b.feedback_id in
    let t = string_eq.beq_iff a.target_id b.target_id in
    let r = string_eq.beq_iff a.release_id b.release_id in
    let w = string_eq.beq_iff a.evidence_window_id b.evidence_window_id in
    let c = string_eq.beq_iff a.cycle_id b.cycle_id in
    let p = (option_eq {A = String}).beq_iff a.proposal_id b.proposal_id in
    let o = string_eq.beq_iff a.outcome b.outcome in ground arith

instance abbrev pub trigger_eq : Eq FeedbackTriggerReceipt
trigger_eq = record { beq = trigger_beq; beq_iff = trigger_beq_iff }

abbrev pub is_of : (feedback_id : String) → FeedbackTriggerReceipt → Bool
is_of feedback_id t = t.feedback_id == feedback_id

unfoldable pub get_trigger :
    (feedback_id : String) → List FeedbackTriggerReceipt → Option FeedbackTriggerReceipt
get_trigger feedback_id rows = find (is_of feedback_id) rows

-- `_validate_existing`
unfoldable pub validate_existing :
    (existing requested : FeedbackTriggerReceipt) → Result FeedbackTriggerReceipt
validate_existing existing requested = do
  raise_if (existing != requested) operation_conflict
  ok existing

abbrev pub is_of_cycle : (cycle_id : String) → FeedbackTriggerReceipt → Bool
is_of_cycle cycle_id t = t.cycle_id == cycle_id

unfoldable pub insert_trigger :
    FeedbackTriggerReceipt → List FeedbackTriggerReceipt → Result (List FeedbackTriggerReceipt)
insert_trigger t rows = do
  raise_if (any (is_of t.feedback_id) rows || any (is_of_cycle t.cycle_id) rows) integrity_error
  ok (rows ++ t ∷ [])

unfoldable pub existing_or_raise :
    FeedbackTriggerReceipt → Option FeedbackTriggerReceipt → Result FeedbackTriggerReceipt
unfolding validate_existing
existing_or_raise t none = err integrity_error
existing_or_raise t (some existing) = validate_existing existing t

unfoldable pub settle_trigger :
    FeedbackTriggerReceipt
    → List FeedbackTriggerReceipt
    → Result (List FeedbackTriggerReceipt)
    → Result FeedbackTriggerReceipt × List FeedbackTriggerReceipt
unfolding existing_or_raise get_trigger
settle_trigger t rows (ok rows') = (ok t, rows')
settle_trigger t rows (err integrity_error) =
    (existing_or_raise t (get_trigger t.feedback_id rows), rows)
settle_trigger t rows (err raised) = (err raised, rows)

unfoldable pub record_found :
    FeedbackTriggerReceipt
    → Option FeedbackTriggerReceipt
    → List FeedbackTriggerReceipt
    → Result FeedbackTriggerReceipt × List FeedbackTriggerReceipt
unfolding validate_existing insert_trigger settle_trigger
record_found t (some existing) rows = (validate_existing existing t, rows)
record_found t none rows = settle_trigger t rows (insert_trigger t rows)

unfoldable pub record_trigger :
    FeedbackTriggerReceipt
    → List FeedbackTriggerReceipt
    → Result FeedbackTriggerReceipt × List FeedbackTriggerReceipt
unfolding get_trigger record_found
record_trigger t rows = record_found t (get_trigger t.feedback_id rows) rows

-- `_select_feedback`
unfoldable pub select_feedback :
    (minimum_severity : ℕ)
    → List FeedbackTriggerReceipt
    → (candidates : List UserFeedback) → Option UserFeedback
unfolding get_trigger
select_feedback minimum_severity triggers [] = none
select_feedback minimum_severity triggers (feedback ∷ candidates) =
    let rest = select_feedback minimum_severity triggers candidates in
    if ltb feedback.severity minimum_severity
    then rest
    else if is_some (get_trigger feedback.id triggers)
    then rest
    else some feedback

-- A receipt that is recorded for a feedback without one is found afterwards.
pub record_trigger-get :
    (t u : FeedbackTriggerReceipt) (rows rows' : List FeedbackTriggerReceipt)
    → get_trigger t.feedback_id rows ≡ none
    → record_trigger t rows ≡ (ok u, rows')
    → (u ≡ t) × (get_trigger t.feedback_id rows' ≡ some t)
unfolding get_trigger record_trigger record_found insert_trigger settle_trigger existing_or_raise
record_trigger-get t u rows rows' fresh h =
    let f = find-append_none (is_of t.feedback_id) rows (t ∷ []) fresh in
    let s = string_eq.beq_iff t.feedback_id t.feedback_id in (ground arith, ground arith)

-- A feedback that is selected is a candidate, is severe enough and has not triggered an iteration.
pub select_feedback_lem :
    (minimum_severity : ℕ) (triggers : List FeedbackTriggerReceipt) (candidates : List UserFeedback)
    (f : UserFeedback)
    → select_feedback minimum_severity triggers candidates ≡ some f
    → (elem f candidates ≡ true)
      × (minimum_severity ≤ f.severity)
      × (get_trigger f.id triggers ≡ none)
unfolding select_feedback
select_feedback_lem m triggers [] f h = absurd (ground arith)
select_feedback_lem m triggers (g ∷ candidates) f h = elim (Bool-cases (ltb g.severity m)) [
  | inl mild ↦
      let (there, severe, fresh) = select_feedback_lem m triggers candidates f (ground arith) in
      (elem-there f g candidates there, severe, fresh)
  | inr severe ↦ elim (Option-cases (get_trigger g.id triggers)) [
    | inr (t, known) ↦
        let (there, severe', fresh) = select_feedback_lem m triggers candidates f (ground arith) in
        (elem-there f g candidates there, severe', fresh)
    | inl fresh ↦
        let same : g ≡ f = ground arith in
        let enough : m ≤ g.severity = ground arith in
        (
          elem-here f g candidates same,
          subst (λ (z : UserFeedback). m ≤ z.severity) same enough,
          subst (λ (z : UserFeedback). get_trigger z.id triggers ≡ none) same fresh,
        )
  ]
]

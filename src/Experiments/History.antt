-- ===== src/Experiments/History.antt =====
-- The history that `promotion_history` of application/experiments.py gathers.
use autonomous_development.Prelude.{
  ℕ, ◌+◌, ◌-◌, ◌≡◌, refl, ◌∙◌, String, List, [], ◌∷◌, ◌++◌, false, All, length, is_empty, nat_eq,
  string_eq, arith, Bool-cases, inl, inr, keep, ◌⊎◌, ◌≢◌, ltb, length-append,
}
use autonomous_development.Prelude.Raise.{ok, Result-cases}
use autonomous_development.Domain.Enums.{CanaryDecisionKind, canary_kind_eq}
use autonomous_development.Domain.Models.{CanaryStage, Experiment}
use autonomous_development.Domain.Canary.Evidence.{CanaryStageDecision, stage_decision_post_init}
use autonomous_development.Domain.Canary.Evaluate.{promotion_evidence_refs}
use autonomous_development.Domain.Canary.History.{IsHistory, all_refs, promotion_evidence_refs_iff}
use autonomous_development.Experiments.Receipts.{ExperimentStageReceipt, decision_from_receipt}
use autonomous_development.Experiments.Sql.{
  ExperimentDb, of_experiment, get_experiment, list_stage_decisions,
}
use autonomous_development.Experiments.Record.{get-own_id}
use autonomous_development.Experiments.Service.{get, history_from, promotion_history}

-- A prefix of a history: every decision advances.
abbrev IsPartial : String → ℕ → List CanaryStageDecision → Type 0
IsPartial id i [] = Unit
IsPartial id i (d ∷ ds) =
    (d.experiment_id ≡ id)
    × (d.stage_index ≡ i)
    × (d.kind ≡ CanaryDecisionKind.advance)
    × (is_empty d.evidence_refs ≡ false)
    × IsPartial id (i + 1) ds

from_receipt_facts :
    (r : ExperimentStageReceipt) (d : CanaryStageDecision)
    → decision_from_receipt r ≡ ok d
    → (d.experiment_id ≡ r.experiment_id)
      × (d.stage_index ≡ r.stage_index)
      × (is_empty d.evidence_refs ≡ false)
unfolding decision_from_receipt stage_decision_post_init
from_receipt_facts r d h = ground arith

IsPartial-append :
    (id : String) (i : ℕ) (ds : List CanaryStageDecision) (d : CanaryStageDecision)
    → IsPartial id i ds
    → d.experiment_id ≡ id
    → d.stage_index ≡ i + length ds
    → d.kind ≡ CanaryDecisionKind.advance
    → is_empty d.evidence_refs ≡ false
    → IsPartial id i (ds ++ d ∷ [])
IsPartial-append id i [] d p a b k c = (a, omega arith, k, c, tt)
IsPartial-append id i (e ∷ ds) d p a b k c =
    (p.0, p.1, p.2, p.3, IsPartial-append id (i + 1) ds d p.4 a (omega arith) k c)

-- The last decision makes it a history that cites evidence.
IsHistory-append :
    (id : String) (i : ℕ) (ds : List CanaryStageDecision) (d : CanaryStageDecision)
    → IsPartial id i ds
    → d.experiment_id ≡ id
    → d.stage_index ≡ i + length ds
    → d.kind ≡ CanaryDecisionKind.promotion_ready
    → is_empty d.evidence_refs ≡ false
    → IsHistory id i (ds ++ d ∷ []) × (is_empty (all_refs (ds ++ d ∷ [])) ≡ false)
IsHistory-append id i [] d p a b k c = ((a, omega arith, k), ground arith)
IsHistory-append id i (e ∷ []) d p a b k c = ((p.0, p.1, p.2, (a, omega arith, k)), ground arith)
IsHistory-append id i (e ∷ f ∷ ds) d p a b k c =
    let (later, cites) = IsHistory-append id (i + 1) (f ∷ ds) d p.4 a (omega arith) k c in
    ((p.0, p.1, p.2, later), ground arith)

-- What `history_from` has gathered when it returns.
abbrev IsComplete : String → (final : ℕ) → List CanaryStageDecision → Type 0
IsComplete id final ds =
    IsHistory id 0 ds × (length ds ≡ final + 1) × (is_empty (all_refs ds) ≡ false)

kind_cases :
    (k : CanaryDecisionKind)
    → (k ≡ CanaryDecisionKind.hold)
      ⊎ ((k ≡ CanaryDecisionKind.rollback)
          ⊎ ((k ≡ CanaryDecisionKind.advance) ⊎ (k ≡ CanaryDecisionKind.promotion_ready)))
kind_cases CanaryDecisionKind.hold = inl refl
kind_cases CanaryDecisionKind.rollback = inr (inl refl)
kind_cases CanaryDecisionKind.advance = inr (inr (inl refl))
kind_cases CanaryDecisionKind.promotion_ready = inr (inr (inr refl))

-- One round of the loop: it passes over the receipt, or takes its decision.
round_cases :
    (final expected : ℕ) (history : List CanaryStageDecision) (r : ExperimentStageReceipt)
    (rs : List ExperimentStageReceipt) (ds : List CanaryStageDecision)
    → history_from final expected history (r ∷ rs) ≡ ok ds
    → (history_from final expected history rs ≡ ok ds)
      ⊎ ((d : CanaryStageDecision) × (decision_from_receipt r ≡ ok d)
          × (r.stage_index ≡ expected)
          × (((expected ≡ final)
                × (d.kind ≡ CanaryDecisionKind.promotion_ready)
                × (ds ≡ history ++ d ∷ []))
              ⊎ ((expected ≢ final)
                  × (d.kind ≡ CanaryDecisionKind.advance)
                  × (history_from final (expected + 1) (history ++ d ∷ []) rs ≡ ok ds))))
unfolding history_from
round_cases final expected history r rs ds h = elim (Bool-cases (ltb r.stage_index expected)) [
  | inl late ↦ inl (ground arith)
  | inr early ↦ elim (Bool-cases (ltb expected r.stage_index)) [
    | inl skipped ↦ absurd (ground arith)
    | inr now ↦ elim (Result-cases (decision_from_receipt r)) [
      | inr (e, bad) ↦ absurd (ground arith)
      | inl (d, made) ↦ elim (kind_cases d.kind) [
        | inl held ↦ inl (ground arith)
        | inr (inl rolled) ↦ absurd (ground arith)
        | inr (inr (inl moved)) ↦ inr (d, made, ground arith, ground arith)
        | inr (inr (inr ready)) ↦ inr (d, made, ground arith, ground arith)
      ]
    ]
  ]
]

history_from_sound :
    (id : String) (final expected : ℕ) (history : List CanaryStageDecision)
    (rs : List ExperimentStageReceipt) (ds : List CanaryStageDecision)
    → All (λ r. r.experiment_id ≡ id) rs
    → IsPartial id 0 history
    → length history ≡ expected
    → history_from final expected history rs ≡ ok ds
    → IsHistory id 0 ds × (length ds ≡ final + 1) × (is_empty (all_refs ds) ≡ false)
unfolding history_from
history_from_sound id final expected history [] ds a p n h = absurd (ground arith)
history_from_sound id final expected history (r ∷ rs) ds a p n h =
    elim (round_cases final expected history r rs ds h) [
      | inl later ↦ history_from_sound id final expected history rs ds a.1 p n later
      | inr (d, made, here, now) ↦
          let (same, at_stage, cites) = from_receipt_facts r d made in
          elim now [
            | inl (last, ready, whole) ↦
                let (ordered, cited) =
                  IsHistory-append id 0 history d p (same ∙ a.0) (omega arith) ready cites in
                rw whole (ordered, length-append history (d ∷ []) ∙ omega arith, cited)
            | inr (inner, moved, later) ↦
                history_from_sound id final (expected + 1) (history ++ d ∷ []) rs ds a.1
                  (IsPartial-append id 0 history d p (same ∙ a.0) (omega arith) moved cites)
                  (length-append history (d ∷ []) ∙ omega arith) later
          ]
    ]

of_experiment-All :
    (id : String) (rs : List ExperimentStageReceipt)
    → All (λ r. r.experiment_id ≡ id) (keep (of_experiment id) rs)
of_experiment-All id [] = tt
of_experiment-All id (r ∷ rs) = elim (Bool-cases (of_experiment id r)) [
  | inl own ↦ rw own ((string_eq.beq_iff r.experiment_id id).0 own, of_experiment-All id rs)
  | inr other ↦ rw other (of_experiment-All id rs)
]

get_facts : (id : String) (db : ExperimentDb) (x : Experiment) → get id db ≡ ok x → x.id ≡ id
unfolding get get_experiment
get_facts id db x h = get-own_id id db.experiments x (ground arith)

staged_length : (xs : List CanaryStage) → is_empty xs ≡ false → length xs - 1 + 1 ≡ length xs
staged_length [] h = absurd (ground arith)
staged_length (x ∷ xs) h = omega arith

-- The decisions that `promotion_history` reads back from the receipts of a stored experiment with
-- at least one stage are accepted by `promotion_evidence_refs` for that experiment, which gathers
-- all that they cite.
pub promotion_history_evidence :
    (id : String) (db : ExperimentDb) (x : Experiment) (ds : List CanaryStageDecision)
    → get id db ≡ ok x
    → is_empty x.stages ≡ false
    → promotion_history id db ≡ ok ds
    → promotion_evidence_refs x ds ≡ ok (all_refs ds)
unfolding promotion_history list_stage_decisions
promotion_history_evidence id db x ds stored staged h =
    let stages = length x.stages - 1 in
    let h' : history_from stages 0 [] (keep (of_experiment id) db.operations) ≡ ok ds =
      ground arith in
    let (ordered, counted, cited) =
      history_from_sound id stages 0 [] (keep (of_experiment id) db.operations) ds
        (of_experiment-All id db.operations) tt refl h' in
    (promotion_evidence_refs_iff x ds (all_refs ds)).1
      (counted ∙ staged_length x.stages staged, rw (get_facts id db x stored) ordered, refl, cited)

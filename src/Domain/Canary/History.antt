-- ===== src/Domain/Canary/History.antt =====
-- The decisions of a canary from its first stage to its last, and what `promotion_evidence_refs`
-- accepts.
use autonomous_development.Prelude.{
  ℕ, ◌+◌, ◌≡◌, refl, ◌↔◌, String, List, [], ◌∷◌, ◌++◌, false, length, is_empty, ◌!=◌, ◌||◌, arith,
  nat_eq, string_eq, ◌∙◌, ap,
}
use autonomous_development.Prelude.Raise.{
  Result, ok, err, raise_if, value_error, ◌>>◌, ◌>>=◌, >>=-eq-ok,
}
use autonomous_development.Domain.Enums.{CanaryDecisionKind, canary_kind_eq}
use autonomous_development.Domain.Models.{Experiment}
use autonomous_development.Domain.Canary.Evidence.{CanaryStageDecision}
use autonomous_development.Domain.Canary.Evaluate.{history_refs, promotion_evidence_refs}

-- Decision `i` of the experiment: it advances, or it is the last and finishes.
abbrev pub IsHistory : String → ℕ → List CanaryStageDecision → Type 0
IsHistory id i [] = Unit
IsHistory id i (d ∷ []) =
    (d.experiment_id ≡ id) × (d.stage_index ≡ i) × (d.kind ≡ CanaryDecisionKind.promotion_ready)
IsHistory id i (d ∷ e ∷ ds) =
    (d.experiment_id ≡ id)
    × (d.stage_index ≡ i)
    × (d.kind ≡ CanaryDecisionKind.advance)
    × IsHistory id (i + 1) (e ∷ ds)

abbrev pub all_refs : List CanaryStageDecision → List String
all_refs [] = []
all_refs (d ∷ ds) = d.evidence_refs ++ all_refs ds

-- One round of the loop, on whatever the later rounds give.
round_iff :
    (id : String) (i : ℕ) (k : CanaryDecisionKind) (d : CanaryStageDecision)
    (rest : Result (List String)) (refs : List String)
    → (do
      raise_if (d.experiment_id != id || d.stage_index != i) value_error
      raise_if (d.kind != k) value_error
      rs ← rest
      ok (d.evidence_refs ++ rs))
      ≡ ok refs
    → (d.experiment_id ≡ id)
      × (d.stage_index ≡ i)
      × (d.kind ≡ k)
      × ((rs : List String) × (rest ≡ ok rs) × (refs ≡ d.evidence_refs ++ rs))
round_iff id i k d (ok rs) refs h =
    let a = string_eq.beq_iff d.experiment_id id in
    let b = canary_kind_eq.beq_iff d.kind k in
    (ground arith, ground arith, ground arith, (rs, refl, ground arith))
round_iff id i k d (err x) refs h = absurd (ground arith)

round_intro :
    (id : String) (i : ℕ) (k : CanaryDecisionKind) (d : CanaryStageDecision)
    (rest : Result (List String)) (rs : List String)
    → d.experiment_id ≡ id
    → d.stage_index ≡ i
    → d.kind ≡ k
    → rest ≡ ok rs
    → (do
      raise_if (d.experiment_id != id || d.stage_index != i) value_error
      raise_if (d.kind != k) value_error
      rs ← rest
      ok (d.evidence_refs ++ rs))
      ≡ ok (d.evidence_refs ++ rs)
round_intro id i k d rest rs a b c e =
    ground (arith, string_eq.beq_iff d.experiment_id id, canary_kind_eq.beq_iff d.kind k)

IsHistory-sound :
    (id : String) (i : ℕ) (ds : List CanaryStageDecision) (refs : List String)
    → history_refs id i ds ≡ ok refs
    → IsHistory id i ds × (refs ≡ all_refs ds)
unfolding history_refs
IsHistory-sound id i [] refs h = ground arith
IsHistory-sound id i (d ∷ []) refs h =
    let (a, b, c, (rs, e, f)) =
      round_iff id i CanaryDecisionKind.promotion_ready d (ok []) refs h in
    ground arith
IsHistory-sound id i (d ∷ e ∷ ds) refs h =
    let (a, b, c, (rs, q, f)) =
      round_iff id i CanaryDecisionKind.advance d (history_refs id (i + 1) (e ∷ ds)) refs h in
    let (later, gathered) = IsHistory-sound id (i + 1) (e ∷ ds) rs q in
    ((a, b, c, later), f ∙ ap (λ r. d.evidence_refs ++ r) gathered)

pub history_complete :
    (id : String) (i : ℕ) (ds : List CanaryStageDecision)
    → IsHistory id i ds
    → history_refs id i ds ≡ ok (all_refs ds)
unfolding history_refs
history_complete id i [] h = refl
history_complete id i (d ∷ []) h = ground (arith, string_eq.beq_iff d.experiment_id id)
history_complete id i (d ∷ e ∷ ds) h =
    let (a, b, c, later) = h in
    round_intro id i CanaryDecisionKind.advance d (history_refs id (i + 1) (e ∷ ds))
      (all_refs (e ∷ ds)) a b c (history_complete id (i + 1) (e ∷ ds) later)

-- A promotion has evidence exactly when there is one decision for each configured stage, in order
-- and of this experiment, all advancing but the last, which is promotion-ready, and some decision
-- cites evidence; the result is what they cite, in order.
pub promotion_evidence_refs_iff :
    (x : Experiment) (ds : List CanaryStageDecision) (refs : List String)
    → (promotion_evidence_refs x ds ≡ ok refs) ↔ (
        (length ds ≡ length x.stages)
        × IsHistory x.id 0 ds
        × (refs ≡ all_refs ds)
        × (is_empty refs ≡ false))
unfolding promotion_evidence_refs
promotion_evidence_refs_iff x ds refs = (
  λ h.
      let (counted, n, h') = >>=-eq-ok (raise_if (length ds != length x.stages) value_error) _ h in
      let (rs, e, kept) = >>=-eq-ok (history_refs x.id 0 ds) _ h' in
      let (ordered, gathered) = IsHistory-sound x.id 0 ds rs e in
      (ground arith, ordered, ground arith, ground arith),
  λ h.
      let (n, ordered, gathered, some_ref) = h in
      let e = history_complete x.id 0 ds ordered in ground arith,
)

-- ===== src/Feedback/Sql.antt =====
-- `SqlFeedbackRepository` and `SqlRequestAttributionRepository` of adapters/postgres/feedback.py and
-- request_attributions.py.
use autonomous_development.Prelude.{
  ℕ, String, List, [], ◌∷◌, Option, some, Bool, true, ◌&&◌, ◌||◌, keep, sorted, ltb, leb, text_le,
  ◌==◌, nat_eq, string_eq, option_eq, Eq, ◌≡◌, ◌↔◌, refl, ap, ◌∙◌, subst, arith,
}
use autonomous_development.Prelude.Raise.{Result, ok, ◌>>=◌}
use autonomous_development.Domain.Enums.{feedback_kind_eq}
use autonomous_development.Domain.Models.{
  UserFeedback, feedback_post_init, RequestAttribution, attribution_post_init,
}
use autonomous_development.Records as Records

and_true : (x y : Bool) → (x && y) ≡ true → (x ≡ true) × (y ≡ true)
and_true x y h = (ground arith, ground arith)

-- The dataclass equality of feedback, in two parts.
abbrev same_report : UserFeedback → UserFeedback → Bool
same_report a b =
    a.id == b.id
    && (a.target_id == b.target_id
        && (a.received_at == b.received_at
            && (a.kind == b.kind && (a.category == b.category && a.severity == b.severity))))

abbrev same_source : UserFeedback → UserFeedback → Bool
same_source a b =
    a.provenance == b.provenance
    && (a.release_id == b.release_id
        && (a.deployment_id == b.deployment_id
            && (a.experiment_id == b.experiment_id
                && (a.request_ref == b.request_ref && a.free_text == b.free_text))))

abbrev feedback_beq : UserFeedback → UserFeedback → Bool
feedback_beq a b = same_report a b && same_source a b

same_report-fields :
    (a b : UserFeedback)
    → (same_report a b ≡ true) ↔ (
        (a.id ≡ b.id)
        × (a.target_id ≡ b.target_id)
        × (a.received_at ≡ b.received_at)
        × (a.kind ≡ b.kind)
        × (a.category ≡ b.category)
        × (a.severity ≡ b.severity))
same_report-fields a b =
    let i = string_eq.beq_iff a.id b.id in
    let t = string_eq.beq_iff a.target_id b.target_id in
    let r = nat_eq.beq_iff a.received_at b.received_at in
    let k = feedback_kind_eq.beq_iff a.kind b.kind in
    let c = string_eq.beq_iff a.category b.category in
    let s = nat_eq.beq_iff a.severity b.severity in ground arith

same_source-fields :
    (a b : UserFeedback)
    → (same_source a b ≡ true) ↔ (
        (a.provenance ≡ b.provenance)
        × (a.release_id ≡ b.release_id)
        × (a.deployment_id ≡ b.deployment_id)
        × (a.experiment_id ≡ b.experiment_id)
        × (a.request_ref ≡ b.request_ref)
        × (a.free_text ≡ b.free_text))
same_source-fields a b =
    let p = string_eq.beq_iff a.provenance b.provenance in
    let l = (option_eq {A = String}).beq_iff a.release_id b.release_id in
    let d = (option_eq {A = String}).beq_iff a.deployment_id b.deployment_id in
    let x = (option_eq {A = String}).beq_iff a.experiment_id b.experiment_id in
    let q = (option_eq {A = String}).beq_iff a.request_ref b.request_ref in
    let f = (option_eq {A = String}).beq_iff a.free_text b.free_text in ground arith

feedback_beq-eq : (a b : UserFeedback) → feedback_beq a b ≡ true → a ≡ b
feedback_beq-eq a b h =
    let both : (same_report a b ≡ true) × (same_source a b ≡ true) =
      and_true (same_report a b) (same_source a b) h in
    let (i, t, r, k, c, s) = (same_report-fields a b).0 both.0 in
    let (p, l, d, x, q, f) = (same_source-fields a b).0 both.1 in
    λ j. record {
      id = i j;
      target_id = t j;
      received_at = r j;
      kind = k j;
      category = c j;
      severity = s j;
      provenance = p j;
      release_id = l j;
      deployment_id = d j;
      experiment_id = x j;
      request_ref = q j;
      free_text = f j;
    }

feedback_beq_refl : (a : UserFeedback) → feedback_beq a a ≡ true
feedback_beq_refl a =
    let r = (same_report-fields a a).1 (refl, refl, refl, refl, refl, refl) in
    let s = (same_source-fields a a).1 (refl, refl, refl, refl, refl, refl) in
    ap (λ x. x && same_source a a) r ∙ s

pub feedback_beq_iff : (a b : UserFeedback) → (feedback_beq a b ≡ true) ↔ (a ≡ b)
feedback_beq_iff a b =
    (feedback_beq-eq a b, λ p. subst (λ x. feedback_beq a x ≡ true) p (feedback_beq_refl a))

instance abbrev pub feedback_eq : Eq UserFeedback
feedback_eq = record { beq = feedback_beq; beq_iff = feedback_beq_iff }

abbrev attribution_beq : RequestAttribution → RequestAttribution → Bool
attribution_beq a b =
    a.request_ref == b.request_ref
    && (a.target_id == b.target_id
        && (a.observed_at == b.observed_at
            && (a.arm == b.arm
                && (a.experiment_id == b.experiment_id
                    && (a.release_id == b.release_id && a.deployment_id == b.deployment_id)))))

pub attribution_beq_iff : (a b : RequestAttribution) → (attribution_beq a b ≡ true) ↔ (a ≡ b)
attribution_beq_iff a b =
    let q = string_eq.beq_iff a.request_ref b.request_ref in
    let t = string_eq.beq_iff a.target_id b.target_id in
    let o = nat_eq.beq_iff a.observed_at b.observed_at in
    let m = string_eq.beq_iff a.arm b.arm in
    let x = string_eq.beq_iff a.experiment_id b.experiment_id in
    let l = (option_eq {A = String}).beq_iff a.release_id b.release_id in
    let d = (option_eq {A = String}).beq_iff a.deployment_id b.deployment_id in ground arith

instance abbrev pub attribution_eq : Eq RequestAttribution
attribution_eq = record { beq = attribution_beq; beq_iff = attribution_beq_iff }

abbrev pub feedback_id : UserFeedback → String
feedback_id f = f.id

abbrev pub request_ref_of : RequestAttribution → String
request_ref_of a = a.request_ref

unfoldable pub add_feedback :
    UserFeedback → List UserFeedback → Result UserFeedback × List UserFeedback
unfolding Records.add
add_feedback = Records.add feedback_id feedback_post_init

unfoldable pub get_feedback : String → List UserFeedback → Result (Option UserFeedback)
unfolding Records.get
get_feedback = Records.get feedback_id feedback_post_init

unfoldable pub add_attribution :
    RequestAttribution
    → List RequestAttribution
    → Result RequestAttribution × List RequestAttribution
unfolding Records.add
add_attribution = Records.add request_ref_of attribution_post_init

unfoldable pub get_attribution :
    String → List RequestAttribution → Result (Option RequestAttribution)
unfolding Records.get
get_attribution = Records.get request_ref_of attribution_post_init

-- `ORDER BY received_at, id`
abbrev pub not_later : UserFeedback → UserFeedback → Bool
not_later a b =
    ltb a.received_at b.received_at || a.received_at == b.received_at && text_le a.id b.id

abbrev pub in_window :
    (target_id release_id deployment_id : String) → (opened_at closed_at : ℕ) → UserFeedback → Bool
in_window target_id release_id deployment_id opened_at closed_at f =
    f.target_id == target_id
    && ((f.release_id == some release_id || f.deployment_id == some deployment_id)
        && (leb opened_at f.received_at && leb f.received_at closed_at))

unfoldable pub feedback_from_rows : List UserFeedback → Result (List UserFeedback)
unfolding feedback_post_init
feedback_from_rows [] = ok []
feedback_from_rows (row ∷ rows) = do
  feedback ← feedback_post_init row
  rest ← feedback_from_rows rows
  ok (feedback ∷ rest)

unfoldable pub list_attributable :
    (target_id release_id deployment_id : String)
    → (opened_at closed_at : ℕ) → List UserFeedback
    → Result (List UserFeedback)
unfolding feedback_from_rows
list_attributable target_id release_id deployment_id opened_at closed_at rows = feedback_from_rows (
    sorted not_later (keep (in_window target_id release_id deployment_id opened_at closed_at) rows))

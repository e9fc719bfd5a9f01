-- ===== src/Feedback/Listed.antt =====
-- What `list_attributable` of adapters/postgres/feedback.py returns.
use autonomous_development.Prelude.{
  ℕ, String, List, [], ◌∷◌, Bool, true, ◌||◌, elem, keep, sorted, insert_sorted, ◌==◌, nat_eq,
  string_eq, option_eq, Eq, ◌≡◌, refl, ap, sym, subst, ◌∙◌, arith, inl, inr, Bool-cases,
}
use autonomous_development.Prelude.Raise.{ok, Result-cases}
use autonomous_development.Domain.Models.{UserFeedback, feedback_post_init}
use autonomous_development.Feedback.Sql.{
  feedback_eq, not_later, in_window, feedback_from_rows, list_attributable,
}

module _ {A : Type 0} ⦃e : Eq A⦄ where
  pub elem-here : (a x : A) (xs : List A) → x ≡ a → elem a (x ∷ xs) ≡ true
  elem-here a x xs h = ground (arith, e.beq_iff a x)

  pub elem-there : (a x : A) (xs : List A) → elem a xs ≡ true → elem a (x ∷ xs) ≡ true
  elem-there a x xs h = ground arith

  elem-insert_sorted :
      (before : A → A → Bool) (a x : A) (ys : List A)
      → elem a (insert_sorted before x ys) ≡ (a == x || elem a ys)
  unfolding insert_sorted
  elem-insert_sorted before a x [] = refl
  elem-insert_sorted before a x (y ∷ ys) = ground (arith, elem-insert_sorted before a x ys)

  pub elem-sorted :
      (before : A → A → Bool) (a : A) (xs : List A) → elem a (sorted before xs) ≡ elem a xs
  unfolding sorted
  elem-sorted before a [] = refl
  elem-sorted before a (x ∷ xs) =
      elem-insert_sorted before a x (sorted before xs)
      ∙ ap (λ b. a == x || b) (elem-sorted before a xs)

  pub elem-keep :
      (p : A → Bool) (a : A) (xs : List A)
      → elem a (keep p xs) ≡ true
      → (elem a xs ≡ true) × (p a ≡ true)
  elem-keep p a [] h = absurd (ground arith)
  elem-keep p a (x ∷ xs) h = elim (Bool-cases (p x)) [
    | inr drops ↦ let (there, holds) = elem-keep p a xs (ground arith) in (ground arith, holds)
    | inl keeps ↦ elim (Bool-cases (a == x)) [
      | inl same ↦
          let q : a ≡ x = (e.beq_iff a x).0 same in
          (ground arith, subst (λ z. p z ≡ true) (sym q) keeps)
      | inr other ↦ let (there, holds) = elem-keep p a xs (ground arith) in (ground arith, holds)
    ]
  ]

post_init-own : (f g : UserFeedback) → feedback_post_init f ≡ ok g → g ≡ f
unfolding feedback_post_init
post_init-own f g h = ground arith

from_rows-own : (rows items : List UserFeedback) → feedback_from_rows rows ≡ ok items → items ≡ rows
unfolding feedback_from_rows
from_rows-own [] items h = ground arith
from_rows-own (row ∷ rows) items h = elim (Result-cases (feedback_post_init row)) [
  | inr (x, bad) ↦ absurd (ground arith)
  | inl (f, made) ↦ elim (Result-cases (feedback_from_rows rows)) [
    | inr (x, bad) ↦ absurd (ground arith)
    | inl (rest, read) ↦
        let own = post_init-own row f made in
        let later = from_rows-own rows rest read in ground arith
  ]
]

-- A listed feedback is a stored one of the window.
pub listed-stored :
    (target_id release_id deployment_id : String) (opened_at closed_at : ℕ)
    (rows items : List UserFeedback) (f : UserFeedback)
    → list_attributable target_id release_id deployment_id opened_at closed_at rows ≡ ok items
    → elem f items ≡ true
    → (elem f rows ≡ true)
      × (in_window target_id release_id deployment_id opened_at closed_at f ≡ true)
unfolding list_attributable
listed-stored target_id release_id deployment_id opened_at closed_at rows items f h there =
    let p = in_window target_id release_id deployment_id opened_at closed_at in
    let own = from_rows-own (sorted not_later (keep p rows)) items h in
    elem-keep p f rows (sym (elem-sorted not_later f (keep p rows)) ∙ ap (elem f) (sym own) ∙ there)

-- ===== src/Domain/Policies/Traversal.antt =====
-- The test for "/../" in the text of a path, and the parts of the path.
use autonomous_development.Prelude.{
  ℕ, List, [], ◌∷◌, ◌++◌, Bool, true, false, ◌||◌, elem, keep, ◌==◌, nat_eq, list_eq, ◌≡◌, refl,
  arith, list_beq_iff, nat_beq_iff, Bool-cases, inl, inr, subst, sym,
}
use autonomous_development.Prelude.Raise.{ok}
use autonomous_development.Domain.Policies.Paths.{
  Text, slash, dot_dot, starts_with, contains, onto_first, split_slashes, parts,
}
use autonomous_development.Domain.Policies.Scope.{up_inside, canonical, normalize_path}

abbrev first_word : List Text → Text
first_word [] = []
first_word (w ∷ ws) = w

abbrev other_words : List Text → List Text
other_words [] = []
other_words (w ∷ ws) = ws

first-onto : (c : ℕ) (ws : List Text) → first_word (onto_first c ws) ≡ c ∷ first_word ws
first-onto c [] = refl
first-onto c (w ∷ ws) = refl

other-onto : (c : ℕ) (ws : List Text) → other_words (onto_first c ws) ≡ other_words ws
other-onto c [] = refl
other-onto c (w ∷ ws) = refl

-- The first word of a text is a prefix of it, with a slash put behind.
first_prefix :
    (t : Text) → starts_with (first_word (split_slashes t) ++ slash ∷ []) (t ++ slash ∷ []) ≡ true
unfolding split_slashes starts_with
first_prefix [] = refl
first_prefix (c ∷ cs) = elim (Bool-cases (c == slash)) [
  | inl here ↦ rw here (ground arith)
  | inr not_here ↦ rw (not_here, first-onto) (ground (arith, first_prefix cs))
]

words_onto : (c : ℕ) (ws : List Text) → onto_first c ws ≡ (c ∷ first_word ws) ∷ other_words ws
words_onto c [] = refl
words_onto c (w ∷ ws) = refl

split_words :
    (t : Text) → split_slashes t ≡ first_word (split_slashes t) ∷ other_words (split_slashes t)
unfolding split_slashes
split_words [] = refl
split_words (c ∷ cs) = elim (Bool-cases (c == slash)) [
  | inl here ↦ rw here refl
  | inr not_here ↦ rw (not_here, first-onto, other-onto) (words_onto c (split_slashes cs))
]

-- The word behind a slash, or a later one.
after_slash :
    (c : ℕ) (cs : Text)
    → c ≡ slash
    → elem dot_dot (split_slashes cs) ≡ true
    → (elem dot_dot (other_words (split_slashes cs)) ≡ true
        → contains up_inside (cs ++ slash ∷ []) ≡ true)
    → contains up_inside (c ∷ (cs ++ slash ∷ [])) ≡ true
unfolding contains starts_with
after_slash c cs is found later =
    let w : Text = first_word (split_slashes cs) in
    let either : (dot_dot == w || elem dot_dot (other_words (split_slashes cs))) ≡ true =
      rw split_words at found in
    elim (Bool-cases (dot_dot == w)) [
      | inl first ↦
          let same : dot_dot ≡ w = (list_beq_iff dot_dot w).0 first in
          let front : starts_with (dot_dot ++ slash ∷ []) (cs ++ slash ∷ []) ≡ true =
            subst (λ (u : Text). starts_with (u ++ slash ∷ []) (cs ++ slash ∷ []) ≡ true) (sym same)
              (first_prefix cs) in
          ground arith
      | inr not_first ↦ ground arith
    ]

-- ".." as a word after a slash shows as "/../" in the text, with a slash put behind.
later_contains :
    (t : Text)
    → elem dot_dot (other_words (split_slashes t)) ≡ true
    → contains up_inside (t ++ slash ∷ []) ≡ true
unfolding split_slashes contains starts_with
later_contains [] h = absurd (cc)
later_contains (c ∷ cs) h = elim (Bool-cases (c == slash)) [
  | inl here ↦
      let is : c ≡ slash = (nat_beq_iff c slash).0 here in
      let found : elem dot_dot (split_slashes cs) ≡ true = rw here at h in
      after_slash c cs is found (later_contains cs)
  | inr not_here ↦
      let found : elem dot_dot (other_words (split_slashes cs)) ≡ true =
        rw (not_here, other-onto) at h in
      ground (arith, later_contains cs found)
]

elem-keep :
    (p : Text → Bool) (w : Text) (ws : List Text) → elem w (keep p ws) ≡ true → elem w ws ≡ true
elem-keep p w [] h = h
elem-keep p w (u ∷ ws) h = ground (arith, elem-keep p w ws)

normalized_facts :
    (value : Text) (path : List Text)
    → normalize_path value ≡ ok path
    → (path ≡ parts (canonical value))
      × (contains up_inside (slash ∷ (canonical value ++ slash ∷ [])) ≡ false)
unfolding normalize_path
normalized_facts value path h = ground arith

dot_dot_shows :
    (t : Text)
    → elem dot_dot (parts t) ≡ true
    → contains up_inside (slash ∷ (t ++ slash ∷ [])) ≡ true
unfolding parts
dot_dot_shows t h =
    after_slash slash t refl (elem-keep _ dot_dot (split_slashes t) h) (later_contains t)

-- A path that `_normalize_path` accepts has no part "..": it cannot leave the repository.
pub normalize_path-no_dot_dot :
    (value : Text) (path : List Text) → normalize_path value ≡ ok path → elem dot_dot path ≡ false
normalize_path-no_dot_dot value path h =
    let (made, clean) = normalized_facts value path h in
    elim (Bool-cases (elem dot_dot path)) [
      | inr none_there ↦ none_there
      | inl climbs ↦ absurd (cc (dot_dot_shows (canonical value) (rw made at climbs)))
    ]

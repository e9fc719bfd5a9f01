-- ===== src/Records.antt =====
-- The repositories that keep records by an id: `add` and `get` have the same text in
-- adapters/postgres/feedback.py, request_attributions.py and target_registry.py. The tables hold
-- the values themselves; a value that is read passes its constructor again, which is `post_init`.
-- The key is the primary key, and a failed insert is rolled back.
pub mod Dataclass
use autonomous_development.Prelude.{
  String, List, [], ◌∷◌, ◌++◌, Option, none, some, Bool, true, false, any, find, find-append_none,
  ◌==◌, ◌!=◌, string_eq, Eq, ◌≡◌, refl, sym, ap, subst, subst₂, ◌∙◌, arith, Option-cases, inl, inr,
}
use autonomous_development.Prelude.Raise.{
  Error, Result, ok, err, raise_if, value_error, integrity_error, ◌>>=◌, ◌>>◌, Result-cases,
}

module _ {A : Type 0} ⦃e : Eq A⦄ (key : A → String) (post_init : A → Result A) where
  abbrev pub has_key : String → A → Bool
  has_key id a = key a == id

  -- The value of the row, if there is one.
  unfoldable pub from_row : Option A → Result (Option A)
  from_row none = ok none
  from_row (some row) = do value ← post_init row; ok (some value)

  unfoldable pub get : String → List A → Result (Option A)
  unfolding from_row
  get id rows = from_row (find (has_key id) rows)

  unfoldable pub insert_row : A → List A → Result (List A)
  insert_row a rows = do raise_if (any (has_key (key a)) rows) integrity_error; ok (rows ++ a ∷ [])

  -- What is stored already has to be the same value.
  unfoldable pub same_value : Error → (value existing : A) → Result A
  same_value raised value existing = do raise_if (existing != value) raised; ok existing

  unfoldable pub existing_value : A → Option A → Result A
  unfolding same_value
  existing_value value none = err integrity_error
  existing_value value (some existing) = same_value integrity_error value existing

  unfoldable pub settle : A → List A → Result (List A) → Result A × List A
  unfolding get existing_value
  settle a rows (ok rows') = (ok a, rows')
  settle a rows (err integrity_error) =
      (do existing ← get (key a) rows; existing_value a existing, rows)
  settle a rows (err raised) = (err raised, rows)

  unfoldable pub add_found : A → Result (Option A) → List A → Result A × List A
  unfolding same_value insert_row settle
  add_found a (err raised) rows = (err raised, rows)
  add_found a (ok (some existing)) rows = (same_value value_error a existing, rows)
  add_found a (ok none) rows = settle a rows (insert_row a rows)

  unfoldable pub add : A → List A → Result A × List A
  unfolding get add_found
  add a rows = add_found a (get (key a) rows) rows

  -- A constructor that only checks.
  abbrev pub IsCheck : Type 0
  IsCheck = (a b : A) → post_init a ≡ ok b → b ≡ a

  from_row-own : (check : IsCheck) (o : Option A) (a : A) → from_row o ≡ ok (some a) → o ≡ some a
  unfolding from_row
  from_row-own check none a h = absurd (ground arith)
  from_row-own check (some row) a h = elim (Result-cases (post_init row)) [
    | inr (x, bad) ↦ absurd (ground arith)
    | inl (b, made) ↦ let k = check row b made in ground arith
  ]

  from_row-none : (o : Option A) → from_row o ≡ ok none → o ≡ none
  unfolding from_row
  from_row-none none h = refl
  from_row-none (some row) h = elim (Result-cases (post_init row)) [
    | inr (x, bad) ↦ absurd (ground arith)
    | inl (b, made) ↦ absurd (ground arith)
  ]

  none-any :
      (id : String) (rows : List A) → find (has_key id) rows ≡ none → any (has_key id) rows ≡ false
  none-any id [] h = refl
  none-any id (row ∷ rows) h = ground (arith, none-any id rows)

  inserted-get :
      (a : A) (rows : List A)
      → post_init a ≡ ok a
      → find (has_key (key a)) rows ≡ none
      → get (key a) (rows ++ a ∷ []) ≡ ok (some a)
  unfolding get from_row
  inserted-get a rows valid gone =
      let f = find-append_none (has_key (key a)) rows (a ∷ []) gone in
      let s = string_eq.beq_iff (key a) (key a) in ground arith

  -- A checked value that is added is the one that was given, and is read back.
  pub add-get :
      (a b : A) (rows rows' : List A)
      → post_init a ≡ ok a
      → add a rows ≡ (ok b, rows')
      → (b ≡ a) × (get (key a) rows' ≡ ok (some a))
  unfolding add add_found same_value settle insert_row
  add-get a b rows rows' valid h = elim (Result-cases (get (key a) rows)) [
    | inr (x, bad) ↦ absurd (ground arith)
    | inl (some old, there) ↦
        let s = e.beq_iff old a in
        let same : old ≡ a = ground arith in
        let last : rows ≡ rows' = ground arith in
        (ground arith, subst₂ (λ u v. get (key a) u ≡ ok (some v)) last same there)
    | inl (none, fresh) ↦
        let gone = from_row-none (find (has_key (key a)) rows) fresh in
        let free = none-any (key a) rows gone in
        let last : rows ++ a ∷ [] ≡ rows' = ground arith in
        (
          ground arith,
          subst (λ u. get (key a) u ≡ ok (some a)) last (inserted-get a rows valid gone),
        )
  ]

  find-key : (id : String) (rows : List A) (a : A) → find (has_key id) rows ≡ some a → key a ≡ id
  find-key id [] a h = absurd (ground arith)
  find-key id (row ∷ rows) a h =
      let s = string_eq.beq_iff (key row) id in ground (arith, find-key id rows a)

  -- A value that is read has the key that was asked for.
  pub get-key :
      (check : IsCheck) (id : String) (rows : List A) (a : A)
      → get id rows ≡ ok (some a)
      → key a ≡ id
  unfolding get
  get-key check id rows a h = find-key id rows a (from_row-own check (find (has_key id) rows) a h)

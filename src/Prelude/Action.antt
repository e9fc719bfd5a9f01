-- ===== src/Prelude/Action.antt =====
-- A method that changes a store and may raise. What was written before a raise stays written.
use mathlib.Core.Path.{◌≡◌, refl}
use autonomous_development.Prelude.Raise.{Result, ok, err, Error}

abbrev pub Action {ℓ} : Type ℓ → Type ℓ → Type ℓ
Action S A = S → Result A × S

infixl 5 ◌>>=◌ ◌>>◌
abbrev pub ◌>>=◌ {ℓ} : {S A B : Type ℓ} → Action S A → (A → Action S B) → Action S B
◌>>=◌ m f s = let (r, s') = m s in elim r [ ok a ↦ f a s' | err e ↦ (err e, s') ]

abbrev pub ◌>>◌ {ℓ} : {S A B : Type ℓ} → Action S A → Action S B → Action S B
m >> k = m >>= λ _. k

module _ {ℓ} {S A : Type ℓ} where
  abbrev pub pure : A → Action S A
  pure a s = (ok a, s)

  abbrev pub raise : Error → Action S A
  raise e s = (err e, s)

  abbrev pub lift : Result A → Action S A
  lift r s = (r, s)

  abbrev pub gets : (S → A) → Action S A
  gets f s = (ok (f s), s)

-- What a chain of calls did, when it returned.
module _ {ℓ} {S A B : Type ℓ} where
  split_ok :
      (r : Result A) (t : S) (f : A → Action S B) (b : B) (s' : S)
      → (elim r [ ok a ↦ f a t | err e ↦ (err e, t) ]) ≡ (ok b, s')
      → (a : A) × (r ≡ ok a) × (f a t ≡ (ok b, s'))
  split_ok (ok a) t f b s' h = (a, refl, h)
  split_ok (err e) t f b s' h = cc

  pub >>=-eq-ok :
      (m : Action S A) (f : A → Action S B) (s : S) (b : B) (s' : S)
      → (m >>= f) s ≡ (ok b, s')
      → (a : A) × ((m s).0 ≡ ok a) × (f a (m s).1 ≡ (ok b, s'))
  >>=-eq-ok m f s b s' h = split_ok (m s).0 (m s).1 f b s' h

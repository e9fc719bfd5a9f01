-- ===== src/Records/Dataclass.antt =====
-- The `__eq__` of a frozen dataclass: it compares the tuples of the fields.
use autonomous_development.Prelude.{Bool, true, ◌&&◌, ◌==◌, Eq, ◌≡◌, ◌↔◌, sym, ap, ◌∙◌, arith}

module _ {A B : Type 0} ⦃e : Eq A⦄ ⦃f : Eq B⦄ where
  abbrev pub pair_beq : A × B → A × B → Bool
  pair_beq x y = x.0 == y.0 && x.1 == y.1

  pub pair_beq_iff : (x y : A × B) → (pair_beq x y ≡ true) ↔ (x ≡ y)
  pair_beq_iff (a, b) (c, d) = ground (arith, e.beq_iff a c, f.beq_iff b d)

  instance abbrev pub pair_eq : Eq (A × B)
  pair_eq = record { beq = pair_beq; beq_iff = pair_beq_iff }

-- `of_fields` undoes `fields_of`.
abbrev pub dataclass_eq :
    {A F : Type 0} ⦃e : Eq F⦄ (fields_of : A → F) (of_fields : F → A)
    → ((a : A) → of_fields (fields_of a) ≡ a)
    → Eq A
dataclass_eq ⦃e⦄ fields_of of_fields back = record {
  beq = λ a b. fields_of a == fields_of b;
  beq_iff = λ a b. (
    λ h. sym (back a) ∙ ap of_fields ((e.beq_iff (fields_of a) (fields_of b)).0 h) ∙ back b,
    λ p. (e.beq_iff (fields_of a) (fields_of b)).1 (ap fields_of p),
  );
}

-- ===== src/Prelude/Raise.antt =====
-- A Python function that may raise. An exception is modelled by its class, its message left out.
use mathlib.Core.Path.{◌≡◌, refl}
use mathlib.Core.Logic.{◌⊎◌, inl, inr}
use mathlib.Core.Bool.{Bool, true, false}
use mathlib.Core.Option.{Option, none, some}

pub data Error : Type 0 where
  value_error transition_error stale_cycle scope_violation : Error
  lookup_error key_error cycle_not_found experiment_not_found release_not_found : Error
  type_error runtime_error operation_conflict concurrent_update concurrent_cycle : Error
  integrity_error index_error external_error : Error

pub data Result {ℓ} (A : Type ℓ) : Type ℓ where
  ok : A → Result A
  err : Error → Result A

infixl 5 ◌>>=◌ ◌>>◌
abbrev pub ◌>>=◌ {ℓ κ} : {A : Type ℓ} {B : Type κ} → Result A → (A → Result B) → Result B
ok a >>= f = f a
err e >>= f = err e

abbrev pub ◌>>◌ {ℓ κ} : {A : Type ℓ} {B : Type κ} → Result A → Result B → Result B
m >> k = m >>= λ _. k

-- What a call and its continuation did, when they returned.
pub >>=-eq-ok {ℓ κ} :
    {X : Type ℓ} {Y : Type κ} (call : Result X) (rest : X → Result Y) {y : Y}
    → (call >>= rest) ≡ ok y
    → (x : X) × (call ≡ ok x) × (rest x ≡ ok y)
>>=-eq-ok (ok x) rest returned = (x, refl, returned)
>>=-eq-ok (err raised) rest returned = cc

-- `if c: raise e`
abbrev pub raise_if : Bool → Error → Result (Unit {0})
raise_if true e = err e
raise_if false e = ok tt

-- `if o is None: raise e`
abbrev pub require {ℓ} : {A : Type ℓ} → Option A → Error → Result A
require none e = err e
require (some a) e = ok a

abbrev pub IsOk {ℓ} : {A : Type ℓ} → Result A → Type 0
IsOk (ok a) = Unit
IsOk (err e) = ⊥

pub Result-cases {ℓ} :
    {X : Type ℓ} (call : Result X)
    → ((x : X) × (call ≡ ok x)) ⊎ ((raised : Error) × (call ≡ err raised))
Result-cases (ok x) = inl (x, refl)
Result-cases (err raised) = inr (raised, refl)

-- What `except ValueError` catches.
abbrev pub is_value_error : Error → Bool
is_value_error value_error = true
is_value_error transition_error = true
is_value_error stale_cycle = true
is_value_error scope_violation = true
is_value_error _ = false

-- What `except LookupError` catches.
abbrev pub is_lookup_error : Error → Bool
is_lookup_error lookup_error = true
is_lookup_error key_error = true
is_lookup_error index_error = true
is_lookup_error cycle_not_found = true
is_lookup_error experiment_not_found = true
is_lookup_error release_not_found = true
is_lookup_error _ = false

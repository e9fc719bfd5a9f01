-- ===== src/Domain/Models/Fields.antt =====
-- `_required` of domain/models.py, and the loop over the fields that a constructor requires.
use autonomous_development.Prelude.{String, List, [], ◌∷◌, is_blank}
use autonomous_development.Prelude.Raise.{Result, ok, raise_if, value_error, ◌>>◌}

-- The stripped text that `_required` returns is read by no caller.
unfoldable pub required : String → Result (Unit {0})
required value = raise_if (is_blank value) value_error

unfoldable pub required_all : List String → Result (Unit {0})
unfolding required
required_all [] = ok tt
required_all (value ∷ values) = do required value; required_all values

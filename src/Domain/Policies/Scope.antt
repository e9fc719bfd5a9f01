-- ===== src/Domain/Policies/Scope.antt =====
-- `validate_changed_paths` and its helpers of domain/policies.py.
use autonomous_development.Prelude.{
  String, List, [], ◌∷◌, ◌++◌, Bool, not, ◌||◌, any, elem, is_empty, length, ltb, codes, ◌==◌,
  nat_eq, list_eq,
}
use autonomous_development.Prelude.Raise.{Result, ok, raise_if, scope_violation, ◌>>=◌, ◌>>◌}
use autonomous_development.Domain.Models.{ChangeProposal}
use autonomous_development.Domain.Policies.Paths.{
  Text, slash, dot, forward_slashes, strip_slashes, is_slash, rstrip, starts_with, contains, parts,
  parents,
}

abbrev pub up_first : Text
up_first = dot ∷ dot ∷ slash ∷ []

abbrev pub up_inside : Text
up_inside = slash ∷ dot ∷ dot ∷ slash ∷ []

unfoldable pub canonical : Text → Text
unfolding forward_slashes strip_slashes
canonical value = strip_slashes (forward_slashes value)

-- `_normalize_path`
unfoldable pub normalize_path : Text → Result (List Text)
normalize_path value =
    let normalized = canonical value in
    do
      raise_if
          (is_empty normalized
            || starts_with up_first normalized
            || contains up_inside (slash ∷ (normalized ++ slash ∷ [])))
          scope_violation
      ok (parts normalized)

-- `_normalize_prefix`
unfoldable pub normalize_prefix : Text → Result (List Text)
normalize_prefix value = normalize_path (rstrip (λ c. is_slash c || c == b'*') value)

-- `_matches`
unfoldable pub matches : List Text → List Text → Bool
matches path prefix = path == prefix || elem prefix (parents path)

-- `tuple(_normalize_prefix(path) for path in paths)`
unfoldable pub normalize_all : List String → Result (List (List Text))
normalize_all [] = ok []
normalize_all (p ∷ ps) = do
  prefix ← normalize_prefix (codes p)
  prefixes ← normalize_all ps
  ok (prefix ∷ prefixes)

-- One round of the loop over the changed paths.
unfoldable pub check_path : (allowed forbidden : List (List Text)) → String → Result (Unit {0})
check_path allowed forbidden raw_path = do
  path ← normalize_path (codes raw_path)
  raise_if (any (λ prefix. matches path prefix) forbidden) scope_violation
  raise_if (not (any (λ prefix. matches path prefix) allowed)) scope_violation

unfoldable pub check_paths :
    (allowed forbidden : List (List Text)) → List String → Result (Unit {0})
check_paths allowed forbidden [] = ok tt
check_paths allowed forbidden (p ∷ ps) = do
  check_path allowed forbidden p
  check_paths allowed forbidden ps

abbrev pub contract : Text
contract = codes "autonomous-development.toml"

unfoldable pub validate_changed_paths : ChangeProposal → List String → Result (Unit {0})
validate_changed_paths proposal changed_paths = do
  raise_if (is_empty changed_paths) scope_violation
  raise_if (ltb proposal.max_changed_files (length changed_paths)) scope_violation
  raise_if (any (λ p. canonical (codes p) == contract) changed_paths) scope_violation
  allowed ← normalize_all proposal.allowed_paths
  forbidden ← normalize_all proposal.forbidden_paths
  check_paths allowed forbidden changed_paths

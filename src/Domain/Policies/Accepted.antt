-- ===== src/Domain/Policies/Accepted.antt =====
-- What `validate_changed_paths` of domain/policies.py accepts.
use autonomous_development.Prelude.{
  ◌≤◌, String, List, [], ◌∷◌, ◌++◌, Bool, true, false, not, ◌&&◌, any, All, elem, is_empty, length,
  map, codes, ltb, ◌==◌, nat_eq, list_eq, list_beq_iff, ◌≡◌, refl, sym, ◌∙◌, ◌⊎◌, inl, inr,
  Bool-cases, arith, subst,
}
use mathlib.Core.List.{append-nil}
use autonomous_development.Prelude.Raise.{
  Result, ok, raise_if, ◌>>◌, scope_violation, >>=-eq-ok, ◌>>=◌,
}
use autonomous_development.Domain.Models.{ChangeProposal}
use autonomous_development.Domain.Policies.Paths.{Text, dot_dot, parents}
use autonomous_development.Domain.Policies.Scope.{
  canonical, normalize_path, normalize_all, matches, check_path, check_paths, contract,
  validate_changed_paths,
}
use autonomous_development.Domain.Policies.Traversal.{normalize_path-no_dot_dot}

-- `path` is the directory or file `prefix`, or lies below it.
abbrev pub Inside : List Text → List Text → Type 0
Inside path prefix = (rest : List Text) × (path ≡ prefix ++ rest)

elem-map_cons :
    (w u : Text) (us : List Text) (xs : List (List Text))
    → elem (u ∷ us) (map (λ p. w ∷ p) xs) ≡ (u == w && elem us xs)
elem-map_cons w u us [] = ground arith
elem-map_cons w u us (x ∷ xs) = ground (arith, elem-map_cons w u us xs)

elem-map_nil : (w : Text) (xs : List (List Text)) → elem [] (map (λ p. w ∷ p) xs) ≡ false
elem-map_nil w [] = refl
elem-map_nil w (x ∷ xs) = elem-map_nil w xs

parents_sound : (p ws : List Text) → elem p (parents ws) ≡ true → Inside ws p
unfolding parents
parents_sound p [] h = absurd (cc)
parents_sound [] (w ∷ ws) h = (w ∷ ws, refl)
parents_sound (u ∷ us) (w ∷ ws) h =
    let both : (u == w && elem us (parents ws)) ≡ true =
      sym (elem-map_cons w u us (parents ws)) ∙ h in
    let same : u ≡ w = (list_beq_iff u w).0 (ground arith) in
    let (rest, e) = parents_sound us ws (ground arith) in (rest, ground arith)

parents_complete :
    (p : List Text) (r : Text) (rs : List Text) → elem p (parents (p ++ r ∷ rs)) ≡ true
unfolding parents
parents_complete [] r rs = refl
parents_complete (u ∷ us) r rs =
    elem-map_cons u u us (parents (us ++ r ∷ rs))
    ∙ ground (arith, list_beq_iff u u, parents_complete us r rs)

pub matches_sound : (path prefix : List Text) → matches path prefix ≡ true → Inside path prefix
unfolding matches
matches_sound path prefix h = elim (Bool-cases (path == prefix)) [
  | inl same ↦ ([], (list_beq_iff path prefix).0 same ∙ sym (append-nil prefix))
  | inr below ↦ parents_sound prefix path (ground arith)
]

pub matches_complete : (path prefix : List Text) → Inside path prefix → matches path prefix ≡ true
unfolding matches
matches_complete path prefix ([], e) = ground (arith, list_beq_iff path prefix, append-nil prefix)
matches_complete path prefix (r ∷ rs, e) =
    let found : elem prefix (parents path) ≡ true =
      subst (λ p. elem prefix (parents p) ≡ true) (sym e) (parents_complete prefix r rs) in
    ground arith

-- Some prefix of the list holds the path; no prefix of the list does.
abbrev pub InsideAny : List Text → List (List Text) → Type 0
InsideAny path [] = ⊥
InsideAny path (p ∷ ps) = Inside path p ⊎ InsideAny path ps

InsideAny-sound :
    (path : List Text) (ps : List (List Text))
    → any (λ p. matches path p) ps ≡ true
    → InsideAny path ps
InsideAny-sound path [] h = absurd (cc)
InsideAny-sound path (p ∷ ps) h = elim (Bool-cases (matches path p)) [
  | inl here ↦ inl (matches_sound path p here)
  | inr later ↦ inr (InsideAny-sound path ps (ground arith))
]

InsideAny-complete :
    (path : List Text) (ps : List (List Text))
    → InsideAny path ps
    → any (λ p. matches path p) ps ≡ true
InsideAny-complete path [] h = absurd h
InsideAny-complete path (p ∷ ps) (inl h) = ground (arith, matches_complete path p h)
InsideAny-complete path (p ∷ ps) (inr h) = ground (arith, InsideAny-complete path ps h)

-- What is known of an accepted path.
pub record IsInScope (allowed forbidden : List (List Text)) (raw_path : String) : Type 0 where
  pub path : List Text
  pub normal : normalize_path (codes raw_path) ≡ ok path
  pub stays_inside : elem dot_dot path ≡ false
  pub is_allowed : InsideAny path allowed
  pub not_forbidden : ¬ (InsideAny path forbidden)

check_path_sound :
    (allowed forbidden : List (List Text)) (p : String)
    → check_path allowed forbidden p ≡ ok tt
    → IsInScope allowed forbidden p
unfolding check_path
check_path_sound allowed forbidden p h =
    let (path, normal, tested) =
      >>=-eq-ok (normalize_path (codes p))
        (λ path.
          raise_if (any (λ prefix. matches path prefix) forbidden) scope_violation
          >> raise_if (not (any (λ prefix. matches path prefix) allowed)) scope_violation)
        h in
    record {
      path = path;
      normal = normal;
      stays_inside = normalize_path-no_dot_dot (codes p) path normal;
      is_allowed = InsideAny-sound path allowed (ground arith);
      not_forbidden = λ i. let found = InsideAny-complete path forbidden i in ground arith;
    }

check_paths_sound :
    (allowed forbidden : List (List Text)) (ps : List String)
    → check_paths allowed forbidden ps ≡ ok tt
    → All (IsInScope allowed forbidden) ps
unfolding check_paths
check_paths_sound allowed forbidden [] h = tt
check_paths_sound allowed forbidden (p ∷ ps) h =
    let (u, first, rest) =
      >>=-eq-ok (check_path allowed forbidden p) (λ _. check_paths allowed forbidden ps) h in
    (check_path_sound allowed forbidden p first, check_paths_sound allowed forbidden ps rest)

three_guards :
    (a b c : Bool) (k : Result (Unit {0}))
    → (do raise_if a scope_violation; raise_if b scope_violation; raise_if c scope_violation; k)
      ≡ ok tt
    → (a ≡ false) × (b ≡ false) × (c ≡ false) × (k ≡ ok tt)
three_guards a b c k h = ground arith

not_empty : (ps : List String) → is_empty ps ≡ false → 1 ≤ length ps
not_empty [] h = absurd (cc)
not_empty (p ∷ ps) h = omega arith

-- An accepted change has at least one path and no more than the budget; no path is, as a text with
-- backslashes turned and outer slashes taken off, the name of the target contract, which does not
-- exclude a path that only normalises to that name; and each path normalises to one that has no
-- ".." part, lies inside an allowed directory or file, and inside no forbidden one.
pub validate_changed_paths_sound :
    (proposal : ChangeProposal) (changed : List String)
    → validate_changed_paths proposal changed ≡ ok tt
    → (1 ≤ length changed)
      × (length changed ≤ proposal.max_changed_files)
      × (any (λ p. canonical (codes p) == contract) changed ≡ false)
      × ((allowed : List (List Text)) × (forbidden : List (List Text)) × (normalize_all
              proposal.allowed_paths
            ≡ ok allowed)
          × (normalize_all proposal.forbidden_paths ≡ ok forbidden)
          × All (IsInScope allowed forbidden) changed)
unfolding validate_changed_paths
validate_changed_paths_sound proposal changed h =
    let (full, fits, other, rest) =
      three_guards (is_empty changed) (ltb proposal.max_changed_files (length changed))
        (any (λ p. canonical (codes p) == contract) changed) _ h in
    let (allowed, a, rest') =
      >>=-eq-ok (normalize_all proposal.allowed_paths)
        (λ allowed. do
          forbidden ← normalize_all proposal.forbidden_paths
          check_paths allowed forbidden changed)
        rest in
    let (forbidden, f, checked) =
      >>=-eq-ok (normalize_all proposal.forbidden_paths)
        (λ forbidden. check_paths allowed forbidden changed) rest' in
    (
      not_empty changed full,
      ground arith,
      other,
      (allowed, forbidden, a, f, check_paths_sound allowed forbidden changed checked),
    )

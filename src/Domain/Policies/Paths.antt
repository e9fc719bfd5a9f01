-- ===== src/Domain/Policies/Paths.antt =====
-- Python's text and `PurePosixPath` operations that the scope check uses, on code points.
use autonomous_development.Prelude.{
  ℕ, List, [], ◌∷◌, Bool, true, false, not, ◌&&◌, ◌||◌, is_empty, map, keep, ◌==◌, nat_eq, list_eq,
  if◌then◌else◌,
}

abbrev pub Text : Type 0
Text = List ℕ

abbrev pub slash : ℕ
slash = b'/'

abbrev pub dot : ℕ
dot = b'.'

-- `value.replace("\\", "/")`
unfoldable pub forward_slashes : Text → Text
forward_slashes = map (λ c. if c == 0x5c then slash else c)

-- `lstrip` and `rstrip`, by the characters to take off.
unfoldable pub lstrip : (ℕ → Bool) → Text → Text
lstrip drop [] = []
lstrip drop (c ∷ cs) = let rest = lstrip drop cs in if drop c then rest else c ∷ cs

unfoldable pub rstrip : (ℕ → Bool) → Text → Text
rstrip drop [] = []
rstrip drop (c ∷ cs) = let rest = rstrip drop cs in if drop c && is_empty rest then [] else c ∷ rest

abbrev pub is_slash : ℕ → Bool
is_slash c = c == slash

-- `strip("/")`
unfoldable pub strip_slashes : Text → Text
unfolding lstrip rstrip
strip_slashes t = rstrip is_slash (lstrip is_slash t)

-- `t.startswith(p)`
unfoldable pub starts_with : Text → Text → Bool
starts_with [] t = true
starts_with (p ∷ ps) [] = false
starts_with (p ∷ ps) (c ∷ cs) = p == c && starts_with ps cs

-- `p in t`
unfoldable pub contains : Text → Text → Bool
unfolding starts_with
contains p [] = starts_with p []
contains p (c ∷ cs) = starts_with p (c ∷ cs) || contains p cs

-- `t.split("/")`
abbrev pub onto_first : ℕ → List Text → List Text
onto_first c [] = (c ∷ []) ∷ []
onto_first c (w ∷ ws) = (c ∷ w) ∷ ws

unfoldable pub split_slashes : Text → List Text
split_slashes [] = [] ∷ []
split_slashes (c ∷ cs) =
    let rest = split_slashes cs in if c == slash then [] ∷ rest else onto_first c rest

abbrev pub dot_name : Text
dot_name = dot ∷ []

abbrev pub dot_dot : Text
dot_dot = dot ∷ dot ∷ []

-- A relative `PurePosixPath` is its parts: the names between slashes, but for empty ones and ".".
unfoldable pub parts : Text → List Text
unfolding split_slashes
parts t = keep (λ w. not (is_empty w) && not (w == dot_name)) (split_slashes t)

-- `path.parents`: every proper prefix of the parts.
unfoldable pub parents : List Text → List (List Text)
parents [] = []
parents (w ∷ ws) = [] ∷ map (λ p. w ∷ p) (parents ws)

-- ===== src/Prelude/Text.antt =====
-- Python's `str.strip` emptiness test, over code points.
use Prim.Native.Nat.{ℕ, zero, suc, ◌+◌, ◌≤◌, ◌/◌, ◌%◌}
use Prim.Native.Char.{code}
use Prim.Native.String.{String}
use mathlib.Core.Bool.{Bool, true, false, ◌&&◌, ◌||◌}
use mathlib.Core.List.{List, [], ◌∷◌}
use mathlib.Core.Path.{◌≡◌, ap, sym, ◌∙◌}
use native.Mathlib.Omega.{arith}
use autonomous_development.Prelude.Tests.{leb, if◌then◌else◌, or_default}
use autonomous_development.Prelude.Lists.{get_elem?}
use autonomous_development.Prelude.Tests.{ltb}
use autonomous_development.Prelude.Equality.{◌==◌, nat_eq}

abbrev pub codes : String → List ℕ
codes String.[] = []
codes (String.◌∷◌ c s) = code c ∷ codes s

-- The characters for which `str.isspace` holds.
unfoldable pub is_space : ℕ → Bool
is_space c =
    leb 9 c && leb c 13
    || leb 28 c && leb c 32
    || c == 0x85
    || c == 0xa0
    || c == 0x1680
    || leb 0x2000 c && leb c 0x200a
    || c == 0x2028
    || c == 0x2029
    || c == 0x202f
    || c == 0x205f
    || c == 0x3000

abbrev blank_codes : List ℕ → Bool
blank_codes [] = true
blank_codes (c ∷ cs) = is_space c && blank_codes cs

-- `not value.strip()`
unfoldable pub is_blank : String → Bool
unfolding is_space
is_blank s = blank_codes (codes s)

-- `s + t`
abbrev pub concat : String → String → String
concat String.[] t = t
concat (String.◌∷◌ c s) t = String.◌∷◌ c (concat s t)

-- `separator.join(parts)`
abbrev pub join : String → List String → String
join separator [] = String.[]
join separator (p ∷ []) = p
join separator (p ∷ q ∷ parts) = concat p (concat separator (join separator (q ∷ parts)))

-- `a <= b` on texts, which Python orders by code points.
abbrev codes_le : List ℕ → List ℕ → Bool
codes_le [] bs = true
codes_le (a ∷ rest) [] = false
codes_le (a ∷ rest) (b ∷ bs) = ltb a b || a == b && codes_le rest bs

abbrev pub text_le : String → String → Bool
text_le s t = codes_le (codes s) (codes t)

abbrev codes_start : List ℕ → List ℕ → Bool
codes_start cs [] = true
codes_start [] (p ∷ ps) = false
codes_start (c ∷ cs) (p ∷ ps) = c == p && codes_start cs ps

-- `value.startswith(prefix)`
abbrev pub starts_with : (value prefix : String) → Bool
starts_with value prefix = codes_start (codes value) (codes prefix)

-- `value[:n]`
abbrev pub take_text : ℕ → String → String
take_text zero s = String.[]
take_text (suc n) String.[] = String.[]
take_text (suc n) (String.◌∷◌ c s) = String.◌∷◌ c (take_text n s)

-- `value.strip()`
abbrev strip_left : String → String
strip_left String.[] = String.[]
strip_left (String.◌∷◌ c s) =
    let rest = strip_left s in if is_space (code c) then rest else String.◌∷◌ c s

abbrev is_no_text : String → Bool
is_no_text String.[] = true
is_no_text (String.◌∷◌ c s) = false

abbrev strip_right : String → String
strip_right String.[] = String.[]
strip_right (String.◌∷◌ c s) =
    let rest = strip_right s in
    if is_no_text rest && is_space (code c) then String.[] else String.◌∷◌ c rest

abbrev pub strip : String → String
strip s = strip_right (strip_left s)

-- `str(n)`
abbrev digit : ℕ → String
digit n =
    or_default "" (get_elem? ("0" ∷ "1" ∷ "2" ∷ "3" ∷ "4" ∷ "5" ∷ "6" ∷ "7" ∷ "8" ∷ "9" ∷ []) n)

unfoldable decimal_from : (fuel n : ℕ) → String
decimal_from zero n = digit n
decimal_from (suc fuel) n =
    let rest = decimal_from fuel (n / 10) in
    if ltb n 10 then digit n else concat rest (digit (n % 10))

-- A number has no more digits than its value, so that the value is enough fuel.
unfoldable pub decimal : ℕ → String
unfolding decimal_from
decimal n = decimal_from n n

decimal_from-fuel : (more n : ℕ) → n ≤ more → decimal_from more n ≡ decimal_from (suc more) n
unfolding decimal_from
decimal_from-fuel zero n h = ground arith
decimal_from-fuel (suc more) n h = let k = decimal_from-fuel more (n / 10) in ground arith

-- More fuel gives the same text.
decimal-fuel : (more n : ℕ) → decimal_from (more + n) n ≡ decimal n
unfolding decimal
decimal-fuel zero n = let k : 0 + n ≡ n = omega arith in ap (λ fuel. decimal_from fuel n) k
decimal-fuel (suc more) n =
    let k : suc more + n ≡ suc (more + n) = omega arith in
    ap (λ fuel. decimal_from fuel n) k
    ∙ sym (decimal_from-fuel (more + n) n (omega arith))
    ∙ decimal-fuel more n

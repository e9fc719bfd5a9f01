-- ===== src/Operator/Cursor.antt =====
-- Reading the operator's events by a cursor: `append_event`, `acknowledge_event` and `list_events`
-- of adapters/postgres/operator.py.
use autonomous_development.Prelude.{
  ℕ, zero, suc, ◌+◌, ◌≤◌, ◌<◌, List, [], ◌∷◌, ◌++◌, some, keep, sorted, insert_sorted, get_last?,
  All, ltb→lt, nat_eq, string_eq, list_eq, ◌≡◌, refl, sym, ap, subst, ◌∙◌, arith, inl, inr,
  Bool-cases,
}
use autonomous_development.Operator.Events.{EventRow, EventTable, is_after, not_later, take}

-- The rows stand in the order of their numbers, which lie above `low`.
unfoldable pub IsOrdered : ℕ → List EventRow → Type 0
IsOrdered low [] = Unit
IsOrdered low (row ∷ rows) = (low < row.sequence) × IsOrdered row.sequence rows

-- And none is later than the last number given out.
abbrev pub IsNumbered : EventTable → Type 0
IsNumbered t = IsOrdered 0 t.rows × All (λ row. row.sequence ≤ t.last_sequence) t.rows

pub IsOrdered-lower :
    (low high : ℕ) (rows : List EventRow) → low ≤ high → IsOrdered high rows → IsOrdered low rows
unfolding IsOrdered
IsOrdered-lower low high [] h o = tt
IsOrdered-lower low high (row ∷ rows) h (first, rest) = (omega arith, rest)

-- Ordered rows above the cursor are their own page.
pub keep-above :
    (after : ℕ) (rows : List EventRow) → IsOrdered after rows → keep (is_after after) rows ≡ rows
unfolding IsOrdered
keep-above after [] o = refl
keep-above after (row ∷ rows) (first, rest) =
    let k = keep-above after rows (IsOrdered-lower after row.sequence rows (omega arith) rest) in
    ground arith

pub keep-IsOrdered :
    (low after : ℕ) (rows : List EventRow)
    → IsOrdered low rows
    → IsOrdered after (keep (is_after after) rows)
unfolding IsOrdered
keep-IsOrdered low after [] o = tt
keep-IsOrdered low after (row ∷ rows) (first, rest) = elim (Bool-cases (is_after after row)) [
  | inl later ↦
      let above : after < row.sequence = ltb→lt after row.sequence later in
      subst (IsOrdered after) (sym (keep-above after (row ∷ rows) (above, rest))) (above, rest)
  | inr early ↦
      let k : keep (is_after after) rows ≡ keep (is_after after) (row ∷ rows) = ground arith in
      subst (IsOrdered after) k (keep-IsOrdered row.sequence after rows rest)
]

insert-first :
    (row : EventRow) (rows : List EventRow)
    → IsOrdered row.sequence rows
    → insert_sorted not_later row rows ≡ row ∷ rows
unfolding IsOrdered insert_sorted
insert-first row [] o = refl
insert-first row (next ∷ rows) (first, rest) = ground arith

pub sorted-ordered :
    (low : ℕ) (rows : List EventRow) → IsOrdered low rows → sorted not_later rows ≡ rows
unfolding IsOrdered sorted
sorted-ordered low [] o = refl
sorted-ordered low (row ∷ rows) (first, rest) =
    ap (insert_sorted not_later row) (sorted-ordered row.sequence rows rest)
    ∙ insert-first row rows rest

pub keep-keep :
    (after last : ℕ) (rows : List EventRow)
    → after ≤ last
    → keep (is_after last) (keep (is_after after) rows) ≡ keep (is_after last) rows
keep-keep after last [] h = refl
keep-keep after last (row ∷ rows) h = let k = keep-keep after last rows h in ground arith

pub last-above :
    (low l : ℕ) (rows : List EventRow) (last : EventRow)
    → IsOrdered low rows
    → get_last? (take l rows) ≡ some last
    → low < last.sequence
unfolding IsOrdered
last-above low zero rows last o h = absurd (ground arith)
last-above low (suc l) [] last o h = absurd (ground arith)
last-above low (suc zero) (row ∷ rows) last (first, rest) h = ground arith
last-above low (suc (suc l)) (row ∷ []) last (first, rest) h = ground arith
last-above low (suc (suc l)) (row ∷ next ∷ rows) last (first, rest) h =
    let k = last-above row.sequence (suc l) (next ∷ rows) last rest h in omega arith

keep_self :
    (row : EventRow) (rows : List EventRow)
    → IsOrdered row.sequence rows
    → keep (is_after row.sequence) (row ∷ rows) ≡ rows
keep_self row rows o = let k = keep-above row.sequence rows o in ground arith

keep-skip :
    (n : ℕ) (row : EventRow) (rows : List EventRow)
    → row.sequence < n
    → keep (is_after n) (row ∷ rows) ≡ keep (is_after n) rows
keep-skip n row rows h = ground arith

take-step :
    (l m : ℕ) (row : EventRow) (rows : List EventRow)
    → row ∷ take (l + m) rows ≡ take (suc l + m) (row ∷ rows)
take-step l m row rows =
    let k : suc (l + m) ≡ suc l + m = omega arith in ap (λ n. take n (row ∷ rows)) k

take-one :
    (m : ℕ) (row : EventRow) (rows : List EventRow)
    → IsOrdered row.sequence rows
    → row ∷ take m (keep (is_after row.sequence) (row ∷ rows)) ≡ take (1 + m) (row ∷ rows)
take-one m row rows o =
    let k : suc m ≡ 1 + m = omega arith in
    ap (λ xs. row ∷ take m xs) (keep_self row rows o) ∙ ap (λ n. take n (row ∷ rows)) k

take-none : (n : ℕ) → take {A = EventRow} n [] ≡ []
take-none zero = refl
take-none (suc n) = refl

take-only :
    (l m : ℕ) (row : EventRow)
    → row ∷ take m (keep (is_after row.sequence) (row ∷ [])) ≡ take (suc (suc l) + m) (row ∷ [])
unfolding IsOrdered
take-only l m row =
    let k : suc (suc (l + m)) ≡ suc (suc l) + m = omega arith in
    ap (λ xs. row ∷ xs) (ap (take m) (keep_self row [] tt) ∙ take-none m)
    ∙ ap (λ n. take n (row ∷ [])) k

-- Two pages, the second from the last row of the first, are one.
pub take-resume :
    (low l m : ℕ) (rows : List EventRow) (last : EventRow)
    → IsOrdered low rows
    → get_last? (take l rows) ≡ some last
    → take l rows ++ take m (keep (is_after last.sequence) rows) ≡ take (l + m) rows
unfolding IsOrdered
take-resume low zero m rows last o h = absurd (ground arith)
take-resume low (suc l) m [] last o h = absurd (ground arith)
take-resume low (suc zero) m (row ∷ rows) last (first, rest) h =
    let same : row ≡ last = ground arith in
    subst
      (λ (x : EventRow).
        row ∷ take m (keep (is_after x.sequence) (row ∷ rows)) ≡ take (1 + m) (row ∷ rows))
      same (take-one m row rows rest)
take-resume low (suc (suc l)) m (row ∷ []) last (first, rest) h =
    let same : row ≡ last = ground arith in
    subst
      (λ (x : EventRow).
        row ∷ take m (keep (is_after x.sequence) (row ∷ [])) ≡ take (suc (suc l) + m) (row ∷ []))
      same (take-only l m row)
take-resume low (suc (suc l)) m (row ∷ next ∷ rows) last (first, rest) h =
    let later = last-above row.sequence (suc l) (next ∷ rows) last rest h in
    let k = take-resume row.sequence (suc l) m (next ∷ rows) last rest h in
    let skip = keep-skip last.sequence row (next ∷ rows) later in
    ap (λ xs. take (suc (suc l)) (row ∷ next ∷ rows) ++ take m xs) skip
    ∙ ap (λ xs. row ∷ xs) k
    ∙ take-step (suc l) m row (next ∷ rows)

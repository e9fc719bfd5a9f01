-- ===== src/Operator/Pages.antt =====
-- `list_events` of adapters/postgres/operator.py: pages of events behind a cursor.
use autonomous_development.Prelude.{
  ℕ, zero, suc, ◌+◌, ◌≤◌, ◌<◌, List, [], ◌∷◌, ◌++◌, some, keep, length, get_last?, All, ltb→lt, ◌≡◌,
  refl, sym, ap, subst, ◌∙◌, arith, inl, inr, Bool-cases,
}
use autonomous_development.Prelude.Raise.{ok, Result-cases}
use autonomous_development.Domain.Models.{OperatorEvent, event_post_init}
use autonomous_development.Operator.Events.{
  EventRow, EventTable, event_from_row, events_from_rows, is_after, take, page, ℤ, pos, negsuc,
  list_events,
}
use autonomous_development.Operator.Cursor.{
  IsOrdered, IsNumbered, keep-IsOrdered, sorted-ordered, keep-keep, take-resume, last-above,
}

from_row-sequence :
    (row : EventRow) (e : OperatorEvent)
    → event_from_row row ≡ ok e
    → e.sequence ≡ some row.sequence
unfolding event_from_row event_post_init
from_row-sequence row e h = ground arith

from_rows-cons :
    (row : EventRow) (rows : List EventRow) (es : List OperatorEvent)
    → events_from_rows (row ∷ rows) ≡ ok es
    → (e : OperatorEvent) × (rest : List OperatorEvent) × (event_from_row row ≡ ok e)
      × (events_from_rows rows ≡ ok rest)
      × (es ≡ e ∷ rest)
unfolding events_from_rows
from_rows-cons row rows es h = elim (Result-cases (event_from_row row)) [
  | inr (x, bad) ↦ absurd (ground arith)
  | inl (e, read) ↦ elim (Result-cases (events_from_rows rows)) [
    | inr (x, bad) ↦ absurd (ground arith)
    | inl (rest, more) ↦ (e, rest, read, more, ground arith)
  ]
]

from_rows-append :
    (rows more : List EventRow) (es fs : List OperatorEvent)
    → events_from_rows rows ≡ ok es
    → events_from_rows more ≡ ok fs
    → events_from_rows (rows ++ more) ≡ ok (es ++ fs)
unfolding events_from_rows
from_rows-append [] more es fs h k = ground arith
from_rows-append (row ∷ rows) more es fs h k =
    let (e, rest, read, others, own) = from_rows-cons row rows es h in
    let i = from_rows-append rows more rest fs others k in ground arith

from_rows-length :
    (rows : List EventRow) (es : List OperatorEvent)
    → events_from_rows rows ≡ ok es
    → length es ≡ length rows
unfolding events_from_rows
from_rows-length [] es h = ground arith
from_rows-length (row ∷ rows) es h =
    let (e, rest, read, others, own) = from_rows-cons row rows es h in
    let i = from_rows-length rows rest others in ground arith

from_rows-last :
    (rows : List EventRow) (es : List OperatorEvent) (e : OperatorEvent)
    → events_from_rows rows ≡ ok es
    → get_last? es ≡ some e
    → (row : EventRow) × (get_last? rows ≡ some row) × (e.sequence ≡ some row.sequence)
unfolding events_from_rows
from_rows-last [] es e h l = absurd (ground arith)
from_rows-last (row ∷ []) es e h l =
    let (x, rest, read, others, own) = from_rows-cons row [] es h in
    let k = from_row-sequence row x read in (row, refl, ground arith)
from_rows-last (row ∷ next ∷ rows) es e h l =
    let (x, rest, read, others, own) = from_rows-cons row (next ∷ rows) es h in
    let (y, ys, again, more, both) = from_rows-cons next rows rest others in
    let k : get_last? rest ≡ some e = ground arith in
    let (last, here, named) = from_rows-last (next ∷ rows) rest e others k in (last, here, named)

take-length : (l : ℕ) (rows : List EventRow) → length (take l rows) ≤ l
take-length zero rows = omega arith
take-length (suc l) [] = omega arith
take-length (suc l) (row ∷ rows) = let k = take-length l rows in omega arith

page-ordered :
    (after l : ℕ) (rows : List EventRow)
    → IsOrdered 0 rows
    → page after l rows ≡ take l (keep (is_after after) rows)
unfolding page
page-ordered after l rows o =
    ap (take l) (sorted-ordered after (keep (is_after after) rows) (keep-IsOrdered 0 after rows o))

page-resume :
    (after l m : ℕ) (rows : List EventRow) (last : EventRow)
    → IsOrdered 0 rows
    → get_last? (page after l rows) ≡ some last
    → page after l rows ++ page last.sequence m rows ≡ page after (l + m) rows
page-resume after l m rows last o h =
    let rest = keep (is_after after) rows in
    let ordered = keep-IsOrdered 0 after rows o in
    let here : get_last? (take l rest) ≡ some last =
      ap get_last? (sym (page-ordered after l rows o)) ∙ h in
    let later = last-above after l rest last ordered here in
    let again : page last.sequence m rows ≡ take m (keep (is_after last.sequence) rest) =
      page-ordered last.sequence m rows o
      ∙ ap (take m) (sym (keep-keep after last.sequence rows (omega arith))) in
    ap (λ xs. xs ++ page last.sequence m rows) (page-ordered after l rows o)
    ∙ ap (λ ys. take l rest ++ ys) again
    ∙ take-resume after l m rest last ordered here
    ∙ sym (page-ordered after (l + m) rows o)

-- What is stored behind a cursor.
pub IsAfter : ℕ → OperatorEvent → Type 0
IsAfter after e = (n : ℕ) × (e.sequence ≡ some n) × (after < n)

take-after :
    (after l : ℕ) (rows : List EventRow)
    → All (λ (row : EventRow). after < row.sequence) rows
    → All (λ (row : EventRow). after < row.sequence) (take l rows)
take-after after zero rows above = tt
take-after after (suc l) [] above = tt
take-after after (suc l) (row ∷ rows) (first, above) = (first, take-after after l rows above)

keep-after :
    (after : ℕ) (rows : List EventRow)
    → All (λ (row : EventRow). after < row.sequence) (keep (is_after after) rows)
keep-after after [] = tt
keep-after after (row ∷ rows) = elim (Bool-cases (is_after after row)) [
  | inl later ↦
      let k : row ∷ keep (is_after after) rows ≡ keep (is_after after) (row ∷ rows) =
        ground arith in
      subst (All (λ (x : EventRow). after < x.sequence)) k
        (ltb→lt after row.sequence later, keep-after after rows)
  | inr early ↦
      let k : keep (is_after after) rows ≡ keep (is_after after) (row ∷ rows) = ground arith in
      subst (All (λ (x : EventRow). after < x.sequence)) k (keep-after after rows)
]

page-after :
    (after l : ℕ) (rows : List EventRow)
    → IsOrdered 0 rows
    → All (λ (row : EventRow). after < row.sequence) (page after l rows)
page-after after l rows o =
    subst (All (λ (row : EventRow). after < row.sequence)) (sym (page-ordered after l rows o))
      (take-after after l (keep (is_after after) rows) (keep-after after rows))

from_rows-IsAfter :
    (after : ℕ) (rows : List EventRow) (es : List OperatorEvent)
    → All (λ (row : EventRow). after < row.sequence) rows
    → events_from_rows rows ≡ ok es
    → All (IsAfter after) es
unfolding events_from_rows IsAfter
from_rows-IsAfter after [] es above h =
    let k : [] ≡ es = ground arith in subst (All (IsAfter after)) k tt
from_rows-IsAfter after (row ∷ rows) es (first, above) h =
    let (e, rest, read, others, own) = from_rows-cons row rows es h in
    subst (All (IsAfter after)) (sym own) (
      (row.sequence, from_row-sequence row e read, first),
      from_rows-IsAfter after rows rest above others,
    )

-- The bounds of a page: where the rows stand in the order of their numbers, a call of
-- `list_events` that returns has a cursor that is not negative and a limit between 1 and 500,
-- returns no more events than the limit, and each of them lies after the cursor.
pub list_events_bounds :
    (after limit : ℤ) (t : EventTable) (es : List OperatorEvent)
    → IsNumbered t
    → list_events after limit t ≡ ok es
    → (n : ℕ) × (l : ℕ) × (after ≡ pos n)
      × (limit ≡ pos l)
      × (1 ≤ l)
      × (l ≤ 500)
      × (length es ≤ l)
      × All (IsAfter n) es
unfolding list_events
list_events_bounds (negsuc a) limit t es numbered h = absurd (ground arith)
list_events_bounds (pos a) (negsuc b) t es numbered h = absurd (ground arith)
list_events_bounds (pos after) (pos limit) t es (ordered, below) h =
    let read : events_from_rows (page after limit t.rows) ≡ ok es = ground arith in
    let k = from_rows-length (page after limit t.rows) es read in
    let n = take-length limit (keep (is_after after) t.rows) in
    let same = ap length (page-ordered after limit t.rows ordered) in
    (
      after,
      limit,
      refl,
      refl,
      ground arith,
      ground arith,
      omega arith,
      from_rows-IsAfter after (page after limit t.rows) es (page-after after limit t.rows ordered)
          read,
    )

-- Reading on from a cursor loses and repeats nothing: where the rows stand in the order of their
-- numbers, a page of `list_events` followed by the page after its last event is the one page of
-- both lengths, as long as the sum of the limits is in bounds.
pub list_events_resume :
    (after : ℤ) (l m n : ℕ) (t : EventTable) (es fs : List OperatorEvent) (e : OperatorEvent)
    → IsNumbered t
    → l + m ≤ 500
    → list_events after (pos l) t ≡ ok es
    → get_last? es ≡ some e
    → e.sequence ≡ some n
    → list_events (pos n) (pos m) t ≡ ok fs
    → list_events after (pos (l + m)) t ≡ ok (es ++ fs)
unfolding list_events
list_events_resume (negsuc a) l m n t es fs e numbered fits h last named k = absurd (ground arith)
list_events_resume (pos after) l m n t es fs e (ordered, below) fits h last named k =
    let first : events_from_rows (page after l t.rows) ≡ ok es = ground arith in
    let second : events_from_rows (page n m t.rows) ≡ ok fs = ground arith in
    let (row, here, own) = from_rows-last (page after l t.rows) es e first last in
    let number : row.sequence ≡ n = ground arith in
    let joined =
      ap (λ x. page after l t.rows ++ page x m t.rows) (sym number)
      ∙ page-resume after l m t.rows row ordered here in
    let both = from_rows-append (page after l t.rows) (page n m t.rows) es fs first second in
    let all : events_from_rows (page after (l + m) t.rows) ≡ ok (es ++ fs) =
      ap events_from_rows (sym joined) ∙ both in
    ground arith

-- ===== src/Wildcard.antt =====
-- utils/wildcard.go: the search patterns of a directory query. A rune is its number; the table is
-- kept a row at a time, and a row is filled from its end, as the source fills it.
pub mod Table
pub mod Meaning
mod Tests
use sombrero.Base.{
  ℕ, ◌+◌, Bool, true, false, not, ◌&&◌, ◌||◌, Option, none, some, List, [], ◌∷◌, ltb, ◌==◌,
  if◌then◌else◌,
}

abbrev pub wild_star : ℕ
wild_star = 42

abbrev pub wild_qm : ℕ
wild_qm = 63

abbrev pub wild_dos_dot : ℕ
wild_dos_dot = 34

abbrev pub wild_dos_qm : ℕ
wild_dos_qm = 62

abbrev pub wild_dos_str : ℕ
wild_dos_str = 60

abbrev pub dot : ℕ
dot = 46

-- The entry of a table's row at the position the row starts at. No row is empty.
abbrev pub first : List Bool → Bool
first [] = false
first (b ∷ bs) = b

abbrev pub second : List Bool → Bool
second [] = false
second (b ∷ bs) = first bs

abbrev pub behind : List Bool → List Bool
behind [] = []
behind (b ∷ bs) = bs

abbrev pub first_dot : List (Option ℕ) → Option ℕ
first_dot [] = none
first_dot (d ∷ ds) = d

abbrev pub behind_dot : List (Option ℕ) → List (Option ℕ)
behind_dot [] = []
behind_dot (d ∷ ds) = ds

-- `lastDot` from position `j` on: `none` is the source's -1.
unfoldable pub last_dots : ℕ → List ℕ → List (Option ℕ)
last_dots j [] = none ∷ []
last_dots j (c ∷ n) =
    let rest = last_dots (j + 1) n in
    (elim (first_dot rest) [ some d ↦ some d | none ↦ if c == dot then some j else none ]) ∷ rest

-- Where a DOS star may go on: `lastDot[j] < 0 || j < lastDot[j]`.
abbrev pub before_last : ℕ → Option ℕ → Bool
before_last j none = true
before_last j (some d) = ltb j d

-- `cur[j]` at the end of the name, where `next` is `next[j]`.
unfoldable pub cell_at_end : ℕ → Bool → Bool
cell_at_end p next =
    if p == wild_star
    then next
    else if p == wild_dos_str
    then next
    else if p == wild_qm
    then false
    else if p == wild_dos_qm
    then next
    else if p == wild_dos_dot
    then next
    else false

-- `cur[j]` before the end: `c` is `n[j]`, `next` and `next1` are `next[j]` and `next[j+1]`, and `cur1`
-- is `cur[j+1]`.
unfoldable pub cell : ℕ → ℕ → Bool → Bool → Bool → Bool → Bool
cell p c before next next1 cur1 =
    if p == wild_star
    then next || cur1
    else if p == wild_dos_str
    then next || (before && cur1)
    else if p == wild_qm
    then next1
    else if p == wild_dos_qm
    then (if not (c == dot) then next1 else next)
    else if p == wild_dos_dot
    then (c == dot) && next1
    else (p == c) && next1

-- The inner loop, for one character of the pattern.
unfoldable pub fill_row : ℕ → ℕ → List ℕ → List (Option ℕ) → List Bool → List Bool
fill_row p j [] dots next = cell_at_end p (first next) ∷ []
fill_row p j (c ∷ n) dots next =
    let cur = fill_row p (j + 1) n (behind_dot dots) (behind next) in
    cell p c (before_last j (first_dot dots)) (first next) (second next) (first cur) ∷ cur

unfoldable pub empty_row : List ℕ → List Bool
empty_row [] = true ∷ []
empty_row (c ∷ n) = false ∷ empty_row n

-- The outer loop: the row that is left once the pattern is done.
unfoldable pub last_row : List ℕ → List ℕ → List Bool
last_row [] n = empty_row n
last_row (p ∷ ps) n = fill_row p 0 n (last_dots 0 n) (last_row ps n)

unfoldable pub match_pattern : List ℕ → List ℕ → Bool
unfolding last_row
match_pattern pattern name = first (last_row pattern name)

-- ===== src/Wildcard/Table.antt =====
-- The table of `MatchPattern` against the matching it stands for, which tries a pattern from its
-- front with no table and no positions.
use sombrero.Base.{
  ℕ, ◌+◌, Bool, true, false, not, ◌&&◌, ◌||◌, none, some, List, [], ◌∷◌, ◌≡◌, refl, ap, ◌∙◌, leb,
  ◌==◌, if◌then◌else◌, contains, arith,
}
use sombrero.Wildcard.{
  wild_star, wild_qm, wild_dos_dot, wild_dos_qm, wild_dos_str, dot, first, first_dot, last_dots,
  cell, cell_at_end, fill_row, empty_row, last_row, match_pattern,
}

-- One character of a pattern tried on a name, `rest` being what follows it in the pattern.
unfoldable pub matches_one : ℕ → (List ℕ → Bool) → List ℕ → Bool
matches_one p rest [] =
    if p == wild_qm
    then false
    else if (p == wild_star) || (p == wild_dos_str) || (p == wild_dos_qm) || (p == wild_dos_dot)
    then rest []
    else false
matches_one p rest (c ∷ n) =
    let further = matches_one p rest n in
    if p == wild_star
    then rest (c ∷ n) || further
    else if p == wild_dos_str
    then rest (c ∷ n) || ((not (c == dot) || contains dot n) && further)
    else if p == wild_qm
    then rest n
    else if p == wild_dos_qm
    then (if c == dot then rest (c ∷ n) else rest n)
    else if p == wild_dos_dot
    then (if c == dot then rest n else false)
    else if p == c
    then rest n
    else false

unfoldable pub matches : List ℕ → List ℕ → Bool
matches [] [] = true
matches [] (c ∷ n) = false
matches (p ∷ ps) n = matches_one p (matches ps) n

-- A test on every part of the name from some position to its end.
unfoldable tails_row : (List ℕ → Bool) → List ℕ → List Bool
tails_row f [] = f [] ∷ []
tails_row f (c ∷ n) = f (c ∷ n) ∷ tails_row f n

last_dots-first :
    (j : ℕ) (n : List ℕ)
    → elim (first_dot (last_dots j n)) as (λ _. Bool) [
      | none ↦ not (contains dot n)
      | some d ↦ contains dot n && leb j d
    ]
      ≡ true
unfolding last_dots
last_dots-first j [] = refl
last_dots-first j (c ∷ n) = let rest = last_dots-first (j + 1) n in ground (arith, rest)

tails_row-first : (f : List ℕ → Bool) (n : List ℕ) → first (tails_row f n) ≡ f n
unfolding tails_row
tails_row-first f [] = refl
tails_row-first f (c ∷ n) = refl

fill_row-tails :
    (p j : ℕ) (f : List ℕ → Bool) (n : List ℕ)
    → fill_row p j n (last_dots j n) (tails_row f n) ≡ tails_row (matches_one p f) n
unfolding fill_row last_dots tails_row matches_one cell cell_at_end
fill_row-tails p j f [] = ground arith
fill_row-tails p j f (c ∷ n) =
    let rest = fill_row-tails p (j + 1) f n in
    let dots = last_dots-first (j + 1) n in
    let begin = tails_row-first f n in
    let begin' = tails_row-first (matches_one p f) n in
    ground (arith, rest, dots, begin, begin', ap first rest)

last_row-tails : (ps n : List ℕ) → last_row ps n ≡ tails_row (matches ps) n
unfolding last_row tails_row empty_row matches
last_row-tails [] n = empty_row-tails n
  where
    empty_row-tails : (n : List ℕ) → empty_row n ≡ tails_row (matches []) n
    empty_row-tails [] = refl
    empty_row-tails (c ∷ n) = ap (λ r. false ∷ r) (empty_row-tails n)
last_row-tails (p ∷ ps) n =
    ap (fill_row p 0 n (last_dots 0 n)) (last_row-tails ps n) ∙ fill_row-tails p 0 (matches ps) n

-- The table answers as trying the pattern from its front does.
pub match_pattern-matches :
    (pattern name : List ℕ) → match_pattern pattern name ≡ matches pattern name
unfolding match_pattern
match_pattern-matches pattern name =
    ap first (last_row-tails pattern name) ∙ tails_row-first (matches pattern) name

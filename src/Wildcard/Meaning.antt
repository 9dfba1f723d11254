-- ===== src/Wildcard/Meaning.antt =====
-- What the wildcard characters of `MatchPattern` mean, in terms of the parts of a name.
use sombrero.Base.{
  ℕ, Bool, true, not, ◌&&◌, ◌||◌, List, [], ◌∷◌, ◌++◌, ◌≡◌, refl, ap, sym, ◌∙◌, ◌==◌, ◌↔◌, inl, inr,
  contains, Bool-cases, arith,
}
use sombrero.Wildcard.{
  wild_star, wild_qm, wild_dos_dot, wild_dos_qm, wild_dos_str, dot, match_pattern,
}
use sombrero.Wildcard.Table.{matches_one, matches, match_pattern-matches}

-- What a wildcard may stand for: `spans` says so of the part taken and of the part left.
unfoldable pub Spans : (List ℕ → List ℕ → Bool) → (List ℕ → Bool) → List ℕ → Type 0
Spans spans f n = (a : List ℕ) × (b : List ℕ) × (n ≡ a ++ b) × (spans a b ≡ true) × (f b ≡ true)

abbrev pub anything : List ℕ → List ℕ → Bool
anything a b = true

-- The final period of the name is not in the part taken.
abbrev pub leaves_last_dot : List ℕ → List ℕ → Bool
leaves_last_dot a b = not (contains dot a) || contains dot b

star-split :
    (f : List ℕ → Bool) (n : List ℕ) → matches_one wild_star f n ≡ true → Spans anything f n
unfolding matches_one Spans
star-split f [] h = ([], [], refl, refl, h)
star-split f (c ∷ n) h = elim (Bool-cases (f (c ∷ n))) [
  | inl here ↦ ([], c ∷ n, refl, refl, here)
  | inr miss ↦
      let (a, b, e, _, t) = star-split f n (ground arith) in (c ∷ a, b, ap (λ r. c ∷ r) e, refl, t)
]

star-join :
    (f : List ℕ → Bool) (a b : List ℕ) → f b ≡ true → matches_one wild_star f (a ++ b) ≡ true
unfolding matches_one
star-join f [] [] h = h
star-join f [] (c ∷ n) h = ground arith
star-join f (c ∷ a) b h = let rest = star-join f a b h in ground (arith, rest)

-- A star stands for any characters, or none.
match_pattern-star :
    (pattern name : List ℕ)
    → (match_pattern (wild_star ∷ pattern) name ≡ true)
      ↔ Spans anything (match_pattern pattern) name
unfolding Spans matches
match_pattern-star pattern name = (split, join)
  where
    split :
        match_pattern (wild_star ∷ pattern) name ≡ true
        → Spans anything (match_pattern pattern) name
    split h =
        let known = match_pattern-matches (wild_star ∷ pattern) name in
        let (a, b, e, g, t) = star-split (matches pattern) name (sym known ∙ h) in
        (a, b, e, g, match_pattern-matches pattern b ∙ t)

    join :
        Spans anything (match_pattern pattern) name
        → match_pattern (wild_star ∷ pattern) name ≡ true
    join (a, b, e, _, t) =
        match_pattern-matches (wild_star ∷ pattern) name
        ∙ ap (matches (wild_star ∷ pattern)) e
        ∙ star-join (matches pattern) a b (sym (match_pattern-matches pattern b) ∙ t)

contains-append : (a b : List ℕ) → contains dot (a ++ b) ≡ contains dot a || contains dot b
contains-append [] b = refl
contains-append (c ∷ a) b = let rest = contains-append a b in ground (arith, rest)

dos_star-split :
    (f : List ℕ → Bool) (n : List ℕ)
    → matches_one wild_dos_str f n ≡ true
    → Spans leaves_last_dot f n
unfolding matches_one Spans
dos_star-split f [] h = ([], [], refl, refl, h)
dos_star-split f (c ∷ n) h = elim (Bool-cases (f (c ∷ n))) [
  | inl here ↦ ([], c ∷ n, refl, refl, here)
  | inr miss ↦
      let (a, b, e, g, t) = dos_star-split f n (ground arith) in
      let dots = ap (contains dot) e ∙ contains-append a b in
      (c ∷ a, b, ap (λ r. c ∷ r) e, ground (arith, dots), t)
]

dos_star-join :
    (f : List ℕ → Bool) (a b : List ℕ)
    → leaves_last_dot a b ≡ true
    → f b ≡ true
    → matches_one wild_dos_str f (a ++ b) ≡ true
unfolding matches_one
dos_star-join f [] [] g h = h
dos_star-join f [] (c ∷ n) g h = ground arith
dos_star-join f (c ∷ a) b g h =
    let rest = dos_star-join f a b (ground arith) h in
    let dots = contains-append a b in ground (arith, rest, dots)

-- A DOS star stands for any characters, or none, that do not include the final period of what is
-- left of the name.
match_pattern-dos_star :
    (pattern name : List ℕ)
    → (match_pattern (wild_dos_str ∷ pattern) name ≡ true)
      ↔ Spans leaves_last_dot (match_pattern pattern) name
unfolding Spans matches
match_pattern-dos_star pattern name = (split, join)
  where
    split :
        match_pattern (wild_dos_str ∷ pattern) name ≡ true
        → Spans leaves_last_dot (match_pattern pattern) name
    split h =
        let known = match_pattern-matches (wild_dos_str ∷ pattern) name in
        let (a, b, e, g, t) = dos_star-split (matches pattern) name (sym known ∙ h) in
        (a, b, e, g, match_pattern-matches pattern b ∙ t)

    join :
        Spans leaves_last_dot (match_pattern pattern) name
        → match_pattern (wild_dos_str ∷ pattern) name ≡ true
    join (a, b, e, g, t) =
        match_pattern-matches (wild_dos_str ∷ pattern) name
        ∙ ap (matches (wild_dos_str ∷ pattern)) e
        ∙ dos_star-join (matches pattern) a b g (sym (match_pattern-matches pattern b) ∙ t)

abbrev pub literal : ℕ → Bool
literal c = not (
    (c == wild_star)
    || (c == wild_dos_str)
    || (c == wild_qm)
    || (c == wild_dos_qm)
    || (c == wild_dos_dot))

-- No character of the list is a wildcard.
abbrev pub all_literal : List ℕ → Bool
all_literal [] = true
all_literal (c ∷ cs) = literal c && all_literal cs

matches-literal :
    (pattern name : List ℕ)
    → all_literal pattern ≡ true
    → (matches pattern name ≡ true) ↔ (pattern ≡ name)
unfolding matches matches_one
matches-literal [] [] h = ground arith
matches-literal [] (c ∷ n) h = ground arith
matches-literal (p ∷ ps) [] h = ground arith
matches-literal (p ∷ ps) (c ∷ n) h =
    let rest = matches-literal ps n (ground arith) in ground (arith, rest)

-- A pattern with no wildcard in it matches the one name that it is.
match_pattern-literal :
    (pattern name : List ℕ)
    → all_literal pattern ≡ true
    → (match_pattern pattern name ≡ true) ↔ (pattern ≡ name)
match_pattern-literal pattern name h =
    let known = match_pattern-matches pattern name in
    let exact = matches-literal pattern name h in
    (λ t. exact.0 (sym known ∙ t), λ e. known ∙ exact.1 e)

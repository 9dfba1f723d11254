-- ===== src/Wildcard/Tests.antt =====
-- Patterns run on names, and the theorems at concrete ones.
use sombrero.Base.{true, false, List, [], ◌∷◌, ◌≡◌, refl, ℕ}
use sombrero.Wildcard.{match_pattern, last_row, fill_row, empty_row, last_dots, cell, cell_at_end}
use sombrero.Wildcard.Table.{matches, match_pattern-matches}

-- "ab.c.d", and the pattern "<" followed by `"d`.
abbrev name : List ℕ
name = 97 ∷ 98 ∷ 46 ∷ 99 ∷ 46 ∷ 100 ∷ []

dos_star_stops_at_last : match_pattern (60 ∷ 34 ∷ 100 ∷ []) name ≡ true
unfolding match_pattern last_row fill_row empty_row last_dots cell cell_at_end
dos_star_stops_at_last = refl

qm_needs_a_character : match_pattern (63 ∷ 63 ∷ []) (97 ∷ []) ≡ false
unfolding match_pattern last_row fill_row empty_row last_dots cell cell_at_end
qm_needs_a_character = refl

dos_qm_may_run_out : match_pattern (62 ∷ 62 ∷ []) (97 ∷ []) ≡ true
unfolding match_pattern last_row fill_row empty_row last_dots cell cell_at_end
dos_qm_may_run_out = refl

match_pattern-matches_example :
    match_pattern (42 ∷ 46 ∷ 99 ∷ []) name ≡ matches (42 ∷ 46 ∷ 99 ∷ []) name
match_pattern-matches_example = match_pattern-matches (42 ∷ 46 ∷ 99 ∷ []) name

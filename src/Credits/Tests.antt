-- ===== src/Credits/Tests.antt =====
-- The window of a new connection, and the theorems at it.
use sombrero.Base.{ℕ, ◌+◌, ◌≤◌, true, List, [], ◌∷◌, ◌≡◌, refl, max, length, ◌⊎◌}
use sombrero.Credits.{
  grant_credits, open_ids, find_max_key, at_least_one, max_sequence_window, credits_to_grant,
}
use sombrero.Credits.Window.{distinct, grant_credits-window}

-- A client that is held back gets what it spent.
held_back : credits_to_grant 2 64 600 1000 ≡ 2
unfolding credits_to_grant
held_back = refl

abbrev opened : List ℕ
opened = 3 ∷ 2 ∷ 1 ∷ 0 ∷ []

grant_credits-window_example :
    (length opened ≡ 1 + 3)
    × (distinct opened ≡ true)
    × (at_least_one 0 ≤ 3)
    × (3 ≤ max 3 (at_least_one 0))
    × ((length opened ≤ max_sequence_window) ⊎ (3 ≡ at_least_one 0))
unfolding grant_credits open_ids find_max_key
grant_credits-window_example = grant_credits-window 0 3 0 3 (0 ∷ []) opened refl refl

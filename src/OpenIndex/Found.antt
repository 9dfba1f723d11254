-- ===== src/OpenIndex/Found.antt =====
-- openindex.go: the opens of the global open table, and where the index finds them.
use sombrero.Base.{ℕ, true, some, List, [], ◌∷◌, ◌≡◌, ◌==◌, if◌then◌else◌, contains}
use sombrero.OpenIndex.{Server, entry}
use sombrero.OpenIndex.Names.{file_id, key_of, Command, join, leave}

abbrev pub remove : ℕ → List ℕ → List ℕ
remove p [] = []
remove p (q ∷ qs) = if q == p then remove p qs else q ∷ remove p qs

-- The opens in the global open table after a command, from those before it.
abbrev pub in_table : Command → List ℕ → List ℕ
in_table (join p) live = p ∷ live
in_table (leave p) live = remove p live
in_table _ live = live

pub still_open : List Command → List ℕ → List ℕ
still_open [] live = live
still_open (c ∷ cs) live = still_open cs (in_table c live)

-- Every open of the list is found under the name it carries and its durable file ID.
abbrev pub AllFound : Server → List ℕ → Type 0
AllFound s live = (q : ℕ) → contains q live ≡ true → entry s (key_of s q) (file_id s q) ≡ some q

-- No two opens have one durable file ID, which `registerOpen` draws at random.
abbrev pub HasOwnIds : Server → Type 0
HasOwnIds s = (p q : ℕ) → file_id s p ≡ file_id s q → p ≡ q

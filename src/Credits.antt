-- ===== src/Credits.antt =====
-- conn.go: the command sequence window of a connection, the message IDs that its client may still
-- send. Each function runs under `c.mu`. The window is a Go map used as a set, here a list of the IDs
-- with none twice.
pub mod Window
mod Tests
use sombrero.Base.{
  ℕ, zero, suc, ◌+◌, ◌-◌, ◌/◌, ◌^◌, Bool, true, false, not, ◌||◌, Option, none, some, List, [], ◌∷◌,
  ltb, ◌==◌, if◌then◌else◌, max, contains, length,
}

abbrev pub max_sequence_window : ℕ
max_sequence_window = 65536

abbrev pub add_id : ℕ → List ℕ → List ℕ
add_id i window = if contains i window then window else i ∷ window

abbrev pub remove_id : ℕ → List ℕ → List ℕ
remove_id i [] = []
remove_id i (x ∷ xs) = let rest = remove_id i xs in if x == i then rest else x ∷ rest

-- `utils.FindMaxKey` of a set: 0 where it is empty.
unfoldable pub find_max_key : List ℕ → ℕ
find_max_key [] = 0
find_max_key (x ∷ xs) = max x (find_max_key xs)

-- The IDs from `next` on, as many as there are credits.
unfoldable pub open_ids : ℕ → ℕ → List ℕ → List ℕ
open_ids zero next window = window
open_ids (suc n) next window = open_ids n (next + 1) (add_id next window)

abbrev pub at_least_one : ℕ → ℕ
at_least_one charge = if charge == 0 then 1 else charge

-- The credits granted and the window after it, unless the IDs run out.
unfoldable pub grant_credits : ℕ → ℕ → ℕ → List ℕ → Option (ℕ × List ℕ)
grant_credits mid num_credits charge window =
    let spent = at_least_one charge in
    let room = max_sequence_window - length window in
    let wanted = if ltb room num_credits then room else num_credits in
    let granted = if ltb wanted spent then spent else wanted in
    let found = find_max_key window in
    let last = if found == 0 then mid else found in
    if ltb (2 ^ 64 - 1 - last) granted
    then none
    else some (granted, open_ids granted (last + 1) window)

-- The loop of `retireMessageID` from the ID `i` on, for `n` more IDs and `left` more charges. An ID
-- stays below 2^64 - 1.
unfoldable pub retire_from : ℕ → ℕ → ℕ → List ℕ → List ℕ
retire_from zero i left window = window
retire_from (suc n) i left window =
    let passed = retire_from n (i + 1) left window in
    let taken = retire_from n (i + 1) (left - 1) (remove_id i window) in
    if left == 0 then window else if contains i window then taken else passed

-- `single` is whether the connection has no multi-credit requests.
unfoldable pub retire_message_id : Bool → ℕ → ℕ → List ℕ → List ℕ
retire_message_id single mid charge window =
    if single
    then remove_id mid window
    else retire_from (find_max_key window + 1 - mid) mid (max charge 1) window

-- `waiting >= capacity/2` on the bytes that wait to be uploaded.
pub credits_to_grant : ℕ → ℕ → ℕ → ℕ → ℕ
credits_to_grant charge request waiting capacity =
    let spent = max charge 1 in
    if capacity == 0
    then max spent request
    else if ltb waiting (capacity / 2)
    then max spent request
    else spent

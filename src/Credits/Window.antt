-- ===== src/Credits/Window.antt =====
-- conn.go: what is granted and what is spent, in numbers of message IDs.
use sombrero.Base.{
  ℕ, zero, suc, ◌+◌, ◌-◌, ◌≤◌, ◌<◌, Bool, true, false, not, ◌&&◌, some, List, [], ◌∷◌, ◌≡◌, refl,
  ap, ltb, ◌==◌, if◌then◌else◌, max, contains, length, arith, ◌⊎◌, ==_iff,
}
use sombrero.Credits.{
  max_sequence_window, remove_id, find_max_key, open_ids, at_least_one, grant_credits, retire_from,
  retire_message_id,
}

-- No ID twice.
abbrev pub distinct : List ℕ → Bool
distinct [] = true
distinct (x ∷ xs) = not (contains x xs) && distinct xs

-- Every ID is below a bound.
abbrev all_below : ℕ → List ℕ → Bool
all_below n [] = true
all_below n (x ∷ xs) = ltb x n && all_below n xs

all_below-find_max_key : (n : ℕ) (w : List ℕ) → find_max_key w < n → all_below n w ≡ true
unfolding find_max_key
all_below-find_max_key n [] h = refl
all_below-find_max_key n (x ∷ xs) h =
    let rest = all_below-find_max_key n xs (omega arith) in ground (arith, rest)

all_below-contains : (n : ℕ) (w : List ℕ) → all_below n w ≡ true → contains n w ≡ false
all_below-contains n [] h = refl
all_below-contains n (x ∷ xs) h = let rest = all_below-contains n xs in ground (arith, rest)

all_below-suc : (n : ℕ) (w : List ℕ) → all_below n w ≡ true → all_below (n + 1) w ≡ true
all_below-suc n [] h = refl
all_below-suc n (x ∷ xs) h = let rest = all_below-suc n xs in ground (arith, rest)

-- IDs beyond the window are all new to it.
open_ids-fresh :
    (n next : ℕ) (w : List ℕ)
    → all_below next w ≡ true
    → distinct w ≡ true
    → (length (open_ids n next w) ≡ length w + n) × (distinct (open_ids n next w) ≡ true)
unfolding open_ids
open_ids-fresh zero next w below d = (omega arith, d)
open_ids-fresh (suc n) next w below d =
    let new = all_below-contains next w below in
    let wider = all_below-suc next w below in
    let rest =
      open_ids-fresh n (next + 1) (next ∷ w) (ground (arith, wider)) (ground (arith, new, d)) in
    rw new (omega (arith, rest.0), rest.1)

remove_id-distinct : (i : ℕ) (w : List ℕ) → distinct w ≡ true → distinct (remove_id i w) ≡ true
remove_id-distinct i [] d = refl
remove_id-distinct i (x ∷ xs) d =
    let rest = remove_id-distinct i xs in
    let kept = contains-remove_id x i xs in ground (arith, rest, kept)
  where
    contains-remove_id :
        (x i : ℕ) (w : List ℕ) → contains x w ≡ false → contains x (remove_id i w) ≡ false
    contains-remove_id x i [] h = refl
    contains-remove_id x i (y ∷ ys) h = let rest = contains-remove_id x i ys in ground (arith, rest)

length-remove_absent :
    (i : ℕ) (w : List ℕ) → contains i w ≡ false → length (remove_id i w) ≡ length w
length-remove_absent i [] h = refl
length-remove_absent i (x ∷ xs) h = let rest = length-remove_absent i xs in ground (arith, rest)

length-remove_id :
    (i : ℕ) (w : List ℕ)
    → distinct w ≡ true
    → contains i w ≡ true
    → length (remove_id i w) + 1 ≡ length w
length-remove_id i [] d h = ground arith
length-remove_id i (x ∷ xs) d h =
    let rest = length-remove_id i xs in
    let absent = length-remove_absent i xs in
    let same = λ (e : (x == i) ≡ true). ap (λ k. contains k xs) ((==_iff x i).0 e) in
    ground (arith, rest, absent, same)

retire_from-spent :
    (n i left : ℕ) (w : List ℕ)
    → distinct w ≡ true
    → (distinct (retire_from n i left w) ≡ true)
      × (length (retire_from n i left w) ≤ length w)
      × (length w ≤ length (retire_from n i left w) + left)
unfolding retire_from
retire_from-spent zero i left w d = (d, omega arith, omega arith)
retire_from-spent (suc n) i left w d =
    let passed = retire_from-spent n (i + 1) left w d in
    let taken = retire_from-spent n (i + 1) (left - 1) (remove_id i w) (remove_id-distinct i w d) in
    let one = length-remove_id i w d in ground (arith, passed, taken, one)

retire_from-first :
    (n k i left : ℕ) (w : List ℕ)
    → n ≡ k + 1
    → 1 ≤ left
    → contains i w ≡ true
    → retire_from n i left w ≡ retire_from k (i + 1) (left - 1) (remove_id i w)
unfolding retire_from
retire_from-first zero k i left w e l h = absurd (omega arith)
retire_from-first (suc n) k i left w e l h =
    let same : n ≡ k = omega arith in
    let onto = ap (λ m. retire_from m (i + 1) (left - 1) (remove_id i w)) same in
    ground (arith, onto)

-- A grant opens the window by exactly the credits that it tells of, all of them new IDs: at least
-- those that the request spent, at most those or what was asked for, and never to more than the
-- window holds but to make up for what was spent.
pub grant_credits-window :
    (mid num_credits charge granted : ℕ) (w after : List ℕ)
    → distinct w ≡ true
    → grant_credits mid num_credits charge w ≡ some (granted, after)
    → (length after ≡ length w + granted)
      × (distinct after ≡ true)
      × (at_least_one charge ≤ granted)
      × (granted ≤ max num_credits (at_least_one charge))
      × ((length after ≤ max_sequence_window) ⊎ (granted ≡ at_least_one charge))
unfolding grant_credits
grant_credits-window mid num_credits charge granted w after d h =
    let found = find_max_key w in
    let last = if found == 0 then mid else found in
    let below = all_below-find_max_key (last + 1) w (ground arith) in
    let spent = at_least_one charge in
    let room = max_sequence_window - length w in
    let wanted = if ltb room num_credits then room else num_credits in
    let g = if ltb wanted spent then spent else wanted in
    let fresh = open_ids-fresh g (last + 1) w below d in ground (arith, fresh, h)

find_max_key-contains : (i : ℕ) (w : List ℕ) → contains i w ≡ true → i ≤ find_max_key w
unfolding find_max_key
find_max_key-contains i [] h = ground arith
find_max_key-contains i (x ∷ xs) h = let rest = find_max_key-contains i xs in ground (arith, rest)

-- A request takes its own ID out of the window and at most as many as it charged for, one where it
-- charged for none.
retire_message_id-spent :
    (single : Bool) (mid charge : ℕ) (w : List ℕ)
    → distinct w ≡ true
    → contains mid w ≡ true
    → (distinct (retire_message_id single mid charge w) ≡ true)
      × (length (retire_message_id single mid charge w) < length w)
      × (length w ≤ length (retire_message_id single mid charge w) + max charge 1)
unfolding retire_message_id
retire_message_id-spent single mid charge w d h =
    let reach = find_max_key-contains mid w h in
    let one = length-remove_id mid w d h in
    let single_left = remove_id-distinct mid w d in
    let rest =
      retire_from-spent (find_max_key w - mid) (mid + 1) (max charge 1 - 1) (remove_id mid w)
        single_left in
    let first : retire_from (find_max_key w + 1 - mid) mid (max charge 1) w
        ≡ retire_from (find_max_key w - mid) (mid + 1) (max charge 1 - 1) (remove_id mid w) =
      retire_from-first (find_max_key w + 1 - mid) (find_max_key w - mid) mid (max charge 1) w
        (omega (arith, reach)) (omega arith) h in
    ground (arith, one, single_left, rest, ap length first, ap distinct first)

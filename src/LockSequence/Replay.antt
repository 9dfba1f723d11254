-- ===== src/LockSequence/Replay.antt =====
-- The array of lock sequences against a plain memory: for each index the number remembered, if any.
use sombrero.Base.{
  ℕ, zero, suc, ◌-◌, ◌<◌, ◌≡◌, refl, Bool, true, false, not, ◌&&◌, Option, none, some, List, [],
  ◌∷◌, arith, ◌==◌, if◌then◌else◌, get_or, set, length,
}
use sombrero.LockSequence.{
  LockSequenceEntry, lock_sequence_entries, blank, names_no_entry, replayed_lock, remember_lock,
}

-- The number that the open remembers under an index.
abbrev pub recall : List LockSequenceEntry → ℕ → Option ℕ
recall entries index =
    let entry = get_or entries (index - 1) blank in
    if names_no_entry index then none else if entry.valid then some entry.number else none

abbrev matches : ℕ → Option ℕ → Bool
matches number none = false
matches number (some n) = n == number

get_or-set {ℓ} :
    {A : Type ℓ} (xs : List A) (i j : ℕ) (v d : A)
    → i < length xs
    → get_or (set xs i v) j d ≡ (if j == i then v else get_or xs j d)
get_or-set [] i j v d h = absurd (omega arith)
get_or-set (x ∷ xs) zero zero v d h = refl
get_or-set (x ∷ xs) zero (suc j) v d h = ground arith
get_or-set (x ∷ xs) (suc i) zero v d h = ground arith
get_or-set (x ∷ xs) (suc i) (suc j) v d h = ground (arith, get_or-set xs i j v d)

-- A request is answered as a replay exactly when its number is the one remembered under its index.
-- Any other number under an index makes the open forget that index and leaves every other as it was.
pub replayed_lock-recall :
    (index number other : ℕ) (entries : List LockSequenceEntry)
    → length entries ≡ lock_sequence_entries
    → ((replayed_lock index number entries).0 ≡ matches number (recall entries index))
      × (recall (replayed_lock index number entries).1 other ≡ (
          if (other == index) && not (matches number (recall entries index))
          then none
          else recall entries other))
unfolding replayed_lock
replayed_lock-recall index number other entries h =
    let entry = get_or entries (index - 1) blank in
    ground
      (arith, get_or-set entries (index - 1) (other - 1) (record entry { valid = false }) blank)

-- Remembering a request overwrites what is known under its index, where it names an entry, and
-- leaves every other index as it was.
remember_lock-recall :
    (index number other : ℕ) (entries : List LockSequenceEntry)
    → length entries ≡ lock_sequence_entries
    → recall (remember_lock index number entries) other ≡ (
        if (other == index) && not (names_no_entry index)
        then some number
        else recall entries other)
unfolding remember_lock
remember_lock-recall index number other entries h = ground (
  arith,
  get_or-set entries (index - 1) (other - 1) (record { number = number; valid = true }) blank,
)

-- ===== src/Locks/Undo.antt =====
-- lock.go: giving ranges back, by an unlock, by dropping a lock that was granted, and at the end of a
-- handle.
use sombrero.Base.{
  ℕ, suc, ◌+◌, ◌≡◌, ◌⊎◌, inl, inr, refl, ap, ◌∙◌, Bool, true, false, not, ◌&&◌, ◌||◌, Option, none,
  some, List, [], ◌∷◌, ◌++◌, arith, ◌==◌, has, length, remove_at, get_elem?, All, Bool-cases,
  Option-cases, get_elem?-append_length, remove_at-append_length, length-append, ◌↔◌,
}
use sombrero.ByteRange.{ByteRange, range_eq}
use sombrero.ByteRange.Overlap.{range_eq_iff}
use sombrero.Locks.Conflict.{locks-lock_changed}
use sombrero.Locks.{
  FileState, ByteRangeLock, Lock, Status, status_ok, status_range_not_locked, claim, range_of,
  append_lock, lock_eq, drop_lock, find_down, give_back, find_unlock, unlock_ranges, kept_locks,
  release_locks, remove_lock,
}

pub lock_eq_iff : (a b : ByteRangeLock) → (lock_eq a b ≡ true) ↔ (a ≡ b)
unfolding lock_eq
lock_eq_iff a b = ground (arith, range_eq_iff a.range b.range)

find_down-last :
    (b : ByteRangeLock) (xs : List ByteRangeLock) (n : ℕ)
    → get_elem? xs n ≡ some b
    → find_down b xs (suc n) ≡ some n
unfolding find_down
find_down-last b xs n e = rw (e, (lock_eq_iff b b).1 refl, find_down)

-- A range granted to a client that no longer waits for it is given back, and what is left are the
-- locks that were there before it was granted, in the same order.
pub drop_lock-claim :
    (op : ℕ) (l : Lock) (fs : FileState)
    → (drop_lock op l (append_lock fs (claim op l))).locks ≡ fs.locks
unfolding drop_lock
drop_lock-claim op l fs =
    let n : length (fs.locks ++ claim op l ∷ []) ≡ suc (length fs.locks) =
      omega (arith, length-append fs.locks (claim op l ∷ [])) in
    let found =
      find_down-last (claim op l) _ (length fs.locks)
        (get_elem?-append_length fs.locks (claim op l)) in
    rw (n, found, drop_lock) (locks-lock_changed _ ∙ remove_at-append_length fs.locks (claim op l))

-- A lock of the open on exactly that range.
abbrev pub Holds : ℕ → ByteRange → ByteRangeLock → Type 0
Holds op r held = (held.owner ≡ op) × (held.range ≡ r)

-- A lock that is not an exclusive one of the open on exactly that range.
abbrev pub HoldsShared : ℕ → ByteRange → ByteRangeLock → Type 0
HoldsShared op r held = ¬ (Holds op r held × (held.exclusive ≡ true))

-- What the search of an unlock answers, over the locks from `i` on, with the one found so far.
abbrev Found : ℕ → ByteRange → ℕ → Option ℕ → List ByteRangeLock → Option ℕ → Type 0
Found op r i found xs none = (found ≡ none) × All (λ x. ¬ Holds op r x) xs
Found op r i found xs (some j) =
    ((k : ℕ) × (b : ByteRangeLock) × (j ≡ i + k)
      × (get_elem? xs k ≡ some b)
      × Holds op r b
      × ((b.exclusive ≡ true) ⊎ ((found ≡ none) × All (HoldsShared op r) xs)))
    ⊎ ((found ≡ some j) × All (HoldsShared op r) xs)

module _ (op : ℕ) (r : ByteRange) (i : ℕ) (x : ByteRangeLock) (rest : List ByteRangeLock) where
  Found-skip :
      (found res : Option ℕ)
      → HoldsShared op r x
      → (found ≡ none → ¬ Holds op r x)
      → Found op r (i + 1) found rest res
      → Found op r i found (x ∷ rest) res
  Found-skip found none shared free (e, h) = (e, (free e, h))
  Found-skip found (some j) shared free (inl (k, b, e, g, h, inl ex)) =
      inl (suc k, b, omega arith, g, h, inl ex)
  Found-skip found (some j) shared free (inl (k, b, e, g, h, inr (n, all))) =
      inl (suc k, b, omega arith, g, h, inr (n, (shared, all)))
  Found-skip found (some j) shared free (inr (e, all)) = inr (e, (shared, all))

  Found-first :
      (res : Option ℕ)
      → Holds op r x
      → x.exclusive ≡ false
      → Found op r (i + 1) (some i) rest res
      → Found op r i none (x ∷ rest) res
  Found-first none holds shared (e, h) = cc
  Found-first (some j) holds shared (inl (k, b, e, g, h, inl ex)) =
      inl (suc k, b, omega arith, g, h, inl ex)
  Found-first (some j) holds shared (inl (k, b, e, g, h, inr (n, all))) = cc
  Found-first (some j) holds shared (inr (e, all)) =
      inl (0, x, ground arith, refl, holds, inr (refl, ((λ t. cc (shared, t.1)), all)))

find_unlock-Found :
    (op : ℕ) (r : ByteRange) (i : ℕ) (found : Option ℕ) (xs : List ByteRangeLock)
    → Found op r i found xs (find_unlock op r i found xs)
unfolding find_unlock
find_unlock-Found op r i none [] = (refl, tt)
find_unlock-Found op r i (some j) [] = inr (refl, tt)
find_unlock-Found op r i found (x ∷ rest) =
    elim (Bool-cases (not (x.owner == op) || not (range_eq x.range r))) [
      | inl other ↦
          let stranger : ¬ Holds op r x = ground (arith, range_eq_iff x.range r) in
          simp (other, find_unlock)
            (Found-skip op r i x rest found _ (λ t. stranger t.0) (λ n. stranger)
              (find_unlock-Found op r (i + 1) found rest))
      | inr mine ↦
          let holds : Holds op r x = ground (arith, range_eq_iff x.range r) in
          elim (Bool-cases x.exclusive) [
            | inl ex ↦ simp (mine, ex, find_unlock) (inl (0, x, omega arith, refl, holds, inl ex))
            | inr sh ↦ elim (Option-cases found) [
              | inl n ↦
                  simp (n, mine, sh, find_unlock)
                    (Found-first op r i x rest _ holds sh
                      (find_unlock-Found op r (i + 1) (some i) rest))
              | inr (j, e) ↦
                  simp (e, mine, sh, find_unlock)
                    (Found-skip op r i x rest (some j) _ (λ t. cc (sh, t.1)) (λ n. cc)
                      (find_unlock-Found op r (i + 1) (some j) rest))
            ]
          ]
    ]

-- What the unlock of one range comes to.
pub data Unlocked (op : ℕ) (l : Lock) (fs : FileState) (r : Status × FileState) : Type 0 where
  not_locked :
      r.0 ≡ status_range_not_locked
      → r.1 ≡ fs
      → All (λ b. ¬ Holds op (range_of l) b) fs.locks
      → Unlocked op l fs r
  given_back :
      r.0 ≡ status_ok
      → (k : ℕ) (b : ByteRangeLock) → get_elem? fs.locks k ≡ some b
      → Holds op (range_of l) b
      → (b.exclusive ≡ true) ⊎ All (HoldsShared op (range_of l)) fs.locks
      → r.1.locks ≡ remove_at k fs.locks
      → Unlocked op l fs r

unlock_ranges-Found :
    (op : ℕ) (l : Lock) (fs : FileState) (found : Option ℕ)
    → has l.flags 3 ≡ false
    → find_unlock op (range_of l) 0 none fs.locks ≡ found
    → Found op (range_of l) 0 none fs.locks found
    → Unlocked op l fs (unlock_ranges op (l ∷ []) fs)
unfolding unlock_ranges give_back
unlock_ranges-Found op l fs none h e f = simp (h, e) (not_locked refl refl f.1)
unlock_ranges-Found op l fs (some j) h e (inl (k, b, j_eq, g, holds, why)) =
    simp (h, e)
      (given_back refl j b (ap (get_elem? fs.locks) (omega arith) ∙ g) holds
        (elim why [ inl ex ↦ inl ex | inr t ↦ inr t.1 ]) (locks-lock_changed (remove_lock j fs)))
unlock_ranges-Found op l fs (some j) h e (inr (n, all)) = cc

-- An unlock of one range either answers that the open holds no lock on exactly that range and
-- changes nothing, or takes away one lock of the open on exactly that range: an exclusive one if
-- there is one, and else a shared one.
pub unlock_ranges-Unlocked :
    (op : ℕ) (l : Lock) (fs : FileState)
    → has l.flags 3 ≡ false
    → Unlocked op l fs (unlock_ranges op (l ∷ []) fs)
unlock_ranges-Unlocked op l fs h =
    unlock_ranges-Found op l fs _ h refl (find_unlock-Found op (range_of l) 0 none fs.locks)

-- Whether the lock is among those held.
abbrev pub is_held : ByteRangeLock → List ByteRangeLock → Bool
is_held b [] = false
is_held b (x ∷ xs) = lock_eq x b || is_held b xs

is_held-kept_locks :
    (op : ℕ) (b : ByteRangeLock) (xs : List ByteRangeLock)
    → is_held b (kept_locks op xs) ≡ (is_held b xs && not (b.owner == op))
unfolding kept_locks
is_held-kept_locks op b [] = refl
is_held-kept_locks op b (x ∷ xs) = ground (arith, is_held-kept_locks op b xs, lock_eq_iff x b)

-- The end of a handle takes away every lock of that open, and no other open's.
pub release_locks-is_held :
    (op : ℕ) (b : ByteRangeLock) (fs : FileState)
    → is_held b (release_locks op fs).locks ≡ (is_held b fs.locks && not (b.owner == op))
unfolding release_locks
release_locks-is_held op b fs = is_held-kept_locks op b fs.locks

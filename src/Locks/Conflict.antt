-- ===== src/Locks/Conflict.antt =====
-- Mutual exclusion: whatever the opens of a file do, two of them never hold ranges that overlap
-- unless both ranges are shared.
use sombrero.Base.{
  ℕ, zero, suc, ◌+◌, ◌-◌, ◌≡◌, ◌≢◌, ◌⊎◌, inl, inr, ap, Bool, true, false, none, some, List, [], ◌∷◌,
  ◌++◌, arith, ltb, ◌==◌, has, length, get_elem?, take, remove_at, All, All-append, All-remove_at,
  Bool-cases, Option-cases, All-get_elem?, some_inj, subst, sym, ◌∙◌,
}
use sombrero.ByteRange.{overlaps}
use sombrero.ByteRange.Overlap.{overlaps_symm}
use sombrero.Locks.{
  FileState, ByteRangeLock, Lock, Command, lock, unlock, await, give_up, release, claim,
  append_lock, lock_conflict, lock_waiter, lock_changed, put_back, take_ranges, lock_ranges,
  await_lock, drop_lock, find_down, give_back, find_unlock, unlock_ranges, kept_locks,
  release_locks, remove_lock, step, run, unlocked, range_of,
}

-- What the earlier of two locks on a file leaves to the later one.
abbrev pub Agree : ByteRangeLock → ByteRangeLock → Type 0
Agree a b =
    overlaps a.range b.range ≡ true
    → ((a.exclusive ≡ true) × (a.owner ≡ b.owner)) ⊎ ((a.exclusive ≡ false) × (b.exclusive ≡ false))

abbrev pub Sound : List ByteRangeLock → Type 0
Sound [] = Unit {0}
Sound (a ∷ rest) = All (Agree a) rest × Sound rest

abbrev pub AgreesWith : ByteRangeLock → ByteRangeLock → Type 0
AgreesWith b a = Agree a b

pub agree_of_no_conflict :
    (locks : List ByteRangeLock) (b : ByteRangeLock)
    → lock_conflict locks b.owner b.range b.exclusive ≡ false
    → All (AgreesWith b) locks
unfolding lock_conflict
agree_of_no_conflict [] b h = tt
agree_of_no_conflict (a ∷ rest) b h = (ground arith, agree_of_no_conflict rest b (ground arith))

Sound-append_one :
    (xs : List ByteRangeLock) (b : ByteRangeLock)
    → Sound xs
    → All (AgreesWith b) xs
    → Sound (xs ++ b ∷ [])
Sound-append_one [] b s h = (tt, tt)
Sound-append_one (a ∷ xs) b s h =
    (All-append (Agree a) xs (b ∷ []) s.0 (h.0, tt), Sound-append_one xs b s.1 h.1)

All-take {ℓ κ} : {A : Type ℓ} (P : A → Type κ) (n : ℕ) (xs : List A) → All P xs → All P (take n xs)
All-take P zero xs h = tt
All-take P (suc n) [] h = tt
All-take P (suc n) (x ∷ xs) h = (h.0, All-take P n xs h.1)

Sound-take : (n : ℕ) (xs : List ByteRangeLock) → Sound xs → Sound (take n xs)
Sound-take zero xs s = tt
Sound-take (suc n) [] s = tt
Sound-take (suc n) (x ∷ xs) s = (All-take (Agree x) n xs s.0, Sound-take n xs s.1)

Sound-remove_at : (i : ℕ) (xs : List ByteRangeLock) → Sound xs → Sound (remove_at i xs)
Sound-remove_at i [] s = tt
Sound-remove_at zero (x ∷ xs) s = s.1
Sound-remove_at (suc i) (x ∷ xs) s = (All-remove_at (Agree x) i xs s.0, Sound-remove_at i xs s.1)

All-kept_locks {κ} :
    (P : ByteRangeLock → Type κ) (op : ℕ) (xs : List ByteRangeLock)
    → All P xs
    → All P (kept_locks op xs)
unfolding kept_locks
All-kept_locks P op [] h = tt
All-kept_locks P op (x ∷ xs) h = elim (Bool-cases (x.owner == op)) [
  | inl e ↦ rw e (All-kept_locks P op xs h.1)
  | inr e ↦ rw e (h.0, All-kept_locks P op xs h.1)
]

Sound-kept_locks : (op : ℕ) (xs : List ByteRangeLock) → Sound xs → Sound (kept_locks op xs)
unfolding kept_locks
Sound-kept_locks op [] s = tt
Sound-kept_locks op (x ∷ xs) s = elim (Bool-cases (x.owner == op)) [
  | inl e ↦ rw e (Sound-kept_locks op xs s.1)
  | inr e ↦ rw e (All-kept_locks (Agree x) op xs s.0, Sound-kept_locks op xs s.1)
]

abbrev pub IsSound : FileState → Type 0
IsSound fs = Sound fs.locks

pub locks-lock_changed : (fs : FileState) → (lock_changed fs).locks ≡ fs.locks
unfolding lock_changed
locks-lock_changed fs = ground arith

pub locks-lock_waiter : (fs : FileState) → (lock_waiter fs).1.locks ≡ fs.locks
unfolding lock_waiter
locks-lock_waiter fs = ground arith

append_lock-IsSound :
    (op : ℕ) (l : Lock) (fs : FileState)
    → lock_conflict fs.locks op (claim op l).range (claim op l).exclusive ≡ false
    → IsSound fs
    → IsSound (append_lock fs (claim op l))
append_lock-IsSound op l fs h s =
    Sound-append_one fs.locks (claim op l) s (agree_of_no_conflict fs.locks (claim op l) h)

put_back-IsSound : (n : ℕ) (fs : FileState) → IsSound fs → IsSound (put_back n fs)
unfolding put_back
put_back-IsSound n fs s = elim (Bool-cases (ltb 0 n)) [
  | inl e ↦ rw (e, locks-lock_changed) (Sound-take (length fs.locks - n) fs.locks s)
  | inr e ↦ rw e s
]

take_ranges-IsSound :
    (op taken : ℕ) (ls : List Lock) (fs : FileState)
    → IsSound fs
    → IsSound (take_ranges op taken ls fs).2
unfolding take_ranges
take_ranges-IsSound op taken [] fs s = s
take_ranges-IsSound op taken (l ∷ ls) fs s = ground (
  arith,
  put_back-IsSound taken fs s,
  append_lock-IsSound op l fs,
  take_ranges-IsSound op (taken + 1) ls (append_lock fs (claim op l)),
)

lock_ranges-IsSound :
    (op : ℕ) (ls : List Lock) (fs : FileState) → IsSound fs → IsSound (lock_ranges op ls fs).2
unfolding lock_ranges
lock_ranges-IsSound op ls fs s = ground (arith, take_ranges-IsSound op 0 ls fs s)

await_lock-IsSound :
    (op : ℕ) (l : Lock) (stop gone pick : Bool) (fs : FileState)
    → IsSound fs
    → IsSound (await_lock op l stop gone pick fs).1
unfolding await_lock
await_lock-IsSound op l stop gone pick fs s =
    ground (arith, append_lock-IsSound op l fs, ap Sound (locks-lock_waiter fs))

remove_lock-IsSound :
    (i : ℕ) (fs : FileState) → IsSound fs → IsSound (lock_changed (remove_lock i fs))
remove_lock-IsSound i fs s =
    rw (locks-lock_changed (remove_lock i fs)) (Sound-remove_at i fs.locks s)

drop_lock-IsSound : (op : ℕ) (l : Lock) (fs : FileState) → IsSound fs → IsSound (drop_lock op l fs)
unfolding drop_lock
drop_lock-IsSound op l fs s =
    elim (Option-cases (find_down (claim op l) fs.locks (length fs.locks))) [
      | inl e ↦ rw (e, drop_lock) s
      | inr (i, e) ↦ rw (e, drop_lock) (remove_lock-IsSound i fs s)
    ]

give_back-IsSound :
    (op : ℕ) (ls : List Lock) (given : Bool) (fs : FileState)
    → IsSound fs
    → IsSound (give_back op ls given fs).2
unfolding give_back
give_back-IsSound op [] given fs s = s
give_back-IsSound op (l ∷ ls) given fs s = elim (Bool-cases (has l.flags 3)) [
  | inl e ↦ rw (e, give_back) s
  | inr e ↦ elim (Option-cases (find_unlock op (range_of l) 0 none fs.locks)) [
    | inl n ↦ rw (e, n, give_back) s
    | inr (i, n) ↦
        rw (e, n, give_back)
          (give_back-IsSound op ls true (remove_lock i fs) (Sound-remove_at i fs.locks s))
  ]
]

unlock_ranges-IsSound :
    (op : ℕ) (ls : List Lock) (fs : FileState) → IsSound fs → IsSound (unlock_ranges op ls fs).1
unfolding unlock_ranges
unlock_ranges-IsSound op ls fs s = ground (
  arith,
  give_back-IsSound op ls false fs s,
  ap Sound (locks-lock_changed (give_back op ls false fs).2),
)

release_locks-IsSound : (op : ℕ) (fs : FileState) → IsSound fs → IsSound (release_locks op fs)
unfolding release_locks
release_locks-IsSound op fs s = Sound-kept_locks op fs.locks s

step-IsSound : (c : Command) (fs : FileState) → IsSound fs → IsSound (step c fs)
unfolding step
step-IsSound (lock op ls) fs s = lock_ranges-IsSound op ls fs s
step-IsSound (unlock op ls) fs s = unlock_ranges-IsSound op ls fs s
step-IsSound (await op l stop gone pick) fs s = await_lock-IsSound op l stop gone pick fs s
step-IsSound (give_up op l) fs s = drop_lock-IsSound op l fs s
step-IsSound (release op) fs s = release_locks-IsSound op fs s

pub run-IsSound : (cs : List Command) (fs : FileState) → IsSound fs → IsSound (run cs fs)
unfolding run
run-IsSound [] fs s = s
run-IsSound (c ∷ cs) fs s = run-IsSound cs (step c fs) (step-IsSound c fs s)

abbrev pub BothShared : ByteRangeLock → ByteRangeLock → Type 0
BothShared a b = (a.exclusive ≡ false) × (b.exclusive ≡ false)

Agree-BothShared :
    (a b : ByteRangeLock)
    → Agree a b
    → overlaps a.range b.range ≡ true
    → a.owner ≢ b.owner
    → BothShared a b
Agree-BothShared a b h o d = elim (h o) [ inl t ↦ absurd (d t.1) | inr t ↦ t ]

Sound-BothShared :
    (xs : List ByteRangeLock) (i j : ℕ) (a b : ByteRangeLock)
    → Sound xs
    → get_elem? xs i ≡ some a
    → get_elem? xs j ≡ some b
    → a.owner ≢ b.owner
    → overlaps a.range b.range ≡ true
    → BothShared a b
Sound-BothShared [] i j a b s p q d o = cc
Sound-BothShared (x ∷ xs) zero zero a b s p q d o = absurd (d (ground arith))
Sound-BothShared (x ∷ xs) zero (suc j) a b s p q d o =
    Agree-BothShared a b
      (subst (λ y. Agree y b) (some_inj p) (All-get_elem? (Agree x) xs j b s.0 q)) o d
Sound-BothShared (x ∷ xs) (suc i) zero a b s p q d o =
    let t =
      Agree-BothShared b a
        (subst (λ y. Agree y a) (some_inj q) (All-get_elem? (Agree x) xs i a s.0 p))
        (overlaps_symm b.range a.range ∙ o) (λ e. d (sym e)) in
    (t.1, t.0)
Sound-BothShared (x ∷ xs) (suc i) (suc j) a b s p q d o = Sound-BothShared xs i j a b s.1 p q d o

-- After any sequence of lock requests, waits, unlocks, abandoned grants and closed handles on a
-- file that started unlocked, two locks of different opens whose ranges overlap are both shared.
pub run-exclusion :
    (cs : List Command) (i j : ℕ) (a b : ByteRangeLock)
    → get_elem? (run cs unlocked).locks i ≡ some a
    → get_elem? (run cs unlocked).locks j ≡ some b
    → a.owner ≢ b.owner
    → overlaps a.range b.range ≡ true
    → BothShared a b
run-exclusion cs i j a b p q d o =
    Sound-BothShared (run cs unlocked).locks i j a b (run-IsSound cs unlocked tt) p q d o

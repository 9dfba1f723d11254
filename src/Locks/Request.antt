-- ===== src/Locks/Request.antt =====
-- What a lock request comes to, on every branch.
use sombrero.Base.{
  ℕ, zero, suc, ◌+◌, ◌-◌, ◌≤◌, ◌≡◌, ◌⊎◌, inl, inr, refl, ap, sym, ◌∙◌, Bool, true, false, List, [],
  ◌∷◌, ◌++◌, map, arith, ltb, length, take, subst, ◌<◌, Bool-cases, append-nil, append_assoc,
  take-append_at, length-append,
}
use mathlib.Core.Path.{ap₂}
use sombrero.Locks.Conflict.{locks-lock_changed}
use sombrero.Locks.{
  FileState, ByteRangeLock, Lock, Status, status_ok, status_invalid_parameter,
  status_lock_not_granted, claim, range_of, wants_exclusive, fails_immediately, append_lock,
  lock_conflict, put_back, take_ranges, lock_ranges, valid_lock_flags, all_fail_immediately,
}

-- Every range can be added in turn: its flags are in order, and no lock is in its way, those held
-- at first and those added before it.
abbrev pub CanTake : ℕ → List ByteRangeLock → List Lock → Type 0
CanTake op locks [] = Unit
CanTake op locks (l ∷ rest) =
    (valid_lock_flags l.flags ≡ true)
    × (lock_conflict locks op (range_of l) (wants_exclusive l) ≡ false)
    × CanTake op (locks ++ claim op l ∷ []) rest

abbrev conflicts : ℕ → Lock → List ByteRangeLock → Bool
conflicts op l locks = lock_conflict locks op (range_of l) (wants_exclusive l)

-- The ways in which a lock request ends, from the locks that were held before it.
pub data Outcome (op : ℕ) (ls : List Lock) (fs : FileState) (r : Status × Bool × FileState)
    : Type 0 where
  granted :
      r.0 ≡ status_ok
      → r.1 ≡ false
      → r.2.locks ≡ fs.locks ++ map (claim op) ls
      → CanTake op fs.locks ls
      → Outcome op ls fs r
  waiting :
      r.0 ≡ status_ok
      → r.1 ≡ true
      → r.2 ≡ fs
      → (l : Lock) → ls ≡ l ∷ []
      → valid_lock_flags l.flags ≡ true
      → fails_immediately l ≡ false
      → lock_conflict fs.locks op (range_of l) (wants_exclusive l) ≡ true
      → Outcome op ls fs r
  refused :
      r.0 ≡ status_lock_not_granted
      → r.1 ≡ false
      → r.2.locks ≡ fs.locks
      → (taken : List Lock) (l : Lock) (left : List Lock) → ls ≡ taken ++ l ∷ left
      → CanTake op fs.locks taken
      → valid_lock_flags l.flags ≡ true
      → fails_immediately l ≡ true
      → lock_conflict (fs.locks ++ map (claim op) taken) op (range_of l) (wants_exclusive l) ≡ true
      → Outcome op ls fs r
  malformed :
      r.0 ≡ status_invalid_parameter
      → r.1 ≡ false
      → (taken : List Lock) (l : Lock) (left : List Lock) → ls ≡ taken ++ l ∷ left
      → r.2.locks ≡ fs.locks ++ map (claim op) taken
      → CanTake op fs.locks taken
      → valid_lock_flags l.flags ≡ false
      → Outcome op ls fs r
  impatient :
      r.0 ≡ status_invalid_parameter
      → r.1 ≡ false
      → r.2 ≡ fs
      → 1 < length ls
      → all_fail_immediately ls ≡ false
      → Outcome op ls fs r

CanTake-more :
    (op : ℕ) (locks : List ByteRangeLock) (taken : List Lock) (l : Lock)
    → CanTake op locks taken
    → valid_lock_flags l.flags ≡ true
    → lock_conflict (locks ++ map (claim op) taken) op (range_of l) (wants_exclusive l) ≡ false
    → CanTake op locks (taken ++ l ∷ [])
CanTake-more op locks [] l c good free =
    (good, ap (conflicts op l) (sym (append-nil locks)) ∙ free, tt)
CanTake-more op locks (x ∷ xs) l (valid, clear, c) good free = (
  valid,
  clear,
  CanTake-more op (locks ++ claim op x ∷ []) xs l c good
      (ap (conflicts op l) (append_assoc locks (claim op x ∷ []) (map (claim op) xs)) ∙ free),
)

nil_of_length {ℓ} : {A : Type ℓ} (xs : List A) → length xs ≤ 0 → xs ≡ []
nil_of_length [] h = refl
nil_of_length (x ∷ xs) h = absurd (omega arith)

put_back-locks :
    (n : ℕ) (fs : FileState) (kept taken : List ByteRangeLock)
    → fs.locks ≡ kept ++ taken
    → length taken ≡ n
    → (put_back n fs).locks ≡ kept
unfolding put_back
put_back-locks zero fs kept [] e h = e ∙ append-nil kept
put_back-locks zero fs kept (x ∷ xs) e h = absurd (omega arith)
put_back-locks (suc n) fs kept taken e h =
    let positive : ltb 0 (suc n) ≡ true = ground arith in
    rw positive (
      locks-lock_changed (record fs { locks = take (length fs.locks - suc n) fs.locks })
      ∙ ap (take (length fs.locks - suc n)) e
      ∙ take-append_at (length fs.locks - suc n) kept taken
          (omega (arith, ap length e, length-append kept taken)))

map-claim_append :
    (op : ℕ) (taken : List Lock) (l : Lock)
    → map (claim op) (taken ++ l ∷ []) ≡ map (claim op) taken ++ claim op l ∷ []
map-claim_append op [] l = refl
map-claim_append op (x ∷ xs) l = ap (◌∷◌ (claim op x)) (map-claim_append op xs l)

length-claims : (op : ℕ) (taken : List Lock) → length (map (claim op) taken) ≡ length taken
length-claims op [] = refl
length-claims op (x ∷ xs) = ap suc (length-claims op xs)

-- Where a request may still wait: it has taken nothing and names the one range.
abbrev MayWait : List Lock → List Lock → FileState → FileState → Type 0
MayWait done rest fs before =
    (all_fail_immediately rest ≡ true) ⊎ ((done ≡ []) × (length rest ≤ 1) × (fs ≡ before))

module _ (op : ℕ) (before fs : FileState) (done : List Lock) (l : Lock) (rest : List Lock) where
  taken_more :
      fs.locks ≡ before.locks ++ map (claim op) done
      → (append_lock fs (claim op l)).locks ≡ before.locks ++ map (claim op) (done ++ l ∷ [])
  taken_more e =
      ap (λ xs. xs ++ claim op l ∷ []) e
      ∙ append_assoc before.locks (map (claim op) done) (claim op l ∷ [])
      ∙ ap (◌++◌ before.locks) (sym (map-claim_append op done l))

  no_more_waiting : MayWait done (l ∷ rest) fs before → all_fail_immediately rest ≡ true
  unfolding all_fail_immediately
  no_more_waiting (inl h) = ground arith
  no_more_waiting (inr (_, h, _)) = rw (nil_of_length rest (omega arith))

  must_fail :
      MayWait done (l ∷ rest) fs before
      → fails_immediately l ≡ false
      → (done ≡ []) × (rest ≡ []) × (fs ≡ before)
  unfolding all_fail_immediately
  must_fail (inl h) e = ground arith
  must_fail (inr (d, h, f)) e = (d, nil_of_length rest (omega arith), f)

take_ranges-Outcome :
    (op : ℕ) (before fs : FileState) (done rest : List Lock)
    → fs.locks ≡ before.locks ++ map (claim op) done
    → CanTake op before.locks done
    → MayWait done rest fs before
    → Outcome op (done ++ rest) before (take_ranges op (length done) rest fs)
unfolding take_ranges
take_ranges-Outcome op before fs done [] e v w =
    granted refl refl (e ∙ ap (λ x. before.locks ++ map (claim op) x) (sym (append-nil done)))
      (subst (CanTake op before.locks) (sym (append-nil done)) v)
take_ranges-Outcome op before fs done (l ∷ rest) e v w =
    elim (Bool-cases (valid_lock_flags l.flags)) [
      | inr bad ↦ rw (bad, take_ranges) (malformed refl refl done l rest refl e v bad)
      | inl good ↦ elim (Bool-cases (lock_conflict fs.locks op (range_of l) (wants_exclusive l))) [
        | inl clash ↦ elim (Bool-cases (fails_immediately l)) [
          | inl fails ↦
              rw (good, clash, fails, take_ranges)
                (refused refl refl
                  (put_back-locks (length done) fs before.locks (map (claim op) done) e
                    (length-claims op done))
                  done l rest refl v good fails (ap (conflicts op l) (sym e) ∙ clash))
          | inr waits ↦
              let (d, r, f) = must_fail op before fs done l rest w waits in
              rw (good, clash, waits, take_ranges)
                (waiting refl refl f l (ap₂ (λ xs ys. xs ++ l ∷ ys) d r) good waits
                  (ap (λ (x : FileState). conflicts op l x.locks) (sym f) ∙ clash))
        ]
        | inr free ↦
            let more =
              take_ranges-Outcome op before (append_lock fs (claim op l)) (done ++ l ∷ []) rest
                (taken_more op before fs done l rest e)
                (CanTake-more op before.locks done l v good (ap (conflicts op l) (sym e) ∙ free))
                (inl (no_more_waiting op before fs done l rest w)) in
            rw (good, free, take_ranges)
              (let n : length (done ++ l ∷ []) ≡ length done + 1 = length-append done (l ∷ []) in
                rw (n, append_assoc) at more)
      ]
    ]

-- A lock request ends in one of five ways. It is granted: every range can be added in turn, with
-- flags in order and no lock in its way, and every one is added, in order and for the open that
-- asked. It names one range, in conflict and not to fail at once, and waits, with nothing changed.
-- It is refused at a range that is in conflict and is to fail at once, behind ranges that could be
-- added, and the locks are as they were. It is malformed at a range whose flags are not in order,
-- behind ranges that could be added, and these stay added. Or it names several ranges of which one
-- is not to fail at once, and nothing is changed.
pub lock_ranges-Outcome :
    (op : ℕ) (ls : List Lock) (fs : FileState) → Outcome op ls fs (lock_ranges op ls fs)
unfolding lock_ranges
lock_ranges-Outcome op ls fs = elim (Bool-cases (ltb 1 (length ls))) [
  | inl several ↦ elim (Bool-cases (all_fail_immediately ls)) [
    | inl fail ↦ rw (several, fail) (taken (inl fail))
    | inr wait ↦ rw (several, wait) (impatient refl refl refl (ground arith) wait)
  ]
  | inr one ↦ rw one (taken (inr (refl, ground arith, refl)))
]
  where
    taken : MayWait [] ls fs fs → Outcome op ls fs (take_ranges op 0 ls fs)
    taken = take_ranges-Outcome op fs fs [] ls (sym (append-nil fs.locks)) tt

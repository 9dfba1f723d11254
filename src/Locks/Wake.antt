-- ===== src/Locks/Wake.antt =====
-- No wake-up is lost: whoever was told to listen is woken, or what is in its way is still there.
use sombrero.Base.{
  ℕ, ◌+◌, ◌-◌, ◌≤◌, ◌≡◌, ◌⊎◌, inl, inr, refl, Bool, true, false, none, some, List, [], ◌∷◌, ◌++◌,
  arith, ltb, if◌then◌else◌, has, length, take, remove_at, contains, Bool-cases, Option-cases,
}
use sombrero.Locks.{
  FileState, ByteRangeLock, Lock, Command, lock, unlock, await, give_up, release, claim, range_of,
  Status, wants_exclusive, listen, append_lock, lock_conflict, lock_waiter, lock_changed, put_back,
  take_ranges, lock_ranges, await_lock, drop_lock, find_down, give_back, find_unlock, unlock_ranges,
  kept_locks, release_locks, remove_lock, step, run,
}

-- The channel `ch` has been closed; or it is the one that the next change closes, and the range
-- that was asked for is still one its asker may not have.
abbrev pub Minded : ℕ → ℕ → Lock → FileState → Type 0
Minded ch op l fs =
    (contains ch fs.closed ≡ true)
    ⊎ ((fs.lock_wait ≡ some ch)
        × (lock_conflict fs.locks op (range_of l) (wants_exclusive l) ≡ true))

conflict-append :
    (xs ys : List ByteRangeLock) (op : ℕ) (l : Lock)
    → lock_conflict xs op (range_of l) (wants_exclusive l) ≡ true
    → lock_conflict (xs ++ ys) op (range_of l) (wants_exclusive l) ≡ true
unfolding lock_conflict
conflict-append [] ys op l h = cc
conflict-append (x ∷ xs) ys op l h = ground (arith, conflict-append xs ys op l)

module _ (ch op : ℕ) (l : Lock) where
  append_lock-Minded :
      (fs : FileState) (b : ByteRangeLock) → Minded ch op l fs → Minded ch op l (append_lock fs b)
  append_lock-Minded fs b (inl h) = inl h
  append_lock-Minded fs b (inr (w, h)) = inr (w, conflict-append fs.locks (b ∷ []) op l h)

  -- Whatever becomes of the locks, a change that is announced closes the channel.
  lock_changed-Minded :
      (fs : FileState) (xs : List ByteRangeLock)
      → Minded ch op l fs
      → contains ch (lock_changed (record fs { locks = xs })).closed ≡ true
  unfolding lock_changed
  lock_changed-Minded fs xs m = ground arith

  put_back-Minded : (n : ℕ) (fs : FileState) → Minded ch op l fs → Minded ch op l (put_back n fs)
  unfolding put_back
  put_back-Minded n fs m =
      ground (arith, lock_changed-Minded fs (take (length fs.locks - n) fs.locks) m)

  take_ranges-Minded :
      (who n : ℕ) (ls : List Lock) (fs : FileState)
      → Minded ch op l fs
      → Minded ch op l (take_ranges who n ls fs).2
  unfolding take_ranges
  take_ranges-Minded who n [] fs m = m
  take_ranges-Minded who n (x ∷ ls) fs m =
      let more =
        take_ranges-Minded who (n + 1) ls (append_lock fs (claim who x))
          (append_lock-Minded fs (claim who x) m) in
      ground (arith, put_back-Minded n fs m, more)

  await_lock-Minded :
      (who : ℕ) (x : Lock) (stop gone pick : Bool) (fs : FileState)
      → Minded ch op l fs
      → Minded ch op l (await_lock who x stop gone pick fs).1
  unfolding await_lock lock_waiter
  await_lock-Minded who x stop gone pick fs m =
      ground (arith, append_lock-Minded fs (claim who x) m)

  drop_lock-Minded :
      (who : ℕ) (x : Lock) (fs : FileState)
      → Minded ch op l fs
      → Minded ch op l (drop_lock who x fs)
  unfolding drop_lock
  drop_lock-Minded who x fs m =
      elim (Option-cases (find_down (claim who x) fs.locks (length fs.locks))) [
        | inl e ↦ rw (e, drop_lock) m
        | inr (i, e) ↦ rw (e, drop_lock) (inl (lock_changed-Minded fs (remove_at i fs.locks) m))
      ]

  -- Before the deferred `lockChanged`: either the listener is minded already, or a range has been
  -- given back and the channel is still the one to close.
  abbrev Pending : Bool → FileState → Type 0
  Pending given fs = ((given ≡ true) × (fs.lock_wait ≡ some ch)) ⊎ Minded ch op l fs

  remove_lock-Pending :
      (given : Bool) (i : ℕ) (fs : FileState) → Pending given fs → Pending true (remove_lock i fs)
  remove_lock-Pending given i fs (inl t) = inl (refl, t.1)
  remove_lock-Pending given i fs (inr (inl h)) = inr (inl h)
  remove_lock-Pending given i fs (inr (inr t)) = inl (refl, t.0)

  abbrev PendingResult : Status × Bool × FileState → Type 0
  PendingResult r = Pending r.1 r.2

  give_back-Pending :
      (who : ℕ) (ls : List Lock) (given : Bool) (fs : FileState)
      → Pending given fs
      → PendingResult (give_back who ls given fs)
  unfolding give_back
  give_back-Pending who [] given fs m = m
  give_back-Pending who (x ∷ ls) given fs m = elim (Bool-cases (has x.flags 3)) [
    | inl e ↦ rw (e, give_back) m
    | inr e ↦ elim (Option-cases (find_unlock who (range_of x) 0 none fs.locks)) [
      | inl n ↦ rw (e, n, give_back) m
      | inr (i, n) ↦
          rw (e, n, give_back)
            (give_back-Pending who ls true (remove_lock i fs) (remove_lock-Pending given i fs m))
    ]
  ]

  announced :
      (given : Bool) (fs : FileState)
      → Pending given fs
      → Minded ch op l (if given then lock_changed fs else fs)
  unfolding lock_changed
  announced given fs m = ground arith

  unlock_ranges-Minded :
      (who : ℕ) (ls : List Lock) (fs : FileState)
      → Minded ch op l fs
      → Minded ch op l (unlock_ranges who ls fs).1
  unfolding unlock_ranges
  unlock_ranges-Minded who ls fs m =
      let r : Status × Bool × FileState = give_back who ls false fs in
      announced r.1 r.2 (give_back-Pending who ls false fs (inr m))

  kept_all :
      (who : ℕ) (xs : List ByteRangeLock)
      → (length (kept_locks who xs) ≤ length xs)
        × ((length xs ≤ length (kept_locks who xs)) → kept_locks who xs ≡ xs)
  unfolding kept_locks
  kept_all who [] = (omega arith, λ h. refl)
  kept_all who (x ∷ xs) = ground (arith, kept_all who xs)

  release_locks-Minded :
      (who : ℕ) (fs : FileState) → Minded ch op l fs → Minded ch op l (release_locks who fs)
  unfolding release_locks
  release_locks-Minded who fs m =
      elim (Bool-cases (ltb (length (kept_locks who fs.locks)) (length fs.locks))) [
        | inl e ↦ rw e (inl (lock_changed-Minded fs fs.locks m))
        | inr e ↦
            let same : kept_locks who fs.locks ≡ fs.locks =
              (kept_all who fs.locks).1 (ground arith) in
            rw (e, same) m
      ]

  step-Minded : (c : Command) (fs : FileState) → Minded ch op l fs → Minded ch op l (step c fs)
  unfolding step lock_ranges
  step-Minded (lock who ls) fs m = ground (arith, take_ranges-Minded who 0 ls fs m)
  step-Minded (unlock who ls) fs m = unlock_ranges-Minded who ls fs m
  step-Minded (await who x stop gone pick) fs m = await_lock-Minded who x stop gone pick fs m
  step-Minded (give_up who x) fs m = drop_lock-Minded who x fs m
  step-Minded (release who) fs m = release_locks-Minded who fs m

  run-Minded : (cs : List Command) (fs : FileState) → Minded ch op l fs → Minded ch op l (run cs fs)
  unfolding run
  run-Minded [] fs m = m
  run-Minded (c ∷ cs) fs m = run-Minded cs (step c fs) (step-Minded c fs m)

listen-Minded :
    (op : ℕ) (l : Lock) (stop gone pick : Bool) (fs : FileState) (ch : ℕ)
    → (await_lock op l stop gone pick fs).0 ≡ listen ch
    → Minded ch op l (await_lock op l stop gone pick fs).1
unfolding await_lock lock_waiter
listen-Minded op l stop gone pick fs ch e = ground arith

-- A waiting request was told to listen on a channel. After any commands of any opens either that
-- channel has been closed, so that the waiter looks again, or the range is still in conflict.
pub await-no_lost_wakeup :
    (op : ℕ) (l : Lock) (stop gone pick : Bool) (fs : FileState) (ch : ℕ) (cs : List Command)
    → (await_lock op l stop gone pick fs).0 ≡ listen ch
    → let later = run cs (await_lock op l stop gone pick fs).1 in
      (contains ch later.closed ≡ true)
      ⊎ (lock_conflict later.locks op (range_of l) (wants_exclusive l) ≡ true)
await-no_lost_wakeup op l stop gone pick fs ch cs e =
    elim (run-Minded ch op l cs _ (listen-Minded op l stop gone pick fs ch e)) [
      | inl h ↦ inl h
      | inr t ↦ inr t.1
    ]

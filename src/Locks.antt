-- ===== src/Locks.antt =====
-- lock.go: the byte-range locks of a file. An open is known by a number, as the source knows it by
-- its pointer, and so is a channel; a channel that has been closed is listed in `closed`.
-- Every function runs under `fs.mu`, so each is one step of the file's state.
pub mod Conflict
pub mod Request
pub mod Undo
pub mod Wake
mod Tests
use sombrero.Base.{
  ℕ, zero, suc, ◌+◌, ◌-◌, ◌<◌, ◌≡◌, Bool, true, false, not, ◌&&◌, ◌||◌, Option, none, some, List,
  [], ◌∷◌, ◌++◌, arith, ltb, ◌==◌, if◌then◌else◌, bool_eq, has, and_not, length, get_elem?, take,
  remove_at,
}
use sombrero.ByteRange.{ByteRange, overlaps, range_eq}

abbrev pub lockflag_shared_lock : ℕ
lockflag_shared_lock = 0x1

abbrev pub lockflag_exclusive_lock : ℕ
lockflag_exclusive_lock = 0x2

abbrev pub lockflag_fail_immediately : ℕ
lockflag_fail_immediately = 0x10

-- The statuses that the lock commands answer with.
pub data Status : Type 0 where
  status_ok status_invalid_parameter status_lock_not_granted : Status
  status_range_not_locked status_cancelled status_file_closed : Status

-- An element of a lock request, `smb2.Lock`.
pub record Lock : Type 0 where
  pub offset : ℕ
  pub length : ℕ
  pub flags : ℕ

pub record ByteRangeLock : Type 0 where
  pub range : ByteRange
  pub owner : ℕ
  pub exclusive : Bool

-- The part of `fileState` that the locks live in. `next` is the channel made next.
pub record FileState : Type 0 where
  pub locks : List ByteRangeLock
  pub lock_wait : Option ℕ
  pub closed : List ℕ
  pub next : ℕ

abbrev pub range_of : Lock → ByteRange
range_of l = record { offset = l.offset; length = l.length }

abbrev pub wants_exclusive : Lock → Bool
wants_exclusive l = has l.flags lockflag_exclusive_lock

abbrev pub fails_immediately : Lock → Bool
fails_immediately l = has l.flags lockflag_fail_immediately

pub valid_lock_flags : ℕ → Bool
valid_lock_flags flags =
    let rest = and_not flags lockflag_fail_immediately in
    (rest == lockflag_shared_lock) || (rest == lockflag_exclusive_lock)

-- The loop of `lockConflict`. A range that the open itself holds exclusively is not in its way.
pub lock_conflict : List ByteRangeLock → ℕ → ByteRange → Bool → Bool
lock_conflict [] op r exclusive = false
lock_conflict (held ∷ rest) op r exclusive =
    let later = lock_conflict rest op r exclusive in
    if not (overlaps held.range r)
    then later
    else if held.exclusive
    then (if not (held.owner == op) then true else later)
    else if exclusive
    then true
    else later

-- The channel closed the next time a range is given back, made if there is none.
pub lock_waiter : FileState → ℕ × FileState
lock_waiter fs = elim fs.lock_wait [
  | some ch ↦ (ch, fs)
  | none ↦ (fs.next, record fs { lock_wait = some fs.next; next = fs.next + 1 })
]

pub lock_changed : FileState → FileState
lock_changed fs = elim fs.lock_wait [
  | some ch ↦ record fs { lock_wait = none; closed = ch ∷ fs.closed }
  | none ↦ fs
]

abbrev pub claim : ℕ → Lock → ByteRangeLock
claim op l = record { range = range_of l; owner = op; exclusive = wants_exclusive l }

abbrev pub append_lock : FileState → ByteRangeLock → FileState
append_lock fs b = record fs { locks = fs.locks ++ b ∷ [] }

-- Puts back the ranges that the request has taken so far.
pub put_back : ℕ → FileState → FileState
unfolding lock_changed
put_back taken fs =
    if ltb 0 taken
    then lock_changed (record fs { locks = take (length fs.locks - taken) fs.locks })
    else fs

-- The loop of `lockRanges`: the status, whether the request is one to wait on, and the new state.
pub take_ranges : ℕ → ℕ → List Lock → FileState → Status × Bool × FileState
take_ranges op taken [] fs = (status_ok, false, fs)
take_ranges op taken (l ∷ rest) fs =
    let later = take_ranges op (taken + 1) rest (append_lock fs (claim op l)) in
    if not (valid_lock_flags l.flags)
    then (status_invalid_parameter, false, fs)
    else if lock_conflict fs.locks op (range_of l) (wants_exclusive l)
    then (if not (fails_immediately l)
        then (status_ok, true, fs)
        else (status_lock_not_granted, false, put_back taken fs))
    else later

-- Every element of a request that names several has to fail immediately.
pub all_fail_immediately : List Lock → Bool
all_fail_immediately [] = true
all_fail_immediately (l ∷ rest) = fails_immediately l && all_fail_immediately rest

pub lock_ranges : ℕ → List Lock → FileState → Status × Bool × FileState
lock_ranges op locks fs =
    if ltb 1 (length locks) && not (all_fail_immediately locks)
    then (status_invalid_parameter, false, fs)
    else take_ranges op 0 locks fs

-- What one round of `awaitLock` comes to: an answer, or a channel to listen on.
pub data Round : Type 0 where
  answer : Status → Round
  listen : ℕ → Round

-- A `select` over the two channels takes either where both are ready: `pick` says which.
pub called_off : Bool → Bool → Bool → Option Status
called_off stop gone pick =
    if stop && (pick || not gone)
    then some status_cancelled
    else if gone
    then some status_file_closed
    else none

-- One round of the loop of `awaitLock`, from taking `fs.mu` to letting go of it.
pub await_lock : ℕ → Lock → Bool → Bool → Bool → FileState → Round × FileState
unfolding called_off
await_lock op l stop gone pick fs = elim (called_off stop gone pick) [
  | some status ↦ (answer status, fs)
  | none ↦
      if not (lock_conflict fs.locks op (range_of l) (wants_exclusive l))
      then (answer status_ok, append_lock fs (claim op l))
      else (let (ch, fs') = lock_waiter fs in (listen ch, fs'))
]

unfoldable pub lock_eq : ByteRangeLock → ByteRangeLock → Bool
unfolding range_eq
lock_eq a b = range_eq a.range b.range && (a.owner == b.owner) && bool_eq a.exclusive b.exclusive

-- `for i := n - 1; i >= 0; i--`: the last index below `n` that holds `want`.
pub find_down : ByteRangeLock → List ByteRangeLock → ℕ → Option ℕ
find_down want locks zero = none
find_down want locks (suc i) =
    let earlier = find_down want locks i in
    elim (get_elem? locks i) [
      | some held ↦ if lock_eq held want then some i else earlier
      | none ↦ earlier
    ]

abbrev pub remove_lock : ℕ → FileState → FileState
remove_lock i fs = record fs { locks = remove_at i fs.locks }

pub drop_lock : ℕ → Lock → FileState → FileState
drop_lock op l fs = elim (find_down (claim op l) fs.locks (length fs.locks)) [
  | some i ↦ lock_changed (remove_lock i fs)
  | none ↦ fs
]

-- The inner loop of `unlockRanges` from index `i` on: an exclusive lock ends the search, the first
-- shared one is kept in `found`.
pub find_unlock : ℕ → ByteRange → ℕ → Option ℕ → List ByteRangeLock → Option ℕ
find_unlock op r i found [] = found
find_unlock op r i found (held ∷ rest) =
    let later = λ (f : Option ℕ). find_unlock op r (i + 1) f rest in
    if not (held.owner == op) || not (range_eq held.range r)
    then later found
    else if held.exclusive
    then some i
    else elim found [ none ↦ later (some i) | some j ↦ later (some j) ]

-- The outer loop: the status, whether a range was given back, and the state before the deferred
-- `lockChanged`.
pub give_back : ℕ → List Lock → Bool → FileState → Status × Bool × FileState
give_back op [] given fs = (status_ok, given, fs)
give_back op (l ∷ rest) given fs =
    let found = find_unlock op (range_of l) 0 none fs.locks in
    if has l.flags 0x3 then (status_invalid_parameter, given, fs) else elim found [
      | none ↦ (status_range_not_locked, given, fs)
      | some i ↦ give_back op rest true (remove_lock i fs)
    ]

pub unlock_ranges : ℕ → List Lock → FileState → Status × FileState
unlock_ranges op locks fs =
    let (status, given, fs') = give_back op locks false fs in
    (status, if given then lock_changed fs' else fs')

-- The ranges of every other open.
pub kept_locks : ℕ → List ByteRangeLock → List ByteRangeLock
kept_locks op [] = []
kept_locks op (held ∷ rest) =
    let kept = kept_locks op rest in if not (held.owner == op) then held ∷ kept else kept

pub release_locks : ℕ → FileState → FileState
release_locks op fs =
    let kept = kept_locks op fs.locks in
    let fs' = if ltb (length kept) (length fs.locks) then lock_changed fs else fs in
    record fs' { locks = kept }

-- What a client, or the end of a handle, does to the locks of a file.
pub data Command : Type 0 where
  lock unlock : ℕ → List Lock → Command
  await : ℕ → Lock → Bool → Bool → Bool → Command
  give_up : ℕ → Lock → Command
  release : ℕ → Command

pub step : Command → FileState → FileState
step (lock op ls) fs = (lock_ranges op ls fs).2
step (unlock op ls) fs = (unlock_ranges op ls fs).1
step (await op l stop gone pick) fs = (await_lock op l stop gone pick fs).1
step (give_up op l) fs = drop_lock op l fs
step (release op) fs = release_locks op fs

-- The commands in the order in which they come by `fs.mu`.
pub run : List Command → FileState → FileState
run [] fs = fs
run (c ∷ cs) fs = run cs (step c fs)

-- A file nobody has locked yet.
abbrev pub unlocked : FileState
unlocked = record { locks = []; lock_wait = none; closed = []; next = 0 }

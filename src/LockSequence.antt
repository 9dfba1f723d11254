-- ===== src/LockSequence.antt =====
-- lock.go: the lock sequences that an open remembers, `replayedLock` and `rememberLock`. A list of
-- 64 entries stands for the array `open.lockSequence`.
pub mod Replay
mod Tests
use sombrero.Base.{
  ℕ, ◌-◌, Bool, true, false, not, ◌||◌, List, ltb, ◌==◌, if◌then◌else◌, get_or, set, replicate,
}

abbrev pub lock_sequence_entries : ℕ
lock_sequence_entries = 64

pub record LockSequenceEntry : Type 0 where
  pub number : ℕ
  pub valid : Bool

abbrev pub blank : LockSequenceEntry
blank = record { number = 0; valid = false }

-- The array of a new open.
abbrev pub no_sequences : List LockSequenceEntry
no_sequences = replicate lock_sequence_entries blank

abbrev pub names_no_entry : ℕ → Bool
names_no_entry index = (index == 0) || ltb lock_sequence_entries index

-- Whether the request is a replay, and what the open remembers afterwards.
pub replayed_lock : ℕ → ℕ → List LockSequenceEntry → Bool × List LockSequenceEntry
replayed_lock index number entries =
    let entry = get_or entries (index - 1) blank in
    if names_no_entry index
    then (false, entries)
    else if not entry.valid
    then (false, entries)
    else if entry.number == number
    then (true, entries)
    else (false, set entries (index - 1) (record entry { valid = false }))

pub remember_lock : ℕ → ℕ → List LockSequenceEntry → List LockSequenceEntry
remember_lock index number entries =
    if names_no_entry index
    then entries
    else set entries (index - 1) (record { number = number; valid = true })

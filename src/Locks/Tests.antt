-- ===== src/Locks/Tests.antt =====
-- Tests of the byte-range locks, and the theorems at inputs that meet their hypotheses.
use sombrero.Base.{ℕ, ◌≡◌, ◌⊎◌, refl, true, false, none, List, [], ◌∷◌, arith, contains}
use sombrero.ByteRange.{overlaps, range_eq}
use sombrero.Locks.Conflict.{BothShared, run-exclusion}
use sombrero.Locks.Request.{Outcome, lock_ranges-Outcome}
use sombrero.Locks.Undo.{
  Unlocked, unlock_ranges-Unlocked, drop_lock-claim, is_held, release_locks-is_held,
}
use sombrero.Locks.Wake.{await-no_lost_wakeup}
use sombrero.Locks.{
  FileState, Lock, Command, lock_changed, lock, release, step, run, status_ok,
  status_lock_not_granted, claim, range_of, lock_conflict, lock_ranges, unlock_ranges, await_lock,
  drop_lock, release_locks, append_lock, lock_waiter, find_unlock, give_back, take_ranges, put_back,
  valid_lock_flags, lock_eq, all_fail_immediately,
}

abbrev shared_at : ℕ → ℕ → Lock
shared_at offset length = record { offset = offset; length = length; flags = 0x11 }

abbrev exclusive_at : ℕ → ℕ → Lock
exclusive_at offset length = record { offset = offset; length = length; flags = 0x12 }

abbrev patient_at : ℕ → ℕ → Lock
patient_at offset length = record { offset = offset; length = length; flags = 0x2 }

abbrev unlock_at : ℕ → ℕ → Lock
unlock_at offset length = record { offset = offset; length = length; flags = 0x4 }

-- Two readers share a range; a writer takes another one.
abbrev history : List Command
history =
    lock 1 (shared_at 0 10 ∷ [])
    ∷ lock 2 (shared_at 5 10 ∷ [])
    ∷ lock 3 (exclusive_at 20 5 ∷ [])
    ∷ []

abbrev busy : FileState
busy = record {
  locks = claim 1 (shared_at 0 10) ∷ claim 1 (exclusive_at 0 10) ∷ claim 2 (exclusive_at 20 5) ∷ [];
  lock_wait = none;
  closed = [];
  next = 0;
}

refused_then_taken :
    ((lock_ranges 2 (exclusive_at 30 1 ∷ exclusive_at 4 1 ∷ []) busy).0 ≡ status_lock_not_granted)
    × ((lock_ranges 2 (exclusive_at 30 1 ∷ exclusive_at 24 1 ∷ []) busy).0 ≡ status_ok)
unfolding lock_ranges take_ranges lock_conflict overlaps valid_lock_flags all_fail_immediately
    put_back
refused_then_taken = (refl, refl)

run-exclusion_example : BothShared (claim 1 (shared_at 0 10)) (claim 2 (shared_at 5 10))
unfolding run step lock_ranges take_ranges lock_conflict overlaps valid_lock_flags
run-exclusion_example =
    run-exclusion history 0 1 (claim 1 (shared_at 0 10)) (claim 2 (shared_at 5 10)) refl refl
      (omega arith) refl

await-no_lost_wakeup_example :
    let later = run (release 1 ∷ []) (await_lock 2 (patient_at 0 5) false false false busy).1 in
    (contains 0 later.closed ≡ true)
    ⊎ (lock_conflict later.locks 2 (range_of (patient_at 0 5)) true ≡ true)
unfolding await_lock lock_conflict overlaps lock_waiter
await-no_lost_wakeup_example =
    await-no_lost_wakeup 2 (patient_at 0 5) false false false busy 0 (release 1 ∷ []) refl

lock_ranges-Outcome_example :
    Outcome 2
      (exclusive_at 30 1 ∷ exclusive_at 4 1 ∷ [])
      busy
      (lock_ranges 2 (exclusive_at 30 1 ∷ exclusive_at 4 1 ∷ []) busy)
lock_ranges-Outcome_example = lock_ranges-Outcome 2 (exclusive_at 30 1 ∷ exclusive_at 4 1 ∷ []) busy

unlock_ranges-Unlocked_example :
    Unlocked 1 (unlock_at 0 10) busy (unlock_ranges 1 (unlock_at 0 10 ∷ []) busy)
unlock_ranges-Unlocked_example = unlock_ranges-Unlocked 1 (unlock_at 0 10) busy refl

-- The exclusive lock goes first, though the shared one was taken before it.
exclusive_first :
    (unlock_ranges 1 (unlock_at 0 10 ∷ []) busy).1.locks
    ≡ claim 1 (shared_at 0 10) ∷ claim 2 (exclusive_at 20 5) ∷ []
unfolding unlock_ranges give_back find_unlock range_eq lock_changed
exclusive_first = refl

drop_lock-claim_example :
    (drop_lock 2 (shared_at 40 2) (append_lock busy (claim 2 (shared_at 40 2)))).locks ≡ busy.locks
drop_lock-claim_example = drop_lock-claim 2 (shared_at 40 2) busy

release_locks-is_held_example :
    is_held (claim 2 (exclusive_at 20 5)) (release_locks 1 busy).locks ≡ true
unfolding lock_eq
release_locks-is_held_example = release_locks-is_held 1 (claim 2 (exclusive_at 20 5)) busy

-- ===== src/LockSequence/Tests.antt =====
-- Tests of the lock sequences, and the theorems at inputs that meet their hypotheses.
use sombrero.Base.{◌≡◌, refl, true, false, none}
use sombrero.LockSequence.Replay.{recall, replayed_lock-recall}
use sombrero.LockSequence.{no_sequences, replayed_lock, remember_lock}

-- The last index is one that names an entry, the one past it is not.
last_index :
    ((replayed_lock 64 7 (remember_lock 64 7 no_sequences)).0 ≡ true)
    × ((replayed_lock 65 7 (remember_lock 65 7 no_sequences)).0 ≡ false)
unfolding replayed_lock remember_lock
last_index = (refl, refl)

-- A number that differs from the one remembered makes the open forget it.
replayed_lock-recall_example :
    ((replayed_lock 3 8 (remember_lock 3 7 no_sequences)).0 ≡ false)
    × (recall (replayed_lock 3 8 (remember_lock 3 7 no_sequences)).1 3 ≡ none)
unfolding remember_lock
replayed_lock-recall_example = replayed_lock-recall 3 8 3 (remember_lock 3 7 no_sequences) refl

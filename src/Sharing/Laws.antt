-- ===== src/Sharing/Laws.antt =====
-- sharing.go: the rule of two opens, and the search for an open in the way.
use sombrero.Base.{
  ℕ, ◌≡◌, ◌⊎◌, ◌↔◌, true, false, Option, none, some, List, arith, has, All, get_elem?,
}
use sombrero.Sharing.{
  SharingOpen, sharing_conflict, reads_file, writes_file, deletes_file, touches_file,
  file_share_read, file_share_write, file_share_delete,
}

-- It makes no difference which of two opens came first.
pub sharing_conflict_symm :
    (access mode held allowed : ℕ)
    → sharing_conflict access mode held allowed ≡ sharing_conflict held allowed access mode
unfolding sharing_conflict
sharing_conflict_symm access mode held allowed = ground arith

-- What an open with this access means to do, that a mode does not put up with.
abbrev pub Clashes : ℕ → ℕ → Type 0
Clashes access mode =
    ((has access reads_file ≡ true) × (has mode file_share_read ≡ false))
    ⊎ ((has access writes_file ≡ true) × (has mode file_share_write ≡ false))
    ⊎ ((has access deletes_file ≡ true) × (has mode file_share_delete ≡ false))

-- Two opens conflict exactly when both read, write or delete the file and one of them does what
-- the mode of the other does not allow.
sharing_conflict_iff :
    (access mode held allowed : ℕ)
    → (sharing_conflict access mode held allowed ≡ true) ↔ (
        (has access touches_file ≡ true)
        × (has held touches_file ≡ true)
        × (Clashes access allowed ⊎ Clashes held mode))
unfolding sharing_conflict
sharing_conflict_iff access mode held allowed = ground arith

abbrev pub StandTogether : SharingOpen → SharingOpen → Type 0
StandTogether a b =
    sharing_conflict a.granted_access a.share_mode b.granted_access b.share_mode ≡ false

-- What `sharing_violation` answers: the first open in the way, or none.
abbrev pub Violation : List SharingOpen → SharingOpen → Option SharingOpen → Type 0
Violation opens op none = All (StandTogether op) opens
Violation opens op (some other) =
    (i : ℕ) × (get_elem? opens i ≡ some other) × ¬ StandTogether op other

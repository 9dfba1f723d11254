-- ===== src/Sharing.antt =====
-- sharing.go: whether two opens of one file can stand together.
pub mod Laws
mod Tests
use sombrero.Base.{
  ℕ, ◌+◌, Bool, true, false, not, ◌&&◌, ◌||◌, Option, none, some, List, [], ◌∷◌, ◌==◌,
  if◌then◌else◌, has, bit_or,
}

-- Access bits, smb2/tree.go, and sharing bits, smb2/create.go.
abbrev pub file_read_data : ℕ
file_read_data = 0x1

abbrev pub file_write_data : ℕ
file_write_data = 0x2

abbrev pub file_append_data : ℕ
file_append_data = 0x4

abbrev pub file_execute : ℕ
file_execute = 0x20

abbrev pub delete_access : ℕ
delete_access = 0x10000

abbrev pub generic_all : ℕ
generic_all = 0x10000000

abbrev pub generic_execute : ℕ
generic_execute = 0x20000000

abbrev pub generic_write : ℕ
generic_write = 0x40000000

abbrev pub generic_read : ℕ
generic_read = 0x80000000

abbrev pub file_share_read : ℕ
file_share_read = 0x1

abbrev pub file_share_write : ℕ
file_share_write = 0x2

abbrev pub file_share_delete : ℕ
file_share_delete = 0x4

-- Unions of distinct bits, so a sum is their `|`.
abbrev pub reads_file : ℕ
reads_file = file_read_data + file_execute + generic_read + generic_execute + generic_all

abbrev pub writes_file : ℕ
writes_file = file_write_data + file_append_data + generic_write + generic_all

abbrev pub deletes_file : ℕ
deletes_file = delete_access + generic_all

abbrev pub touches_file : ℕ
touches_file = bit_or reads_file (bit_or writes_file deletes_file)

-- `access` and `mode` are what one open does and allows, `held` and `allowed` the same of the other.
pub sharing_conflict : ℕ → ℕ → ℕ → ℕ → Bool
sharing_conflict access mode held allowed =
    if not (has access touches_file) || not (has held touches_file)
    then false
    else if has access reads_file && not (has allowed file_share_read)
    then true
    else if has access writes_file && not (has allowed file_share_write)
    then true
    else if has access deletes_file && not (has allowed file_share_delete)
    then true
    else if has held reads_file && not (has mode file_share_read)
    then true
    else if has held writes_file && not (has mode file_share_write)
    then true
    else if has held deletes_file && not (has mode file_share_delete)
    then true
    else false

-- An open, for what the sharing rules read of it.
pub record SharingOpen : Type 0 where
  pub id : ℕ
  pub granted_access : ℕ
  pub share_mode : ℕ

-- The loop of `sharingViolation` over the opens of the file: the first that stands in the way.
pub sharing_violation : List SharingOpen → ℕ → ℕ → Option SharingOpen
sharing_violation [] access mode = none
sharing_violation (other ∷ rest) access mode =
    let later = sharing_violation rest access mode in
    if sharing_conflict access mode other.granted_access other.share_mode then some other else later

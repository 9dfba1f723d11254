-- ===== src/Sharing/Tests.antt =====
-- Tests of the sharing rules, and the theorems at inputs that meet their hypotheses.
use sombrero.Base.{◌≡◌, refl, none, some, [], ◌∷◌}
use sombrero.Sharing.Laws.{sharing_conflict_symm}
use sombrero.Sharing.{SharingOpen, sharing_conflict, sharing_violation}

abbrev reader : SharingOpen
reader = record { id = 1; granted_access = 0x1; share_mode = 0x1 }

abbrev second_reader : SharingOpen
second_reader = record { id = 2; granted_access = 0x80000001; share_mode = 0x7 }

-- A writer is refused beside a reader that lets others read only.
writer_refused : sharing_violation (reader ∷ []) 0x2 0x7 ≡ some reader
unfolding sharing_violation sharing_conflict
writer_refused = refl

second_reader_let_in : sharing_violation (reader ∷ []) 0x80000001 0x7 ≡ none
unfolding sharing_violation sharing_conflict
second_reader_let_in = refl

sharing_conflict_symm_example : sharing_conflict 0x2 0x7 0x1 0x1 ≡ sharing_conflict 0x1 0x1 0x2 0x7
sharing_conflict_symm_example = sharing_conflict_symm 0x2 0x7 0x1 0x1

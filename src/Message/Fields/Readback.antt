-- ===== src/Message/Fields/Readback.antt =====
-- smb2/header.go: a field that is set reads back, and the fields beside it stay.
use sombrero.Base.{
  ℕ, ◌+◌, ◌^◌, ◌≤◌, ◌<◌, Bool, true, ◌||◌, ◌≡◌, refl, ap, leb, length, drop, arith, inl, inr, ◌⊎◌,
}
use sombrero.Message.Words.{Bytes, Answer, done, get, put, le_read, le_write, overwrite_at}
use sombrero.Message.Words.Overwrite.{
  length-overwrite_at, le_read-written, le_read-before, drop-after, length-le_write,
}
use sombrero.Message.Fields.{
  credit_charge, set_credit_charge, status, set_status, command, set_command, flags, set_flags,
  next_command, set_next_command, message_id, set_message_id, async_id, set_async_id, tree_id,
  set_tree_id, session_id, set_session_id, original_message_size, set_original_message_size,
  encryption_flags, set_encryption_flags,
}

-- The numbers of a header that are both read and set.
pub data Field : Type 0 where
  credit_charge_field status_field command_field flags_field next_command_field message_id_field
        async_id_field tree_id_field session_id_field original_message_size_field
        encryption_flags_field :
      Field

abbrev pub read_field : Field → Bytes → Answer ℕ
read_field credit_charge_field = credit_charge
read_field status_field = status
read_field command_field = command
read_field flags_field = flags
read_field next_command_field = next_command
read_field message_id_field = message_id
read_field async_id_field = async_id
read_field tree_id_field = tree_id
read_field session_id_field = session_id
read_field original_message_size_field = original_message_size
read_field encryption_flags_field = encryption_flags

abbrev pub set_field : Field → ℕ → Bytes → Answer Bytes
set_field credit_charge_field = set_credit_charge
set_field status_field = set_status
set_field command_field = set_command
set_field flags_field = set_flags
set_field next_command_field = set_next_command
set_field message_id_field = set_message_id
set_field async_id_field = set_async_id
set_field tree_id_field = set_tree_id
set_field session_id_field = set_session_id
set_field original_message_size_field = set_original_message_size
set_field encryption_flags_field = set_encryption_flags

abbrev pub offset : Field → ℕ
offset credit_charge_field = 6
offset status_field = 8
offset command_field = 12
offset flags_field = 16
offset next_command_field = 20
offset message_id_field = 24
offset async_id_field = 32
offset tree_id_field = 36
offset session_id_field = 40
offset original_message_size_field = 36
offset encryption_flags_field = 42

abbrev pub width : Field → ℕ
width credit_charge_field = 2
width status_field = 4
width command_field = 2
width flags_field = 4
width next_command_field = 4
width message_id_field = 8
width async_id_field = 8
width tree_id_field = 4
width session_id_field = 8
width original_message_size_field = 4
width encryption_flags_field = 2

-- No byte is in both fields.
abbrev pub apart : Field → Field → Bool
apart f g = leb (offset f + width f) (offset g) || leb (offset g + width g) (offset f)

read_field-get : (f : Field) (h : Bytes) → read_field f h ≡ get (offset f) (width f) h
unfolding credit_charge status command flags next_command message_id async_id tree_id session_id
    original_message_size encryption_flags
read_field-get credit_charge_field h = refl
read_field-get status_field h = refl
read_field-get command_field h = refl
read_field-get flags_field h = refl
read_field-get next_command_field h = refl
read_field-get message_id_field h = refl
read_field-get async_id_field h = refl
read_field-get tree_id_field h = refl
read_field-get session_id_field h = refl
read_field-get original_message_size_field h = refl
read_field-get encryption_flags_field h = refl

set_field-put : (f : Field) (v : ℕ) (h : Bytes) → set_field f v h ≡ put (offset f) (width f) v h
unfolding set_credit_charge set_status set_command set_flags set_next_command set_message_id
    set_async_id set_tree_id set_session_id set_original_message_size set_encryption_flags
set_field-put credit_charge_field v h = refl
set_field-put status_field v h = refl
set_field-put command_field v h = refl
set_field-put flags_field v h = refl
set_field-put next_command_field v h = refl
set_field-put message_id_field v h = refl
set_field-put async_id_field v h = refl
set_field-put tree_id_field v h = refl
set_field-put session_id_field v h = refl
set_field-put original_message_size_field v h = refl
set_field-put encryption_flags_field v h = refl

inside : (f : Field) → offset f + width f ≤ 64
inside credit_charge_field = omega arith
inside status_field = omega arith
inside command_field = omega arith
inside flags_field = omega arith
inside next_command_field = omega arith
inside message_id_field = omega arith
inside async_id_field = omega arith
inside tree_id_field = omega arith
inside session_id_field = omega arith
inside original_message_size_field = omega arith
inside encryption_flags_field = omega arith

either_side : (a b c d : ℕ) → leb a b || leb c d ≡ true → (a ≤ b) ⊎ (c ≤ d)
either_side a b c d e = ground (arith, e)

le_read-apart :
    (f g : Field) (v : ℕ) (h : Bytes)
    → apart f g ≡ true
    → le_read (width g) (drop (offset g) (overwrite_at (offset f) (le_write (width f) v) h))
      ≡ le_read (width g) (drop (offset g) h)
le_read-apart f g v h e =
    let wide = length-le_write (width f) v in
    elim (either_side (offset f + width f) (offset g) (offset g + width g) (offset f) e) [
      | inl after ↦
          ap (le_read (width g))
            (drop-after (offset g) (offset f) (le_write (width f) v) h (omega (arith, wide, after)))
      | inr before ↦ le_read-before (offset g) (width g) (offset f) (le_write (width f) v) h before
    ]

-- A field that is set in a whole header reads back as it was set, and another field that shares no byte
-- with it reads as before. The number set fits the field.
pub read_field-set_field :
    (f g : Field) (v : ℕ) (h : Bytes)
    → 64 ≤ length h
    → v < 256 ^ width f
    → apart f g ≡ true
    → (h' : Bytes) × (set_field f v h ≡ done h')
      × (length h' ≡ length h)
      × (read_field f h' ≡ done v)
      × (read_field g h' ≡ read_field g h)
unfolding get put
read_field-set_field f g v h whole small beside =
    let h' = overwrite_at (offset f) (le_write (width f) v) h in
    let same = length-overwrite_at (offset f) (le_write (width f) v) h in
    let in_f = inside f in
    let in_g = inside g in
    let back = le_read-written (offset f) (width f) v h (omega (arith, in_f)) small in
    let other = le_read-apart f g v h beside in
    let set = set_field-put f v h in
    let read_f = read_field-get f h' in
    let read_g = read_field-get g h' in
    let read_before = read_field-get g h in
    (
      h',
      ground (arith, set, whole, in_f),
      same,
      ground (arith, read_f, same, whole, in_f, back),
      ground (arith, read_g, read_before, same, whole, in_g, other),
    )

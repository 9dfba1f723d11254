-- ===== src/Message/Header.antt =====
-- smb2/header.go: the header of a message, as the bytes that it is a view of. A method that sets a field
-- gives the bytes back.
use sombrero.Base.{ℕ, Bool, not, ◌||◌, ltb, ◌==◌, if◌then◌else◌, length}
use sombrero.Message.Words.{
  Bytes, Answer, done, refused, ◌>>=◌, get, put, put_bytes, slice, wrong_length, wrong_format,
  wrong_protocol, encrypted_message, compressed_message,
}

abbrev pub protocol_smb : ℕ
protocol_smb = 1112364031

abbrev pub protocol_smb2 : ℕ
protocol_smb2 = 1112364030

abbrev pub protocol_smb2_encrypted : ℕ
protocol_smb2_encrypted = 1112364029

abbrev pub protocol_smb2_compressed : ℕ
protocol_smb2_compressed = 1112364028

abbrev pub smb_com_negotiate : ℕ
smb_com_negotiate = 114

abbrev pub flags_server_to_redir : ℕ
flags_server_to_redir = 1

abbrev pub flags_async_command : ℕ
flags_async_command = 2

abbrev pub flags_related_operations : ℕ
flags_related_operations = 4

abbrev pub smb_header_size : ℕ
smb_header_size = 32

abbrev pub smb2_header_size : ℕ
smb2_header_size = 64

abbrev pub smb2_header_structure_size : ℕ
smb2_header_structure_size = 64

unfoldable pub new_header : Bytes → Answer Bytes
new_header bytes = do h ← put 0 4 protocol_smb2 bytes; put 4 2 smb2_header_structure_size h

-- `CopyFrom`.
unfoldable pub copy_from : Bytes → Bytes → Answer Bytes
copy_from src h = do header ← slice 0 smb2_header_size src; put_bytes 0 smb2_header_size header h

unfoldable pub protocol_id : Bytes → Answer ℕ
protocol_id h = get 0 4 h

unfoldable pub is_smb : Bytes → Answer Bool
is_smb h = do id ← protocol_id h; done (id == protocol_smb)

unfoldable pub is_smb2 : Bytes → Answer Bool
is_smb2 h = do
  id ← protocol_id h
  done (id == protocol_smb2 || (id == protocol_smb2_encrypted || id == protocol_smb2_compressed))

unfoldable pub legacy_command : Bytes → Answer ℕ
legacy_command h = get 4 1 h

-- The three ways that a header is looked at by the protocol it opens with.
unfoldable pub validate_smb : Bytes → Answer (Unit {0})
validate_smb h = if ltb (length h) smb_header_size then refused wrong_length else do
  command ← legacy_command h
  if not (command == smb_com_negotiate) then refused wrong_protocol else done tt

unfoldable pub validate_smb2 : Bytes → Answer (Unit {0})
validate_smb2 h = if ltb (length h) smb2_header_size then refused wrong_length else do
  id ← protocol_id h
  size ← get 4 2 h
  if id == protocol_smb2_encrypted
      then refused encrypted_message
      else if id == protocol_smb2_compressed
      then refused compressed_message
      else if not (size == smb2_header_structure_size)
      then refused wrong_format
      else done tt

unfoldable pub validate : Bytes → Answer (Unit {0})
validate h = if ltb (length h) 4 then refused wrong_length else do
  smb ← is_smb h
  smb2 ← is_smb2 h
  if smb then validate_smb h else if smb2 then validate_smb2 h else refused wrong_protocol

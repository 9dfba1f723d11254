-- ===== src/Message/Fields.antt =====
-- smb2/header.go: the fields of a header.
pub mod Readback
use sombrero.Base.{ℕ, Bool, replicate, has, bit_or, and_not}
use sombrero.Message.Words.{Bytes, Answer, done, ◌>>=◌, get, put, get_bytes, put_bytes, overwrite}

unfoldable pub credit_charge : Bytes → Answer ℕ
credit_charge h = get 6 2 h

unfoldable pub set_credit_charge : ℕ → Bytes → Answer Bytes
set_credit_charge v h = put 6 2 v h

unfoldable pub status : Bytes → Answer ℕ
status h = get 8 4 h

unfoldable pub set_status : ℕ → Bytes → Answer Bytes
set_status v h = put 8 4 v h

unfoldable pub channel_sequence : Bytes → Answer ℕ
channel_sequence h = get 8 2 h

unfoldable pub command : Bytes → Answer ℕ
command h = get 12 2 h

unfoldable pub set_command : ℕ → Bytes → Answer Bytes
set_command v h = put 12 2 v h

unfoldable pub credit_request : Bytes → Answer ℕ
credit_request h = get 14 2 h

unfoldable pub set_credit_response : ℕ → Bytes → Answer Bytes
set_credit_response v h = put 14 2 v h

unfoldable pub flags : Bytes → Answer ℕ
flags h = get 16 4 h

unfoldable pub set_flags : ℕ → Bytes → Answer Bytes
set_flags v h = put 16 4 v h

unfoldable pub next_command : Bytes → Answer ℕ
next_command h = get 20 4 h

unfoldable pub set_next_command : ℕ → Bytes → Answer Bytes
set_next_command v h = put 20 4 v h

unfoldable pub message_id : Bytes → Answer ℕ
message_id h = get 24 8 h

unfoldable pub set_message_id : ℕ → Bytes → Answer Bytes
set_message_id v h = put 24 8 v h

unfoldable pub async_id : Bytes → Answer ℕ
async_id h = get 32 8 h

unfoldable pub set_async_id : ℕ → Bytes → Answer Bytes
set_async_id v h = put 32 8 v h

unfoldable pub tree_id : Bytes → Answer ℕ
tree_id h = get 36 4 h

unfoldable pub set_tree_id : ℕ → Bytes → Answer Bytes
set_tree_id v h = put 36 4 v h

unfoldable pub session_id : Bytes → Answer ℕ
session_id h = get 40 8 h

unfoldable pub set_session_id : ℕ → Bytes → Answer Bytes
set_session_id v h = put 40 8 v h

unfoldable pub original_message_size : Bytes → Answer ℕ
original_message_size h = get 36 4 h

unfoldable pub set_original_message_size : ℕ → Bytes → Answer Bytes
set_original_message_size v h = put 36 4 v h

unfoldable pub encryption_flags : Bytes → Answer ℕ
encryption_flags h = get 42 2 h

unfoldable pub set_encryption_flags : ℕ → Bytes → Answer Bytes
set_encryption_flags v h = put 42 2 v h

unfoldable pub is_flag_set : ℕ → Bytes → Answer Bool
is_flag_set flag h = do set ← flags h; done (has set flag)

unfoldable pub set_flag : ℕ → Bytes → Answer Bytes
set_flag flag h = do set ← flags h; set_flags (bit_or set flag) h

unfoldable pub clear_flag : ℕ → Bytes → Answer Bytes
clear_flag flag h = do set ← flags h; set_flags (and_not set flag) h

unfoldable pub signature : Bytes → Answer Bytes
signature h = get_bytes 48 16 h

unfoldable pub set_signature : Bytes → Bytes → Answer Bytes
set_signature s h = put_bytes 48 16 s h

unfoldable pub wipe_signature : Bytes → Answer Bytes
wipe_signature h = set_signature (replicate 16 0) h

unfoldable pub encryption_signature : Bytes → Answer Bytes
encryption_signature h = get_bytes 4 16 h

unfoldable pub set_encryption_signature : Bytes → Bytes → Answer Bytes
set_encryption_signature s h = put_bytes 4 16 s h

unfoldable pub wipe_encryption_signature : Bytes → Answer Bytes
wipe_encryption_signature h = set_encryption_signature (replicate 16 0) h

unfoldable pub nonce : Bytes → Answer Bytes
nonce h = get_bytes 20 16 h

-- A nonce of another length is cut or filled up.
unfoldable pub set_nonce : Bytes → Bytes → Answer Bytes
set_nonce n h = put_bytes 20 16 (overwrite n (replicate 16 0)) h

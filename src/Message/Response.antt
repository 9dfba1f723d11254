-- ===== src/Message/Response.antt =====
-- smb2/request.go: the responses to a chain, and the requests with no body of their own. A response
-- that is appended is changed by it, so `append` gives both.
pub mod Append
use sombrero.Base.{
  ℕ, zero, suc, ◌+◌, ◌-◌, ◌%◌, ◌^◌, Bool, true, false, not, List, [], ◌∷◌, ◌++◌, ltb, ◌==◌,
  if◌then◌else◌, length, replicate, and_not,
}
use sombrero.Message.Words.{
  Bytes, Answer, done, refused, panics, ◌>>=◌, get, put, wrong_length, wrong_format, stuck,
}
use sombrero.Message.Header.{
  validate, is_smb, copy_from, smb2_header_size, flags_related_operations, flags_server_to_redir,
  flags_async_command,
}
use sombrero.Message.Fields.{
  set_flag, clear_flag, is_flag_set, set_status, set_next_command, set_credit_response,
}
use sombrero.Message.Request.{Request}

pub record Response : Type 0 where
  pub body : Bytes
  pub group_id : ℕ
  pub session_id : ℕ
  pub tree_id : ℕ
  pub open_id : Bytes
  pub should_encrypt : Bool
  pub may_compress : Bool

-- `Roundup` of utils/utils.go.
unfoldable pub roundup : ℕ → ℕ → ℕ
roundup x bound = and_not (x + (bound - 1)) (bound - 1)

-- STATUS_OK is zero.
unfoldable pub from_request : Request → Response → Answer Response
from_request req resp = do
  copied ← copy_from req.body (replicate smb2_header_size 0)
  fine ← set_status 0 copied
  flagged ← set_flag flags_server_to_redir fine
  header ← (if req.group_id == 0 then clear_flag flags_related_operations flagged else done flagged)
  done (record resp {
    body = header;
    group_id = req.group_id;
    should_encrypt = req.is_encrypted;
    may_compress = req.compress_reply;
  })

-- Where the last response of a chain begins, from the one at `off` on.
unfoldable pub last_offset : ℕ → Bytes → ℕ → Answer ℕ
last_offset zero bytes off = refused stuck
last_offset (suc fuel) bytes off = do
  next ← get ((off + 20) % 2 ^ 32) 4 bytes
  if next == 0 then done off else last_offset fuel bytes ((off + next) % 2 ^ 32)

abbrev pub padding : Bytes → Bytes
padding bytes = replicate (roundup (length bytes) 8 - length bytes) 0

unfoldable pub append : Response → Response → Answer (Response × Response)
append resp added = do
  off ← last_offset (suc (length resp.body)) resp.body 0
  let padded = resp.body ++ padding resp.body
  linked ← put ((off + 20) % 2 ^ 32) 4 ((length padded + 2 ^ 32 - off) % 2 ^ 32) padded
  related ← set_flag flags_related_operations added.body
  let added' = record added { body = related }
  done (record resp { body = linked ++ related }, added')

-- `structureSize`.
unfoldable pub structure_size : Request → Answer ℕ
structure_size req = do
  smb ← is_smb req.body
  if smb then done 0 else get smb2_header_size 2 req.body

-- `Validate` of the requests whose body is four bytes, of that structure size.
unfoldable pub validate_small : Request → Answer (Unit {0})
validate_small req = do
  _ ← validate req.body
  if ltb (length req.body) (smb2_header_size + 4)
      then refused wrong_length
      else (do size ← structure_size req; if not (size == 4) then refused wrong_format else done tt)

unfoldable pub echo_from_request : Request → Response → Answer Response
echo_from_request req resp = do
  started ← from_request req resp
  sized ← put smb2_header_size 2 4 (started.body ++ replicate 4 0)
  alone ← set_next_command 0 sized
  fine ← set_status 0 alone
  async ← is_flag_set flags_async_command fine
  whole ← (if async then set_credit_response 0 fine else done fine)
  done (record started { body = whole })

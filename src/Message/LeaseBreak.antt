-- ===== src/Message/LeaseBreak.antt =====
-- smb2/lease.go: the notification that a lease is cut back, the acknowledgment of it, and the response.
use sombrero.Base.{
  ℕ, ◌+◌, ◌-◌, ◌^◌, ◌≤◌, Bool, true, false, not, ◌++◌, ◌≡◌, ltb, ◌==◌, if◌then◌else◌, length,
  replicate, arith, ◌⊎◌, inl, inr,
}
use sombrero.Message.Words.{
  Bytes, Answer, done, refused, ◌>>=◌, get, put, get_bytes, put_bytes, slice, wrong_length,
  wrong_format,
}
use sombrero.Message.Header.{
  validate, new_header, smb2_header_size, flags_server_to_redir, flags_async_command, is_smb,
  protocol_id,
}
use sombrero.Message.Fields.{
  set_command, set_status, set_flags, set_message_id, set_credit_charge, set_credit_response,
  set_session_id, set_tree_id, set_next_command, is_flag_set,
}
use sombrero.Message.Request.{Request}
use sombrero.Message.Request.Chain.{settled, is_done, validate-settled}
use sombrero.Message.Response.{Response, from_request, structure_size}

abbrev pub smb2_oplock_break : ℕ
smb2_oplock_break = 18

-- `OplockBreakUnsolicitedMessageID`.
abbrev pub unsolicited_message_id : ℕ
unsolicited_message_id = 2 ^ 64 - 1

-- The bytes of a notification; the fields of the body begin behind the header.
unfoldable pub new_lease_break_notification : Bytes → ℕ → ℕ → ℕ → Bool → Answer Bytes
new_lease_break_notification lease_key current granted epoch ack_required = do
  h ← new_header (replicate (smb2_header_size + 44) 0)
  h ← set_command smb2_oplock_break h
  h ← set_status 0 h
  h ← set_flags flags_server_to_redir h
  h ← set_message_id unsolicited_message_id h
  h ← set_credit_charge 0 h
  h ← set_credit_response 0 h
  h ← set_session_id 0 h
  h ← set_tree_id 0 h
  h ← put (smb2_header_size + 0) 2 44 h
  h ← put (smb2_header_size + 2) 2 epoch h
  h ← (if ack_required then put (smb2_header_size + 4) 4 1 h else done h)
  h ← put_bytes (smb2_header_size + 8) 16 lease_key h
  h ← put (smb2_header_size + 24) 4 current h
  put (smb2_header_size + 28) 4 granted h

-- `Validate`, `LeaseKey` and `LeaseState` of an acknowledgment.
unfoldable pub validate_lease_break : Request → Answer (Unit {0})
validate_lease_break req = do
  _ ← validate req.body
  if ltb (length req.body) (smb2_header_size + 36) then refused wrong_length else (do
    size ← structure_size req
    if not (size == 36) then refused wrong_format else done tt)

unfoldable pub break_lease_key : Request → Answer Bytes
break_lease_key req = get_bytes (smb2_header_size + 8) 16 req.body

unfoldable pub break_lease_state : Request → Answer ℕ
break_lease_state req = get (smb2_header_size + 24) 4 req.body

unfoldable pub lease_break_from_request : Request → Response → Answer Response
lease_break_from_request req resp = do
  started ← from_request req resp
  sized ← put smb2_header_size 2 36 (started.body ++ replicate 36 0)
  alone ← set_next_command 0 sized
  fine ← set_status 0 alone
  async ← is_flag_set flags_async_command fine
  whole ← (if async then set_credit_response 0 fine else done fine)
  done (record started { body = whole })

unfoldable pub generate : Bytes → ℕ → Response → Answer Response
generate lease_key state resp = do
  keyed ← put_bytes (smb2_header_size + 8) 16 lease_key resp.body
  whole ← put (smb2_header_size + 24) 4 state keyed
  done (record resp { body = whole })

structure_size-settled :
    (req : Request) → 66 ≤ length req.body → is_done (structure_size req) ≡ true
unfolding structure_size is_smb protocol_id get
structure_size-settled req long = ground (arith, long)

validate_lease_break-long :
    (req : Request)
    → (settled (validate_lease_break req) ≡ true)
      × ((is_done (validate_lease_break req) ≡ false) ⊎ (100 ≤ length req.body))
unfolding validate_lease_break
validate_lease_break-long req =
    let header = validate-settled req.body in
    let size = structure_size-settled req in ground (arith, header, size)

break_lease_key-done :
    (req : Request) → 100 ≤ length req.body → is_done (break_lease_key req) ≡ true
unfolding break_lease_key get_bytes slice
break_lease_key-done req long = ground (arith, long)

get-done : (off n : ℕ) (bytes : Bytes) → off + n ≤ length bytes → is_done (get off n bytes) ≡ true
unfolding get
get-done off n bytes inside = ground (arith, inside)

break_lease_state-done :
    (req : Request) → 100 ≤ length req.body → is_done (break_lease_state req) ≡ true
unfolding break_lease_state
break_lease_state-done req long = get-done 88 4 req.body (omega arith)

-- Any message may be tested as an acknowledgment, and of one that passes the key and the state can be
-- read: no index is out of range.
pub validate_lease_break-readable :
    (req : Request)
    → (settled (validate_lease_break req) ≡ true)
      × ((is_done (validate_lease_break req) ≡ false)
          ⊎ ((is_done (break_lease_key req) ≡ true) × (is_done (break_lease_state req) ≡ true)))
validate_lease_break-readable req =
    let (tested, came) = validate_lease_break-long req in
    elim came [
      | inl refusal ↦ (tested, inl refusal)
      | inr long ↦ (tested, inr (break_lease_key-done req long, break_lease_state-done req long))
    ]

-- ===== src/Message/Request/Chain.antt =====
-- smb2/request.go: what the parser of a chain answers to a message.
use sombrero.Base.{
  length-drop, ℕ, zero, suc, ◌+◌, ◌%◌, ◌^◌, ◌≤◌, ◌<◌, Bool, true, false, ◌||◌, ◌≡◌, length, drop,
  arith,
}
use sombrero.Message.Words.{Bytes, Answer, done, refused, panics, slice, slice_from, get, stuck}
use sombrero.Message.Header.{
  validate, validate_smb, validate_smb2, is_smb, is_smb2, protocol_id, legacy_command,
}
use sombrero.Message.Fields.{next_command, is_flag_set, flags}
use sombrero.Message.Request.{get_requests, Request, Arrival, new_request, cut, chain_fuel}

-- An answer that the code gives: no index is out of range, and no loop runs on.
abbrev pub settled : {A : Type 0} → Answer A → Bool
settled (done a) = true
settled (refused stuck) = false
settled (refused e) = true
settled panics = false

abbrev pub is_done : {A : Type 0} → Answer A → Bool
is_done (done a) = true
is_done (refused e) = false
is_done panics = false

abbrev pub value_or : {A : Type 0} → A → Answer A → A
value_or a (done b) = b
value_or a (refused e) = a
value_or a panics = a

pub validate-settled : (h : Bytes) → settled (validate h) ≡ true
unfolding validate validate_smb validate_smb2 is_smb is_smb2 protocol_id legacy_command get
validate-settled h = ground arith

validate-long : (h : Bytes) → is_done (validate h) ≡ true → 32 ≤ length h
unfolding validate validate_smb validate_smb2 is_smb is_smb2 protocol_id legacy_command get
validate-long h e = ground (arith, e)

is_flag_set-done : (flag : ℕ) (h : Bytes) → 32 ≤ length h → is_done (is_flag_set flag h) ≡ true
unfolding is_flag_set flags get
is_flag_set-done flag h long = ground (arith, long)

next_command-done : (h : Bytes) → 32 ≤ length h → is_done (next_command h) ≡ true
unfolding next_command get
next_command-done h long = ground (arith, long)

cut-settled :
    (bytes : Bytes) (off next : ℕ) (req : Request)
    → length bytes < 2 ^ 32
    → settled (cut bytes off next req) ≡ true
unfolding cut slice
cut-settled bytes off next req small = ground (arith, small)

pub cut-fits :
    (bytes : Bytes) (off next : ℕ) (req : Request)
    → is_done (cut bytes off next req) ≡ true
    → off ≤ length bytes
    → off + next ≤ length bytes
unfolding cut
cut-fits bytes off next req e inside = ground (arith, e, inside)

chain_fuel-settled :
    (fuel : ℕ) (from : Arrival) (bytes : Bytes) (off so_far : ℕ) (related : Bool) (req : Request)
    (next : ℕ)
    → length bytes < 2 ^ 32
    → length bytes < off + fuel
    → off ≤ length bytes
    → 32 ≤ length req.body
    → settled (chain_fuel fuel from bytes off so_far related req next) ≡ true
unfolding chain_fuel new_request slice_from
chain_fuel-settled zero from bytes off so_far related req next small few inside long =
    absurd (omega arith)
chain_fuel-settled (suc fuel) from bytes off so_far related req next small few inside long =
    let off' = (off + next) % 2 ^ 32 in
    let following = new_request from (suc so_far) (drop off' bytes) in
    let left = length-drop {0} off' bytes in
    let flagged = is_flag_set-done 4 req.body long in
    let whole = cut-settled bytes off next req small in
    let fits = cut-fits bytes off next req in
    let valid = validate-settled following.body in
    let header = validate-long following.body in
    let command = next_command-done following.body in
    let set = related || value_or false (is_flag_set 4 req.body) in
    let others =
      chain_fuel-settled fuel from bytes off' (suc so_far) set following
        (value_or 0 (next_command following.body)) small in
    ground (arith, few, inside, left, flagged, whole, fits, valid, header, command, others)

-- No message makes the parser read past what it was given or run on: it comes to the requests of the
-- message or to one of the source's errors, for a message that is shorter than 2^32 bytes.
pub get_requests-settled :
    (from : Arrival) (bytes : Bytes)
    → length bytes < 2 ^ 32
    → settled (get_requests from bytes) ≡ true
unfolding get_requests new_request
get_requests-settled from bytes small =
    let req = new_request from 0 bytes in
    let valid = validate-settled bytes in
    let header = validate-long bytes in
    let command = next_command-done bytes in
    let chain =
      chain_fuel-settled (suc (length bytes)) from bytes 0 0 false req
        (value_or 0 (next_command bytes)) small in
    ground (arith, valid, header, command, chain)

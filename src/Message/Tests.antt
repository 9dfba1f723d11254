-- ===== src/Message/Tests.antt =====
-- A chain of two requests and the responses to them, and the theorems at these.
use sombrero.Base.{
  ℕ, ◌+◌, true, false, List, [], ◌∷◌, ◌++◌, map, ◌≡◌, refl, some, inr, ◌⊎◌, All, length, drop,
  replicate, arith,
}
use sombrero.Message.Words.{
  Bytes, done, refused, get, slice, slice_from, wrong_length, related_requests, unaligned_requests,
}
use sombrero.Message.Header.{validate, validate_smb2, is_smb, is_smb2, protocol_id}
use sombrero.Message.Fields.{next_command, is_flag_set, flags}
use sombrero.Message.Fields.Readback.{
  read_field-set_field, set_field, read_field, message_id_field, session_id_field,
}
use sombrero.Message.Request.{
  Request, Arrival, new_request, cut, chain_fuel, out_of_place, get_requests, group,
}
use sombrero.Message.Request.Chain.{get_requests-settled, settled, is_done, value_or}
use sombrero.Message.Request.Parts.{bodies, aligned, linked}
use sombrero.Message.Request.Whole.{get_requests-whole}
use sombrero.Message.Response.{Response, append, padding}
use sombrero.Message.Response.Append.{append-IsLinked, joined, linked_last, IsLinked, IsLast}
use sombrero.Message.LeaseBreak.{
  validate_lease_break, break_lease_key, break_lease_state, validate_lease_break-readable,
}
use sombrero.Message.LeaseContext.{
  LeaseRequest, parse_lease_request, handle_create_request_lease, answered,
  parse_lease_request-handle_create_request_lease,
}

-- A header with its flags and the link to the next of its chain.
abbrev header : ℕ → ℕ → Bytes
header set next =
    (254 ∷ 83 ∷ 77 ∷ 66 ∷ 64 ∷ 0 ∷ replicate 10 0)
    ++ (set ∷ 0 ∷ 0 ∷ 0 ∷ next ∷ 0 ∷ 0 ∷ 0 ∷ replicate 40 0)

abbrev arrival : Arrival
arrival = record { draw = λ n. n + 7; tsid = 0; compressed = false }

abbrev two : Bytes
two = header 0 64 ++ header 4 0

abbrev asked : List Request
asked = value_or [] (get_requests arrival two)

asked-done : get_requests arrival two ≡ done asked
unfolding get_requests new_request cut chain_fuel out_of_place group validate validate_smb2 is_smb
    is_smb2 protocol_id next_command is_flag_set flags get slice slice_from
asked-done = refl

asked_groups : map (λ (r : Request). r.group_id) asked ≡ 9 ∷ 9 ∷ []
unfolding get_requests new_request cut chain_fuel out_of_place group validate validate_smb2 is_smb
    is_smb2 protocol_id next_command is_flag_set flags get slice slice_from
asked_groups = refl

-- A link that points past the end, one that is no number of eights, and a chain that opens with a
-- related request.
past_the_end : get_requests arrival (header 0 200 ++ header 4 0) ≡ refused wrong_length
unfolding get_requests new_request cut chain_fuel out_of_place validate validate_smb2 is_smb is_smb2
    protocol_id next_command is_flag_set flags get
past_the_end = refl

uneven : get_requests arrival (header 0 63 ++ header 4 0) ≡ refused unaligned_requests
unfolding get_requests new_request chain_fuel validate validate_smb2 is_smb is_smb2 protocol_id
    next_command get
uneven = refl

related_first : get_requests arrival (header 4 64 ++ header 4 0) ≡ refused related_requests
unfolding get_requests new_request chain_fuel validate validate_smb2 is_smb is_smb2 protocol_id
    next_command is_flag_set flags get
related_first = refl

get_requests-settled_example : settled (get_requests arrival two) ≡ true
get_requests-settled_example = get_requests-settled arrival two (omega arith)

get_requests-whole_example : (bodies asked ≡ two) × (aligned asked ≡ true) × (linked asked ≡ true)
get_requests-whole_example = get_requests-whole arrival two asked (omega arith) asked-done

read_field-set_field_example :
    (h' : Bytes) × (set_field message_id_field 300 two ≡ done h')
    × (length h' ≡ length two)
    × (read_field message_id_field h' ≡ done 300)
    × (read_field session_id_field h' ≡ read_field session_id_field two)
read_field-set_field_example =
    read_field-set_field message_id_field session_id_field 300 two (omega arith) (omega arith) refl

abbrev answer : Bytes → Response
answer bytes = record {
  body = bytes;
  group_id = 9;
  session_id = 1;
  tree_id = 2;
  open_id = [];
  should_encrypt = false;
  may_compress = false;
}

abbrev short : Bytes
short = header 1 0 ++ (4 ∷ 0 ∷ 0 ∷ 0 ∷ [])

append-IsLinked_example :
    (related : Bytes) × (append (answer short) (answer (header 1 0))
      ≡ done (answer (joined (linked_last short (padding short) ∷ []) ++ related), answer related))
    × (All IsLinked (linked_last short (padding short) ∷ []))
    × (IsLast related)
    × (drop 20 related ≡ drop 20 (header 1 0))
append-IsLinked_example =
    append-IsLinked (answer short) (answer (header 1 0)) [] short refl tt (omega arith, refl)
      (omega arith, refl) (omega arith)

abbrev wanted : LeaseRequest
wanted = record {
  lease_key = replicate 16 3;
  lease_state = 7;
  flags = 4;
  parent_lease_key = replicate 16 5;
  epoch = 1;
  version = 2;
}

parse_lease_request-handle_create_request_lease_example :
    parse_lease_request (handle_create_request_lease wanted 3 9) ≡ some (answered wanted 3 9)
parse_lease_request-handle_create_request_lease_example =
    parse_lease_request-handle_create_request_lease wanted 3 9 refl (omega arith) (omega arith)
      (inr refl)

-- An acknowledgment of the state 3.
abbrev answered_break : Request
answered_break =
    new_request arrival 0 (header 0 0 ++ (36 ∷ 0 ∷ replicate 22 0 ++ (3 ∷ replicate 11 0)))

validate_lease_break-readable_example :
    (settled (validate_lease_break answered_break) ≡ true)
    × ((is_done (validate_lease_break answered_break) ≡ false)
        ⊎ ((is_done (break_lease_key answered_break) ≡ true)
            × (is_done (break_lease_state answered_break) ≡ true)))
validate_lease_break-readable_example = validate_lease_break-readable answered_break

-- ===== src/Message/Request.antt =====
-- smb2/request.go: the requests of a message. The random numbers that a request is given are drawn one
-- after another from `draw`.
pub mod Chain
pub mod Parts
pub mod Whole
use sombrero.Base.{
  ℕ, zero, suc, ◌+◌, ◌%◌, ◌^◌, Bool, true, false, not, ◌&&◌, ◌||◌, List, [], ◌∷◌, ◌++◌, map, ltb,
  leb, ◌==◌, if◌then◌else◌, length, has,
}
use sombrero.Message.Words.{
  Bytes, Answer, done, refused, panics, ◌>>=◌, slice, slice_from, get, wrong_length,
  related_requests, mixed_requests, unaligned_requests, stuck,
}
use sombrero.Message.Header.{validate, is_smb, smb2_header_size, flags_related_operations}
use sombrero.Message.Fields.{next_command, is_flag_set}

pub record Request : Type 0 where
  pub cancel_request_id : ℕ
  pub group_id : ℕ
  pub body : Bytes
  pub open_id : Bytes
  pub is_encrypted : Bool
  pub transform_session_id : ℕ
  pub compress_reply : Bool

-- What a request is told of the message that it came in.
pub record Arrival : Type 0 where
  pub draw : ℕ → ℕ
  pub tsid : ℕ
  pub compressed : Bool

unfoldable pub new_request : Arrival → ℕ → Bytes → Request
new_request from drawn bytes = record {
  cancel_request_id = from.draw drawn;
  group_id = 0;
  body = bytes;
  open_id = [];
  is_encrypted = not (from.tsid == 0);
  transform_session_id = from.tsid;
  compress_reply = from.compressed;
}

-- What the requests of a chain must have in common, where `so_far` were taken before.
unfoldable pub out_of_place : ℕ → Bool → Bool → Bool
out_of_place so_far related flagged =
    ltb 1 so_far && ((not related && flagged) || (related && not flagged))

-- The part of the message that a request is, up to the next of the chain.
unfoldable pub cut : Bytes → ℕ → ℕ → Request → Answer Request
cut bytes off next req =
    if next == 0
    then done req
    else if ltb (length bytes) (off + next)
    then refused wrong_length
    else (do body ← slice off ((off + next) % 2 ^ 32) bytes; done (record req { body = body }))

-- What was taken of a chain, and whether its requests are related.
pub record Taken : Type 0 where
  pub reqs : List Request
  pub related : Bool

-- The loop over a chain: the requests from `req` on, which begins at `off`, with `so_far` before it.
unfoldable pub chain_fuel : ℕ → Arrival → Bytes → ℕ → ℕ → Bool → Request → ℕ → Answer Taken
chain_fuel zero from bytes off so_far related req next = refused stuck
chain_fuel (suc fuel) from bytes off so_far related req next =
    if has next 7 then refused unaligned_requests else (do
      flagged ← is_flag_set flags_related_operations req.body
      if (off == 0) && flagged
          then refused related_requests
          else if out_of_place so_far related flagged
          then refused mixed_requests
          else (do
            req' ← cut bytes off next req
            if next == 0
                then done (record { reqs = req' ∷ []; related = related || flagged })
                else (do
                  let off' = (off + next) % 2 ^ 32
                  rest ← slice_from off' bytes
                  let following = new_request from (suc so_far) rest
                  _ ← validate following.body
                  next' ← next_command following.body
                  others ←
                      chain_fuel fuel from bytes off' (suc so_far) (related || flagged) following
                        next'
                  done (record { reqs = req' ∷ others.reqs; related = others.related }))))

-- The requests of a chain are of one group.
unfoldable pub group : ℕ → Taken → List Request
group id t =
    if t.related then map (λ (req : Request). record req { group_id = id }) t.reqs else t.reqs

unfoldable pub get_requests : Arrival → Bytes → Answer (List Request)
get_requests from bytes = do
  let req = new_request from 0 bytes
  _ ← validate req.body
  next ← next_command req.body
  if next == 0 then done (req ∷ []) else (do
    t ← chain_fuel (suc (length bytes)) from bytes 0 0 false req next
    done (group (from.draw (length t.reqs)) t))

-- ===== src/ChannelSequence.antt =====
-- conn.go: the channel sequences of the requests on an open, `verifyChannelSequence` and
-- `releaseOpen`. Each holds two locks one after the other, `op.mu` for the counters of the open and
-- `c.mu` for the map of the connection, so each is two steps, and a request that stands between them is
-- in a list of the state. Opens are known by numbers. A request is known by one number, for its
-- connection and its message ID, which the command sequence window hands out once.
pub mod Counted
pub mod Verify
pub mod Release
pub mod Outstanding
mod Tests
use sombrero.Base.{
  ℕ, ◌+◌, ◌-◌, ◌%◌, ◌^◌, Bool, true, false, not, ◌&&◌, ◌||◌, Option, none, some, List, [], ◌∷◌, ltb,
  leb, ◌==◌, if◌then◌else◌, lookup, insert, delete, get_elem?, remove_at,
}

-- The fields of an open that count requests: 16 bits, and 32 bits for the counters.
pub record Open : Type 0 where
  pub channel_sequence : ℕ
  pub outstanding_request_count : ℕ
  pub outstanding_previous_request_count : ℕ

-- The connections of the server, which share the opens. `request_opens` holds the entries of all their
-- maps. Requests that have been counted and are not in a map yet, and requests that have
-- been taken out of one and are still counted, are in `entering` and `leaving`.
pub record Connections : Type 0 where
  pub opens : ℕ → Open
  pub entering : List (ℕ × ℕ)
  pub request_opens : List (ℕ × ℕ)
  pub leaving : List (ℕ × ℕ)

-- What a request says of itself. `is_3x` is whether the connection that it came on negotiated a dialect of
-- the 3.x family, and `modifies` is whether it is a write, a set info or an IOCTL.
pub record Request : Type 0 where
  pub channel_sequence : ℕ
  pub is_3x : Bool
  pub replay : Bool
  pub modifies : Bool

pub data Status : Type 0 where
  status_ok status_file_not_available : Status

-- Whether the request is counted, and the open after it.
unfoldable pub count_request : Request → Open → Bool × Open
count_request req op =
    let cs = req.channel_sequence in
    let diff = (cs + 2 ^ 16 - op.channel_sequence) % 2 ^ 16 in
    let previous =
      (op.outstanding_previous_request_count + op.outstanding_request_count) % 2 ^ 32 in
    if diff == 0
    then (if not req.replay || (op.outstanding_previous_request_count == 0)
        then (
          true,
          record op { outstanding_request_count = (op.outstanding_request_count + 1) % 2 ^ 32 },
        )
        else (false, op))
    else if leb diff 0x7fff
    then (if not req.replay || (previous == 0)
        then (
          true,
          record {
            channel_sequence = cs;
            outstanding_request_count = 1;
            outstanding_previous_request_count = previous;
          },
        )
        else (
          false,
          record {
            channel_sequence = cs;
            outstanding_request_count = 0;
            outstanding_previous_request_count = previous;
          },
        ))
    else (false, op)

abbrev pub update : ℕ → Open → (ℕ → Open) → ℕ → Open
update p op opens i = if p == i then op else opens i

-- The first part of `verifyChannelSequence`, which settles the answer: `k` is the request, and `p` the
-- open it names.
unfoldable pub verify_channel_sequence : ℕ → Request → ℕ → Connections → Status × Connections
verify_channel_sequence k req p c =
    let (counted, op) = count_request req (c.opens p) in
    let c' = record c { opens = update p op c.opens } in
    if not req.is_3x
    then (status_ok, c)
    else if counted
    then (status_ok, record c' { entering = (k, p) ∷ c.entering })
    else if req.modifies
    then (status_file_not_available, c')
    else (status_ok, c')

-- The second part, for one of the requests that were counted.
unfoldable pub remember_request : ℕ → Connections → Connections
remember_request i c = elim (get_elem? c.entering i) [
  | none ↦ c
  | some (k, p) ↦ record c {
    entering = remove_at i c.entering;
    request_opens = insert k p c.request_opens;
  }
]

unfoldable pub uncount_request : Request → Open → Open
uncount_request req op =
    if req.is_3x && (req.channel_sequence == op.channel_sequence)
    then (if ltb 0 op.outstanding_request_count
        then record op { outstanding_request_count = op.outstanding_request_count - 1 }
        else op)
    else if ltb 0 op.outstanding_previous_request_count
    then record op {
      outstanding_previous_request_count = op.outstanding_previous_request_count - 1;
    }
    else op

-- The first part of `releaseOpen`.
unfoldable pub release_open : ℕ → Connections → Connections
release_open k c = elim (lookup k c.request_opens) [
  | none ↦ record c { request_opens = delete k c.request_opens }
  | some p ↦ record c { request_opens = delete k c.request_opens; leaving = (k, p) ∷ c.leaving }
]

-- The second part, for one of the requests that were taken out of a map.
unfoldable pub finish_release : (ℕ → Request) → ℕ → Connections → Connections
finish_release request i c = elim (get_elem? c.leaving i) [
  | none ↦ c
  | some (k, p) ↦ record c {
    leaving = remove_at i c.leaving;
    opens = update p (uncount_request (request k) (c.opens p)) c.opens;
  }
]

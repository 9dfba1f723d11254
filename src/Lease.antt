-- ===== src/Lease.antt =====
-- lease.go: one lease, from the grant to the end of a break. Each function runs under `l.mu`, so it
-- is one step. Keys and client GUIDs are 16 bytes that are only compared: a number stands for each,
-- and 0 for the GUID of zeros.
pub mod Machine
pub mod Timer
pub mod Waiters
mod Tests
use Prim.Native.String.{String}
use sombrero.Base.{
  ℕ, ◌+◌, ◌-◌, ◌%◌, ◌^◌, Bool, true, false, not, ◌&&◌, ◌||◌, Option, none, some, List, [], ◌∷◌, ltb,
  ◌==◌, if◌then◌else◌, has, and_not, bit_and, length,
}
use sombrero.Oplock.{Channels, close_channel, make_channel}

abbrev pub lease_none : ℕ
lease_none = 0x0

abbrev pub lease_read_caching : ℕ
lease_read_caching = 0x1

abbrev pub lease_handle_caching : ℕ
lease_handle_caching = 0x2

abbrev pub lease_write_caching : ℕ
lease_write_caching = 0x4

abbrev pub lease_states : ℕ
lease_states = 0x7

-- `opens` holds the durable file IDs of the opens that share the lease.
pub record Lease : Type 0 where
  pub lease_key : ℕ
  pub client_guid : ℕ
  pub file_name : String
  pub state : ℕ
  pub break_to_state : ℕ
  pub breaking : Bool
  pub epoch : ℕ
  pub file_delete_on_close : Bool
  pub opens : List ℕ
  pub break_done : Option ℕ
  pub break_seq : ℕ

unfoldable pub lease_grantable : ℕ → Bool
lease_grantable requested = has requested lease_states

unfoldable pub lease_break_target : ℕ → Bool → ℕ
lease_break_target current shared_ok =
    if shared_ok then and_not current lease_write_caching else lease_none

-- The channel to wait on, whether the client has to be told, and the lease after it.
unfoldable pub start_break : ℕ → Lease → Channels → Option ℕ × Bool × Lease × Channels
start_break to l chans =
    if (l.state == lease_none) || (and_not l.state to == 0)
    then (none, false, l, chans)
    else if l.breaking
    then (if and_not l.break_to_state to == 0 then (l.break_done, false, l, chans) else (
      l.break_done,
      true,
      record l { break_to_state = bit_and l.break_to_state to; epoch = (l.epoch + 1) % 2 ^ 16 },
      chans,
    ))
    else (
      some chans.next,
      true,
      record l {
        breaking = true;
        break_to_state = to;
        epoch = (l.epoch + 1) % 2 ^ 16;
        break_seq = (l.break_seq + 1) % 2 ^ 64;
        break_done = some chans.next;
      },
      make_channel chans,
    )

unfoldable pub finish_break : ℕ → Lease → Channels → Bool × Lease × Channels
finish_break state l chans = if not l.breaking then (false, l, chans) else (
  true,
  record l { state = state; breaking = false; break_done = none },
  close_channel l.break_done chans,
)

pub complete_break : ℕ → Lease → Channels → Bool × Lease × Channels
complete_break = finish_break

pub expire_break : ℕ → ℕ → Lease → Channels → Bool × Lease × Channels
expire_break seq state l chans =
    if not (l.break_seq == seq) then (false, l, chans) else finish_break state l chans

-- What `sendLeaseBreak` does once it has tried to send, from what it read of the lease before; the
-- number of the break is the answer where the wait for it is started.
pub send_lease_break : Bool → Lease → Lease → Channels → Option ℕ × Lease × Channels
unfolding complete_break
send_lease_break sent seen l chans =
    let (_, revoked, chans_r) = complete_break lease_none l chans in
    let (_, told, chans_t) = complete_break seen.break_to_state l chans in
    if not sent
    then (none, revoked, chans_r)
    else if seen.state == lease_read_caching
    then (none, told, chans_t)
    else (some seen.break_seq, l, chans)

pub data AckStatus : Type 0 where
  status_ok status_object_name_not_found status_unsuccessful status_request_not_accepted : AckStatus

-- `seen` is the lease that was found, as the function read it: it lets go of `l.mu` before it completes
-- the break. The last of the answer is the opens on which `clearReplayEligible` is called.
pub acknowledge_lease_break :
    ℕ → Option Lease → Lease → Channels → AckStatus × ℕ × Lease × Channels × List ℕ
unfolding complete_break
acknowledge_lease_break state none l chans =
    (status_object_name_not_found, lease_none, l, chans, [])
acknowledge_lease_break state (some seen) l chans =
    let (_, kept, chans') = complete_break state l chans in
    if not seen.breaking
    then (status_unsuccessful, lease_none, l, chans, seen.opens)
    else if not (and_not state seen.break_to_state == 0)
    then (status_request_not_accepted, lease_none, l, chans, seen.opens)
    else (status_ok, state, kept, chans', seen.opens)

abbrev pub remove_open : ℕ → List ℕ → List ℕ
remove_open id [] = []
remove_open id (x ∷ xs) = if x == id then remove_open id xs else x ∷ remove_open id xs

-- The part of `join` that concerns the lease.
unfoldable pub share_lease : ℕ → ℕ → Lease → Lease
share_lease state id l = record l { state = state; opens = id ∷ remove_open id l.opens }

-- The part of `leaveLease` that concerns the lease: whether it has lost its last open.
unfoldable pub leave_lease : ℕ → Lease → Channels → Bool × Lease × Channels
leave_lease id l chans =
    let left = remove_open id l.opens in
    if ltb 0 (length left)
    then (false, record l { opens = left }, chans)
    else if l.breaking
    then (
      true,
      record l { opens = left; state = lease_none; breaking = false; break_done = none },
      close_channel l.break_done chans,
    )
    else (true, record l { opens = left; state = lease_none }, chans)

pub set_lease_delete_on_close : Bool → Lease → Lease
set_lease_delete_on_close pending l = record l { file_delete_on_close = pending }

pub rename_lease : String → Lease → Lease
rename_lease path l = record l { file_name = path; file_delete_on_close = false }

-- What happens to a lease.
pub data Event : Type 0 where
  join : ℕ → ℕ → Event
  leave conflict expire : ℕ → Event
  deliver : Bool → Lease → Event
  acknowledge : ℕ → Lease → Event
  pending_delete : Bool → Event
  rename : String → Event

pub step : Event → Lease → Channels → Lease × Channels
step (join state id) l chans = (share_lease state id l, chans)
step (leave id) l chans = let r = leave_lease id l chans in (r.1, r.2)
step (conflict to) l chans = let r = start_break to l chans in (r.2, r.3)
step (expire seq) l chans = let r = expire_break seq lease_none l chans in (r.1, r.2)
step (deliver sent seen) l chans = let r = send_lease_break sent seen l chans in (r.1, r.2)
step (acknowledge state seen) l chans =
    let r = acknowledge_lease_break state (some seen) l chans in (r.2, r.3)
step (pending_delete pending) l chans = (set_lease_delete_on_close pending l, chans)
step (rename path) l chans = (rename_lease path l, chans)

pub run : List Event → Lease → Channels → Lease × Channels
run [] l chans = (l, chans)
run (e ∷ es) l chans = let r = step e l chans in run es r.0 r.1

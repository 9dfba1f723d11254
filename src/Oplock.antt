-- ===== src/Oplock.antt =====
-- oplock.go: the oplock of one open, from the grant to the end of a break. Each function runs under
-- `op.mu`, so it is one step. A channel is known by a number, `Channels` says which are closed and
-- which number a new one gets.
pub mod Machine
pub mod Timer
pub mod Waiters
mod Tests
use sombrero.Base.{
  ℕ, ◌+◌, ◌%◌, ◌^◌, Bool, true, false, not, ◌&&◌, ◌||◌, Option, none, some, List, [], ◌∷◌, ltb, leb,
  ◌==◌, if◌then◌else◌, has,
}

-- Oplock levels, smb2/create.go.
abbrev pub oplock_level_none : ℕ
oplock_level_none = 0x00

abbrev pub oplock_level_ii : ℕ
oplock_level_ii = 0x01

abbrev pub oplock_level_exclusive : ℕ
oplock_level_exclusive = 0x08

abbrev pub oplock_level_batch : ℕ
oplock_level_batch = 0x09

abbrev pub oplock_level_lease : ℕ
oplock_level_lease = 0xff

pub data OplockState : Type 0 where
  oplock_none oplock_held oplock_breaking : OplockState

pub record Channels : Type 0 where
  pub closed : List ℕ
  pub next : ℕ

abbrev pub close_channel : Option ℕ → Channels → Channels
close_channel none chans = chans
close_channel (some ch) chans = record chans { closed = ch ∷ chans.closed }

abbrev pub make_channel : Channels → Channels
make_channel chans = record chans { next = chans.next + 1 }

-- The oplock fields of `open`.
pub record Oplock : Type 0 where
  pub level : ℕ
  pub state : OplockState
  pub break_to : ℕ
  pub break_done : Option ℕ
  pub break_seq : ℕ

-- A new open, and the one a released oplock leaves behind but for the two break fields.
abbrev pub no_oplock : Oplock
no_oplock = record {
  level = oplock_level_none;
  state = oplock_none;
  break_to = 0;
  break_done = none;
  break_seq = 0;
}

-- `is_pipe` is `tc.share.name == "ipc$"`.
pub oplock_eligible : ℕ → Bool → Bool → Bool
oplock_eligible requested is_pipe is_dir =
    ((requested == oplock_level_ii)
      || (requested == oplock_level_exclusive)
      || (requested == oplock_level_batch))
    && (not is_pipe && not is_dir)

unfoldable pub oplock_break_target : Bool → ℕ
oplock_break_target shared_ok = if shared_ok then oplock_level_ii else oplock_level_none

-- The create's disposition and options.
pub create_changes_file : ℕ → ℕ → Bool
create_changes_file disposition options =
    (disposition == 0) || (disposition == 4) || (disposition == 5) || has options 0x1000

-- The channel to wait on, whether this call started the break, and the state after it.
unfoldable pub start_oplock_break : ℕ → Oplock → Channels → Option ℕ × Bool × Oplock × Channels
start_oplock_break to op chans = elim op.state [
  | oplock_none ↦ (none, false, op, chans)
  | oplock_held ↦ if leb op.level to then (none, false, op, chans) else (
    some chans.next,
    true,
    record op {
      state = oplock_breaking;
      break_to = to;
      break_seq = (op.break_seq + 1) % 2 ^ 64;
      break_done = some chans.next;
    },
    make_channel chans,
  )
  | oplock_breaking ↦
      if leb op.break_to to
      then (op.break_done, false, op, chans)
      else (op.break_done, true, record op { break_to = to }, chans)
]

pub finish_oplock_break : ℕ → Oplock → Channels → Bool × Oplock × Channels
finish_oplock_break level op chans = elim op.state [
  | oplock_breaking ↦ (
    true,
    record op {
      level = level;
      state = if level == oplock_level_none then oplock_none else oplock_held;
      break_done = none;
    },
    close_channel op.break_done chans,
  )
  | _ ↦ (false, op, chans)
]

pub complete_oplock_break : ℕ → Oplock → Channels → Bool × Oplock × Channels
complete_oplock_break = finish_oplock_break

pub expire_oplock_break : ℕ → ℕ → Oplock → Channels → Bool × Oplock × Channels
expire_oplock_break seq level op chans =
    if not (op.break_seq == seq) then (false, op, chans) else finish_oplock_break level op chans

unfoldable pub release_oplock : Oplock → Channels → Oplock × Channels
release_oplock op chans = (
  record op { level = oplock_level_none; state = oplock_none; break_done = none },
  close_channel op.break_done chans,
)

-- What `sendOplockBreak` does once it has tried to send, from the level and the break that it read
-- before: a client that was not reached, or that held a level II oplock, loses it at once; else
-- the wait for that break is started, and its number is the answer.
pub send_oplock_break : Bool → ℕ → ℕ → Oplock → Channels → Option ℕ × Oplock × Channels
unfolding complete_oplock_break
send_oplock_break sent held seq op chans =
    let (_, op', chans') = complete_oplock_break oplock_level_none op chans in
    if not sent
    then (none, op', chans')
    else if held == oplock_level_ii
    then (none, op', chans')
    else (some seq, op, chans)

pub data AckStatus : Type 0 where
  status_ok status_invalid_device_state status_invalid_parameter : AckStatus
  status_invalid_oplock_protocol status_request_not_accepted : AckStatus

-- The levels below the one held that a client may answer with.
pub valid_ack : ℕ → ℕ → Bool
valid_ack held level =
    if held == oplock_level_batch
    then (level == oplock_level_exclusive)
      || (level == oplock_level_ii)
      || (level == oplock_level_none)
    else if held == oplock_level_exclusive
    then (level == oplock_level_ii) || (level == oplock_level_none)
    else if held == oplock_level_ii
    then level == oplock_level_none
    else false

-- `seen` is the oplock as the function read it; it lets go of `op.mu` before it completes the break,
-- so the oplock `op` that it acts on may be a later one.
pub acknowledge_oplock_break : ℕ → Oplock → Oplock → Channels → AckStatus × ℕ × Oplock × Channels
unfolding complete_oplock_break
acknowledge_oplock_break level seen op chans =
    let lost = complete_oplock_break oplock_level_none op chans in
    let kept = complete_oplock_break level op chans in
    elim seen.state [
      | oplock_breaking ↦
          if level == oplock_level_lease
          then (status_invalid_parameter, oplock_level_none, lost.1, lost.2)
          else if not (valid_ack seen.level level)
          then (status_invalid_oplock_protocol, oplock_level_none, lost.1, lost.2)
          else if ltb seen.break_to level
          then (status_request_not_accepted, oplock_level_none, op, chans)
          else (status_ok, level, kept.1, kept.2)
      | _ ↦ (status_invalid_device_state, oplock_level_none, op, chans)
    ]

-- The fields that `grantOplock` sets, where it grants something.
unfoldable pub hold_oplock : ℕ → Oplock → Oplock
hold_oplock granted op = record op { level = granted; state = oplock_held }

-- What happens to the oplock of an open. A grant is asked for only where `grantOplock` may make one.
pub data Event : Type 0 where
  grant : ℕ → Event
  start_break : ℕ → Event
  deliver : Bool → ℕ → ℕ → Event
  acknowledge : ℕ → Oplock → Event
  expire : ℕ → Event
  close : Event

pub step : Event → Oplock → Channels → Oplock × Channels
unfolding hold_oplock
step (grant level) op chans = elim op.state [
  | oplock_none ↦ if level == oplock_level_none then (op, chans) else (hold_oplock level op, chans)
  | _ ↦ (op, chans)
]
step (start_break to) op chans = let r = start_oplock_break to op chans in (r.2, r.3)
step (deliver sent held seq) op chans =
    let r = send_oplock_break sent held seq op chans in (r.1, r.2)
step (acknowledge level seen) op chans =
    let r = acknowledge_oplock_break level seen op chans in (r.2, r.3)
step (expire seq) op chans =
    let r = expire_oplock_break seq oplock_level_none op chans in (r.1, r.2)
step close op chans = release_oplock op chans

pub run : List Event → Oplock → Channels → Oplock × Channels
run [] op chans = (op, chans)
run (e ∷ es) op chans = let r = step e op chans in run es r.0 r.1

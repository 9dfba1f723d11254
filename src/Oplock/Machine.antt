-- ===== src/Oplock/Machine.antt =====
-- The states of an oplock: what holds in each of them, and what an acknowledgment comes to.
use sombrero.Base.{ℕ, ◌≤◌, ◌<◌, ◌≡◌, ◌≢◌, ◌⊎◌, refl, true, false, none, List, [], ◌∷◌, arith}
use sombrero.Oplock.{
  Oplock, OplockState, oplock_none, oplock_held, oplock_breaking, Channels, start_oplock_break,
  finish_oplock_break, expire_oplock_break, release_oplock, send_oplock_break,
  acknowledge_oplock_break, AckStatus, status_ok, status_invalid_device_state,
  status_request_not_accepted, valid_ack, Event, grant, start_break, deliver, acknowledge, expire,
  close, step, run, oplock_level_none,
}

-- What holds of an oplock in each of its states.
abbrev pub InState : OplockState → Oplock → Type 0
InState oplock_none op = (op.level ≡ oplock_level_none) × (op.break_done ≡ none)
InState oplock_held op = (oplock_level_none < op.level) × (op.break_done ≡ none)
InState oplock_breaking op = (op.break_to < op.level) × (op.break_done ≢ none)

abbrev pub IsValid : Oplock → Type 0
IsValid op = InState op.state op

start_oplock_break-IsValid :
    (to : ℕ) (op : Oplock) (chans : Channels)
    → IsValid op
    → IsValid (start_oplock_break to op chans).2
unfolding start_oplock_break
start_oplock_break-IsValid to op chans v = ground arith

finish_oplock_break-IsValid :
    (level : ℕ) (op : Oplock) (chans : Channels)
    → IsValid op
    → IsValid (finish_oplock_break level op chans).1
unfolding finish_oplock_break
finish_oplock_break-IsValid level op chans v = ground arith

step-IsValid :
    (e : Event) (op : Oplock) (chans : Channels) → IsValid op → IsValid (step e op chans).0
unfolding step release_oplock send_oplock_break acknowledge_oplock_break expire_oplock_break
step-IsValid (grant level) op chans v = ground arith
step-IsValid (start_break to) op chans v = start_oplock_break-IsValid to op chans v
step-IsValid (deliver sent held seq) op chans v =
    ground (arith, finish_oplock_break-IsValid oplock_level_none op chans v)
step-IsValid (acknowledge level seen) op chans v = ground (
  arith,
  finish_oplock_break-IsValid oplock_level_none op chans v,
  finish_oplock_break-IsValid level op chans v,
)
step-IsValid (expire seq) op chans v =
    ground (arith, finish_oplock_break-IsValid oplock_level_none op chans v)
step-IsValid close op chans v = (refl, refl)

-- From a new open on, and whatever the client, the timers and the other opens do: an oplock that is
-- not held has the level none, one that is held a level above it, and one that is being broken a
-- channel to wait on and a target below the level held.
pub oplock_run-IsValid :
    (es : List Event) (op : Oplock) (chans : Channels) → IsValid op → IsValid (run es op chans).0
unfolding run
oplock_run-IsValid [] op chans v = v
oplock_run-IsValid (e ∷ es) op chans v =
    oplock_run-IsValid es (step e op chans).0 (step e op chans).1 (step-IsValid e op chans v)

-- What an acknowledgment that meets the oplock as it was read comes to.
abbrev pub Acknowledged : ℕ → Oplock → AckStatus × ℕ × Oplock × Channels → Type 0
Acknowledged level op r =
    ((r.0 ≡ status_ok)
      × (op.state ≡ oplock_breaking)
      × (level ≤ op.break_to)
      × (level < op.level)
      × (r.1 ≡ level)
      × (r.2.level ≡ level)
      × (r.2.state ≢ oplock_breaking))
    ⊎ ((r.0 ≡ status_request_not_accepted)
        × (op.state ≡ oplock_breaking)
        × (op.break_to < level)
        × (level < op.level)
        × (r.2 ≡ op))
    ⊎ ((r.0 ≡ status_invalid_device_state) × (op.state ≢ oplock_breaking) × (r.2 ≡ op))
    ⊎ ((r.0 ≢ status_ok)
        × (op.state ≡ oplock_breaking)
        × (valid_ack op.level level ≡ false)
        × (r.2.level ≡ oplock_level_none)
        × (r.2.state ≡ oplock_none))

-- An acknowledgment is accepted exactly with a level that the break allows and that lies below the
-- one held, which is then the level of the open; one that answers an earlier notification changes
-- nothing, nor does one that answers no break; any other answer costs the client the oplock.
pub acknowledge_oplock_break-Acknowledged :
    (level : ℕ) (op : Oplock) (chans : Channels)
    → Acknowledged level op (acknowledge_oplock_break level op op chans)
unfolding acknowledge_oplock_break finish_oplock_break valid_ack
acknowledge_oplock_break-Acknowledged level op chans = ground arith

-- An answer weighed against a break that is cut back further before it is completed leaves the open
-- with a level above the target that the waiting creates were promised.
pub acknowledge_oplock_break_late :
    (level to : ℕ) (op : Oplock) (chans : Channels)
    → op.state ≡ oplock_breaking
    → valid_ack op.level level ≡ true
    → level ≤ op.break_to
    → to < level
    → let op' = (start_oplock_break to op chans).2 in
      (op'.break_to ≡ to) × (to < (acknowledge_oplock_break level op op' chans).2.level)
unfolding acknowledge_oplock_break finish_oplock_break valid_ack start_oplock_break
acknowledge_oplock_break_late level to op chans s v h k = ground arith

-- Of all the ways to end a break only the first has an effect.
pub finish_oplock_break_once :
    (level level' : ℕ) (op : Oplock) (chans : Channels)
    → let (_, op', chans') = finish_oplock_break level op chans in
      finish_oplock_break level' op' chans' ≡ (false, op', chans')
unfolding finish_oplock_break
finish_oplock_break_once level level' op chans = ground arith

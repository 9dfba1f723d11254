-- ===== src/Oplock/Timer.antt =====
-- oplock.go: the timer of an oplock break, which knows its break by a number.
use sombrero.Base.{
  ℕ, ◌+◌, ◌%◌, ◌^◌, ◌<◌, ◌≡◌, true, false, List, [], ◌∷◌, arith, leb, if◌then◌else◌,
}
use sombrero.Oplock.{
  Oplock, oplock_none, oplock_held, oplock_breaking, Channels, start_oplock_break,
  finish_oplock_break, expire_oplock_break, release_oplock, send_oplock_break,
  acknowledge_oplock_break, Event, grant, start_break, deliver, acknowledge, expire, close, step,
  run, oplock_level_none,
}

-- One where the event begins a break.
abbrev pub begins : Event → Oplock → ℕ
begins (start_break to) op = elim op.state [
  | oplock_held ↦ if leb op.level to then 0 else 1
  | _ ↦ 0
]
begins _ op = 0

-- How many breaks begin over the events.
unfoldable pub breaks_begun : List Event → Oplock → Channels → ℕ
breaks_begun [] op chans = 0
breaks_begun (e ∷ es) op chans =
    begins e op + breaks_begun es (step e op chans).0 (step e op chans).1

break_seq-finish :
    (level : ℕ) (op : Oplock) (chans : Channels)
    → (finish_oplock_break level op chans).1.break_seq ≡ op.break_seq
unfolding finish_oplock_break
break_seq-finish level op chans = ground arith

break_seq-step :
    (e : Event) (op : Oplock) (chans : Channels)
    → op.break_seq < 2 ^ 64
    → (step e op chans).0.break_seq ≡ (op.break_seq + begins e op) % 2 ^ 64
unfolding step release_oplock send_oplock_break acknowledge_oplock_break expire_oplock_break
    start_oplock_break
break_seq-step (grant level) op chans h = ground arith
break_seq-step (start_break to) op chans h = ground arith
break_seq-step (deliver sent held seq) op chans h =
    ground (arith, break_seq-finish oplock_level_none op chans)
break_seq-step (acknowledge level seen) op chans h =
    ground (arith, break_seq-finish oplock_level_none op chans, break_seq-finish level op chans)
break_seq-step (expire seq) op chans h = ground (arith, break_seq-finish oplock_level_none op chans)
break_seq-step close op chans h = ground arith

break_seq-run :
    (es : List Event) (op : Oplock) (chans : Channels)
    → op.break_seq < 2 ^ 64
    → (run es op chans).0.break_seq ≡ (op.break_seq + breaks_begun es op chans) % 2 ^ 64
unfolding run breaks_begun
break_seq-run [] op chans h = omega arith
break_seq-run (e ∷ es) op chans h =
    let op' : Oplock = (step e op chans).0 in
    let chans' : Channels = (step e op chans).1 in
    let now : op'.break_seq ≡ (op.break_seq + begins e op) % 2 ^ 64 = break_seq-step e op chans h in
    omega (arith, break_seq-run es op' chans' (omega arith))

-- A timer that fires after at least one further break has begun, and fewer than 2 ^ 64, changes
-- nothing.
expire_oplock_break_later :
    (es : List Event) (op : Oplock) (chans : Channels)
    → op.break_seq < 2 ^ 64
    → 0 < breaks_begun es op chans
    → breaks_begun es op chans < 2 ^ 64
    → let (op', chans') = run es op chans in
      expire_oplock_break op.break_seq oplock_level_none op' chans' ≡ (false, op', chans')
unfolding expire_oplock_break
expire_oplock_break_later es op chans h lo hi = ground (arith, break_seq-run es op chans h)

-- A timer that fires while the break it was started for is still in flight takes the oplock away.
pub expire_oplock_break_own :
    (es : List Event) (op : Oplock) (chans : Channels)
    → op.break_seq < 2 ^ 64
    → breaks_begun es op chans ≡ 0
    → (run es op chans).0.state ≡ oplock_breaking
    → let (op', chans') = run es op chans in
      let r = expire_oplock_break op.break_seq oplock_level_none op' chans' in
      (r.0 ≡ true) × (r.1.level ≡ oplock_level_none) × (r.1.state ≡ oplock_none)
unfolding expire_oplock_break finish_oplock_break
expire_oplock_break_own es op chans h same s = ground (arith, break_seq-run es op chans h)

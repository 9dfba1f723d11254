-- ===== src/Oplock/Tests.antt =====
-- Tests of the oplock machine, and the theorems at inputs that meet their hypotheses.
use sombrero.Base.{ℕ, ◌≡◌, ◌<◌, ◌⊎◌, refl, true, none, some, List, [], ◌∷◌, arith}
use sombrero.Oplock.Machine.{
  IsValid, Acknowledged, oplock_run-IsValid, acknowledge_oplock_break-Acknowledged,
  acknowledge_oplock_break_late,
}
use sombrero.Oplock.Timer.{breaks_begun, expire_oplock_break_own}
use sombrero.Oplock.Waiters.{Attended, NeedsNone, start_oplock_break-Attended}
use sombrero.Oplock.{
  Oplock, oplock_none, oplock_held, oplock_breaking, Channels, no_oplock, Event, grant, start_break,
  acknowledge, close, run, step, start_oplock_break, acknowledge_oplock_break, expire_oplock_break,
  finish_oplock_break, valid_ack, oplock_level_none,
}

abbrev fresh : Channels
fresh = record { closed = []; next = 0 }

abbrev batch : Oplock
batch = record { level = 9; state = oplock_held; break_to = 0; break_done = none; break_seq = 4 }

-- A batch oplock on its way to level II.
abbrev breaking : Oplock
breaking = record {
  level = 9;
  state = oplock_breaking;
  break_to = 1;
  break_done = some 0;
  break_seq = 4;
}

-- Granted, broken to level II, acknowledged, and broken again to nothing.
abbrev history : List Event
history = start_break 1 ∷ acknowledge 1 breaking ∷ start_break 0 ∷ []

acknowledged_then_broken : (run history batch fresh).0.break_seq ≡ 6
unfolding run step start_oplock_break acknowledge_oplock_break finish_oplock_break valid_ack
acknowledged_then_broken = refl

oplock_run-IsValid_example : IsValid (run (grant 9 ∷ history) no_oplock fresh).0
oplock_run-IsValid_example = oplock_run-IsValid (grant 9 ∷ history) no_oplock fresh (refl, refl)

acknowledge_oplock_break-Acknowledged_example :
    Acknowledged 1 breaking (acknowledge_oplock_break 1 breaking breaking fresh)
acknowledge_oplock_break-Acknowledged_example =
    acknowledge_oplock_break-Acknowledged 1 breaking fresh

acknowledge_oplock_break_late_example :
    let op' = (start_oplock_break 0 breaking fresh).2 in
    (op'.break_to ≡ 0) × (0 < (acknowledge_oplock_break 1 breaking op' fresh).2.level)
unfolding valid_ack
acknowledge_oplock_break_late_example =
    acknowledge_oplock_break_late 1 0 breaking fresh refl refl (omega arith) (omega arith)

start_oplock_break-Attended_example :
    let (o, _, op', chans') = start_oplock_break 1 breaking fresh in
    let es : List Event = start_break 0 ∷ close ∷ [] in
    NeedsNone 1 breaking
    ⊎ ((ch : ℕ) × (o ≡ some ch) × Attended ch 1 (run es op' chans').0 (run es op' chans').1)
start_oplock_break-Attended_example =
    start_oplock_break-Attended 1 breaking fresh (start_break 0 ∷ close ∷ []) (omega arith, λ e. cc)

expire_oplock_break_own_example :
    let (op', chans') = run (start_break 0 ∷ []) breaking fresh in
    let r = expire_oplock_break 4 oplock_level_none op' chans' in
    (r.0 ≡ true) × (r.1.level ≡ oplock_level_none) × (r.1.state ≡ oplock_none)
unfolding breaks_begun run step start_oplock_break
expire_oplock_break_own_example =
    expire_oplock_break_own (start_break 0 ∷ []) breaking fresh (omega arith) refl refl

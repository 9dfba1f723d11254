-- ===== src/Oplock/Waiters.antt =====
-- oplock.go: the channel that a conflict waits on, and what becomes of it.
use sombrero.Base.{
  ℕ, ◌≤◌, ◌≡◌, ◌⊎◌, inl, inr, refl, true, Option, some, none, List, [], ◌∷◌, arith, contains,
}
use sombrero.Oplock.Machine.{IsValid}
use sombrero.Oplock.{
  Oplock, oplock_none, oplock_held, oplock_breaking, Channels, start_oplock_break,
  finish_oplock_break, expire_oplock_break, release_oplock, send_oplock_break,
  acknowledge_oplock_break, Event, grant, start_break, deliver, acknowledge, expire, close, step,
  run, oplock_level_none,
}

-- The channel is closed, or it is that of the break in flight, which cuts back at least to `to`.
abbrev pub Attended : ℕ → ℕ → Oplock → Channels → Type 0
Attended ch to op chans =
    (contains ch chans.closed ≡ true)
    ⊎ ((op.state ≡ oplock_breaking) × (op.break_done ≡ some ch) × (op.break_to ≤ to))

module _ (ch to : ℕ) where
  finish-Attended :
      (level : ℕ) (op : Oplock) (chans : Channels)
      → Attended ch to op chans
      → let r = finish_oplock_break level op chans in contains ch r.2.closed ≡ true
  unfolding finish_oplock_break
  finish-Attended level op chans (inl h) = ground arith
  finish-Attended level op chans (inr h) = ground arith

  step-Attended :
      (e : Event) (op : Oplock) (chans : Channels)
      → Attended ch to op chans
      → Attended ch to (step e op chans).0 (step e op chans).1
  unfolding step release_oplock send_oplock_break acknowledge_oplock_break expire_oplock_break
      start_oplock_break
  step-Attended (grant level) op chans a = ground arith
  step-Attended (start_break level) op chans a = ground arith
  step-Attended (deliver sent held seq) op chans a =
      ground (arith, finish-Attended oplock_level_none op chans a)
  step-Attended (acknowledge level seen) op chans a =
      ground (arith, finish-Attended oplock_level_none op chans a, finish-Attended level op chans a)
  step-Attended (expire seq) op chans a =
      ground (arith, finish-Attended oplock_level_none op chans a)
  step-Attended close op chans a = ground arith

  run-Attended :
      (es : List Event) (op : Oplock) (chans : Channels)
      → Attended ch to op chans
      → Attended ch to (run es op chans).0 (run es op chans).1
  unfolding run
  run-Attended [] op chans a = a
  run-Attended (e ∷ es) op chans a =
      run-Attended es (step e op chans).0 (step e op chans).1 (step-Attended e op chans a)

start-Attended :
    (ch to : ℕ) (op : Oplock) (chans : Channels)
    → (start_oplock_break to op chans).0 ≡ some ch
    → let (_, _, op', chans') = start_oplock_break to op chans in Attended ch to op' chans'
unfolding start_oplock_break
start-Attended ch to op chans e = ground arith

-- A conflict that needs no channel: there is no oplock, or it is held at a level that may stay.
abbrev pub NeedsNone : ℕ → Oplock → Type 0
NeedsNone to op = (op.state ≡ oplock_none) ⊎ ((op.state ≡ oplock_held) × (op.level ≤ to))

start-channel :
    (to : ℕ) (op : Oplock) (chans : Channels) (o : Option ℕ)
    → IsValid op
    → (start_oplock_break to op chans).0 ≡ o
    → NeedsNone to op ⊎ ((ch : ℕ) × (o ≡ some ch))
unfolding start_oplock_break
start-channel to op chans (some ch) valid e = inr (ch, refl)
start-channel to op chans none valid e = inl (ground arith)

-- A conflict that asks for a valid oplock to be cut back to a level is given a channel to wait on, or
-- needs none: there is no oplock, or it is held at a level no higher than the one asked for. From
-- then on, whatever happens, either the channel is closed or the break it waits for is in flight on
-- that channel, with a target no higher than the level asked for.
pub start_oplock_break-Attended :
    (to : ℕ) (op : Oplock) (chans : Channels) (es : List Event)
    → IsValid op
    → let (o, _, op', chans') = start_oplock_break to op chans in
      NeedsNone to op
      ⊎ ((ch : ℕ) × (o ≡ some ch) × Attended ch to (run es op' chans').0 (run es op' chans').1)
start_oplock_break-Attended to op chans es valid = elim (start-channel to op chans _ valid refl) [
  | inl h ↦ inl h
  | inr (ch, e) ↦ inr (ch, e, run-Attended ch to es _ _ (start-Attended ch to op chans e))
]

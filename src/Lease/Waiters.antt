-- ===== src/Lease/Waiters.antt =====
-- lease.go: the channel that a conflict waits on, and what becomes of it.
use sombrero.Base.{
  ℕ, ◌≡◌, ◌⊎◌, inl, inr, refl, true, Option, some, none, List, [], ◌∷◌, arith, and_not, contains,
  and_not-within, and_not-masked, and_not_self,
}
use sombrero.Oplock.{Channels}
use sombrero.Lease.Machine.{IsValid}
use sombrero.Lease.{
  Lease, start_break, finish_break, expire_break, send_lease_break, acknowledge_lease_break,
  share_lease, leave_lease, set_lease_delete_on_close, rename_lease, Event, join, leave, conflict,
  deliver, acknowledge, expire, pending_delete, rename, step, run, lease_none,
}

-- The channel is closed, or it is that of the break in flight, whose target keeps nothing beyond `to`.
abbrev pub Attended : ℕ → ℕ → Lease → Channels → Type 0
Attended ch to l chans =
    (contains ch chans.closed ≡ true)
    ⊎ ((l.breaking ≡ true) × (l.break_done ≡ some ch) × (and_not l.break_to_state to ≡ 0))

module _ (ch to : ℕ) where
  finish-Attended :
      (state : ℕ) (l : Lease) (chans : Channels)
      → Attended ch to l chans
      → contains ch (finish_break state l chans).2.closed ≡ true
  unfolding finish_break
  finish-Attended state l chans a = ground arith

  step-Attended :
      (e : Event) (l : Lease) (chans : Channels)
      → Attended ch to l chans
      → Attended ch to (step e l chans).0 (step e l chans).1
  unfolding step send_lease_break acknowledge_lease_break expire_break start_break leave_lease
      share_lease set_lease_delete_on_close rename_lease
  step-Attended (join state id) l chans a = ground arith
  step-Attended (leave id) l chans a = ground arith
  step-Attended (conflict to') l chans a = ground (arith, and_not-within l.break_to_state to' to)
  step-Attended (deliver sent seen) l chans a =
      ground
        (arith, finish-Attended lease_none l chans a, finish-Attended seen.break_to_state l chans a)
  step-Attended (acknowledge state seen) l chans a = ground (arith, finish-Attended state l chans a)
  step-Attended (expire seq) l chans a = ground (arith, finish-Attended lease_none l chans a)
  step-Attended (pending_delete pending) l chans a = ground arith
  step-Attended (rename path) l chans a = ground arith

  run-Attended :
      (es : List Event) (l : Lease) (chans : Channels)
      → Attended ch to l chans
      → Attended ch to (run es l chans).0 (run es l chans).1
  unfolding run
  run-Attended [] l chans a = a
  run-Attended (e ∷ es) l chans a =
      run-Attended es (step e l chans).0 (step e l chans).1 (step-Attended e l chans a)

start-Attended :
    (ch to : ℕ) (l : Lease) (chans : Channels)
    → (start_break to l chans).0 ≡ some ch
    → let (_, _, l', chans') = start_break to l chans in Attended ch to l' chans'
unfolding start_break
start-Attended ch to l chans e = ground (arith, and_not-masked l.break_to_state to, and_not_self to)

-- A conflict that needs no channel: there is no lease, or it keeps nothing beyond the state asked for.
abbrev pub NeedsNone : ℕ → Lease → Type 0
NeedsNone to l = (l.state ≡ lease_none) ⊎ (and_not l.state to ≡ 0)

start-channel :
    (to : ℕ) (l : Lease) (chans : Channels) (o : Option ℕ)
    → IsValid l
    → (start_break to l chans).0 ≡ o
    → NeedsNone to l ⊎ ((ch : ℕ) × (o ≡ some ch))
unfolding start_break
start-channel to l chans (some ch) valid e = inr (ch, refl)
start-channel to l chans none valid e = inl (ground arith)

-- A conflict that asks for a valid lease to be cut back to a state is given a channel to wait on, or
-- needs none: the lease keeps nothing, or nothing beyond the state asked for. From then on, whatever
-- happens, either the channel is closed or the break it waits for is in flight on that channel, with
-- a target that keeps nothing beyond the state asked for.
pub start_break-Attended :
    (to : ℕ) (l : Lease) (chans : Channels) (es : List Event)
    → IsValid l
    → let (o, _, l', chans') = start_break to l chans in
      NeedsNone to l
      ⊎ ((ch : ℕ) × (o ≡ some ch) × Attended ch to (run es l' chans').0 (run es l' chans').1)
start_break-Attended to l chans es valid = elim (start-channel to l chans _ valid refl) [
  | inl h ↦ inl h
  | inr (ch, e) ↦ inr (ch, e, run-Attended ch to es _ _ (start-Attended ch to l chans e))
]

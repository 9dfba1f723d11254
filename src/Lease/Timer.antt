-- ===== src/Lease/Timer.antt =====
-- lease.go: the timer of a lease break, which knows its break by a number.
use sombrero.Base.{
  ℕ, ◌+◌, ◌%◌, ◌^◌, ◌<◌, ◌≡◌, true, false, ◌||◌, List, [], ◌∷◌, arith, ◌==◌, if◌then◌else◌, and_not,
}
use sombrero.Oplock.{Channels}
use sombrero.Lease.{
  Lease, start_break, finish_break, expire_break, send_lease_break, acknowledge_lease_break,
  share_lease, leave_lease, set_lease_delete_on_close, rename_lease, Event, conflict, deliver,
  acknowledge, expire, step, run, lease_none,
}

-- One where the event begins a break.
abbrev pub begins : Event → Lease → ℕ
begins (conflict to) l =
    if l.breaking || (l.state == lease_none) || (and_not l.state to == 0) then 0 else 1
begins _ l = 0

-- How many breaks begin over the events.
unfoldable pub breaks_begun : List Event → Lease → Channels → ℕ
breaks_begun [] l chans = 0
breaks_begun (e ∷ es) l chans = begins e l + breaks_begun es (step e l chans).0 (step e l chans).1

break_seq-finish :
    (state : ℕ) (l : Lease) (chans : Channels)
    → (finish_break state l chans).1.break_seq ≡ l.break_seq
unfolding finish_break
break_seq-finish state l chans = ground arith

break_seq-step :
    (e : Event) (l : Lease) (chans : Channels)
    → l.break_seq < 2 ^ 64
    → (step e l chans).0.break_seq ≡ (l.break_seq + begins e l) % 2 ^ 64
unfolding step send_lease_break acknowledge_lease_break expire_break start_break leave_lease
    share_lease set_lease_delete_on_close rename_lease
break_seq-step (conflict to) l chans h = ground arith
break_seq-step (deliver sent seen) l chans h =
    ground
      (arith, break_seq-finish lease_none l chans, break_seq-finish seen.break_to_state l chans)
break_seq-step (acknowledge state seen) l chans h = ground (arith, break_seq-finish state l chans)
break_seq-step (expire seq) l chans h = ground (arith, break_seq-finish lease_none l chans)
break_seq-step _ l chans h = ground arith

break_seq-run :
    (es : List Event) (l : Lease) (chans : Channels)
    → l.break_seq < 2 ^ 64
    → (run es l chans).0.break_seq ≡ (l.break_seq + breaks_begun es l chans) % 2 ^ 64
unfolding run breaks_begun
break_seq-run [] l chans h = omega arith
break_seq-run (e ∷ es) l chans h =
    let l' : Lease = (step e l chans).0 in
    let chans' : Channels = (step e l chans).1 in
    let now : l'.break_seq ≡ (l.break_seq + begins e l) % 2 ^ 64 = break_seq-step e l chans h in
    omega (arith, break_seq-run es l' chans' (omega arith))

-- A timer that fires after at least one further break of the lease has begun, and fewer than
-- 2 ^ 64, changes nothing.
expire_break_later :
    (es : List Event) (l : Lease) (chans : Channels)
    → l.break_seq < 2 ^ 64
    → 0 < breaks_begun es l chans
    → breaks_begun es l chans < 2 ^ 64
    → let (l', chans') = run es l chans in
      expire_break l.break_seq lease_none l' chans' ≡ (false, l', chans')
unfolding expire_break
expire_break_later es l chans h lo hi = ground (arith, break_seq-run es l chans h)

-- A timer that fires while the break it was started for is still in flight takes the lease away.
pub expire_break_own :
    (es : List Event) (l : Lease) (chans : Channels)
    → l.break_seq < 2 ^ 64
    → breaks_begun es l chans ≡ 0
    → (run es l chans).0.breaking ≡ true
    → let (l', chans') = run es l chans in
      let r = expire_break l.break_seq lease_none l' chans' in
      (r.0 ≡ true) × (r.1.state ≡ lease_none) × (r.1.breaking ≡ false)
unfolding expire_break finish_break
expire_break_own es l chans h same s = ground (arith, break_seq-run es l chans h)

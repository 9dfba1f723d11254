-- ===== src/Lease/Machine.antt =====
-- The states of a lease, and what an acknowledgment comes to.
use sombrero.Base.{
  ℕ, ◌<◌, ◌≡◌, ◌≢◌, ◌⊎◌, refl, true, false, Option, some, none, List, [], ◌∷◌, arith, and_not,
  bit_and,
}
use sombrero.Oplock.{Channels, close_channel}
use sombrero.Lease.{
  Lease, start_break, finish_break, expire_break, send_lease_break, acknowledge_lease_break,
  AckStatus, status_ok, status_object_name_not_found, status_unsuccessful,
  status_request_not_accepted, share_lease, leave_lease, set_lease_delete_on_close, rename_lease,
  Event, join, leave, conflict, deliver, acknowledge, expire, pending_delete, rename, step, run,
  lease_none, remove_open,
}

-- There is a channel to wait on exactly while a break is in flight.
abbrev pub IsValid : Lease → Type 0
IsValid l =
    ((l.breaking ≡ true) × (l.break_done ≢ none)) ⊎ ((l.breaking ≡ false) × (l.break_done ≡ none))

finish_break-IsValid :
    (state : ℕ) (l : Lease) (chans : Channels) → IsValid l → IsValid (finish_break state l chans).1
unfolding finish_break
finish_break-IsValid state l chans v = ground arith

step-IsValid : (e : Event) (l : Lease) (chans : Channels) → IsValid l → IsValid (step e l chans).0
unfolding step send_lease_break acknowledge_lease_break expire_break start_break leave_lease
    share_lease set_lease_delete_on_close rename_lease
step-IsValid (join state id) l chans v = ground arith
step-IsValid (leave id) l chans v = ground arith
step-IsValid (conflict to) l chans v = ground arith
step-IsValid (deliver sent seen) l chans v = ground (
  arith,
  finish_break-IsValid lease_none l chans v,
  finish_break-IsValid seen.break_to_state l chans v,
)
step-IsValid (acknowledge state seen) l chans v =
    ground (arith, finish_break-IsValid state l chans v)
step-IsValid (expire seq) l chans v = ground (arith, finish_break-IsValid lease_none l chans v)
step-IsValid (pending_delete pending) l chans v = ground arith
step-IsValid (rename path) l chans v = ground arith

-- Whatever the client, the timers and the other opens do, a lease has a channel to wait on exactly
-- while a break of it is in flight.
pub lease_run-IsValid :
    (es : List Event) (l : Lease) (chans : Channels) → IsValid l → IsValid (run es l chans).0
unfolding run
lease_run-IsValid [] l chans v = v
lease_run-IsValid (e ∷ es) l chans v =
    lease_run-IsValid es (step e l chans).0 (step e l chans).1 (step-IsValid e l chans v)

-- What an acknowledgment with a state comes to, from the lease as it was read, if one was found, and
-- as it is when the break is completed.
abbrev pub Acknowledged :
    ℕ → Option Lease → Lease → Channels → AckStatus × ℕ × Lease × Channels × List ℕ → Type 0
Acknowledged state none l chans r = r ≡ (status_object_name_not_found, lease_none, l, chans, [])
Acknowledged state (some seen) l chans r =
    (r.4 ≡ seen.opens)
    × (((r.0 ≡ status_ok)
          × (seen.breaking ≡ true)
          × (and_not state seen.break_to_state ≡ 0)
          × (r.1 ≡ state)
          × (((l.breaking ≡ true)
                × (r.2.state ≡ state)
                × (r.2.breaking ≡ false)
                × (r.2.break_done ≡ none)
                × (r.3 ≡ close_channel l.break_done chans))
              ⊎ ((l.breaking ≡ false) × (r.2 ≡ l) × (r.3 ≡ chans))))
        ⊎ ((r.0 ≡ status_request_not_accepted)
            × (seen.breaking ≡ true)
            × (0 < and_not state seen.break_to_state)
            × (r.1 ≡ lease_none)
            × (r.2 ≡ l)
            × (r.3 ≡ chans))
        ⊎ ((r.0 ≡ status_unsuccessful)
            × (seen.breaking ≡ false)
            × (r.1 ≡ lease_none)
            × (r.2 ≡ l)
            × (r.3 ≡ chans)))

-- What an acknowledgment comes to. Where the client has no lease under the key, it is told so and
-- nothing changes. Where it has, `clearReplayEligible` is called on each of the opens on the lease,
-- whatever the answer is. The acknowledgment is accepted exactly where a break was in flight and the
-- state keeps nothing beyond what the client was told it could keep: it is then the state of the
-- lease, and the channel of the break is closed, if the break is still in flight. Any other leaves
-- the lease as it is.
pub acknowledge_lease_break-Acknowledged :
    (state : ℕ) (seen : Option Lease) (l : Lease) (chans : Channels)
    → Acknowledged state seen l chans (acknowledge_lease_break state seen l chans)
unfolding acknowledge_lease_break finish_break
acknowledge_lease_break-Acknowledged state none l chans = refl
acknowledge_lease_break-Acknowledged state (some seen) l chans = ground arith

-- An answer weighed against a break that a second conflict cuts back further before it is completed
-- leaves the lease with a state beyond what the second conflict was promised.
pub acknowledge_lease_break_late :
    (state to : ℕ) (l : Lease) (chans : Channels)
    → l.breaking ≡ true
    → 0 < l.state
    → 0 < and_not l.state to
    → 0 < and_not l.break_to_state to
    → and_not state l.break_to_state ≡ 0
    → 0 < and_not state to
    → let l' = (start_break to l chans).2 in
      let r = acknowledge_lease_break state (some l) l' chans in
      (l'.break_to_state ≡ bit_and l.break_to_state to)
      × (r.0 ≡ status_ok)
      × (r.2.state ≡ state)
      × (r.2.breaking ≡ false)
unfolding acknowledge_lease_break finish_break start_break
acknowledge_lease_break_late state to l chans b s n m k j = ground arith

-- The last open that leaves a lease takes its promise away and ends a break in flight; before that
-- nothing is taken away.
pub leave-state :
    (id : ℕ) (l : Lease) (chans : Channels)
    → let r = leave_lease id l chans in
      ((remove_open id l.opens ≡ [])
        × (r.0 ≡ true)
        × (r.1.state ≡ lease_none)
        × (r.1.breaking ≡ false))
      ⊎ ((remove_open id l.opens ≢ [])
          × (r.0 ≡ false)
          × (r.1.state ≡ l.state)
          × (r.1.breaking ≡ l.breaking)
          × (r.2 ≡ chans))
unfolding leave_lease
leave-state id l chans = ground arith

finish-same_key :
    (state : ℕ) (l : Lease) (chans : Channels)
    → let l' = (finish_break state l chans).1 in
      (l'.client_guid ≡ l.client_guid) × (l'.lease_key ≡ l.lease_key)
unfolding finish_break
finish-same_key state l chans = ground arith

-- No event changes whose lease it is, or the key it was taken out under.
pub step-same_key :
    (e : Event) (l : Lease) (chans : Channels)
    → let l' = (step e l chans).0 in (l'.client_guid ≡ l.client_guid) × (l'.lease_key ≡ l.lease_key)
unfolding step send_lease_break acknowledge_lease_break expire_break start_break leave_lease
    share_lease set_lease_delete_on_close rename_lease
step-same_key (deliver sent seen) l chans =
    ground (arith, finish-same_key lease_none l chans, finish-same_key seen.break_to_state l chans)
step-same_key (acknowledge state seen) l chans = ground (arith, finish-same_key state l chans)
step-same_key (expire seq) l chans = ground (arith, finish-same_key lease_none l chans)
step-same_key _ l chans = ground arith

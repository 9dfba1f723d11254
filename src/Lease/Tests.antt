-- ===== src/Lease/Tests.antt =====
-- Tests of the lease machine, and the theorems at inputs that meet their hypotheses.
use sombrero.Base.{
  ℕ, ◌≡◌, ◌⊎◌, refl, inl, inr, true, false, none, some, List, [], ◌∷◌, arith, bit_and,
}
use sombrero.Oplock.{Channels}
use sombrero.Lease.Machine.{
  IsValid, Acknowledged, lease_run-IsValid, acknowledge_lease_break-Acknowledged,
  acknowledge_lease_break_late,
}
use sombrero.Lease.Timer.{breaks_begun, expire_break_own}
use sombrero.Lease.Waiters.{Attended, NeedsNone, start_break-Attended}
use sombrero.Lease.{
  Lease, Event, leave, conflict, acknowledge, run, step, start_break, acknowledge_lease_break,
  expire_break, finish_break, status_ok, lease_none,
}

abbrev fresh : Channels
fresh = record { closed = []; next = 0 }

-- A lease that lets its client read, keep the handle and write.
abbrev held : Lease
held = record {
  lease_key = 5;
  client_guid = 8;
  file_name = "notes";
  state = 7;
  break_to_state = 0;
  breaking = false;
  epoch = 1;
  file_delete_on_close = false;
  opens = 3 ∷ [];
  break_done = none;
  break_seq = 4;
}

-- The same on its way to reading and keeping the handle.
abbrev breaking : Lease
breaking = record held { break_to_state = 3; breaking = true; epoch = 2; break_done = some 0 }

abbrev history : List Event
history = conflict 3 ∷ acknowledge 3 breaking ∷ conflict 0 ∷ []

broken_twice : (run history held fresh).0.epoch ≡ 3
unfolding run step start_break acknowledge_lease_break finish_break
broken_twice = refl

lease_run-IsValid_example : IsValid (run history held fresh).0
lease_run-IsValid_example = lease_run-IsValid history held fresh (inr (refl, refl))

acknowledge_lease_break-Acknowledged_example :
    Acknowledged 1
      (some breaking)
      breaking
      fresh
      (acknowledge_lease_break 1 (some breaking) breaking fresh)
acknowledge_lease_break-Acknowledged_example =
    acknowledge_lease_break-Acknowledged 1 (some breaking) breaking fresh

acknowledge_lease_break_late_example :
    let l' = (start_break 0 breaking fresh).2 in
    let r = acknowledge_lease_break 3 (some breaking) l' fresh in
    (l'.break_to_state ≡ bit_and 3 0) × (r.0 ≡ status_ok) × (r.2.state ≡ 3) × (r.2.breaking ≡ false)
acknowledge_lease_break_late_example =
    acknowledge_lease_break_late 3 0 breaking fresh refl (omega arith) (omega arith) (omega arith)
      refl (omega arith)

start_break-Attended_example :
    let (o, _, l', chans') = start_break 3 breaking fresh in
    let es : List Event = conflict 0 ∷ leave 3 ∷ [] in
    NeedsNone 3 breaking
    ⊎ ((ch : ℕ) × (o ≡ some ch) × Attended ch 3 (run es l' chans').0 (run es l' chans').1)
start_break-Attended_example =
    start_break-Attended 3 breaking fresh (conflict 0 ∷ leave 3 ∷ []) (inl (refl, λ e. cc))

expire_break_own_example :
    let (l', chans') = run (conflict 0 ∷ []) breaking fresh in
    let r = expire_break 4 lease_none l' chans' in
    (r.0 ≡ true) × (r.1.state ≡ lease_none) × (r.1.breaking ≡ false)
unfolding breaks_begun run step start_break
expire_break_own_example = expire_break_own (conflict 0 ∷ []) breaking fresh (omega arith) refl refl

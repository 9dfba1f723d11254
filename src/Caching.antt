-- ===== src/Caching.antt =====
-- oplock.go and lease.go: the promises on one file, and what a create does to them. The opens of the
-- file and the leases on it are known by numbers, as the source knows them by pointers; `Caching` is
-- the memory behind them. The decisions below run under `s.cachingMu`, so each is one step.
pub mod Holders
pub mod Grant
mod Tests
use sombrero.Base.{
  ℕ, ◌+◌, Bool, true, false, not, ◌&&◌, ◌||◌, Option, none, some, List, [], ◌∷◌, ◌++◌, ltb, ◌==◌,
  if◌then◌else◌, has, and_not, bit_and, contains, length,
}
use sombrero.Oplock.{
  Oplock, OplockState, oplock_none, oplock_held, oplock_breaking, Channels, start_oplock_break,
  hold_oplock, oplock_break_target, oplock_level_none, oplock_level_ii,
}
use sombrero.Lease.{
  Lease, start_break, share_lease, lease_break_target, lease_none, lease_states, lease_read_caching,
  lease_write_caching,
}

-- The fields of an open that the promises read. A GUID of zeros is 0.
pub record Open : Type 0 where
  pub client_guid : ℕ
  pub lease : Option ℕ
  pub oplock : Oplock

pub record Caching : Type 0 where
  pub opens : ℕ → Open
  pub leases : ℕ → Lease
  pub chans : Channels

abbrev pub update {ℓ} : {A : Type ℓ} → (ℕ → A) → ℕ → A → ℕ → A
update f i v j = if i == j then v else f j

-- Who a create is: its client, the lease it named if that is held, and whether it named a key.
pub record Asker : Type 0 where
  pub guid : ℕ
  pub own : Option ℕ
  pub keyed : Bool

abbrev pub names : Option ℕ → ℕ → Bool
names none i = false
names (some j) i = j == i

pub covers : Asker → Caching → ℕ → Bool
covers by s l =
    if names by.own l
    then true
    else if by.keyed || (by.guid == 0)
    then false
    else (s.leases l).client_guid == by.guid

pub same_cache_view : Open → ℕ → Bool
same_cache_view op guid = if guid == 0 then false else op.client_guid == guid

abbrev pub is_none : OplockState → Bool
is_none oplock_none = true
is_none _ = false

abbrev pub is_breaking : OplockState → Bool
is_breaking oplock_breaking = true
is_breaking _ = false

-- A lease that still holds something, or is in the middle of letting go of it.
abbrev pub active : Lease → Bool
active l = not (l.state == lease_none) || l.breaking

-- The loop of `holdersIn`, with the leases seen so far.
pub holders_from : Asker → Caching → List ℕ → List ℕ → List ℕ × List ℕ
holders_from by s seen [] = ([], [])
holders_from by s seen (o ∷ rest) =
    let op = s.opens o in
    let skipped = holders_from by s seen rest in
    elim op.lease [
      | some l ↦
          let found = holders_from by s (l ∷ seen) rest in
          if covers by s l || contains l seen
          then skipped
          else if active (s.leases l)
          then (found.0, l ∷ found.1)
          else skipped
      | none ↦
          if not (is_none op.oplock.state) && not (same_cache_view op by.guid)
          then (o ∷ skipped.0, skipped.1)
          else skipped
    ]

-- The oplocks and the leases that stand in the way of who is asking.
pub holders_in : List ℕ → Asker → Caching → List ℕ × List ℕ
unfolding holders_from
holders_in opens by s = holders_from by s [] opens

pub opens_outside : List ℕ → Option ℕ → Caching → List ℕ
opens_outside [] own s = []
opens_outside (o ∷ rest) own s =
    let outside = opens_outside rest own s in
    elim (s.opens o).lease [
      | none ↦ o ∷ outside
      | some l ↦ if names own l then outside else o ∷ outside
    ]

abbrev pub exclusive_oplock : Oplock → Bool
exclusive_oplock op = ltb oplock_level_ii op.level || is_breaking op.state

abbrev pub exclusive_lease : Lease → Bool
exclusive_lease l = has l.state lease_write_caching || l.breaking

unfoldable any_oplock : List ℕ → Caching → Bool
any_oplock [] s = false
any_oplock (o ∷ rest) s = exclusive_oplock (s.opens o).oplock || any_oplock rest s

unfoldable any_lease : List ℕ → Caching → Bool
any_lease [] s = false
any_lease (l ∷ rest) s = exclusive_lease (s.leases l) || any_lease rest s

pub exclusive_held : List ℕ × List ℕ → Caching → Bool
unfolding any_oplock any_lease
exclusive_held holders s = any_oplock holders.0 s || any_lease holders.1 s

-- What a round of breaks leaves to do: the channels to wait on and the holders to tell.
pub record Breaks : Type 0 where
  pub waits : List ℕ
  pub notify : List ℕ
  pub after : Caching

abbrev pub started : Option ℕ → Bool → ℕ → Breaks → Breaks
started none told who b = b
started (some ch) told who b = record b {
  waits = ch ∷ b.waits;
  notify = if told then who ∷ b.notify else b.notify;
}

pub start_breaks : List ℕ → ℕ → Caching → Breaks
start_breaks [] to s = record { waits = []; notify = []; after = s }
start_breaks (o ∷ rest) to s =
    let op = s.opens o in
    let (ch, told, oplock, chans) = start_oplock_break to op.oplock s.chans in
    let s' = record s { opens = update s.opens o (record op { oplock = oplock }); chans = chans } in
    started ch told o (start_breaks rest to s')

pub start_lease_breaks : List ℕ → Bool → Caching → Breaks
start_lease_breaks [] shared_ok s = record { waits = []; notify = []; after = s }
start_lease_breaks (l ∷ rest) shared_ok s =
    let lease = s.leases l in
    let (ch, told, lease', chans) =
      start_break (lease_break_target lease.state shared_ok) lease s.chans in
    let s' = record s { leases = update s.leases l lease'; chans = chans } in
    started ch told l (start_lease_breaks rest shared_ok s')

-- Every promise on the file cut back: the channels, the opens and the leases to tell, and the state.
pub start_holder_breaks : List ℕ → Asker → Bool → Caching → List ℕ × List ℕ × List ℕ × Caching
start_holder_breaks opens by shared_ok s =
    let (oplocks, leases) = holders_in opens by s in
    let first = start_breaks oplocks (oplock_break_target shared_ok) s in
    let second = start_lease_breaks leases shared_ok first.after in
    (first.waits ++ second.waits, first.notify, second.notify, second.after)

waits_for_oplock : List ℕ → ℕ → Caching → Bool
waits_for_oplock [] to s = false
waits_for_oplock (o ∷ rest) to s =
    let level = (s.opens o).oplock.level in
    (ltb oplock_level_ii level && ltb to level) || waits_for_oplock rest to s

waits_for_lease : List ℕ → Bool → Caching → Bool
waits_for_lease [] shared_ok s = false
waits_for_lease (l ∷ rest) shared_ok s =
    let state = (s.leases l).state in
    (not (state == lease_read_caching)
      && not (and_not state (lease_break_target state shared_ok) == 0))
    || waits_for_lease rest shared_ok s

pub needs_break_wait : List ℕ → Asker → Bool → Caching → Bool
unfolding waits_for_oplock waits_for_lease
needs_break_wait opens by shared_ok s =
    let (oplocks, leases) = holders_in opens by s in
    waits_for_oplock oplocks (oplock_break_target shared_ok) s || waits_for_lease leases shared_ok s

-- The opens of other clients among the others on the file.
pub elsewhere : ℕ → List ℕ → Caching → List ℕ
elsewhere guid [] s = []
elsewhere guid (o ∷ rest) s =
    let left = elsewhere guid rest s in
    if not (same_cache_view (s.opens o) guid) then o ∷ left else left

abbrev pub is_empty : List ℕ → Bool
is_empty [] = true
is_empty (x ∷ xs) = false

abbrev pub by_client : ℕ → Asker
by_client guid = record { guid = guid; own = none; keyed = false }

-- The level granted, the opens and the leases to tell, and the state. `others` are the other opens
-- on the file.
pub grant_oplock : ℕ → ℕ → List ℕ → Caching → ℕ × List ℕ × List ℕ × Caching
unfolding exclusive_held
grant_oplock o requested others s =
    let op = s.opens o in
    let away = elsewhere op.client_guid others s in
    let holders = holders_in away (by_client op.client_guid) s in
    let granted =
      if is_empty away
      then requested
      else if exclusive_held holders s
      then oplock_level_none
      else oplock_level_ii in
    let first = start_breaks holders.0 oplock_level_none s in
    let second = start_lease_breaks holders.1 false first.after in
    if not (is_none op.oplock.state)
    then (oplock_level_none, [], [], s)
    else if not (granted == oplock_level_none)
    then (
      granted,
      [],
      [],
      record s { opens = update s.opens o (record op { oplock = hold_oplock granted op.oplock }) },
    )
    else (oplock_level_none, first.notify, second.notify, second.after)

abbrev pub for_lease : ℕ → ℕ → Asker
for_lease guid l = record { guid = guid; own = some l; keyed = true }

-- The state granted, the opens and the leases to tell, and the state of the promises after it.
-- `id` is the durable file ID of the open; the table that `join` puts the lease in is `LeaseTable`'s.
pub grant_lease : ℕ → ℕ → ℕ → ℕ → List ℕ → Caching → ℕ × List ℕ × List ℕ × Caching
unfolding exclusive_held
grant_lease o id l requested others s =
    let op = s.opens o in
    let holders = holders_in others (for_lease op.client_guid l) s in
    let wanted = bit_and requested lease_states in
    let granted =
      if is_empty (opens_outside others (some l) s)
      then wanted
      else if exclusive_held holders s
      then lease_none
      else and_not wanted lease_write_caching in
    let first = start_breaks holders.0 oplock_level_none s in
    let second = start_lease_breaks holders.1 false first.after in
    if not (granted == lease_none)
    then (
      granted,
      [],
      [],
      record s {
        leases = update s.leases l (share_lease granted id (s.leases l));
        opens = update s.opens o (record op { lease = some l });
      },
    )
    else (lease_none, first.notify, second.notify, second.after)

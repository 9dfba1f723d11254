-- ===== src/Caching/Tests.antt =====
-- The promises run on two files: one that two clients share, and one that a single client has.
use sombrero.Base.{
  ℕ, true, false, none, some, [], ◌∷◌, ◌≡◌, refl, ◌==◌, ◌⊎◌, if◌then◌else◌, ◌≢◌, has, arith,
}
use sombrero.Oplock.{no_oplock, oplock_held, oplock_level_ii, oplock_level_none}
use sombrero.Lease.{Lease, start_break, lease_break_target, lease_none, lease_write_caching}
use sombrero.Caching.{
  Open, Caching, same_cache_view, grant_oplock, grant_lease, by_client, for_lease, elsewhere,
  holders_in, holders_from, exclusive_held, any_oplock, any_lease, covers, start_breaks,
  start_lease_breaks, opens_outside,
}
use sombrero.Caching.Holders.{stands_against}
use sombrero.Caching.Grant.{grant_oplock-Guarded, grant_lease-Guarded}

abbrev no_lease : Lease
no_lease = record {
  lease_key = 0;
  client_guid = 0;
  file_name = "";
  state = 0;
  break_to_state = 0;
  breaking = false;
  epoch = 0;
  file_delete_on_close = false;
  opens = [];
  break_done = none;
  break_seq = 0;
}

abbrev lease_of : ℕ → ℕ → Lease
lease_of guid state = record no_lease {
  lease_key = 7;
  client_guid = guid;
  state = state;
  opens = 3 ∷ [];
}

-- Open 1 is client 5's with a level II oplock, open 3 is client 6's with lease 0.
abbrev reader : Open
reader = record {
  client_guid = 5;
  lease = none;
  oplock = record no_oplock { level = 1; state = oplock_held };
}

abbrev leased : Open
leased = record { client_guid = 6; lease = some 0; oplock = no_oplock }

abbrev plain : Open
plain = record { client_guid = 5; lease = none; oplock = no_oplock }

abbrev opens : ℕ → Open
opens o = if o == 1 then reader else if o == 3 then leased else plain

abbrev memory : ℕ → Caching
memory state = record {
  opens = opens;
  leases = λ l. lease_of 6 state;
  chans = record { closed = []; next = 0 };
}

grant_beside_reader : (grant_oplock 2 9 (1 ∷ 3 ∷ []) (memory 3)).0 ≡ oplock_level_ii
unfolding grant_oplock elsewhere holders_in holders_from exclusive_held any_oplock any_lease covers
    same_cache_view
grant_beside_reader = refl

-- A lease to write with keeps the oplock away, and is told to break.
grant_beside_writer : (grant_oplock 2 9 (1 ∷ 3 ∷ []) (memory 7)).2 ≡ 0 ∷ []
unfolding grant_oplock elsewhere holders_in holders_from exclusive_held any_oplock any_lease covers
    same_cache_view start_breaks start_lease_breaks start_break lease_break_target
grant_beside_writer = refl

grant_oplock-Guarded_example :
    (same_cache_view (opens 3) 5 ≡ true)
    ⊎ ((grant_oplock 2 9 (1 ∷ 3 ∷ []) (memory 3)).0 ≡ oplock_level_ii
        × stands_against (by_client 5) (memory 3) 3 ≡ false)
unfolding grant_oplock elsewhere holders_in holders_from exclusive_held any_oplock any_lease covers
    same_cache_view
grant_oplock-Guarded_example = grant_oplock-Guarded 2 9 (1 ∷ 3 ∷ []) (memory 3) 3 refl granted
  where
    granted : (grant_oplock 2 9 (1 ∷ 3 ∷ []) (memory 3)).0 ≢ oplock_level_none
    granted = omega arith

grant_lease-Guarded_example :
    ((opens 3).lease ≡ some 1)
    ⊎ (has (grant_lease 2 9 1 7 (1 ∷ 3 ∷ []) (memory 3)).0 lease_write_caching ≡ false
        × stands_against (for_lease 5 1) (memory 3) 3 ≡ false)
unfolding grant_lease opens_outside holders_in holders_from exclusive_held any_oplock any_lease
    covers same_cache_view
grant_lease-Guarded_example = grant_lease-Guarded 2 9 1 7 (1 ∷ 3 ∷ []) (memory 3) 3 refl granted
  where
    granted : (grant_lease 2 9 1 7 (1 ∷ 3 ∷ []) (memory 3)).0 ≢ lease_none
    granted = omega arith

-- ===== src/Caching/Grant.antt =====
-- oplock.go and lease.go: when a promise may be made, by the opens on the file that it must respect.
use sombrero.Base.{
  ℕ, ◌⊎◌, true, false, List, [], ◌∷◌, ◌≡◌, none, some, Option, contains, has, and_not-cleared,
  arith, ◌≢◌, bit_and,
}
use sombrero.Oplock.{oplock_level_none, oplock_level_ii}
use sombrero.Lease.{lease_none, lease_states, lease_write_caching}
use sombrero.Caching.{
  Caching, same_cache_view, elsewhere, opens_outside, grant_oplock, grant_lease, by_client,
  for_lease, is_empty, names,
}
use sombrero.Caching.Holders.{stands_against, holders_in-exclusive_held}

elsewhere-member :
    (g : ℕ) (others : List ℕ) (s : Caching) (o : ℕ)
    → contains o others ≡ true
    → same_cache_view (s.opens o) g ≡ false
    → contains o (elsewhere g others s) ≡ true
unfolding elsewhere
elsewhere-member g [] s o h e = ground arith
elsewhere-member g (x ∷ others) s o h e =
    let rest = elsewhere-member g others s o in ground (arith, rest)

opens_outside-member :
    (own : Option ℕ) (others : List ℕ) (s : Caching) (o : ℕ)
    → contains o others ≡ true
    → is_empty (opens_outside others own s) ≡ true
    → elim (s.opens o).lease [ none ↦ false | some l ↦ names own l ] ≡ true
unfolding opens_outside
opens_outside-member own [] s o h e = ground arith
opens_outside-member own (x ∷ others) s o h e =
    let rest = opens_outside-member own others s o in ground (arith, rest)

-- An oplock that is granted promises nothing over another client: every other open on the file has
-- the asker's view of it, or the level is II and nobody holds anything exclusive on it.
pub grant_oplock-Guarded :
    (o requested : ℕ) (others : List ℕ) (s : Caching) (p : ℕ)
    → contains p others ≡ true
    → (grant_oplock o requested others s).0 ≢ oplock_level_none
    → (same_cache_view (s.opens p) (s.opens o).client_guid ≡ true)
      ⊎ ((grant_oplock o requested others s).0 ≡ oplock_level_ii
          × stands_against (by_client (s.opens o).client_guid) s p ≡ false)
unfolding grant_oplock
grant_oplock-Guarded o requested others s p h granted =
    let g = (s.opens o).client_guid in
    let away = elsewhere g others s in
    let member = elsewhere-member g others s p h in
    let found = holders_in-exclusive_held (by_client g) s away p in ground (arith, member, found)

-- Beside any other open on the file, a lease is granted only where that open shares the lease, or
-- where the lease is not one to write with and the open does not stand against it: an open of another
-- client without an oplock above level II or on its way down, one of the asker's own client without a
-- lease, or one with a lease that the asker is covered by or that is not one to write with and not on
-- its way down.
pub grant_lease-Guarded :
    (o id l requested : ℕ) (others : List ℕ) (s : Caching) (p : ℕ)
    → contains p others ≡ true
    → (grant_lease o id l requested others s).0 ≢ lease_none
    → ((s.opens p).lease ≡ some l)
      ⊎ (has (grant_lease o id l requested others s).0 lease_write_caching ≡ false
          × stands_against (for_lease (s.opens o).client_guid l) s p ≡ false)
unfolding grant_lease
grant_lease-Guarded o id l requested others s p h granted =
    let by = for_lease (s.opens o).client_guid l in
    let member = opens_outside-member (some l) others s p h in
    let found = holders_in-exclusive_held by s others p h in
    let cleared = and_not-cleared (bit_and requested lease_states) lease_write_caching in
    ground (arith, member, found, cleared)

-- ===== src/Caching/Holders.antt =====
-- oplock.go: what `holdersIn` finds, against a description of the opens that stand in the way.
use sombrero.Base.{
  ℕ, Bool, true, not, ◌&&◌, ◌||◌, List, [], ◌∷◌, ◌≡◌, none, some, Option, contains, arith,
}
use sombrero.Caching.{
  Asker, Caching, covers, same_cache_view, holders_from, holders_in, exclusive_held, any_oplock,
  any_lease, exclusive_oplock, exclusive_lease, is_none,
}

-- An open on which somebody else holds what nobody else may share: an oplock above level II or on
-- its way down, or a lease to write with or on its way down.
unfoldable pub stands_against : Asker → Caching → ℕ → Bool
stands_against by s o =
    let op = s.opens o in
    elim op.lease [
      | none ↦
          not (is_none op.oplock.state)
          && not (same_cache_view op by.guid)
          && exclusive_oplock op.oplock
      | some l ↦ not (covers by s l) && exclusive_lease (s.leases l)
    ]

any_lease-member :
    (s : Caching) (seen : List ℕ) (l : ℕ)
    → contains l seen ≡ true
    → exclusive_lease (s.leases l) ≡ true
    → any_lease seen s ≡ true
unfolding any_lease
any_lease-member s [] l h e = ground arith
any_lease-member s (x ∷ seen) l h e = let rest = any_lease-member s seen l in ground (arith, rest)

-- Any number for an open with no lease.
abbrev lease_or_zero : Option ℕ → ℕ
lease_or_zero none = 0
lease_or_zero (some l) = l

-- Whoever stands against the asker is among the holders found, or on a lease seen before.
holders_from-found :
    (by : Asker) (s : Caching) (seen os : List ℕ) (o : ℕ)
    → contains o os ≡ true
    → stands_against by s o ≡ true
    → let found = holders_from by s seen os in
      any_oplock found.0 s || any_lease found.1 s || any_lease seen s ≡ true
unfolding holders_from any_oplock any_lease stands_against
holders_from-found by s seen [] o h e = ground arith
holders_from-found by s seen (x ∷ os) o h e =
    let l = lease_or_zero (s.opens x).lease in
    let skipped = holders_from-found by s seen os o in
    let taken = holders_from-found by s (l ∷ seen) os o in
    let inside = any_lease-member s seen l in ground (arith, skipped, taken, inside)

pub holders_in-exclusive_held :
    (by : Asker) (s : Caching) (os : List ℕ) (o : ℕ)
    → contains o os ≡ true
    → stands_against by s o ≡ true
    → exclusive_held (holders_in os by s) s ≡ true
unfolding holders_in exclusive_held any_lease any_oplock
holders_in-exclusive_held by s os o h e =
    let found = holders_from-found by s [] os o h e in ground (arith, found)

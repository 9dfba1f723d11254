-- ===== src/LeaseTable/Tests.antt =====
-- Tests of the lease tables, and the theorems at inputs that meet their hypotheses.
use sombrero.Base.{◌≡◌, refl, false, [], arith, lookup, insert}
use sombrero.Oplock.{Channels}
use sombrero.Lease.{share_lease}
use sombrero.LeaseTable.Reach.{Reachable, start, request, joins, blank_server, find_lease-same_key}
use sombrero.LeaseTable.{
  Server, lease_table_for, find_lease, lease_for, new_lease, join, follow_key,
}

abbrev fresh : Channels
fresh = record { closed = []; next = 0 }

abbrev empty_server : Server
empty_server = blank_server (λ p. new_lease 0 0 "") fresh

-- Client 8 has taken out a lease on "notes" under the key 5, for its open 3.
abbrev leased : Server
leased = join 0 3 7 (lease_for 8 5 "notes" empty_server).2

leased-Reachable : Reachable leased
unfolding lease_for lease_table_for lookup
leased-Reachable =
    joins 0 3 7 (omega arith) (request 8 5 "notes" (start (λ p. new_lease 0 0 "") fresh))

key_in_use : (lease_for 8 5 "other" leased).1 ≡ false
unfolding lease_for lease_table_for lookup insert join follow_key share_lease
key_in_use = refl

find_lease-same_key_example :
    ((leased.leases 0).client_guid ≡ 8) × ((leased.leases 0).lease_key ≡ 5)
unfolding find_lease lease_for join lease_table_for lookup insert share_lease
find_lease-same_key_example = find_lease-same_key leased 8 5 0 leased-Reachable refl

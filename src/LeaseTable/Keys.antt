-- ===== src/LeaseTable/Keys.antt =====
-- lease.go: what the lease tables find under a key, from what they found before.
use Prim.Native.String.{String}
use sombrero.Base.{
  ℕ, ◌≡◌, ◌&&◌, Option, none, some, List, [], ◌==◌, if◌then◌else◌, lookup, insert, delete,
  lookup-insert, lookup-delete, arith,
}
use sombrero.Lease.{Lease, leave_lease}
use sombrero.LeaseTable.{
  Server, lease_table_for, set_table, find_lease, lease_for, join, names, leave,
}

-- The table that a server keeps for a client, empty if it keeps none.
abbrev table_of : ℕ → Server → List (ℕ × ℕ)
table_of guid s = (lease_table_for guid s).0

find_lease-table_of : (g k : ℕ) (s : Server) → lookup k (table_of g s) ≡ find_lease g k s
unfolding find_lease lease_table_for lookup
find_lease-table_of g k s = ground arith

find_lease-set_table :
    (g k guid : ℕ) (lt : List (ℕ × ℕ)) (s : Server)
    → find_lease g k (set_table guid lt s) ≡ (if guid == g then lookup k lt else find_lease g k s)
unfolding find_lease
find_lease-set_table g k guid lt s = ground (arith, lookup-insert guid g lt s.tables)

-- Making the table of a client finds it no lease.
find_lease-lease_table_for :
    (g k guid : ℕ) (s : Server) → find_lease g k (lease_table_for guid s).1 ≡ find_lease g k s
unfolding lease_table_for lookup find_lease
find_lease-lease_table_for g k guid s = ground (arith, lookup-insert guid g [] s.tables)

-- `leaseFor` finds its answer under the key afterwards, and every other key as before.
pub find_lease-lease_for :
    (g k guid key : ℕ) (path : String) (s : Server)
    → let (p, _, s') = lease_for guid key path s in
      find_lease g k s' ≡ (if (guid == g) && (key == k) then some p else find_lease g k s)
unfolding lease_for find_lease
find_lease-lease_for g k guid key path s =
    let s' : Server = (lease_table_for guid s).1 in
    let lt : List (ℕ × ℕ) = table_of guid s in
    ground (
      arith,
      find_lease-lease_table_for g k guid s,
      find_lease-table_of guid k s,
      find_lease-set_table g k guid (insert key s'.next_lease lt) s',
      lookup-insert key k s'.next_lease lt,
    )

pub find_lease-join :
    (g k p id state : ℕ) (s : Server)
    → let l = s.leases p in
      find_lease g k (join p id state s) ≡ (
        if (l.client_guid == g) && (l.lease_key == k)
        then elim (find_lease g k s) as (λ _. Option ℕ) [ none ↦ some p | some q ↦ some q ]
        else find_lease g k s)
unfolding join find_lease
find_lease-join g k p id state s =
    let l : Lease = s.leases p in
    let s' : Server = (lease_table_for l.client_guid s).1 in
    let lt : List (ℕ × ℕ) = table_of l.client_guid s in
    ground (
      arith,
      find_lease-lease_table_for g k l.client_guid s,
      find_lease-table_of l.client_guid k s,
      find_lease-set_table g k l.client_guid (insert l.lease_key p lt) s',
      find_lease-set_table g k l.client_guid lt s',
      lookup-insert l.lease_key k p lt,
    )

-- `leaveLease` frees the key of a lease that has lost its last open, and no other key.
pub find_lease-leave :
    (g k p id : ℕ) (s : Server)
    → let l = s.leases p in
      find_lease g k (leave p id s) ≡ (
        if (leave_lease id l s.chans).0
          && (l.client_guid == g)
          && (l.lease_key == k)
          && names (find_lease g k s) p
        then none
        else find_lease g k s)
unfolding leave leave_lease find_lease
find_lease-leave g k p id s =
    let l : Lease = s.leases p in
    let s' : Server = (lease_table_for l.client_guid s).1 in
    let lt : List (ℕ × ℕ) = table_of l.client_guid s in
    ground (
      arith,
      find_lease-lease_table_for g k l.client_guid s,
      find_lease-table_of l.client_guid k s,
      find_lease-table_of l.client_guid l.lease_key s,
      find_lease-set_table g k l.client_guid (delete l.lease_key lt) s',
      find_lease-set_table g k l.client_guid lt s',
      lookup-delete l.lease_key k lt,
    )

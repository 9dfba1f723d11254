-- ===== src/LeaseTable.antt =====
-- lease.go: the lease tables of the clients. A lease is known by a number, as the source knows it by
-- its pointer; `leases` is the memory behind those pointers and `next_lease` the one made next.
pub mod Keys
pub mod Reach
mod Tests
use Prim.Native.String.{String}
use text.Mathlib.Text.{◌==◌ as str_eq}
use sombrero.Base.{
  ℕ, ◌+◌, ◌<◌, Bool, true, false, not, ◌&&◌, Option, none, some, List, [], ◌==◌, if◌then◌else◌,
  lookup, insert, delete,
}
use sombrero.Oplock.{Channels}
use sombrero.Lease.{Lease, share_lease, leave_lease, lease_none}

pub record Server : Type 0 where
  pub tables : List (ℕ × List (ℕ × ℕ))
  pub leases : ℕ → Lease
  pub next_lease : ℕ
  pub chans : Channels

abbrev pub update {ℓ} : {A : Type ℓ} → (ℕ → A) → ℕ → A → ℕ → A
update f p v q = if p == q then v else f q

-- The table of the client, made if this is the first lease it asks for.
pub lease_table_for : ℕ → Server → List (ℕ × ℕ) × Server
lease_table_for guid s =
    let known = lookup guid s.tables in
    (
      elim known [ some lt ↦ lt | none ↦ [] ],
      record s { tables = elim known [ some _ ↦ s.tables | none ↦ insert guid [] s.tables ] },
    )

-- The map behind a pointer to a table, written back.
abbrev pub set_table : ℕ → List (ℕ × ℕ) → Server → Server
set_table guid lt s = record s { tables = insert guid lt s.tables }

abbrev pub set_lease : ℕ → Lease → Server → Server
set_lease p l s = record s { leases = update s.leases p l }

pub find_lease : ℕ → ℕ → Server → Option ℕ
find_lease guid key s = elim (lookup guid s.tables) [ none ↦ none | some lt ↦ lookup key lt ]

abbrev pub new_lease : ℕ → ℕ → String → Lease
new_lease guid key path = record {
  lease_key = key;
  client_guid = guid;
  file_name = path;
  state = lease_none;
  break_to_state = lease_none;
  breaking = false;
  epoch = 1;
  file_delete_on_close = false;
  opens = [];
  break_done = none;
  break_seq = 0;
}

-- A lease on a file on its way out follows its key to the new file.
pub follow_key : String → Lease → Lease
follow_key path l =
    if not (str_eq l.file_name path) && l.file_delete_on_close
    then record l { file_name = path; file_delete_on_close = false }
    else l

-- The lease under the key, made if there is none, and whether the key is free for the path.
pub lease_for : ℕ → ℕ → String → Server → ℕ × Bool × Server
lease_for guid key path s =
    let (lt, s') = lease_table_for guid s in
    elim (lookup key lt) [
      | some p ↦
          let l = follow_key path (s'.leases p) in (p, str_eq l.file_name path, set_lease p l s')
      | none ↦ (
        s'.next_lease,
        true,
        record (set_table guid (insert key s'.next_lease lt) s') {
          leases = update s'.leases s'.next_lease (new_lease guid key path);
          next_lease = s'.next_lease + 1;
        },
      )
    ]

abbrev pub insert_missing : ℕ → ℕ → List (ℕ × ℕ) → List (ℕ × ℕ)
insert_missing key p lt = elim (lookup key lt) [ none ↦ insert key p lt | some _ ↦ lt ]

-- `join`, called with the table of the lease's client. A lease that was taken out of the table by
-- the open that left it last is put back.
pub join : ℕ → ℕ → ℕ → Server → Server
join p id state s =
    let l = s.leases p in
    let (lt, s') = lease_table_for l.client_guid s in
    set_lease p (share_lease state id l)
      (set_table l.client_guid (insert_missing l.lease_key p lt) s')

abbrev pub names : Option ℕ → ℕ → Bool
names none p = false
names (some q) p = q == p

-- `leaveLease` of an open with the durable file ID `id` that shares the lease `p`.
pub leave : ℕ → ℕ → Server → Server
leave p id s =
    let l = s.leases p in
    let (lt, s') = lease_table_for l.client_guid s in
    let (last, l', chans') = leave_lease id l s'.chans in
    let lt' = if last && names (lookup l.lease_key lt) p then delete l.lease_key lt else lt in
    record (set_lease p l' (set_table l.client_guid lt' s')) { chans = chans' }

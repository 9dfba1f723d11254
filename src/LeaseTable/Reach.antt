-- ===== src/LeaseTable/Reach.antt =====
-- lease.go: the lease tables over time, as creates, closes and breaks change them.
use Prim.Native.String.{String}
use sombrero.Base.{
  ℕ, ◌<◌, ◌≡◌, inl, inr, refl, ◌∙◌, Bool, true, false, ◌&&◌, Option, none, some, [], ◌==◌,
  if◌then◌else◌, lookup, arith, Bool-cases, ==_refl,
}
use mathlib.Core.Path.{subst₂, subst}
use sombrero.Oplock.{Channels}
use sombrero.Lease.{Lease, share_lease, leave_lease, Event, step, remove_open}
use sombrero.Lease.Machine.{step-same_key, leave-state}
use sombrero.LeaseTable.Keys.{find_lease-lease_for, find_lease-join, find_lease-leave}
use sombrero.LeaseTable.{
  Server, lease_table_for, set_lease, find_lease, follow_key, lease_for, join, names, leave,
}

elim_if {ℓ κ} :
    {A : Type ℓ} (b : Bool) (P : A → Type κ) {x y : A} → P x → P y → P (if b then x else y)
elim_if true P h k = h
elim_if false P h k = k

abbrev pub blank_server : (ℕ → Lease) → Channels → Server
blank_server leases chans = record { tables = []; leases = leases; next_lease = 0; chans = chans }

-- What a pointer found under a key of a client leads to.
abbrev pub Entry : Server → ℕ → ℕ → Option ℕ → Type 0
Entry s g k none = Unit {0}
Entry s g k (some p) =
    (p < s.next_lease) × ((s.leases p).client_guid ≡ g) × ((s.leases p).lease_key ≡ k)

abbrev pub IsKeyed : Server → Type 0
IsKeyed s = (g k : ℕ) → Entry s g k (find_lease g k s)

-- An entry stays good while its lease keeps its key and its client.
Entry-keep :
    (s s' : Server) (g k : ℕ) (old : Option ℕ)
    → Entry s g k old
    → ((q : ℕ)
        → q < s.next_lease
        → (q < s'.next_lease)
          × ((s'.leases q).client_guid ≡ (s.leases q).client_guid)
          × ((s'.leases q).lease_key ≡ (s.leases q).lease_key))
    → Entry s' g k old
Entry-keep s s' g k none h keep = tt
Entry-keep s s' g k (some q) h keep = let t = keep q h.0 in (t.0, t.1 ∙ h.1, t.2 ∙ h.2)

module _ (guid key : ℕ) (path : String) (s : Server) where
  lease_for-keep :
      (q : ℕ)
      → q < s.next_lease
      → let s' = (lease_for guid key path s).2 in
        (q < s'.next_lease)
        × ((s'.leases q).client_guid ≡ (s.leases q).client_guid)
        × ((s'.leases q).lease_key ≡ (s.leases q).lease_key)
  unfolding lease_for follow_key lease_table_for
  lease_for-keep q h = ground arith

  lease_for-own :
      (old : Option ℕ)
      → find_lease guid key s ≡ old
      → Entry s guid key old
      → let (p, _, s') = lease_for guid key path s in Entry s' guid key (some p)
  unfolding lease_for follow_key lease_table_for find_lease lookup
  lease_for-own none e h = ground arith
  lease_for-own (some p) e h = ground arith

  lease_for-IsKeyed : IsKeyed s → IsKeyed (lease_for guid key path s).2
  lease_for-IsKeyed h g k =
      rw (find_lease-lease_for g k guid key path s) (elim (Bool-cases ((guid == g) && (key == k))) [
        | inl e ↦
            let eg : guid ≡ g = ground arith in
            let ek : key ≡ k = ground arith in
            rw e (
              subst₂
                (λ x y.
                  Entry (lease_for guid key path s).2 x y (some (lease_for guid key path s).0))
                eg ek (lease_for-own (find_lease guid key s) refl (h guid key)))
        | inr e ↦ rw e (
            Entry-keep s (lease_for guid key path s).2 g k (find_lease g k s) (h g k)
              lease_for-keep)
      ])

module _ (p id : ℕ) (s : Server) where
  leave-keep :
      (q : ℕ)
      → q < s.next_lease
      → let s' = leave p id s in
        (q < s'.next_lease)
        × ((s'.leases q).client_guid ≡ (s.leases q).client_guid)
        × ((s'.leases q).lease_key ≡ (s.leases q).lease_key)
  unfolding leave leave_lease lease_table_for
  leave-keep q h = ground arith

  leave-IsKeyed : IsKeyed s → IsKeyed (leave p id s)
  leave-IsKeyed h g k = rw (find_lease-leave g k p id s) (
      elim_if
        ((leave_lease id (s.leases p) s.chans).0
          && ((s.leases p).client_guid == g)
          && ((s.leases p).lease_key == k)
          && names (find_lease g k s) p)
        (λ o. Entry (leave p id s) g k o) {x = none} tt
        (Entry-keep s (leave p id s) g k (find_lease g k s) (h g k) leave-keep))

  join-keep :
      (state q : ℕ)
      → q < s.next_lease
      → let s' = join p id state s in
        (q < s'.next_lease)
        × ((s'.leases q).client_guid ≡ (s.leases q).client_guid)
        × ((s'.leases q).lease_key ≡ (s.leases q).lease_key)
  unfolding join share_lease lease_table_for
  join-keep state q h = ground arith

  -- A pointer that is put back is filed under the key and the client of its own lease.
  join-Entry :
      (state g k : ℕ) (old : Option ℕ)
      → p < s.next_lease
      → (s.leases p).client_guid ≡ g
      → (s.leases p).lease_key ≡ k
      → Entry s g k old
      → Entry
          (join p id state s)
          g
          k
          (elim old as (λ _. Option ℕ) [ none ↦ some p | some q ↦ some q ])
  join-Entry state g k none bound eg ek h =
      Entry-keep s (join p id state s) g k (some p) (bound, eg, ek) (join-keep state)
  join-Entry state g k (some q) bound eg ek h =
      Entry-keep s (join p id state s) g k (some q) h (join-keep state)

  join-IsKeyed : (state : ℕ) → p < s.next_lease → IsKeyed s → IsKeyed (join p id state s)
  join-IsKeyed state bound h g k =
      rw (find_lease-join g k p id state s)
        (elim (Bool-cases (((s.leases p).client_guid == g) && ((s.leases p).lease_key == k))) [
          | inl e ↦
              rw e (
                join-Entry state g k (find_lease g k s) bound (ground arith) (ground arith) (h g k))
          | inr e ↦
              rw e
                (Entry-keep s (join p id state s) g k (find_lease g k s) (h g k) (join-keep state))
        ])

-- The server over time: creates that name a lease key, opens that join a lease and leave it, and
-- whatever else happens to a lease, which leaves its key and its client as they are.
pub data Reachable : Server → Type 0 where
  start : (leases : ℕ → Lease) (chans : Channels) → Reachable (blank_server leases chans)
  request :
      {s : Server} (guid key : ℕ) (path : String)
      → Reachable s
      → Reachable (lease_for guid key path s).2
  joins :
      {s : Server} (p id state : ℕ) → p < s.next_lease → Reachable s → Reachable (join p id state s)
  leaves : {s : Server} (p id : ℕ) → Reachable s → Reachable (leave p id s)
  happens :
      {s : Server} (p : ℕ) (e : Event) (chans : Channels)
      → Reachable s
      → Reachable (record (set_lease p (step e (s.leases p) chans).0 s) {
        chans = (step e (s.leases p) chans).1;
      })

Reachable-IsKeyed : {s : Server} → Reachable s → IsKeyed s
unfolding find_lease lookup
Reachable-IsKeyed (start leases chans) = λ g k. tt
Reachable-IsKeyed (request {s} guid key path r) =
    lease_for-IsKeyed guid key path s (Reachable-IsKeyed r)
Reachable-IsKeyed (joins {s} p id state b r) = join-IsKeyed p id s state b (Reachable-IsKeyed r)
Reachable-IsKeyed (leaves {s} p id r) = leave-IsKeyed p id s (Reachable-IsKeyed r)
Reachable-IsKeyed (happens {s} p e chans r) = λ g k.
    let (l', chans') = step e (s.leases p) chans in
    Entry-keep s (record (set_lease p l' s) { chans = chans' }) g k (find_lease g k s)
      (Reachable-IsKeyed r g k) λ q h. ground (arith, step-same_key e (s.leases p) chans)

-- Whatever creates, closes and breaks there have been: what a client finds under a lease key is a
-- lease of that client that was taken out under that key.
pub find_lease-same_key :
    (s : Server) (g k p : ℕ)
    → Reachable s
    → find_lease g k s ≡ some p
    → ((s.leases p).client_guid ≡ g) × ((s.leases p).lease_key ≡ k)
find_lease-same_key s g k p r e =
    let t : Entry s g k (some p) = subst (Entry s g k) e (Reachable-IsKeyed r g k) in (t.1, t.2)

-- When its last open leaves it, a lease gives its key back, and the client finds nothing under it.
leave-frees_key :
    (p id : ℕ) (s : Server)
    → remove_open id (s.leases p).opens ≡ []
    → find_lease (s.leases p).client_guid (s.leases p).lease_key s ≡ some p
    → find_lease (s.leases p).client_guid (s.leases p).lease_key (leave p id s) ≡ none
leave-frees_key p id s h e =
    let l : Lease = s.leases p in
    find_lease-leave l.client_guid l.lease_key p id s
    ∙ ground
        (arith, leave-state id l s.chans, ==_refl l.client_guid, ==_refl l.lease_key, ==_refl p)

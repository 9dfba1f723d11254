-- ===== src/OpenIndex/Replay.antt =====
-- openindex.go: the open that a create made, by the GUID of that create, until the handle is used.
use sombrero.Base.{
  ℕ, Bool, true, not, ◌&&◌, Option, none, some, ◌≡◌, ap, ◌==◌, if◌then◌else◌, find_key, find-set,
  find-erase, arith, ==_iff, has,
}
use sombrero.OpenIndex.{
  Server, ReplayKey, replay_key_eq, replay_key, mark_replay_eligible, clear_replay_eligible,
  find_replayable_open, holds, useful,
}
use sombrero.OpenIndex.Entries.{replay_key_eq_iff}

abbrev pub key_for : ℕ → ℕ → ReplayKey
key_for client create = record { client_guid = client; create_guid = create }

abbrev pub rightly_replayed : Server → ReplayKey → Bool
rightly_replayed s k = elim (find_key replay_key_eq k s.replayable_opens) [
  | none ↦ true
  | some p ↦ replay_key_eq (replay_key (s.opens p)) k && (s.opens p).is_replay_eligible
]

-- What the index has under the GUID of a create is an open which that create made, and whose create
-- may still be replayed.
pub record IsReplayable (s : Server) : Type 0 where
  pub right : (k : ReplayKey) → rightly_replayed s k ≡ true

-- The open that a mark leaves to be found.
abbrev pub marked : Bool → Bool → ℕ → Server → Bool
marked is_pipe is_dir p s = not is_pipe && (not is_dir && has (s.opens p).granted_access useful)

mark-IsReplayable :
    (is_pipe is_dir : Bool) (p : ℕ) (s : Server)
    → IsReplayable s
    → IsReplayable (mark_replay_eligible is_pipe is_dir p s)
unfolding mark_replay_eligible
mark-IsReplayable is_pipe is_dir p s h = record {
  right = λ k.
      let set =
        find-set replay_key_eq replay_key_eq_iff (replay_key (s.opens p)) k p s.replayable_opens in
      let old = h.right k in ground (arith, set, old);
}

abbrev number_or_zero : Option ℕ → ℕ
number_or_zero none = 0
number_or_zero (some p) = p

same_key :
    (s : Server) (j k : ReplayKey)
    → replay_key_eq j k ≡ true
    → find_key replay_key_eq j s.replayable_opens ≡ find_key replay_key_eq k s.replayable_opens
same_key s j k h =
    ap (λ i. find_key replay_key_eq i s.replayable_opens) ((replay_key_eq_iff j k).0 h)

same_replay_key :
    (s : Server) (p q : ℕ) (k : ReplayKey)
    → (p == q) ≡ true
    → replay_key_eq (replay_key (s.opens p)) k ≡ replay_key_eq (replay_key (s.opens q)) k
same_replay_key s p q k h = ap (λ i. replay_key_eq (replay_key (s.opens i)) k) ((==_iff p q).0 h)

same_eligible :
    (s : Server) (p q : ℕ)
    → (p == q) ≡ true
    → (s.opens p).is_replay_eligible ≡ (s.opens q).is_replay_eligible
same_eligible s p q h = ap (λ i. (s.opens i).is_replay_eligible) ((==_iff p q).0 h)

clear-IsReplayable :
    (p : ℕ) (s : Server) → IsReplayable s → IsReplayable (clear_replay_eligible p s)
unfolding clear_replay_eligible
clear-IsReplayable p s h = record {
  right = λ k.
      let erased =
        find-erase replay_key_eq replay_key_eq_iff (replay_key (s.opens p)) k s.replayable_opens in
      let old = h.right k in
      let q = number_or_zero (find_key replay_key_eq k s.replayable_opens) in
      let same = same_replay_key s p q k in
      let found = same_key s (replay_key (s.opens p)) k in
      let eligible = same_eligible s p q in ground (arith, erased, old, same, found, eligible);
}

-- Where the index is right, `findReplayableOpen` answers with what the index has.
pub find_replayable_open-find_key :
    (s : Server) (c g : ℕ)
    → IsReplayable s
    → find_replayable_open c g s ≡ find_key replay_key_eq (key_for c g) s.replayable_opens
unfolding find_replayable_open
find_replayable_open-find_key s c g h = let old = h.right (key_for c g) in ground (arith, old)

-- A create can be replayed once its open is marked, and no other create is answered differently.
find-mark :
    (s : Server) (is_pipe is_dir : Bool) (p c g : ℕ)
    → IsReplayable s
    → find_replayable_open c g (mark_replay_eligible is_pipe is_dir p s) ≡ (
        if marked is_pipe is_dir p s && replay_key_eq (replay_key (s.opens p)) (key_for c g)
        then some p
        else find_replayable_open c g s)
unfolding mark_replay_eligible
find-mark s is_pipe is_dir p c g h =
    let set =
      find-set replay_key_eq replay_key_eq_iff (replay_key (s.opens p)) (key_for c g) p
        s.replayable_opens in
    let before = find_replayable_open-find_key s c g h in
    let after =
      find_replayable_open-find_key (mark_replay_eligible is_pipe is_dir p s) c g
        (mark-IsReplayable is_pipe is_dir p s h) in
    ground (arith, set, before, after)

-- Once a handle is used, no create is answered with its open, and every create that was answered
-- with another open still is.
find-clear :
    (s : Server) (p c g : ℕ)
    → IsReplayable s
    → find_replayable_open c g (clear_replay_eligible p s)
      ≡ (if holds (find_replayable_open c g s) p then none else find_replayable_open c g s)
unfolding clear_replay_eligible
find-clear s p c g h =
    let k = key_for c g in
    let q = number_or_zero (find_key replay_key_eq k s.replayable_opens) in
    let erased =
      find-erase replay_key_eq replay_key_eq_iff (replay_key (s.opens p)) k s.replayable_opens in
    let old = h.right k in
    let same = same_replay_key s p q k in
    let found = same_key s (replay_key (s.opens p)) k in
    let eligible = same_eligible s p q in
    let before = find_replayable_open-find_key s c g h in
    let after =
      find_replayable_open-find_key (clear_replay_eligible p s) c g (clear-IsReplayable p s h) in
    ground (arith, erased, old, same, found, eligible, before, after)

-- ===== src/ChannelSequence/Outstanding.antt =====
-- conn.go: the steps of the requests on the opens, and what the counters are for.
use sombrero.Base.{
  ℕ, ◌+◌, ◌<◌, ◌^◌, true, some, List, [], ◌∷◌, ◌≡◌, refl, delete, get_elem?, length, arith,
  lookup-delete, subst, ==_refl, Bool-cases, inl, inr, sym, false,
}
use sombrero.ChannelSequence.{
  Connections, Request, status_ok, count_request, verify_channel_sequence, remember_request,
  release_open, finish_release,
}
use sombrero.ChannelSequence.Counted.{tally-remove_at, in_flight, of_earlier, IsCounted}
use sombrero.ChannelSequence.Verify.{
  verify-IsCounted, count_request-earlier, count_request-current, count_request-replay,
}
use sombrero.ChannelSequence.Release.{remember-IsCounted, release-IsCounted, finish-IsCounted}

-- The steps of the functions, of whichever requests: a request arrives for an open and is settled, one
-- that was counted is put into a map, one that is answered is taken out of it, and one that was
-- taken out comes off the counters.
pub data Step : Type 0 where
  arrive : ℕ → ℕ → Step
  remember answer uncount : ℕ → Step

unfoldable pub step : (ℕ → Request) → Step → Connections → Connections
step request (arrive k p) c = (verify_channel_sequence k (request k) p c).1
step request (remember i) c = remember_request i c
step request (answer k) c = release_open k c
step request (uncount i) c = finish_release request i c

unfoldable pub run : (ℕ → Request) → List Step → Connections → Connections
run request [] c = c
run request (s ∷ steps) c = run request steps (step request s c)

-- Every request has a channel sequence of 16 bits.
abbrev pub IsWord : (ℕ → Request) → Type 0
IsWord request = (k : ℕ) → (request k).channel_sequence < 2 ^ 16

module _ (request : ℕ → Request) (words : IsWord request) where
  IsCounted-weaken : (n : ℕ) (c : Connections) → IsCounted request n c → IsCounted request (n + 1) c
  IsCounted-weaken n c h = record {
    none_uncounted = h.none_uncounted;
    covered = λ p.
        let (flight, earlier, bound, word) = h.covered p in (flight, earlier, omega arith, word);
  }

  verify-older :
      (k p : ℕ) (c : Connections)
      → (request k).is_3x ≡ false
      → (verify_channel_sequence k (request k) p c).1 ≡ c
  unfolding verify_channel_sequence
  verify-older k p c older = ground (arith, older)

  step-IsCounted :
      (s : Step) (n : ℕ) (c : Connections)
      → n + 1 < 2 ^ 32
      → IsCounted request n c
      → IsCounted request (n + 1) (step request s c)
  unfolding step
  step-IsCounted (arrive k p) n c small h = elim (Bool-cases (request k).is_3x) [
    | inl is_3x ↦ verify-IsCounted request n k p c small (words k) is_3x h
    | inr older ↦
        subst (IsCounted request (n + 1)) (sym (verify-older k p c older)) (IsCounted-weaken n c h)
  ]
  step-IsCounted (remember i) n c small h =
      IsCounted-weaken n (remember_request i c) (remember-IsCounted request n i c h)
  step-IsCounted (answer k) n c small h =
      IsCounted-weaken n (release_open k c) (release-IsCounted request n k c h)
  step-IsCounted (uncount i) n c small h =
      IsCounted-weaken n (finish_release request i c) (finish-IsCounted request n i c h)

  run-IsCounted :
      (steps : List Step) (n : ℕ) (c : Connections)
      → n + length steps < 2 ^ 32
      → IsCounted request n c
      → IsCounted request (n + length steps) (run request steps c)
  unfolding run
  run-IsCounted [] n c small h = subst (λ k. IsCounted request k c) (omega arith) h
  run-IsCounted (s ∷ steps) n c small h =
      let c' = step request s c in
      let rest =
        run-IsCounted steps (n + 1) c' (omega arith) (step-IsCounted s n c (omega arith) h) in
      subst (λ k. IsCounted request k (run request steps c')) (omega arith) rest

  counted-replay_alone :
      (n mid p i k : ℕ) (c : Connections)
      → n + 1 < 2 ^ 32
      → IsCounted request n c
      → (request mid).replay ≡ true
      → (count_request (request mid) (c.opens p)).0 ≡ true
      → get_elem? (in_flight c) i ≡ some (k, p)
      → (request k).channel_sequence ≡ (request mid).channel_sequence
  counted-replay_alone n mid p i k c small h replay admitted found =
      let (flight, earlier, bound, word) = h.covered p in
      let op' = (count_request (request mid) (c.opens p)).1 in
      let left =
        count_request-earlier request (request mid) (c.opens p) p (in_flight c) (omega arith)
          (words mid) word flight earlier in
      let zero_left = count_request-replay request (request mid) (c.opens p) replay admitted in
      let current =
        count_request-current request (request mid) (c.opens p) (words mid) word admitted in
      let one = tally-remove_at (of_earlier request op' p) i (in_flight c) (k, p) found in
      let self = ==_refl p in ground (arith, left, zero_left, current, one, self)

-- From a state with every request in flight counted, after fewer than 2^32 - 1 steps of any requests:
-- when a replay that changes a file is let through on a connection of a 3.x dialect, every request
-- that is counted on its open, whatever connection it came on and whether it is in a map, on its way
-- into one or out of one, was sent on the channel that the replay was sent on.
pub verify-replay_alone :
    (request : ℕ → Request) (steps : List Step) (c : Connections) (mid p i k : ℕ)
    → IsWord request
    → length steps + 1 < 2 ^ 32
    → IsCounted request 0 c
    → (request mid).is_3x ≡ true
    → (request mid).replay ≡ true
    → (request mid).modifies ≡ true
    → (verify_channel_sequence mid (request mid) p (run request steps c)).0 ≡ status_ok
    → get_elem? (in_flight (run request steps c)) i ≡ some (k, p)
    → (request k).channel_sequence ≡ (request mid).channel_sequence
unfolding verify_channel_sequence
verify-replay_alone request steps c mid p i k words small h is3x replay modifies ok found =
    let after = run request steps c in
    let h' = run-IsCounted request words steps 0 c (omega arith) h in
    counted-replay_alone request words (0 + length steps) mid p i k after (omega arith) h' replay
      (ground (arith, is3x, ok)) found

delete_again : (k : ℕ) (m : List (ℕ × ℕ)) → delete k (delete k m) ≡ delete k m
unfolding delete
delete_again k [] = refl
delete_again k (x ∷ xs) = let rest = delete_again k xs in ground (arith, rest)

-- A request that is answered twice is taken off the counters once.
release_open-again :
    (k : ℕ) (c : Connections) → release_open k (release_open k c) ≡ release_open k c
unfolding release_open
release_open-again k c =
    let gone = lookup-delete k k c.request_opens in
    let again = delete_again k c.request_opens in
    let self = ==_refl k in ground (arith, gone, again, self)

-- ===== src/ChannelSequence/Counted.antt =====
-- conn.go: the requests in flight on an open, in whatever part of a function they stand, against the
-- counters of the open.
use sombrero.Base.{
  ℕ, suc, ◌+◌, ◌≤◌, ◌<◌, ◌^◌, Bool, true, not, ◌&&◌, some, List, [], ◌∷◌, ◌≡◌, ap, ◌==◌,
  if◌then◌else◌, lookup, delete, arith, ==_iff, ◌++◌, zero, get_elem?, remove_at, some_inj,
}
use sombrero.ChannelSequence.{Open, Connections, Request}

-- The number of entries of the map that pass a test.
unfoldable pub tally : (ℕ → ℕ → Bool) → List (ℕ × ℕ) → ℕ
tally f [] = 0
tally f (x ∷ xs) = let rest = tally f xs in if f x.0 x.1 then suc rest else rest

pub tally-delete : (f : ℕ → ℕ → Bool) (k : ℕ) (m : List (ℕ × ℕ)) → tally f (delete k m) ≤ tally f m
unfolding tally delete
tally-delete f k [] = ground arith
tally-delete f k (x ∷ xs) = ground (arith, tally-delete f k xs)

pub tally-delete_found :
    (f : ℕ → ℕ → Bool) (k p : ℕ) (m : List (ℕ × ℕ))
    → lookup k m ≡ some p
    → f k p ≡ true
    → tally f (delete k m) < tally f m
unfolding tally delete lookup
tally-delete_found f k p [] h e = ground arith
tally-delete_found f k p (x ∷ xs) h e =
    let rest = tally-delete_found f k p xs in
    let fewer = tally-delete f k xs in
    let first = λ (same : (k == x.0) ≡ true). ap (λ i. f i x.1) ((==_iff k x.0).0 same) in
    let second = λ (same : (x.1 == p) ≡ true). ap (f k) ((==_iff x.1 p).0 same) in
    ground (arith, rest, fewer, first, second)

pub tally-append :
    (f : ℕ → ℕ → Bool) (xs ys : List (ℕ × ℕ)) → tally f (xs ++ ys) ≡ tally f xs + tally f ys
unfolding tally
tally-append f [] ys = omega arith
tally-append f (x ∷ xs) ys = let rest = tally-append f xs ys in ground (arith, rest)

-- What one entry adds.
abbrev pub weight : (ℕ → ℕ → Bool) → ℕ × ℕ → ℕ
weight f x = if f x.0 x.1 then 1 else 0

pub tally-remove_at :
    (f : ℕ → ℕ → Bool) (i : ℕ) (xs : List (ℕ × ℕ)) (x : ℕ × ℕ)
    → get_elem? xs i ≡ some x
    → tally f (remove_at i xs) + weight f x ≡ tally f xs
unfolding tally
tally-remove_at f i [] x e = absurd (ground (arith, e))
tally-remove_at f zero (y ∷ xs) x e = let same = ap (weight f) (some_inj e) in ground (arith, same)
tally-remove_at f (suc i) (y ∷ xs) x e =
    let rest = tally-remove_at f i xs x e in ground (arith, rest)

-- Fewer entries pass a narrower test.
pub tally_mono :
    (f g : ℕ → ℕ → Bool) (m : List (ℕ × ℕ))
    → ((k p : ℕ) → f k p ≡ true → g k p ≡ true)
    → tally f m ≤ tally g m
unfolding tally
tally_mono f g [] h = ground arith
tally_mono f g (x ∷ xs) h =
    let rest = tally_mono f g xs h in let here = h x.0 x.1 in ground (arith, rest, here)

-- All requests that are counted.
abbrev pub in_flight : Connections → List (ℕ × ℕ)
in_flight c = c.entering ++ (c.request_opens ++ c.leaving)

pub tally-in_flight :
    (f : ℕ → ℕ → Bool) (c : Connections)
    → tally f (in_flight c) ≡ tally f c.entering + (tally f c.request_opens + tally f c.leaving)
tally-in_flight f c =
    let outer = tally-append f c.entering (c.request_opens ++ c.leaving) in
    let inner = tally-append f c.request_opens c.leaving in omega (arith, outer, inner)

-- Those of them on one open.
abbrev pub on_open : ℕ → ℕ → ℕ → Bool
on_open p k q = q == p

abbrev pub counted : Open → ℕ
counted op = op.outstanding_request_count + op.outstanding_previous_request_count

module _ (request : ℕ → Request) where
  -- Those of them that were sent before the client took up the channel the open is at.
  abbrev pub of_earlier : Open → ℕ → ℕ → ℕ → Bool
  of_earlier op p k q = (q == p) && not ((request k).channel_sequence == op.channel_sequence)

  -- The counters of an open cover the requests in flight on it, and the ones of earlier channels
  -- apart; `n` bounds what was ever counted.
  abbrev pub Covered : ℕ → ℕ → List (ℕ × ℕ) → Open → Type 0
  Covered n p m op =
      (tally (on_open p) m ≤ counted op)
      × (tally (of_earlier op p) m ≤ op.outstanding_previous_request_count)
      × (counted op ≤ n)
      × (op.channel_sequence < 2 ^ 16)

  -- The requests of connections with an older dialect, which are never counted.
  abbrev pub uncounted : ℕ → ℕ → Bool
  uncounted k q = not (request k).is_3x

  -- Every open is covered, and no request is counted that should not be.
  pub record IsCounted (n : ℕ) (c : Connections) : Type 0 where
    pub none_uncounted : tally uncounted (in_flight c) ≤ 0
    pub covered : (p : ℕ) → Covered n p (in_flight c) (c.opens p)

  -- Fewer requests in flight are covered as well.
  pub Covered-fewer :
      (n p : ℕ) (m m' : List (ℕ × ℕ)) (op : Open)
      → ((f : ℕ → ℕ → Bool) → tally f m' ≤ tally f m)
      → Covered n p m op
      → Covered n p m' op
  Covered-fewer n p m m' op fewer (flight, earlier, bound, word) =
      let all = fewer (on_open p) in
      let before = fewer (of_earlier op p) in
      (omega (arith, all, flight), omega (arith, before, earlier), bound, word)

  pub earlier-on_open :
      (op : Open) (p : ℕ) (m : List (ℕ × ℕ)) → tally (of_earlier op p) m ≤ tally (on_open p) m
  earlier-on_open op p m = tally_mono (of_earlier op p) (on_open p) m (λ k q h. ground (arith, h))

  pub earlier-same :
      (op op' : Open) (p : ℕ) (m : List (ℕ × ℕ))
      → op'.channel_sequence ≡ op.channel_sequence
      → tally (of_earlier op' p) m ≤ tally (of_earlier op p) m
  earlier-same op op' p m e =
      tally_mono (of_earlier op' p) (of_earlier op p) m (λ k q h. ground (arith, h, e))

-- ===== src/ChannelSequence/Release.antt =====
-- conn.go: the other steps of a request, which keep the requests in flight covered by the counters.
use sombrero.Base.{
  ℕ, ◌+◌, ◌≤◌, Bool, true, none, some, List, ◌≡◌, ap, ◌==◌, if◌then◌else◌, lookup, insert,
  get_elem?, arith, ==_iff, Bool-cases, Option-cases, inl, inr, subst, sym,
}
use sombrero.ChannelSequence.{
  Open, Connections, Request, remember_request, uncount_request, release_open, finish_release,
}
use sombrero.ChannelSequence.Counted.{
  tally, tally-delete, tally-delete_found, tally-remove_at, tally-in_flight, weight, in_flight,
  on_open, of_earlier, uncounted, Covered, Covered-fewer, IsCounted, earlier-same,
}

tally-insert :
    (f : ℕ → ℕ → Bool) (k p : ℕ) (m : List (ℕ × ℕ))
    → tally f (insert k p m) ≤ weight f (k, p) + tally f m
unfolding tally insert
tally-insert f k p m = let fewer = tally-delete f k m in ground (arith, fewer)

tally-remember :
    (f : ℕ → ℕ → Bool) (i : ℕ) (c : Connections)
    → tally f (in_flight (remember_request i c)) ≤ tally f (in_flight c)
unfolding remember_request
tally-remember f i c =
    let before = tally-in_flight f c in
    let after = tally-in_flight f (remember_request i c) in
    elim (Option-cases (get_elem? c.entering i)) [
      | inl e ↦ ground (arith, e)
      | inr ((k, p), e) ↦
          let gone = tally-remove_at f i c.entering (k, p) e in
          let put = tally-insert f k p c.request_opens in
          ground (arith, e, before, after, gone, put)
    ]

tally-release :
    (f : ℕ → ℕ → Bool) (k : ℕ) (c : Connections)
    → tally f (in_flight (release_open k c)) ≤ tally f (in_flight c)
unfolding release_open tally
tally-release f k c =
    let before = tally-in_flight f c in
    let after = tally-in_flight f (release_open k c) in
    let fewer = tally-delete f k c.request_opens in
    elim (Option-cases (lookup k c.request_opens)) [
      | inl e ↦ ground (arith, e, before, after, fewer)
      | inr (p, e) ↦
          let gone = tally-delete_found f k p c.request_opens e in
          ground (arith, e, before, after, fewer, gone)
    ]

-- These two steps leave the opens alone.
remember-rest : (i : ℕ) (c : Connections) → (remember_request i c).opens ≡ c.opens
unfolding remember_request
remember-rest i c = ground arith

release-rest : (k : ℕ) (c : Connections) → (release_open k c).opens ≡ c.opens
unfolding release_open
release-rest k c = ground arith

module _ (request : ℕ → Request) where
  pub remember-IsCounted :
      (n i : ℕ) (c : Connections)
      → IsCounted request n c
      → IsCounted request n (remember_request i c)
  remember-IsCounted n i c h = record {
    none_uncounted =
        let fewer = tally-remember (uncounted request) i c in
        let none = h.none_uncounted in omega (arith, fewer, none);
    covered = λ p.
        subst (Covered request n p (in_flight (remember_request i c)))
          (ap (λ opens. opens p) (sym (remember-rest i c)))
          (Covered-fewer request n p (in_flight c) (in_flight (remember_request i c)) (c.opens p)
            (λ f. tally-remember f i c) (h.covered p));
  }

  pub release-IsCounted :
      (n k : ℕ) (c : Connections) → IsCounted request n c → IsCounted request n (release_open k c)
  release-IsCounted n k c h = record {
    none_uncounted =
        let fewer = tally-release (uncounted request) k c in
        let none = h.none_uncounted in omega (arith, fewer, none);
    covered = λ p.
        subst (Covered request n p (in_flight (release_open k c)))
          (ap (λ opens. opens p) (sym (release-rest k c)))
          (Covered-fewer request n p (in_flight c) (in_flight (release_open k c)) (c.opens p)
            (λ f. tally-release f k c) (h.covered p));
  }

  -- A request that is taken off the counters of its open.
  uncount-Covered :
      (n k p : ℕ) (op : Open) (m m' : List (ℕ × ℕ))
      → (request k).is_3x ≡ true
      → ((f : ℕ → ℕ → Bool) → tally f m' + weight f (k, p) ≡ tally f m)
      → Covered request n p m op
      → Covered request n p m' (uncount_request (request k) op)
  unfolding uncount_request
  uncount-Covered n k p op m m' is3x gone (flight, earlier, bound, word) =
      let op' = uncount_request (request k) op in
      let same = earlier-same request op op' p m' in
      let one = gone (on_open p) in
      let old = gone (of_earlier request op p) in
      (
        ground (arith, one, flight),
        ground (arith, same, old, earlier),
        ground (arith, bound),
        ground (arith, word),
      )

  finish-none :
      (i : ℕ) (c : Connections) → get_elem? c.leaving i ≡ none → c ≡ finish_release request i c
  unfolding finish_release
  finish-none i c e = ground (arith, e)

  finish-some :
      (i k p q : ℕ) (c : Connections)
      → get_elem? c.leaving i ≡ some (k, p)
      → (if p == q then uncount_request (request k) (c.opens p) else c.opens q)
        ≡ (finish_release request i c).opens q
  unfolding finish_release
  finish-some i k p q c e = ground (arith, e)

  tally-finish :
      (f : ℕ → ℕ → Bool) (i k p : ℕ) (c : Connections)
      → get_elem? c.leaving i ≡ some (k, p)
      → tally f (in_flight (finish_release request i c)) + weight f (k, p) ≡ tally f (in_flight c)
  unfolding finish_release
  tally-finish f i k p c e =
      let before = tally-in_flight f c in
      let after = tally-in_flight f (finish_release request i c) in
      let gone = tally-remove_at f i c.leaving (k, p) e in ground (arith, e, before, after, gone)

  leaving-is_3x :
      (n i k p : ℕ) (c : Connections)
      → IsCounted request n c
      → get_elem? c.leaving i ≡ some (k, p)
      → (request k).is_3x ≡ true
  leaving-is_3x n i k p c h e =
      let gone = tally-finish (uncounted request) i k p c e in
      let none = h.none_uncounted in ground (arith, gone, none)

  finish-Covered :
      (n i k p q : ℕ) (c : Connections)
      → IsCounted request n c
      → get_elem? c.leaving i ≡ some (k, p)
      → let c' = finish_release request i c in Covered request n q (in_flight c') (c'.opens q)
  finish-Covered n i k p q c h e =
      let c' = finish_release request i c in
      let now = finish-some i k p q c e in
      elim (Bool-cases (p == q)) [
        | inl same ↦
            let at : uncount_request (request k) (c.opens p) ≡ c'.opens q =
              ground (arith, now, same) in
            let op' = uncount_request (request k) (c.opens p) in
            let held =
              uncount-Covered n k p (c.opens p) (in_flight c) (in_flight c')
                (leaving-is_3x n i k p c h e) (λ f. tally-finish f i k p c e) (h.covered p) in
            subst (λ o. Covered request n q (in_flight c') o) at
              (subst (λ j. Covered request n j (in_flight c') op') ((==_iff p q).0 same) held)
        | inr other ↦
            let at : c.opens q ≡ c'.opens q = ground (arith, now, other) in
            subst (λ o. Covered request n q (in_flight c') o) at
              (Covered-fewer request n q (in_flight c) (in_flight c') (c.opens q)
                (λ f. let gone = tally-finish f i k p c e in omega (arith, gone)) (h.covered q))
      ]

  pub finish-IsCounted :
      (n i : ℕ) (c : Connections)
      → IsCounted request n c
      → IsCounted request n (finish_release request i c)
  finish-IsCounted n i c h = elim (Option-cases (get_elem? c.leaving i)) [
    | inl e ↦ subst (IsCounted request n) (finish-none i c e) h
    | inr ((k, p), e) ↦ record {
      none_uncounted =
          let gone = tally-finish (uncounted request) i k p c e in
          let none = h.none_uncounted in omega (arith, gone, none);
      covered = λ q. finish-Covered n i k p q c h e;
    }
  ]

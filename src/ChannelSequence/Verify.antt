-- ===== src/ChannelSequence/Verify.antt =====
-- conn.go: `verifyChannelSequence` keeps the requests in flight covered by the counters.
use sombrero.Base.{
  ℕ, suc, ◌+◌, ◌≤◌, ◌<◌, ◌^◌, Bool, true, ◌&&◌, List, ◌≡◌, ap, ◌==◌, if◌then◌else◌, arith, ==_iff,
  Bool-cases, inl, inr, subst,
}
use sombrero.ChannelSequence.{Open, Connections, Request, count_request, verify_channel_sequence}
use sombrero.ChannelSequence.Counted.{
  tally, in_flight, on_open, of_earlier, uncounted, counted, IsCounted, earlier-on_open,
  earlier-same,
}

module _ (request : ℕ → Request) where
  -- What `countRequest` makes of the counters, when they do not overflow.
  count_request-counted :
      (req : Request) (op : Open)
      → counted op + 1 < 2 ^ 32
      → req.channel_sequence < 2 ^ 16
      → op.channel_sequence < 2 ^ 16
      → let r = count_request req op in
        (if r.0 then counted r.1 ≡ counted op + 1 else counted r.1 ≡ counted op)
  unfolding count_request
  count_request-counted req op h hr ho = ground arith

  pub count_request-earlier :
      (req : Request) (op : Open) (p : ℕ) (m : List (ℕ × ℕ))
      → counted op + 1 < 2 ^ 32
      → req.channel_sequence < 2 ^ 16
      → op.channel_sequence < 2 ^ 16
      → tally (on_open p) m ≤ counted op
      → tally (of_earlier request op p) m ≤ op.outstanding_previous_request_count
      → let r = count_request req op in
        tally (of_earlier request r.1 p) m ≤ r.1.outstanding_previous_request_count
  unfolding count_request
  count_request-earlier req op p m h hr ho flight before =
      let op' = (count_request req op).1 in
      let same = earlier-same request op op' p m in
      let all = earlier-on_open request op' p m in ground (arith, same, all)

  count_request-word :
      (req : Request) (op : Open)
      → req.channel_sequence < 2 ^ 16
      → op.channel_sequence < 2 ^ 16
      → (count_request req op).1.channel_sequence < 2 ^ 16
  unfolding count_request
  count_request-word req op hr ho = ground arith

  -- A request that is counted is of the channel that the open is then at.
  pub count_request-current :
      (req : Request) (op : Open)
      → req.channel_sequence < 2 ^ 16
      → op.channel_sequence < 2 ^ 16
      → (count_request req op).0 ≡ true
      → req.channel_sequence ≡ (count_request req op).1.channel_sequence
  unfolding count_request
  count_request-current req op hr ho h = ground arith

  -- A replay that is counted leaves nothing of an earlier channel counted.
  pub count_request-replay :
      (req : Request) (op : Open)
      → req.replay ≡ true
      → (count_request req op).0 ≡ true
      → (count_request req op).1.outstanding_previous_request_count ≡ 0
  unfolding count_request
  count_request-replay req op hr h = ground arith

  -- The map after a request is verified, as a test of it counts.
  tally-verify :
      (f : ℕ → ℕ → Bool) (mid p : ℕ) (c : Connections)
      → (request mid).is_3x ≡ true
      → let after = in_flight (verify_channel_sequence mid (request mid) p c).1 in
        tally f after ≤ (
          if (count_request (request mid) (c.opens p)).0 && f mid p
          then suc (tally f (in_flight c))
          else tally f (in_flight c))
  unfolding verify_channel_sequence tally
  tally-verify f mid p c is3x = ground arith

  opens-verify :
      (mid p q : ℕ) (c : Connections)
      → (request mid).is_3x ≡ true
      → (verify_channel_sequence mid (request mid) p c).1.opens q
        ≡ (if p == q then (count_request (request mid) (c.opens p)).1 else c.opens q)
  unfolding verify_channel_sequence
  opens-verify mid p q c is3x = ground arith

  verify-earlier :
      (mid p q : ℕ) (c : Connections)
      → counted (c.opens p) + 1 < 2 ^ 32
      → (request mid).channel_sequence < 2 ^ 16
      → (request mid).is_3x ≡ true
      → (c.opens p).channel_sequence < 2 ^ 16
      → tally (on_open p) (in_flight c) ≤ counted (c.opens p)
      → tally (of_earlier request (c.opens p) p) (in_flight c)
        ≤ (c.opens p).outstanding_previous_request_count
      → tally (of_earlier request (c.opens q) q) (in_flight c)
        ≤ (c.opens q).outstanding_previous_request_count
      → let after = (verify_channel_sequence mid (request mid) p c).1 in
        tally (of_earlier request (after.opens q) q) (in_flight after)
        ≤ (after.opens q).outstanding_previous_request_count
  verify-earlier mid p q c small hr is3x word flight mine old =
      let after = (verify_channel_sequence mid (request mid) p c).1 in
      let op' = (count_request (request mid) (c.opens p)).1 in
      let m = in_flight c in
      let covered = λ (o : Open) (i : ℕ).
        tally (of_earlier request o i) (in_flight after) ≤ o.outstanding_previous_request_count in
      elim (Bool-cases (p == q)) [
        | inl same ↦
            let at : op' ≡ after.opens q =
              (let now = opens-verify mid p q c is3x in ground (arith, now)) in
            let here = tally-verify (of_earlier request op' p) mid p c is3x in
            let current = count_request-current (request mid) (c.opens p) hr word in
            let earlier =
              count_request-earlier (request mid) (c.opens p) p m small hr word flight mine in
            let held : covered op' p = ground (arith, here, current, earlier) in
            subst (λ i. covered (after.opens q) i) ((==_iff p q).0 same)
              (subst (λ o. covered o p) at held)
        | inr other ↦
            let at : c.opens q ≡ after.opens q =
              (let now = opens-verify mid p q c is3x in ground (arith, now)) in
            let here = tally-verify (of_earlier request (c.opens q) q) mid p c is3x in
            let held : covered (c.opens q) q = ground (arith, here, other, old) in
            subst (λ o. covered o q) at held
      ]

  verify-in_flight :
      (mid p q : ℕ) (c : Connections)
      → (request mid).is_3x ≡ true
      → (let r = count_request (request mid) (c.opens p) in
          if r.0 then counted r.1 ≡ counted (c.opens p) + 1 else counted r.1 ≡ counted (c.opens p))
      → tally (on_open p) (in_flight c) ≤ counted (c.opens p)
      → tally (on_open q) (in_flight c) ≤ counted (c.opens q)
      → let after = (verify_channel_sequence mid (request mid) p c).1 in
        tally (on_open q) (in_flight after) ≤ counted (after.opens q)
  unfolding verify_channel_sequence tally
  verify-in_flight mid p q c is3x r flight old =
      let same =
        λ (e : (p == q) ≡ true). ap (λ i. tally (on_open i) (in_flight c)) ((==_iff p q).0 e) in
      ground (arith, same)

  pub verify-IsCounted :
      (n mid p : ℕ) (c : Connections)
      → n + 1 < 2 ^ 32
      → (request mid).channel_sequence < 2 ^ 16
      → (request mid).is_3x ≡ true
      → IsCounted request n c
      → IsCounted request (n + 1) (verify_channel_sequence mid (request mid) p c).1
  unfolding verify_channel_sequence
  verify-IsCounted n mid p c small hr is3x h = record {
    none_uncounted =
        let here = tally-verify (uncounted request) mid p c is3x in
        let none = h.none_uncounted in ground (arith, here, none, is3x);
    covered = λ q.
        let (flight, earlier, bound, word) = h.covered p in
        let (flight_q, earlier_q, bound_q, word_q) = h.covered q in
        let now = opens-verify mid p q c is3x in
        let r = count_request-counted (request mid) (c.opens p) (omega arith) hr word in
        let words = count_request-word (request mid) (c.opens p) hr word in
        let here = tally-verify (on_open q) mid p c is3x in
        let same =
          λ (e : (p == q) ≡ true). ap (λ i. tally (on_open i) (in_flight c)) ((==_iff p q).0 e) in
        (
          verify-in_flight mid p q c is3x r flight flight_q,
          verify-earlier mid p q c (omega arith) hr is3x word flight earlier earlier_q,
          ground (arith, r, now, bound, bound_q),
          ground (arith, words, now, word_q),
        );
  }

-- ===== src/ChannelSequence/Tests.antt =====
-- Requests on one open across a reconnect of the channel, and the theorems at them.
use sombrero.Base.{
  ℕ, true, List, [], ◌∷◌, ◌++◌, ◌≡◌, refl, ◌==◌, if◌then◌else◌, lookup, insert, delete, arith,
}
use sombrero.ChannelSequence.{
  Connections, Request, status_file_not_available, verify_channel_sequence, remember_request,
  count_request, release_open, finish_release, uncount_request,
}
use sombrero.ChannelSequence.Counted.{IsCounted, tally}
use sombrero.ChannelSequence.Outstanding.{
  Step, arrive, remember, answer, uncount, step, run, IsWord, verify-replay_alone,
}

-- Requests 1 and 2 come before the reconnect, 3 and up after it; 4 is a replay.
abbrev request : ℕ → Request
request k = record {
  channel_sequence = if k == 1 then 0 else if k == 2 then 0 else 1;
  is_3x = true;
  replay = k == 4;
  modifies = true;
}

abbrev fresh : Connections
fresh = record {
  opens = λ p. record {
    channel_sequence = 0;
    outstanding_request_count = 0;
    outstanding_previous_request_count = 0;
  };
  entering = [];
  request_opens = [];
  leaving = [];
}

fresh-IsCounted : IsCounted request 0 fresh
unfolding tally
fresh-IsCounted = record {
  none_uncounted = omega arith;
  covered = λ p. (omega arith, omega arith, omega arith, omega arith);
}

-- Requests 1 and 2 are on two connections of the client, and the second leaves its map while it is
-- counted still. The replay is refused until it is not.
abbrev reconnected : List Step
reconnected =
    arrive 1 0
    ∷ arrive 2 0
    ∷ remember 0
    ∷ arrive 3 0
    ∷ remember 1
    ∷ answer 1
    ∷ answer 2
    ∷ uncount 1
    ∷ []

replay_refused :
    (verify_channel_sequence 4 (request 4) 0 (run request reconnected fresh)).0
    ≡ status_file_not_available
unfolding run step verify_channel_sequence remember_request release_open finish_release
    count_request uncount_request insert delete lookup
replay_refused = refl

abbrev settled : List Step
settled = reconnected ++ uncount 0 ∷ []

verify-replay_alone_example : (request 3).channel_sequence ≡ (request 4).channel_sequence
unfolding run step verify_channel_sequence remember_request release_open finish_release
    count_request uncount_request insert delete lookup
verify-replay_alone_example =
    verify-replay_alone request settled fresh 4 0 0 3 words (omega arith) fresh-IsCounted refl refl
      refl refl refl
  where
    words : IsWord request
    words k = ground arith

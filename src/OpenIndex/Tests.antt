-- ===== src/OpenIndex/Tests.antt =====
-- The indexes run on three opens, and the theorems at them.
use sombrero.Base.{
  ℕ, ◌+◌, false, none, List, [], ◌∷◌, ◌≡◌, refl, ◌==◌, if◌then◌else◌, find_key, erase_key, set_key,
  lookup, insert, delete,
}
use sombrero.OpenIndex.{
  Open, Server, index_open, move_open, put_into_bucket, drop_from_bucket, trim_path, opens_on,
  match_opens, move_opens_under, move_all, opens_under,
}
use sombrero.OpenIndex.Names.{Command, join, leave, rename_directory, run, perform}
use sombrero.OpenIndex.Replay.{IsReplayable}

-- Opens 1 and 2 are on "d/f", and open 3 is on "d".
abbrev file : List ℕ
file = 100 ∷ 47 ∷ 102 ∷ []

abbrev open_on : List ℕ → ℕ → Open
open_on path id = record {
  share = 1;
  path_name = path;
  file_name = 102 ∷ [];
  durable_file_id = id;
  granted_access = 3;
  client_guid = 7;
  create_guid = id;
  is_replay_eligible = false;
}

abbrev started : Server
started = record {
  opens = λ p. if p == 3 then open_on (100 ∷ []) 13 else open_on file (10 + p);
  opens_by_file = [];
  replayable_opens = [];
}

started-IsReplayable : IsReplayable started
unfolding find_key
started-IsReplayable = record { right = λ k. refl }

-- The directory is renamed to "e", and with it the names of the opens beneath it.
renamed_directory :
    opens_on 1
      (101 ∷ 47 ∷ 102 ∷ [])
      none
      (run (join 1 ∷ join 2 ∷ join 3 ∷ rename_directory 1 (100 ∷ []) (101 ∷ []) ∷ []) started)
    ≡ 1 ∷ 2 ∷ []
unfolding opens_on match_opens run perform index_open move_opens_under move_all opens_under
    move_open put_into_bucket drop_from_bucket trim_path find_key erase_key set_key lookup insert
    delete
renamed_directory = refl

-- The three opens join, the directory is renamed, and the first of them leaves.
abbrev history : List Command
history = join 1 ∷ join 2 ∷ join 3 ∷ rename_directory 1 (100 ∷ []) (101 ∷ []) ∷ leave 1 ∷ []

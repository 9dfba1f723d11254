-- ===== src/OpenIndex.antt =====
-- openindex.go: the opens on a file by its name, and the open that a create made by its GUID. The
-- functions hold `openIndexMu`, and the lock of an open inside it, so each is one step. An open and a
-- share are known by numbers, as the source knows them by pointers, and a name is its bytes. The
-- order in which Go runs through a map is unspecified; here it is that of the association list.
pub mod Entries
pub mod Names
pub mod Found
pub mod Replay
mod Tests
use sombrero.Base.{
  ℕ, ◌+◌, Bool, true, false, not, ◌&&◌, ◌||◌, Option, none, some, List, [], ◌∷◌, ◌++◌, ◌==◌,
  if◌then◌else◌, has, map, length, drop, lookup, insert, delete, find_key, erase_key, set_key,
}

abbrev pub path_eq : List ℕ → List ℕ → Bool
path_eq [] [] = true
path_eq (x ∷ xs) (y ∷ ys) = (x == y) && path_eq xs ys
path_eq _ _ = false

pub record FileKey : Type 0 where
  pub share : ℕ
  pub path : List ℕ

abbrev pub file_key_eq : FileKey → FileKey → Bool
file_key_eq k l = (k.share == l.share) && path_eq k.path l.path

pub record ReplayKey : Type 0 where
  pub client_guid : ℕ
  pub create_guid : ℕ

abbrev pub replay_key_eq : ReplayKey → ReplayKey → Bool
replay_key_eq k l = (k.client_guid == l.client_guid) && (k.create_guid == l.create_guid)

-- The fields of an open that the indexes read. `share` is that of its tree connect, 0 where it has
-- none.
pub record Open : Type 0 where
  pub share : ℕ
  pub path_name : List ℕ
  pub file_name : List ℕ
  pub durable_file_id : ℕ
  pub granted_access : ℕ
  pub client_guid : ℕ
  pub create_guid : ℕ
  pub is_replay_eligible : Bool

abbrev pub Bucket : Type 0
Bucket = List (ℕ × ℕ)

pub record Server : Type 0 where
  pub opens : ℕ → Open
  pub opens_by_file : List (FileKey × Bucket)
  pub replayable_opens : List (ReplayKey × ℕ)

abbrev pub update_open : ℕ → Open → (ℕ → Open) → ℕ → Open
update_open p op opens i = if p == i then op else opens i

abbrev pub file_key : Open → FileKey
file_key op = record { share = op.share; path = op.path_name }

abbrev pub is_empty : Bucket → Bool
is_empty [] = true
is_empty (x ∷ xs) = false

abbrev is_separator : ℕ → Bool
is_separator c = (c == 47) || (c == 92)

has_separator : List ℕ → Bool
has_separator [] = false
has_separator (c ∷ cs) = is_separator c || has_separator cs

-- `utils.TrimPath`: what follows the last slash or backslash.
pub trim_path : List ℕ → List ℕ
unfolding has_separator
trim_path [] = []
trim_path (c ∷ cs) =
    let last = trim_path cs in
    if has_separator cs then last else if is_separator c then cs else c ∷ cs

abbrev pub or_empty : Option Bucket → Bucket
or_empty none = []
or_empty (some b) = b

-- The open put into the bucket of a file, which is made where it is missing.
unfoldable pub put_into_bucket : FileKey → ℕ → ℕ → Server → Server
put_into_bucket key dfid p s =
    let bucket = or_empty (find_key file_key_eq key s.opens_by_file) in
    record s { opens_by_file = set_key file_key_eq key (insert dfid p bucket) s.opens_by_file }

unfoldable pub index_open : ℕ → Server → Server
index_open p s = let op = s.opens p in put_into_bucket (file_key op) op.durable_file_id p s

unfoldable pub drop_from_bucket : FileKey → ℕ → Server → Server
drop_from_bucket key dfid s = elim (find_key file_key_eq key s.opens_by_file) [
  | none ↦ s
  | some bucket ↦
      let left = delete dfid bucket in
      if is_empty left
      then record s { opens_by_file = erase_key file_key_eq key s.opens_by_file }
      else record s { opens_by_file = set_key file_key_eq key left s.opens_by_file }
]

unfoldable pub unindex_open : ℕ → Server → Server
unindex_open p s = let op = s.opens p in drop_from_bucket (file_key op) op.durable_file_id s

-- The open that the index has under a name and a durable file ID.
unfoldable pub entry : Server → FileKey → ℕ → Option ℕ
entry s key dfid = lookup dfid (or_empty (find_key file_key_eq key s.opens_by_file))

unfoldable pub move_open : ℕ → List ℕ → Server → Server
unfolding trim_path
move_open p new_path s =
    let op = s.opens p in
    let moved = record op { path_name = new_path; file_name = trim_path new_path } in
    let renamed = record s { opens = update_open p moved s.opens } in
    elim (find_key file_key_eq (file_key op) s.opens_by_file) [
      | none ↦ renamed
      | some bucket ↦ elim (lookup op.durable_file_id bucket) [
        | none ↦ renamed
        | some _ ↦
            put_into_bucket (file_key moved) op.durable_file_id p
              (drop_from_bucket (file_key op) op.durable_file_id renamed)
      ]
    ]

abbrev pub starts_with : List ℕ → List ℕ → Bool
starts_with [] cs = true
starts_with (p ∷ ps) [] = false
starts_with (p ∷ ps) (c ∷ cs) = (p == c) && starts_with ps cs

abbrev pub values : Bucket → List ℕ
values [] = []
values (x ∷ xs) = x.1 ∷ values xs

abbrev pub pairs_with : List ℕ → List ℕ → List (ℕ × List ℕ)
pairs_with [] path = []
pairs_with (p ∷ ps) path = (p, path) ∷ pairs_with ps path

-- The opens under a directory, with the names they move to.
unfoldable pub opens_under : ℕ → List ℕ → List ℕ → List (FileKey × Bucket) → List (ℕ × List ℕ)
opens_under sh prefix new_path [] = []
opens_under sh prefix new_path (x ∷ rest) =
    let others = opens_under sh prefix new_path rest in
    if not (x.0.share == sh) || not (starts_with prefix x.0.path)
    then others
    else pairs_with (values x.1) (new_path ++ 47 ∷ drop (length prefix) x.0.path) ++ others

unfoldable pub move_all : List (ℕ × List ℕ) → Server → Server
move_all [] s = s
move_all (x ∷ rest) s = move_all rest (move_open x.0 x.1 s)

unfoldable pub move_opens_under : ℕ → List ℕ → List ℕ → Server → Server
move_opens_under sh old_path new_path s =
    move_all (opens_under sh (old_path ++ 47 ∷ []) new_path s.opens_by_file) s

abbrev pub holds : Option ℕ → ℕ → Bool
holds none p = false
holds (some q) p = q == p

-- The opens among the candidates that are on the file, other than the one given.
unfoldable pub match_opens : ℕ → List ℕ → Option ℕ → List ℕ → Server → List ℕ
match_opens sh path except [] s = []
match_opens sh path except (p ∷ ps) s =
    let others = match_opens sh path except ps s in
    let excepted = holds except p in
    let op = s.opens p in
    if not excepted && ((op.share == sh) && path_eq op.path_name path) then p ∷ others else others

unfoldable pub opens_on : ℕ → List ℕ → Option ℕ → Server → List ℕ
opens_on sh path except s =
    let key : FileKey = record { share = sh; path = path } in
    match_opens sh path except (values (or_empty (find_key file_key_eq key s.opens_by_file))) s

unfoldable pub move_opens_on_file : ℕ → List ℕ → List ℕ → Server → Server
move_opens_on_file sh path new_name s = move_all (pairs_with (opens_on sh path none s) new_name) s

-- FILE_READ_DATA, FILE_WRITE_DATA, FILE_APPEND_DATA, FILE_EXECUTE and DELETE.
abbrev pub useful : ℕ
useful = 0x10027

abbrev pub replay_key : Open → ReplayKey
replay_key op = record { client_guid = op.client_guid; create_guid = op.create_guid }

-- `is_pipe` is `tc.share.name == "ipc$"`.
unfoldable pub mark_replay_eligible : Bool → Bool → ℕ → Server → Server
mark_replay_eligible is_pipe is_dir p s =
    let op = s.opens p in
    let eligible = not is_dir && has op.granted_access useful in
    if is_pipe || not eligible then s else record s {
      opens = update_open p (record op { is_replay_eligible = true }) s.opens;
      replayable_opens = set_key replay_key_eq (replay_key op) p s.replayable_opens;
    }

unfoldable pub clear_replay_eligible : ℕ → Server → Server
clear_replay_eligible p s =
    let op = s.opens p in
    let opens = update_open p (record op { is_replay_eligible = false }) s.opens in
    let key = replay_key op in
    if not op.is_replay_eligible
    then s
    else if holds (find_key replay_key_eq key s.replayable_opens) p
    then record s {
      opens = opens;
      replayable_opens = erase_key replay_key_eq key s.replayable_opens;
    }
    else record s { opens = opens }

unfoldable pub find_replayable_open : ℕ → ℕ → Server → Option ℕ
find_replayable_open client create s =
    let key : ReplayKey = record { client_guid = client; create_guid = create } in
    elim (find_key replay_key_eq key s.replayable_opens) [
      | none ↦ none
      | some p ↦
          let op = s.opens p in
          if op.is_replay_eligible && ((op.create_guid == create) && (op.client_guid == client))
          then some p
          else none
    ]

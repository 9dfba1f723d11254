-- ===== src/OpenIndex/Names.antt =====
-- openindex.go: what the index of the opens by name finds, and what the server does with it.
use sombrero.Base.{
  ℕ, Bool, true, false, ◌&&◌, Option, none, some, List, [], ◌∷◌, ◌≡◌, refl, ap, sym, ◌∙◌, ◌==◌,
  if◌then◌else◌, contains, lookup, find_key, Option-cases, inl, inr, arith, ==_iff,
}
use sombrero.OpenIndex.{
  FileKey, file_key_eq, Bucket, Open, Server, entry, or_empty, put_into_bucket, drop_from_bucket,
  file_key, move_open, index_open, unindex_open, update_open, move_all, move_opens_under,
  move_opens_on_file, opens_on, match_opens, values, holds, trim_path, mark_replay_eligible,
  clear_replay_eligible,
}
use sombrero.OpenIndex.Entries.{entry-put_into_bucket, entry-drop_from_bucket, file_key_eq_iff}

abbrev pub file_id : Server → ℕ → ℕ
file_id s p = (s.opens p).durable_file_id

abbrev pub key_of : Server → ℕ → FileKey
key_of s p = file_key (s.opens p)

-- The open carries the name and the durable file ID.
abbrev pub carries : Open → FileKey → ℕ → Bool
carries op k d = file_key_eq (file_key op) k && (op.durable_file_id == d)

-- What the index finds under a name and a durable file ID, if anything, carries both.
abbrev pub rightly_filed : Server → FileKey → ℕ → Bool
rightly_filed s k d = elim (entry s k d) [ none ↦ true | some p ↦ carries (s.opens p) k d ]

-- Whatever the index finds under a name and a durable file ID carries both.
pub record IsFiled (s : Server) : Type 0 where
  pub filed : (k : FileKey) (d : ℕ) → rightly_filed s k d ≡ true

named-IsFiled :
    {s : Server}
    → ((k : FileKey) (d p : ℕ) → entry s k d ≡ some p → carries (s.opens p) k d ≡ true)
    → IsFiled s
named-IsFiled {s} h = record {
  filed = λ k d. elim (Option-cases (entry s k d)) [
    | inl e ↦ ground (arith, e)
    | inr t ↦ let right = h k d t.0 t.1 in let e = t.1 in ground (arith, right, e)
  ];
}

IsFiled-named :
    {s : Server}
    → IsFiled s
    → (k : FileKey) (d p : ℕ) → entry s k d ≡ some p
    → carries (s.opens p) k d ≡ true
IsFiled-named h k d p e = let right = h.filed k d in ground (arith, right, e)

carries_same :
    (s : Server) (p q : ℕ) (k : FileKey) (d : ℕ)
    → (p == q) ≡ true
    → carries (s.opens p) k d ≡ carries (s.opens q) k d
carries_same s p q k d h = ap (λ i. carries (s.opens i) k d) ((==_iff p q).0 h)

entry_carried :
    (s : Server) (op : Open) (k : FileKey) (d : ℕ)
    → carries op k d ≡ true
    → entry s (file_key op) op.durable_file_id ≡ entry s k d
entry_carried s op k d h =
    let key : file_key op ≡ k = (file_key_eq_iff (file_key op) k).0 (ground arith) in
    let id : op.durable_file_id ≡ d = ground arith in
    ap (λ k'. entry s k' op.durable_file_id) key ∙ ap (entry s k) id

pub put-opens : (k : FileKey) (d p : ℕ) (s : Server) → (put_into_bucket k d p s).opens ≡ s.opens
unfolding put_into_bucket
put-opens k d p s = refl

pub drop-opens : (k : FileKey) (d : ℕ) (s : Server) → (drop_from_bucket k d s).opens ≡ s.opens
unfolding drop_from_bucket
drop-opens k d s = ground arith

abbrev pub renamed : Server → ℕ → List ℕ → FileKey
renamed s p path = record { share = (s.opens p).share; path = path }

-- What the index finds after `moveOpen`: where it had an open under the old name and the ID of the
-- one moved, it has the one moved under the new name, and nothing under the old one but for that.
pub move_open-entry :
    (p : ℕ) (path : List ℕ) (s : Server) (k : FileKey) (d : ℕ)
    → entry (move_open p path s) k d ≡ elim (entry s (key_of s p) (file_id s p)) [
      | none ↦ entry s k d
      | some _ ↦
          if file_key_eq (renamed s p path) k && (file_id s p == d)
          then some p
          else if file_key_eq (key_of s p) k && (file_id s p == d)
          then none
          else entry s k d
    ]
unfolding move_open entry lookup
move_open-entry p path s k d =
    let op = s.opens p in
    let moved : Open = record op { path_name = path; file_name = trim_path path } in
    let s' : Server = record s { opens = update_open p moved s.opens } in
    let put =
      entry-put_into_bucket (renamed s p path) k op.durable_file_id d p
        (drop_from_bucket (file_key op) op.durable_file_id s') in
    let dropped = entry-drop_from_bucket (file_key op) k op.durable_file_id d s' in
    ground (arith, put, dropped)

pub move_open-opens :
    (p : ℕ) (path : List ℕ) (s : Server)
    → (move_open p path s).opens
      ≡ update_open p (record (s.opens p) { path_name = path; file_name = trim_path path }) s.opens
unfolding move_open put_into_bucket
move_open-opens p path s =
    let op = s.opens p in
    let moved : Open = record op { path_name = path; file_name = trim_path path } in
    let s' : Server = record s { opens = update_open p moved s.opens } in
    let kept = drop-opens (file_key op) op.durable_file_id s' in ground (arith, kept)

index_open-IsFiled : (p : ℕ) (s : Server) → IsFiled s → IsFiled (index_open p s)
unfolding index_open
index_open-IsFiled p s h = named-IsFiled (λ k d q e.
    let put = entry-put_into_bucket (key_of s p) k (file_id s p) d p s in
    let same = carries_same s p q k d in
    let kept = ap (λ f. carries (f q) k d) (put-opens (key_of s p) (file_id s p) p s) in
    ground (arith, put, IsFiled-named h k d q, same, kept, e))

unindex_open-IsFiled : (p : ℕ) (s : Server) → IsFiled s → IsFiled (unindex_open p s)
unfolding unindex_open
unindex_open-IsFiled p s h = named-IsFiled (λ k d q e.
    let dropped = entry-drop_from_bucket (key_of s p) k (file_id s p) d s in
    let kept = ap (λ f. carries (f q) k d) (drop-opens (key_of s p) (file_id s p) s) in
    ground (arith, dropped, IsFiled-named h k d q, kept, e))

move_open-IsFiled : (p : ℕ) (path : List ℕ) (s : Server) → IsFiled s → IsFiled (move_open p path s)
move_open-IsFiled p path s h = named-IsFiled (λ k d q e.
    let moved = move_open-entry p path s k d in
    let same = carries_same s p q k d in
    let there = entry_carried s (s.opens p) k d in
    let opens = ap (λ f. carries (f q) k d) (move_open-opens p path s) in
    ground (arith, moved, IsFiled-named h k d q, same, there, opens, e))

move_all-IsFiled : (moves : List (ℕ × List ℕ)) (s : Server) → IsFiled s → IsFiled (move_all moves s)
unfolding move_all
move_all-IsFiled [] s h = h
move_all-IsFiled (x ∷ rest) s h =
    move_all-IsFiled rest (move_open x.0 x.1 s) (move_open-IsFiled x.0 x.1 s h)

-- What the server does with the indexes: an open joins and leaves the global open table, a file or a
-- directory is renamed, and the create of an open may be replayed, or no longer.
pub data Command : Type 0 where
  join leave clear : ℕ → Command
  mark : Bool → Bool → ℕ → Command
  rename_file rename_directory : ℕ → List ℕ → List ℕ → Command

unfoldable pub perform : Command → Server → Server
perform (join p) = index_open p
perform (leave p) = unindex_open p
perform (clear p) = clear_replay_eligible p
perform (mark is_pipe is_dir p) = mark_replay_eligible is_pipe is_dir p
perform (rename_file sh path new_name) = move_opens_on_file sh path new_name
perform (rename_directory sh old_path new_path) = move_opens_under sh old_path new_path

unfoldable pub run : List Command → Server → Server
run [] s = s
run (c ∷ cs) s = run cs (perform c s)

-- A change of the opens that leaves their names alone.
same_names-IsFiled :
    (s t : Server)
    → t.opens_by_file ≡ s.opens_by_file
    → ((q : ℕ) (k : FileKey) (d : ℕ) → carries (t.opens q) k d ≡ carries (s.opens q) k d)
    → IsFiled s
    → IsFiled t
unfolding entry
same_names-IsFiled s t table names h = named-IsFiled (λ k d q e.
    let found = ap (λ m. lookup d (or_empty (find_key file_key_eq k m))) table in
    names q k d ∙ IsFiled-named h k d q (sym found ∙ e))

clear-IsFiled : (p : ℕ) (s : Server) → IsFiled s → IsFiled (clear_replay_eligible p s)
unfolding clear_replay_eligible
clear-IsFiled p s h =
    same_names-IsFiled s (clear_replay_eligible p s) (ground arith)
      (λ q k d. let same = carries_same s p q k d in ground (arith, same)) h

mark-IsFiled :
    (is_pipe is_dir : Bool) (p : ℕ) (s : Server)
    → IsFiled s
    → IsFiled (mark_replay_eligible is_pipe is_dir p s)
unfolding mark_replay_eligible
mark-IsFiled is_pipe is_dir p s h =
    same_names-IsFiled s (mark_replay_eligible is_pipe is_dir p s) (ground arith)
      (λ q k d. let same = carries_same s p q k d in ground (arith, same)) h

perform-IsFiled : (c : Command) (s : Server) → IsFiled s → IsFiled (perform c s)
unfolding perform move_opens_on_file move_opens_under
perform-IsFiled (join p) s h = index_open-IsFiled p s h
perform-IsFiled (leave p) s h = unindex_open-IsFiled p s h
perform-IsFiled (clear p) s h = clear-IsFiled p s h
perform-IsFiled (mark is_pipe is_dir p) s h = mark-IsFiled is_pipe is_dir p s h
perform-IsFiled (rename_file sh path new_name) s h = move_all-IsFiled _ s h
perform-IsFiled (rename_directory sh old_path new_path) s h = move_all-IsFiled _ s h

-- From an index in which every entry is right, whatever the server does leads to one.
pub run-IsFiled : (cs : List Command) (s : Server) → IsFiled s → IsFiled (run cs s)
unfolding run
run-IsFiled [] s h = h
run-IsFiled (c ∷ cs) s h = run-IsFiled cs (perform c s) (perform-IsFiled c s h)

values-lookup : (b : Bucket) (d p : ℕ) → lookup d b ≡ some p → contains p (values b) ≡ true
unfolding lookup
values-lookup [] d p h = ground arith
values-lookup (x ∷ b) d p h = let rest = values-lookup b d p in ground (arith, rest)

match_opens-contains :
    (sh : ℕ) (path : List ℕ) (except : Option ℕ) (ps : List ℕ) (s : Server) (p : ℕ)
    → contains p ps ≡ true
    → holds except p ≡ false
    → file_key_eq (key_of s p) (record { share = sh; path = path }) ≡ true
    → contains p (match_opens sh path except ps s) ≡ true
unfolding match_opens
match_opens-contains sh path except [] s p h n e = ground arith
match_opens-contains sh path except (x ∷ ps) s p h n e =
    let rest = match_opens-contains sh path except ps s p in
    let same = λ (eq : (x == p) ≡ true).
      ap (λ i. file_key_eq (key_of s i) (record { share = sh; path = path })) ((==_iff x p).0 eq) in
    let other = λ (eq : (x == p) ≡ true). ap (holds except) ((==_iff x p).0 eq) in
    ground (arith, rest, same, other)

-- `opensOn` misses no entry: where all of them are right, an open that the index has under a name is
-- among those on that file, unless it is the one left out.
opens_on-found :
    (s : Server) (sh : ℕ) (path : List ℕ) (except : Option ℕ) (d p : ℕ)
    → IsFiled s
    → entry s (record { share = sh; path = path }) d ≡ some p
    → holds except p ≡ false
    → contains p (opens_on sh path except s) ≡ true
unfolding opens_on entry
opens_on-found s sh path except d p h e n =
    let key : FileKey = record { share = sh; path = path } in
    let bucket = or_empty (find_key file_key_eq key s.opens_by_file) in
    let named = IsFiled-named h key d p e in
    match_opens-contains sh path except (values bucket) s p (values-lookup bucket d p e) n
      (ground arith)

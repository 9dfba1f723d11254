-- ===== src/OpenIndex/Entries.antt =====
-- openindex.go: the index of opens by file seen as one map, from a file and a durable file ID to an
-- open. No bucket is of any account to what it finds.
use sombrero.Base.{
  ℕ, true, ◌&&◌, none, some, [], ◌∷◌, ◌≡◌, refl, ap, ◌==◌, if◌then◌else◌, lookup, insert, delete,
  lookup-insert, lookup-delete, find_key, find-set, find-erase, Decides, arith,
}
use sombrero.OpenIndex.{
  FileKey, file_key_eq, path_eq, Bucket, Server, entry, or_empty, is_empty, put_into_bucket,
  drop_from_bucket, replay_key_eq,
}

pub path_eq_iff : Decides path_eq
path_eq_iff [] [] = ground arith
path_eq_iff [] (y ∷ ys) = ground arith
path_eq_iff (x ∷ xs) [] = ground arith
path_eq_iff (x ∷ xs) (y ∷ ys) = let rest = path_eq_iff xs ys in ground (arith, rest)

pub file_key_eq_iff : Decides file_key_eq
file_key_eq_iff k l = let paths = path_eq_iff k.path l.path in ground (arith, paths)

pub replay_key_eq_iff : Decides replay_key_eq
replay_key_eq_iff k l = ground arith

-- An empty bucket has no entry.
lookup-is_empty : (bucket : Bucket) (d : ℕ) → is_empty bucket ≡ true → lookup d bucket ≡ none
unfolding lookup
lookup-is_empty [] d h = refl
lookup-is_empty (x ∷ xs) d h = ground arith

same_bucket :
    (key other : FileKey) (s : Server)
    → file_key_eq key other ≡ true
    → find_key file_key_eq key s.opens_by_file ≡ find_key file_key_eq other s.opens_by_file
same_bucket key other s h =
    ap (λ k. find_key file_key_eq k s.opens_by_file) ((file_key_eq_iff key other).0 h)

pub entry-put_into_bucket :
    (key other : FileKey) (dfid d p : ℕ) (s : Server)
    → entry (put_into_bucket key dfid p s) other d
      ≡ (if file_key_eq key other && (dfid == d) then some p else entry s other d)
unfolding entry put_into_bucket
entry-put_into_bucket key other dfid d p s =
    let bucket = or_empty (find_key file_key_eq key s.opens_by_file) in
    let set =
      find-set file_key_eq file_key_eq_iff key other (insert dfid p bucket) s.opens_by_file in
    let same = same_bucket key other s in
    let inside = lookup-insert dfid d p bucket in ground (arith, set, same, inside)

pub entry-drop_from_bucket :
    (key other : FileKey) (dfid d : ℕ) (s : Server)
    → entry (drop_from_bucket key dfid s) other d
      ≡ (if file_key_eq key other && (dfid == d) then none else entry s other d)
unfolding entry drop_from_bucket lookup
entry-drop_from_bucket key other dfid d s =
    let bucket = or_empty (find_key file_key_eq key s.opens_by_file) in
    let left = delete dfid bucket in
    let set = find-set file_key_eq file_key_eq_iff key other left s.opens_by_file in
    let erased = find-erase file_key_eq file_key_eq_iff key other s.opens_by_file in
    let same = same_bucket key other s in
    let inside = lookup-delete dfid d bucket in
    let blank = lookup-is_empty left d in ground (arith, set, erased, same, inside, blank)

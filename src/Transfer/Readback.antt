-- ===== src/Transfer/Readback.antt =====
-- transfer/encoding.go: the records of a description are read back as they were written, their times
-- as the library keeps them and in UTC.
pub mod Contents
use sombrero.Base.{
  ℕ, ◌+◌, ◌<◌, ◌^◌, Bool, List, [], ◌∷◌, ◌++◌, Option, some, ◌≡◌, refl, ap, ◌∙◌, map, All, length,
  append_assoc, length-append, arith,
}
use sombrero.Transfer.Types.{
  Bytes, PublicDir, Workgroup, Ban, Policy, Source, Header, Share, Account, WorkgroupAccounts,
}
use sombrero.Transfer.Wire.{Wire, IsWire, Codec, Decoder, ◌>>=◌, Reads, itself, Anything}
use sombrero.Transfer.Encoding.{
  encode_public_dir, decode_public_dir, public_dir, encode_workgroup, decode_workgroup, encode_ban,
  decode_ban, ban, encode_policy, decode_policy, policy, encode_source, decode_source, encode_share,
  decode_share, share, read_time, encode_account, decode_account, account, encode_header,
  decode_header, encode_workgroup_accounts, decode_workgroup_accounts, workgroup_accounts,
}

-- A read of what was written goes on with the value and with what follows it.
pub read_then :
    {A B : Type 0} (c : Codec A) (norm : A → A) (P : A → Type 0)
    → Reads c norm P
    → (a : A) (rest : Bytes) (f : A → Decoder B) → P a
    → (c.read >>= f) (c.write a ++ rest) ≡ f (norm a) rest
read_then c norm P reads a rest f ok = rw (reads a rest ok, ◌>>=◌) refl

map-itself : {A : Type 0} (xs : List A) → map itself xs ≡ xs
map-itself [] = refl
map-itself (x ∷ xs) = ap (◌∷◌ x) (map-itself xs)

All-Anything : {A : Type 0} (xs : List A) → All Anything xs
All-Anything [] = tt
All-Anything (x ∷ xs) = (tt, All-Anything xs)

-- Values that fit what they are written in.
abbrev pub WorkgroupFits : Workgroup → Type 0
WorkgroupFits g = length g.uuid ≡ 16

module _ (Time Sealed : Type 0) where
  abbrev pub ShareFits : Share Time Sealed → Type 0
  ShareFits s = (s.data_shards < 2 ^ 8) × (s.parity_shards < 2 ^ 8)

  abbrev pub WorkgroupAccountsFits : WorkgroupAccounts Time Sealed → Type 0
  WorkgroupAccountsFits g = WorkgroupFits g.workgroup

module _ (w : Wire) (h : IsWire w) where
  pub text_then :
      {B : Type 0} (a rest : Bytes) (f : Bytes → Decoder B)
      → (w.text.read >>= f) (w.text.write a ++ rest) ≡ f a rest
  text_then a rest f = read_then w.text itself Anything h.text a rest f tt

  pub bytes_then :
      {B : Type 0} (a rest : Bytes) (f : Bytes → Decoder B)
      → (w.bytes.read >>= f) (w.bytes.write a ++ rest) ≡ f a rest
  bytes_then a rest f = read_then w.bytes itself Anything h.bytes a rest f tt

  pub bool_then :
      {B : Type 0} (a : Bool) (rest : Bytes) (f : Bool → Decoder B)
      → (w.bool.read >>= f) (w.bool.write a ++ rest) ≡ f a rest
  bool_then a rest f = read_then w.bool itself Anything h.bool a rest f tt

  pub uint8_then :
      {B : Type 0} (a : ℕ) (rest : Bytes) (f : ℕ → Decoder B)
      → a < 2 ^ 8
      → (w.uint8.read >>= f) (w.uint8.write a ++ rest) ≡ f a rest
  uint8_then a rest f = read_then w.uint8 itself (λ n. n < 2 ^ 8) h.uint8 a rest f

  pub uint64_then :
      {B : Type 0} (a : ℕ) (rest : Bytes) (f : ℕ → Decoder B)
      → a < 2 ^ 64
      → (w.uint64.read >>= f) (w.uint64.write a ++ rest) ≡ f a rest
  uint64_then a rest f = read_then w.uint64 itself (λ n. n < 2 ^ 64) h.uint64 a rest f

  -- A time as it is read back.
  abbrev pub kept_time : w.Time → w.Time
  kept_time t = w.utc (h.stored t)

  pub time_then :
      {B : Type 0} (a : w.Time) (rest : Bytes) (f : w.Time → Decoder B)
      → (read_time w >>= f) (w.time.write a ++ rest) ≡ f (kept_time a) rest
  unfolding read_time
  time_then a rest f = rw (h.time a rest tt, ◌>>=◌) refl

  -- What begins with a text takes up bytes.
  pub text_first : (b rest : Bytes) → 0 < length (w.text.write b ++ rest)
  text_first b rest = omega (arith, h.text_width b, length-append (w.text.write b) rest)

  pub public_dir-Reads : Reads (public_dir w) itself Anything
  unfolding encode_public_dir decode_public_dir
  public_dir-Reads p rest ok = simp (append_assoc, text_then, bool_then) refl

  pub slice_then :
      {A B : Type 0} (c : Codec A) (norm : A → A) (P : A → Type 0)
      → Reads c norm P
      → ((a : A) → P a → 0 < length (c.write a))
      → (a : List A) (rest : Bytes) (f : List A → Decoder B) → All P a
      → ((w.slice c).read >>= f) ((w.slice c).write a ++ rest) ≡ f (map norm a) rest
  slice_then c norm P reads wide a rest f ok =
      read_then (w.slice c) (map norm) (All P) (h.slice c norm P reads wide) a rest f ok

  -- A list of items that are read back as they were, whatever they are.
  pub plain_slice_then :
      {A B : Type 0} (c : Codec A)
      → Reads c itself Anything
      → ((a : A) → 0 < length (c.write a))
      → (a : List A) (rest : Bytes) (f : List A → Decoder B)
      → ((w.slice c).read >>= f) ((w.slice c).write a ++ rest) ≡ f a rest
  plain_slice_then c reads wide a rest f =
      slice_then c itself Anything reads (λ x _. wide x) a rest f (All-Anything a)
      ∙ ap (λ xs. f xs rest) (map-itself a)

  pub raw_then :
      {B : Type 0} (n : ℕ) (a rest : Bytes) (f : Bytes → Decoder B)
      → length a ≡ n
      → ((w.raw n).read >>= f) ((w.raw n).write a ++ rest) ≡ f a rest
  raw_then n a rest f = read_then (w.raw n) itself (λ b. length b ≡ n) (h.raw n) a rest f

  public_dir-wide : (p : PublicDir) → 0 < length (encode_public_dir w p)
  unfolding encode_public_dir
  public_dir-wide p = text_first p.path _

  pub workgroup-Reads :
      Reads (record { write = encode_workgroup w; read = decode_workgroup w }) itself WorkgroupFits
  unfolding encode_workgroup decode_workgroup
  workgroup-Reads g rest ok =
      simp
        (
          append_assoc,
          text_then,
          plain_slice_then (public_dir w) public_dir-Reads public_dir-wide,
          raw_then,
        )
        refl

  pub ban-Reads : Reads (ban w) itself Anything
  unfolding encode_ban decode_ban
  ban-Reads b rest ok = simp (append_assoc, text_then) refl

  pub ban-wide : (a : Ban) → 0 < length (encode_ban w a)
  unfolding encode_ban
  ban-wide a = text_first a.host _

  pub policy-Reads : Reads (policy w) itself Anything
  unfolding encode_policy decode_policy
  policy-Reads p rest ok = simp (append_assoc, text_then, bool_then) refl

  pub policy-wide : (a : Policy) → 0 < length (encode_policy w a)
  unfolding encode_policy
  policy-wide a = text_first a.account _

  pub source-Reads :
      (s : Source) (rest : Bytes) → decode_source w (encode_source w s ++ rest) ≡ some (s, rest)
  unfolding encode_source decode_source
  source-Reads s rest = simp (append_assoc, text_then) refl

  abbrev pub kept_header : Header w.Time w.Sealed → Header w.Time w.Sealed
  kept_header x = record x { created_at = kept_time x.created_at }

  pub header-Reads :
      (x : Header w.Time w.Sealed) (rest : Bytes)
      → decode_header w (encode_header w x ++ rest) ≡ some (kept_header x, rest)
  unfolding encode_header decode_header
  header-Reads x rest = simp (append_assoc, text_then, time_then) refl

  abbrev pub kept_share : Share w.Time w.Sealed → Share w.Time w.Sealed
  kept_share x = record x { created_at = kept_time x.created_at }

  pub share-Reads : Reads (share w) kept_share (ShareFits w.Time w.Sealed)
  unfolding encode_share decode_share
  share-Reads s rest (data_fits, parity_fits) =
      simp (append_assoc, text_then, time_then, bool_then, uint8_then) refl

  pub share-wide : (a : Share w.Time w.Sealed) → 0 < length (encode_share w a)
  unfolding encode_share
  share-wide a = text_first a.name _

  abbrev pub kept_account : Account w.Time w.Sealed → Account w.Time w.Sealed
  kept_account x = record x { created_at = kept_time x.created_at }

  pub account-Reads : Reads (account w) kept_account Anything
  unfolding encode_account decode_account
  account-Reads a rest ok = simp (append_assoc, text_then, bytes_then, time_then) refl

  account-wide : (a : Account w.Time w.Sealed) → 0 < length (encode_account w a)
  unfolding encode_account
  account-wide a = text_first a.name _

  pub accounts_then :
      {B : Type 0} (a : List (Account w.Time w.Sealed)) (rest : Bytes)
      (f : List (Account w.Time w.Sealed) → Decoder B)
      → ((w.slice (account w)).read >>= f) ((w.slice (account w)).write a ++ rest)
        ≡ f (map kept_account a) rest
  accounts_then a rest f =
      slice_then (account w) kept_account Anything account-Reads (λ x _. account-wide x) a rest f
        (All-Anything a)

  pub workgroup_accounts-wide :
      (a : WorkgroupAccounts w.Time w.Sealed)
      → WorkgroupAccountsFits w.Time w.Sealed a
      → 0 < length (encode_workgroup_accounts w a)
  unfolding encode_workgroup_accounts encode_workgroup
  workgroup_accounts-wide a fits =
      let first = ap length (h.raw_write 16 a.workgroup.uuid) in
      simp length-append (omega (arith, first, fits))

  pub workgroup_then :
      {B : Type 0} (a : Workgroup) (rest : Bytes) (f : Workgroup → Decoder B)
      → WorkgroupFits a
      → (decode_workgroup w >>= f) (encode_workgroup w a ++ rest) ≡ f a rest
  workgroup_then a rest f =
      read_then (record { write = encode_workgroup w; read = decode_workgroup w }) itself
        WorkgroupFits workgroup-Reads a rest f

  abbrev pub kept_workgroup_accounts :
      WorkgroupAccounts w.Time w.Sealed → WorkgroupAccounts w.Time w.Sealed
  kept_workgroup_accounts x = record x { accounts = map kept_account x.accounts }

  pub workgroup_accounts-Reads :
      Reads (workgroup_accounts w) kept_workgroup_accounts (WorkgroupAccountsFits w.Time w.Sealed)
  unfolding encode_workgroup_accounts decode_workgroup_accounts
  workgroup_accounts-Reads g rest ok = simp (append_assoc, workgroup_then, accounts_then) refl

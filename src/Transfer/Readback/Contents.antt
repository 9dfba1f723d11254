-- ===== src/Transfer/Readback/Contents.antt =====
-- transfer/encoding.go: the records of a stream are read back as they were written.
use sombrero.Base.{
  ℕ, ◌<◌, ◌^◌, Bool, true, false, not, [], ◌∷◌, ◌++◌, Option, none, some, ◌≡◌, refl, ap, sym, map,
  All, length, length-append, append_assoc, has, arith,
}
use sombrero.Transfer.Types.{Bytes, Connection, Server, Directory, Part, File}
use sombrero.Transfer.Wire.{Wire, IsWire, Codec, Decoder, ◌>>=◌, Reads, itself, Anything}
use sombrero.Transfer.Encoding.{
  bytes_eq, no_object, is_some, ban, policy, share, encode_share, decode_share, workgroup_accounts,
  encode_source, decode_source,
}
use sombrero.Transfer.Records.{
  encode_connection, decode_connection, encode_server, decode_server, encode_directory,
  decode_directory, part_flags, encode_part, decode_part, decode_pin, part, encode_file,
  decode_file, raise, write_if, write_some, read_if, read_some, flag_object, flag_pin, flag_source,
  flag_inline,
}
use sombrero.Transfer.Readback.{
  read_then, text_then, bytes_then, bool_then, uint8_then, uint64_then, time_then, slice_then,
  plain_slice_then, kept_time, ban-Reads, ban-wide, policy-wide, share-wide,
  workgroup_accounts-wide, policy-Reads, source-Reads, share-Reads, kept_share, ShareFits,
  accounts_then, kept_account, workgroup_then, workgroup_accounts-Reads, kept_workgroup_accounts,
  WorkgroupFits, WorkgroupAccountsFits,
}

pub bytes_eq-true : (a b : Bytes) → bytes_eq a b ≡ true → a ≡ b
bytes_eq-true [] [] h = refl
bytes_eq-true [] (y ∷ ys) h = cc
bytes_eq-true (x ∷ xs) [] h = cc
bytes_eq-true (x ∷ xs) (y ∷ ys) h = let rest = bytes_eq-true xs ys in ground (arith, rest)

-- The four flags of a part as its byte has them.
abbrev flags_of : Bool → Bool → Bool → Bool → ℕ
flags_of object pin source inline =
    raise inline flag_inline
      (raise source flag_source (raise pin flag_pin (raise object flag_object 0)))

FlagsRead : Bool → Bool → Bool → Bool → Type 0
FlagsRead object pin source inline =
    let flags = flags_of object pin source inline in
    (flags < 2 ^ 8)
    × (has flags flag_object ≡ object)
    × (has flags flag_pin ≡ pin)
    × (has flags flag_source ≡ source)
    × (has flags flag_inline ≡ inline)

flags-read : (a b c d : Bool) → FlagsRead a b c d
unfolding FlagsRead
flags-read true true true true = (omega arith, refl, refl, refl, refl)
flags-read true true true false = (omega arith, refl, refl, refl, refl)
flags-read true true false true = (omega arith, refl, refl, refl, refl)
flags-read true true false false = (omega arith, refl, refl, refl, refl)
flags-read true false true true = (omega arith, refl, refl, refl, refl)
flags-read true false true false = (omega arith, refl, refl, refl, refl)
flags-read true false false true = (omega arith, refl, refl, refl, refl)
flags-read true false false false = (omega arith, refl, refl, refl, refl)
flags-read false true true true = (omega arith, refl, refl, refl, refl)
flags-read false true true false = (omega arith, refl, refl, refl, refl)
flags-read false true false true = (omega arith, refl, refl, refl, refl)
flags-read false true false false = (omega arith, refl, refl, refl, refl)
flags-read false false true true = (omega arith, refl, refl, refl, refl)
flags-read false false true false = (omega arith, refl, refl, refl, refl)
flags-read false false false true = (omega arith, refl, refl, refl, refl)
flags-read false false false false = (omega arith, refl, refl, refl, refl)

abbrev pub map_some : {A : Type 0} → (A → A) → Option A → Option A
map_some f none = none
map_some f (some a) = some (f a)

some_then :
    {A B : Type 0} (c : Codec A) (norm : A → A)
    → Reads c norm Anything
    → (flag : Bool) (o : Option A) (rest : Bytes) (f : Option A → Decoder B) → flag ≡ is_some o
    → (read_some flag c.read >>= f) (write_if flag (write_some c.write o) ++ rest)
      ≡ f (map_some norm o) rest
some_then c norm reads true none rest f e = cc
some_then c norm reads false none rest f e = refl
some_then c norm reads true (some a) rest f e = rw (reads a rest tt, ◌>>=◌) refl
some_then c norm reads false (some a) rest f e = cc

plain_some_then :
    {A B : Type 0} (c : Codec A)
    → Reads c itself Anything
    → (flag : Bool) (o : Option A) (rest : Bytes) (f : Option A → Decoder B) → flag ≡ is_some o
    → (read_some flag c.read >>= f) (write_if flag (write_some c.write o) ++ rest) ≡ f o rest
plain_some_then c reads flag none rest f e = some_then c itself reads flag none rest f e
plain_some_then c reads flag (some a) rest f e = some_then c itself reads flag (some a) rest f e

object_then :
    {B : Type 0} (w : Wire) (h : IsWire w) (flag : Bool) (a rest : Bytes) (f : Bytes → Decoder B)
    → flag ≡ not (bytes_eq a no_object)
    → length a ≡ 32
    → (read_if flag w.hash256.read no_object >>= f) (write_if flag (w.hash256.write a) ++ rest)
      ≡ f a rest
object_then w h true a rest f e l = rw (h.hash256 a rest l, ◌>>=◌) refl
object_then w h false a rest f e l =
    let zeros : no_object ≡ a = sym (bytes_eq-true a no_object (ground (arith, e))) in
    ap (λ b. f b rest) zeros

-- Values that fit what they are written in.
module _ (Time Sealed : Type 0) where
  abbrev pub ConnectionFits : Connection Time Sealed → Type 0
  ConnectionFits c = ShareFits Time Sealed c.share × WorkgroupFits c.workgroup

  abbrev pub ServerFits : Server Time Sealed → Type 0
  ServerFits s =
      All (ShareFits Time Sealed) s.shares × All (WorkgroupAccountsFits Time Sealed) s.workgroups

  abbrev pub PartFits : Part Time Sealed → Type 0
  PartFits p =
      (p.offset < 2 ^ 64) × (p.data_offset < 2 ^ 64) × (p.length < 2 ^ 64) × (length p.object ≡ 32)

  abbrev pub FileFits : File Time Sealed → Type 0
  FileFits f = (f.size < 2 ^ 64) × All PartFits f.parts

module _ (w : Wire) (h : IsWire w) where
  abbrev pub kept_connection : Connection w.Time w.Sealed → Connection w.Time w.Sealed
  kept_connection c = record c {
    share = kept_share w h c.share;
    accounts = map (kept_account w h) c.accounts;
  }

  share_then :
      {B : Type 0} (a : _) (rest : Bytes) (f : _ → Decoder B)
      → ShareFits w.Time w.Sealed a
      → (decode_share w >>= f) (encode_share w a ++ rest) ≡ f (kept_share w h a) rest
  share_then a rest f =
      read_then (share w) (kept_share w h) (ShareFits w.Time w.Sealed) (share-Reads w h) a rest f

  pub connection-read :
      (c : Connection w.Time w.Sealed) (rest : Bytes)
      → ConnectionFits w.Time w.Sealed c
      → decode_connection w (encode_connection w c ++ rest) ≡ some (kept_connection c, rest)
  unfolding encode_connection decode_connection
  connection-read c rest (share_fits, workgroup_fits) =
      simp
        (
          append_assoc,
          share_then,
          workgroup_then w h,
          accounts_then w h,
          plain_slice_then w h (policy w) (policy-Reads w h) (policy-wide w h),
          bytes_then w h,
        )
        refl

  abbrev pub kept_server : Server w.Time w.Sealed → Server w.Time w.Sealed
  kept_server s = record s {
    shares = map (kept_share w h) s.shares;
    workgroups = map (kept_workgroup_accounts w h) s.workgroups;
  }

  pub server-read :
      (s : Server w.Time w.Sealed) (rest : Bytes)
      → ServerFits w.Time w.Sealed s
      → decode_server w (encode_server w s ++ rest) ≡ some (kept_server s, rest)
  unfolding encode_server decode_server
  server-read s rest (shares_fit, workgroups_fit) =
      simp
        (
          append_assoc,
          slice_then w h (share w) (kept_share w h) (ShareFits w.Time w.Sealed) (share-Reads w h)
              (λ x _. share-wide w h x) s.shares,
          slice_then w h (workgroup_accounts w) (kept_workgroup_accounts w h)
              (WorkgroupAccountsFits w.Time w.Sealed) (workgroup_accounts-Reads w h)
              (workgroup_accounts-wide w h) s.workgroups,
          plain_slice_then w h (ban w) (ban-Reads w h) (ban-wide w h),
        )
        refl

  abbrev pub kept_directory : Directory w.Time w.Sealed → Directory w.Time w.Sealed
  kept_directory d = record d {
    created_at = kept_time w h d.created_at;
    modified_at = kept_time w h d.modified_at;
  }

  pub directory-read :
      (d : Directory w.Time w.Sealed) (rest : Bytes)
      → decode_directory w (encode_directory w d ++ rest) ≡ some (kept_directory d, rest)
  unfolding encode_directory decode_directory
  directory-read d rest = simp (append_assoc, text_then w h, bool_then w h, time_then w h) refl

  abbrev pub kept_sealed : w.Sealed → w.Sealed
  kept_sealed s = w.sealed_utc (h.stored_sealed s)

  abbrev pub kept_part : Part w.Time w.Sealed → Part w.Time w.Sealed
  kept_part p = record p { pin = map_some kept_sealed p.pin }

  pin-Reads : Reads (record { write = w.sealed.write; read = decode_pin w }) kept_sealed Anything
  unfolding decode_pin
  pin-Reads s rest ok = rw (h.sealed s rest tt, ◌>>=◌) refl

  pub part-Reads : Reads (part w) kept_part (PartFits w.Time w.Sealed)
  unfolding encode_part decode_part part_flags FlagsRead
  part-Reads p rest (o, d, l, object) =
      let (small, is_object, is_pin, is_source, is_inline) =
        flags-read (not (bytes_eq p.object no_object)) (is_some p.pin) (is_some p.source)
          (is_some p.inline) in
      simp
        (
          append_assoc,
          uint64_then w h,
          uint8_then w h,
          object_then w h,
          some_then (record { write = w.sealed.write; read = decode_pin w }) kept_sealed pin-Reads,
          plain_some_then (record { write = encode_source w; read = decode_source w })
              (λ s r _. source-Reads w h s r),
          plain_some_then w.bytes h.bytes,
        )
        refl

  part-wide : (p : Part w.Time w.Sealed) → 0 < length (encode_part w p)
  unfolding encode_part
  part-wide p = simp length-append (omega (arith, h.uint64_width p.offset))

  abbrev pub kept_file : File w.Time w.Sealed → File w.Time w.Sealed
  kept_file f = record f {
    created_at = kept_time w h f.created_at;
    modified_at = kept_time w h f.modified_at;
    parts = map kept_part f.parts;
  }

  pub file-read :
      (f : File w.Time w.Sealed) (rest : Bytes)
      → FileFits w.Time w.Sealed f
      → decode_file w (encode_file w f ++ rest) ≡ some (kept_file f, rest)
  unfolding encode_file decode_file
  file-read f rest (size_fits, parts_fit) =
      simp
        (
          append_assoc,
          text_then w h,
          uint64_then w h,
          time_then w h,
          slice_then w h (part w) kept_part (PartFits w.Time w.Sealed) part-Reads
              (λ p _. part-wide p) f.parts,
        )
        refl

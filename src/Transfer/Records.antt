-- ===== src/Transfer/Records.antt =====
-- transfer/encoding.go: `EncodeTo` and `DecodeFrom` of the records that a stream is made of.
use sombrero.Base.{ℕ, Bool, true, false, not, [], ◌++◌, Option, none, some, has, bit_or}
use sombrero.Transfer.Types.{Bytes, Connection, Server, Directory, Part, File}
use sombrero.Transfer.Wire.{Wire, Codec, Decoder, ◌>>=◌, pure}
use sombrero.Transfer.Encoding.{
  bytes_eq, no_object, is_some, ban, policy, encode_source, decode_source, read_time, share,
  encode_share, decode_share, account, encode_workgroup, decode_workgroup, workgroup_accounts,
}

abbrev pub flag_object : ℕ
flag_object = 1

abbrev pub flag_pin : ℕ
flag_pin = 2

abbrev pub flag_source : ℕ
flag_source = 4

abbrev pub flag_inline : ℕ
flag_inline = 8

abbrev pub raise : Bool → ℕ → ℕ → ℕ
raise true flag flags = bit_or flags flag
raise false flag flags = flags

abbrev pub write_if : Bool → Bytes → Bytes
write_if true bs = bs
write_if false bs = []

abbrev pub write_some : {A : Type 0} → (A → Bytes) → Option A → Bytes
write_some write none = []
write_some write (some a) = write a

-- What a flag says was written, and the zero value where it was not.
abbrev pub read_if : {A : Type 0} → Bool → Decoder A → A → Decoder A
read_if true d a = d
read_if false d a = pure a

abbrev pub read_some : {A : Type 0} → Bool → Decoder A → Decoder (Option A)
read_some true d = do a ← d; pure (some a)
read_some false d = pure none

module _ (w : Wire) where
  unfoldable pub encode_connection : Connection w.Time w.Sealed → Bytes
  encode_connection c =
      encode_share w c.share
      ++ (encode_workgroup w c.workgroup
          ++ ((w.slice (account w)).write c.accounts
              ++ ((w.slice (policy w)).write c.policies ++ w.bytes.write c.app_key)))

  unfoldable pub decode_connection : Decoder (Connection w.Time w.Sealed)
  decode_connection = do
    share ← decode_share w
    workgroup ← decode_workgroup w
    accounts ← (w.slice (account w)).read
    policies ← (w.slice (policy w)).read
    app_key ← w.bytes.read
    pure (record {
      share = share;
      workgroup = workgroup;
      accounts = accounts;
      policies = policies;
      app_key = app_key;
    })

  unfoldable pub encode_server : Server w.Time w.Sealed → Bytes
  encode_server s =
      (w.slice (share w)).write s.shares
      ++ ((w.slice (workgroup_accounts w)).write s.workgroups ++ (w.slice (ban w)).write s.bans)

  unfoldable pub decode_server : Decoder (Server w.Time w.Sealed)
  decode_server = do
    shares ← (w.slice (share w)).read
    workgroups ← (w.slice (workgroup_accounts w)).read
    bans ← (w.slice (ban w)).read
    pure (record { shares = shares; workgroups = workgroups; bans = bans })

  unfoldable pub encode_directory : Directory w.Time w.Sealed → Bytes
  encode_directory d =
      w.text.write d.path
      ++ (w.text.write d.owner
          ++ (w.bool.write d.private
              ++ (w.bool.write d.read_only
                  ++ (w.time.write d.created_at ++ w.time.write d.modified_at))))

  unfoldable pub decode_directory : Decoder (Directory w.Time w.Sealed)
  decode_directory = do
    path ← w.text.read
    owner ← w.text.read
    private ← w.bool.read
    read_only ← w.bool.read
    created_at ← read_time w
    modified_at ← read_time w
    pure (record {
      path = path;
      owner = owner;
      private = private;
      read_only = read_only;
      created_at = created_at;
      modified_at = modified_at;
    })

  unfoldable pub part_flags : Part w.Time w.Sealed → ℕ
  part_flags p = raise (is_some p.inline) flag_inline (
      raise (is_some p.source) flag_source
        (raise (is_some p.pin) flag_pin (raise (not (bytes_eq p.object no_object)) flag_object 0)))

  unfoldable pub encode_part : Part w.Time w.Sealed → Bytes
  encode_part p =
      w.uint64.write p.offset
      ++ (w.uint64.write p.data_offset
          ++ (w.uint64.write p.length
              ++ (w.uint8.write (part_flags p)
                  ++ (write_if (has (part_flags p) flag_object) (w.hash256.write p.object)
                      ++ (write_if (has (part_flags p) flag_pin) (write_some w.sealed.write p.pin)
                          ++ (write_if (has (part_flags p) flag_source)
                                (write_some (encode_source w) p.source)
                              ++ write_if (has (part_flags p) flag_inline)
                                  (write_some w.bytes.write p.inline)))))))

  unfoldable pub decode_pin : Decoder w.Sealed
  decode_pin = do sealed ← w.sealed.read; pure (w.sealed_utc sealed)

  unfoldable pub decode_part : Decoder (Part w.Time w.Sealed)
  decode_part = do
    offset ← w.uint64.read
    data_offset ← w.uint64.read
    length ← w.uint64.read
    flags ← w.uint8.read
    object ← read_if (has flags flag_object) w.hash256.read no_object
    pin ← read_some (has flags flag_pin) decode_pin
    source ← read_some (has flags flag_source) (decode_source w)
    inline ← read_some (has flags flag_inline) w.bytes.read
    pure (record {
      offset = offset;
      data_offset = data_offset;
      length = length;
      object = object;
      pin = pin;
      source = source;
      inline = inline;
    })

  abbrev pub part : Codec (Part w.Time w.Sealed)
  part = record { write = encode_part; read = decode_part }

  unfoldable pub encode_file : File w.Time w.Sealed → Bytes
  encode_file f =
      w.text.write f.path
      ++ (w.text.write f.owner
          ++ (w.uint64.write f.size
              ++ (w.time.write f.created_at
                  ++ (w.time.write f.modified_at ++ (w.slice part).write f.parts))))

  unfoldable pub decode_file : Decoder (File w.Time w.Sealed)
  decode_file = do
    path ← w.text.read
    owner ← w.text.read
    size ← w.uint64.read
    created_at ← read_time w
    modified_at ← read_time w
    parts ← (w.slice part).read
    pure (record {
      path = path;
      owner = owner;
      size = size;
      created_at = created_at;
      modified_at = modified_at;
      parts = parts;
    })

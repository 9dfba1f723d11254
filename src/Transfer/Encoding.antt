-- ===== src/Transfer/Encoding.antt =====
-- transfer/encoding.go: `EncodeTo` and `DecodeFrom` of every record of a description. A decoder of the
-- source keeps its first error and is asked for it once a record has been read, so here a record
-- is read whole or not at all.
use sombrero.Base.{
  Bool, true, false, [], ◌∷◌, ◌++◌, Option, none, some, ◌==◌, if◌then◌else◌, replicate,
}
use sombrero.Transfer.Types.{
  Bytes, PublicDir, Workgroup, Ban, Policy, Source, Header, Share, Account, WorkgroupAccounts,
}
use sombrero.Transfer.Wire.{Wire, Codec, Decoder, ◌>>=◌, pure}

abbrev pub bytes_eq : Bytes → Bytes → Bool
bytes_eq [] [] = true
bytes_eq (x ∷ xs) (y ∷ ys) = if x == y then bytes_eq xs ys else false
bytes_eq _ _ = false

-- `types.Hash256{}`.
abbrev pub no_object : Bytes
no_object = replicate 32 0

abbrev pub is_some : {A : Type 0} → Option A → Bool
is_some none = false
is_some (some a) = true

module _ (w : Wire) where
  unfoldable pub encode_public_dir : PublicDir → Bytes
  encode_public_dir p =
      w.text.write p.path ++ (w.bool.write p.read_only ++ w.bool.write p.case_sensitive)

  unfoldable pub decode_public_dir : Decoder PublicDir
  decode_public_dir = do
    path ← w.text.read
    read_only ← w.bool.read
    case_sensitive ← w.bool.read
    pure (record { path = path; read_only = read_only; case_sensitive = case_sensitive })

  abbrev pub public_dir : Codec PublicDir
  public_dir = record { write = encode_public_dir; read = decode_public_dir }

  unfoldable pub encode_workgroup : Workgroup → Bytes
  encode_workgroup g =
      (w.raw 16).write g.uuid ++ (w.text.write g.name ++ (w.slice public_dir).write g.public_dirs)

  unfoldable pub decode_workgroup : Decoder Workgroup
  decode_workgroup = do
    uuid ← (w.raw 16).read
    name ← w.text.read
    public_dirs ← (w.slice public_dir).read
    pure (record { uuid = uuid; name = name; public_dirs = public_dirs })

  unfoldable pub encode_ban : Ban → Bytes
  encode_ban b = w.text.write b.host ++ w.text.write b.reason

  unfoldable pub decode_ban : Decoder Ban
  decode_ban = do
    host ← w.text.read
    reason ← w.text.read
    pure (record { host = host; reason = reason })

  abbrev pub ban : Codec Ban
  ban = record { write = encode_ban; read = decode_ban }

  unfoldable pub encode_policy : Policy → Bytes
  encode_policy p =
      w.text.write p.account
      ++ (w.bool.write p.read
          ++ (w.bool.write p.write ++ (w.bool.write p.delete ++ w.bool.write p.execute)))

  unfoldable pub decode_policy : Decoder Policy
  decode_policy = do
    account ← w.text.read
    may_read ← w.bool.read
    may_write ← w.bool.read
    may_delete ← w.bool.read
    may_execute ← w.bool.read
    pure (record {
      account = account;
      read = may_read;
      write = may_write;
      delete = may_delete;
      execute = may_execute;
    })

  abbrev pub policy : Codec Policy
  policy = record { write = encode_policy; read = decode_policy }

  unfoldable pub encode_source : Source → Bytes
  encode_source s =
      w.text.write s.kind
      ++ (w.text.write s.origin ++ (w.text.write s.bucket ++ w.text.write s.key))

  unfoldable pub decode_source : Decoder Source
  decode_source = do
    kind ← w.text.read
    origin ← w.text.read
    bucket ← w.text.read
    key ← w.text.read
    pure (record { kind = kind; origin = origin; bucket = bucket; key = key })

  -- `readTime`.
  unfoldable pub read_time : Decoder w.Time
  read_time = do t ← w.time.read; pure (w.utc t)

  unfoldable pub encode_header : Header w.Time w.Sealed → Bytes
  encode_header h =
      w.time.write h.created_at
      ++ (w.text.write h.source
          ++ (w.text.write h.origin ++ (w.text.write h.share ++ w.text.write h.workgroup)))

  unfoldable pub decode_header : Decoder (Header w.Time w.Sealed)
  decode_header = do
    created_at ← read_time
    source ← w.text.read
    origin ← w.text.read
    share ← w.text.read
    workgroup ← w.text.read
    pure (record {
      created_at = created_at;
      source = source;
      origin = origin;
      share = share;
      workgroup = workgroup;
    })

  unfoldable pub encode_share : Share w.Time w.Sealed → Bytes
  encode_share s =
      w.text.write s.name
      ++ (w.text.write s.kind
          ++ (w.text.write s.server
              ++ (w.text.write s.password
                  ++ (w.text.write s.bucket
                      ++ (w.text.write s.remark
                          ++ (w.time.write s.created_at
                              ++ (w.uint8.write s.data_shards
                                  ++ (w.uint8.write s.parity_shards
                                      ++ (w.bool.write s.allow_guest
                                          ++ (w.bool.write s.allow_anonymous
                                              ++ (w.text.write s.public_dir
                                                  ++ w.bool.write s.skip_backup)))))))))))

  unfoldable pub decode_share : Decoder (Share w.Time w.Sealed)
  decode_share = do
    name ← w.text.read
    kind ← w.text.read
    server ← w.text.read
    password ← w.text.read
    bucket ← w.text.read
    remark ← w.text.read
    created_at ← read_time
    data_shards ← w.uint8.read
    parity_shards ← w.uint8.read
    allow_guest ← w.bool.read
    allow_anonymous ← w.bool.read
    shared_dir ← w.text.read
    skip_backup ← w.bool.read
    pure (record {
      name = name;
      kind = kind;
      server = server;
      password = password;
      bucket = bucket;
      remark = remark;
      created_at = created_at;
      data_shards = data_shards;
      parity_shards = parity_shards;
      allow_guest = allow_guest;
      allow_anonymous = allow_anonymous;
      public_dir = shared_dir;
      skip_backup = skip_backup;
    })

  abbrev pub share : Codec (Share w.Time w.Sealed)
  share = record { write = encode_share; read = decode_share }

  unfoldable pub encode_account : Account w.Time w.Sealed → Bytes
  encode_account a =
      w.text.write a.name ++ (w.bytes.write a.password_hash ++ w.time.write a.created_at)

  unfoldable pub decode_account : Decoder (Account w.Time w.Sealed)
  decode_account = do
    name ← w.text.read
    password_hash ← w.bytes.read
    created_at ← read_time
    pure (record { name = name; password_hash = password_hash; created_at = created_at })

  abbrev pub account : Codec (Account w.Time w.Sealed)
  account = record { write = encode_account; read = decode_account }

  unfoldable pub encode_workgroup_accounts : WorkgroupAccounts w.Time w.Sealed → Bytes
  encode_workgroup_accounts g = encode_workgroup g.workgroup ++ (w.slice account).write g.accounts

  unfoldable pub decode_workgroup_accounts : Decoder (WorkgroupAccounts w.Time w.Sealed)
  decode_workgroup_accounts = do
    workgroup ← decode_workgroup
    accounts ← (w.slice account).read
    pure (record { workgroup = workgroup; accounts = accounts })

  abbrev pub workgroup_accounts : Codec (WorkgroupAccounts w.Time w.Sealed)
  workgroup_accounts = record {
    write = encode_workgroup_accounts;
    read = decode_workgroup_accounts;
  }

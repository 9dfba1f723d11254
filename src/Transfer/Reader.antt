-- ===== src/Transfer/Reader.antt =====
-- transfer/encoding.go: the reader of a stream. `input` is what the source has left to give, and
-- `hashed` what the digest was fed with.
pub mod Ends
pub mod Digest
pub mod Covered
use sombrero.Base.{
  ℕ, zero, suc, ◌+◌, ◌-◌, Bool, true, false, not, ◌&&◌, ◌||◌, Option, none, some, List, [], ◌∷◌,
  ◌++◌, ltb, ◌==◌, if◌then◌else◌, length, take, drop,
}
use sombrero.Transfer.Types.{Bytes, Header, Connection, Server, Directory, File}
use sombrero.Transfer.Wire.{Wire, Decoder}
use sombrero.Transfer.Encoding.{bytes_eq, decode_header}
use sombrero.Transfer.Records.{decode_connection, decode_server, decode_directory, decode_file}
use sombrero.Transfer.Writer.{
  magic, version, max_record_size, kind_end, kind_header, kind_directory, kind_file,
  kind_connection, kind_server,
}

-- `stuck` is no error of the source: the loop of `Next` ran out of fuel.
pub data ReadError : Type 0 where
  not_a_transfer unsupported_version truncated corrupted : ReadError
  too_large bad_record misplaced stuck : ReadError

module _ (w : Wire) where
  pub record Reader : Type 0 where
    pub input : Bytes
    pub hashed : Bytes
    pub header : Option (Header w.Time w.Sealed)
    pub connection : Option (Connection w.Time w.Sealed)
    pub server : Option (Server w.Time w.Sealed)
    pub dirs : ℕ
    pub files : ℕ
    pub done : Bool
    pub pending : Option (ℕ × Bytes)

  pub data Item : Type 0 where
    directory : Directory w.Time w.Sealed → Item
    file : File w.Time w.Sealed → Item

  pub data Read (A : Type 0) : Type 0 where
    ok : A → Read A
    failed : ReadError → Read A

-- `io.ReadFull`: as many bytes as are asked for and those behind them, or none.
unfoldable pub read_full : ℕ → Bytes → Option (Bytes × Bytes)
read_full n bs = if ltb (length bs) n then none else some (take n bs, drop n bs)

-- A decoder that met an error gives zero.
abbrev pub or_zero : Option (ℕ × Bytes) → ℕ
or_zero none = 0
or_zero (some (n, rest)) = n

abbrev pub left : Option (ℕ × Bytes) → Bytes
left none = []
left (some (n, rest)) = rest

module _ (w : Wire) (sha256 : Bytes → Bytes) where
  abbrev pub Result : Type 0 → Type 0
  Result A = Read w A × Reader w

  unfoldable pub next : Reader w → Result (ℕ × Bytes)
  next r = elim (read_full 9 r.input) [
    | none ↦ (failed truncated, record r { input = [] })
    | some (head, rest) ↦
        let read_kind = w.uint8.read head in
        let kind = or_zero read_kind in
        let size = or_zero (w.uint64.read (left read_kind)) in
        let behind = record r { input = rest } in
        if ltb max_record_size size
        then (failed too_large, behind)
        else elim (read_full size rest) as (λ _. Result (ℕ × Bytes)) [
          | none ↦ (failed truncated, record r { input = [] })
          | some (payload, rest') ↦
              let hashed = if kind == kind_end then r.hashed else r.hashed ++ (head ++ payload) in
              (ok (kind, payload), record r { input = rest'; hashed = hashed })
        ]
  ]

  -- A record's payload, which is whole or nothing.
  unfoldable pub decode : {A : Type 0} → Bytes → Decoder A → Option A
  decode payload d = elim (d payload) [ none ↦ none | some (a, rest) ↦ some a ]

  unfoldable pub end_of : Bytes → Reader w → Read w (Unit {0}) × Reader w
  end_of payload r =
      let read_dirs = w.uint64.read payload in
      let read_files = w.uint64.read (left read_dirs) in
      let r' = record r { dirs = or_zero read_dirs; files = or_zero read_files } in
      elim read_dirs as (λ _. Read w (Unit {0}) × Reader w) [
        | none ↦ (failed truncated, record r' { files = 0 })
        | some _ ↦ elim read_files as (λ _. Read w (Unit {0}) × Reader w) [
          | none ↦ (failed truncated, r')
          | some (files, rest) ↦
              elim ((w.raw 32).read rest) as (λ _. Read w (Unit {0}) × Reader w) [
                | none ↦ (failed truncated, r')
                | some (digest, _) ↦
                    if not (bytes_eq digest (sha256 r.hashed))
                    then (failed corrupted, r')
                    else (ok tt, record r' { done = true })
              ]
        ]
      ]

  -- What is to be looked at next: the record read ahead, or another from the source.
  unfoldable pub upcoming : Reader w → Result (ℕ × Bytes)
  upcoming r = elim r.pending [
    | some waiting ↦ (ok waiting, record r { pending = none })
    | none ↦ next r
  ]

  -- The next folder or file, or none at the end of the stream. Each round but one takes a record from
  -- the source.
  unfoldable pub next_item_fuel : ℕ → Reader w → Result (Option (Item w))
  next_item_fuel zero r = (failed stuck, r)
  next_item_fuel (suc fuel) r =
      let (got, r') = upcoming r in
      elim r.done as (λ _. Result (Option (Item w))) [
        | true ↦ (ok none, r)
        | false ↦ elim got as (λ _. Result (Option (Item w))) [
          | failed e ↦ (failed e, r')
          | ok (kind, payload) ↦
              let further = next_item_fuel fuel r' in
              if (kind == kind_connection) || (kind == kind_server)
              then (failed misplaced, r')
              else if kind == kind_end
              then (let (ended, r'') = end_of payload r' in
                  elim ended as (λ _. Result (Option (Item w))) [
                    | failed e ↦ (failed e, r'')
                    | ok _ ↦ (ok none, r'')
                  ])
              else if kind == kind_directory
              then elim (decode payload (decode_directory w)) as (λ _. Result (Option (Item w))) [
                | none ↦ (failed bad_record, r')
                | some d ↦ (ok (some (directory d)), r')
              ]
              else if kind == kind_file
              then elim (decode payload (decode_file w)) as (λ _. Result (Option (Item w))) [
                | none ↦ (failed bad_record, r')
                | some f ↦ (ok (some (file f)), r')
              ]
              else further
        ]
      ]

  unfoldable pub next_item : Reader w → Result (Option (Item w))
  next_item r = next_item_fuel (suc (suc (length r.input))) r

  abbrev pub started : Bytes → Reader w
  started input = record {
    input = input;
    hashed = [];
    header = none;
    connection = none;
    server = none;
    dirs = 0;
    files = 0;
    done = false;
    pending = none;
  }

  -- What opens a stream, and what follows it of those bytes.
  unfoldable pub read_magic : Bytes → Option ReadError
  read_magic head = elim (w.text.read head) [
    | none ↦ some not_a_transfer
    | some (name, rest) ↦
        let read_version = w.uint8.read rest in
        if not (bytes_eq name magic)
        then some not_a_transfer
        else if ltb version (or_zero read_version)
        then some unsupported_version
        else elim read_version as (λ _. Option ReadError) [
          | none ↦ some not_a_transfer
          | some _ ↦ none
        ]
  ]

  -- What says what the stream belongs to, if anything does, or else the first folder or file.
  unfoldable pub read_ahead : Reader w → Result (Unit {0})
  read_ahead r =
      let (got, r') = next r in
      elim got as (λ _. Result (Unit {0})) [
        | failed e ↦ (failed e, r')
        | ok (kind, payload) ↦
            if kind == kind_connection
            then elim (decode payload (decode_connection w)) as (λ _. Result (Unit {0})) [
              | none ↦ (failed bad_record, r')
              | some c ↦ (ok tt, record r' { connection = some c })
            ]
            else if kind == kind_server
            then elim (decode payload (decode_server w)) as (λ _. Result (Unit {0})) [
              | none ↦ (failed bad_record, r')
              | some s ↦ (ok tt, record r' { server = some s })
            ]
            else (ok tt, record r' { pending = some (kind, payload) })
      ]

  unfoldable pub read_header : Reader w → Result (Unit {0})
  read_header r =
      let (got, r') = next r in
      elim got as (λ _. Result (Unit {0})) [
        | failed e ↦ (failed e, r')
        | ok (kind, payload) ↦
            if not (kind == kind_header)
            then (failed not_a_transfer, r')
            else elim (decode payload (decode_header w)) as (λ _. Result (Unit {0})) [
              | none ↦ (failed bad_record, r')
              | some header ↦ read_ahead (record r' { header = some header })
            ]
      ]

  unfoldable pub new_reader : Bytes → Result (Unit {0})
  new_reader input = elim (read_full (8 + length magic + 1) input) [
    | none ↦ (failed not_a_transfer, started [])
    | some (head, rest) ↦
        let r = record (started rest) { hashed = head } in
        elim (read_magic head) as (λ _. Result (Unit {0})) [
          | some e ↦ (failed e, r)
          | none ↦ read_header r
        ]
  ]

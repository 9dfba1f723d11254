-- ===== src/Transfer/Writer.antt =====
-- transfer/encoding.go: the writer of a stream. `takes` says whether the sink takes the bytes that it is
-- handed after those before; what of a write that failed reached it is not modelled, as nothing is
-- written after one. The digest is fed with `hashed`.
use sombrero.Base.{
  ℕ, ◌+◌, Bool, true, false, not, ◌||◌, Option, none, some, [], ◌∷◌, ◌++◌, ltb, if◌then◌else◌,
  length,
}
use sombrero.Transfer.Types.{Bytes, Header, Connection, Server, Directory, File}
use sombrero.Transfer.Wire.{Wire}
use sombrero.Transfer.Encoding.{encode_header}
use sombrero.Transfer.Records.{encode_connection, encode_server, encode_directory, encode_file}
use sombrero.Transfer.Valid.{valid_directory, valid_connection, valid_server, valid_file}

-- "sombrero/transfer".
abbrev pub magic : Bytes
magic =
    115 ∷ 111 ∷ 109 ∷ 98 ∷ 114 ∷ 101 ∷ 114 ∷ 111 ∷ 47 ∷ 116 ∷ 114 ∷ 97 ∷ 110 ∷ 115 ∷ 102 ∷ 101 ∷ 114
    ∷ []

abbrev pub version : ℕ
version = 1

abbrev pub max_record_size : ℕ
max_record_size = 67108864

abbrev pub kind_end : ℕ
kind_end = 0

abbrev pub kind_header : ℕ
kind_header = 1

abbrev pub kind_directory : ℕ
kind_directory = 2

abbrev pub kind_file : ℕ
kind_file = 3

abbrev pub kind_connection : ℕ
kind_connection = 4

abbrev pub kind_server : ℕ
kind_server = 5

pub data WriteError : Type 0 where
  sink_failed closed_already too_large invalid said_already misplaced : WriteError

pub record Writer : Type 0 where
  pub out : Bytes
  pub hashed : Bytes
  pub dirs : ℕ
  pub files : ℕ
  pub connected : Bool
  pub server : Bool
  pub err : Option WriteError
  pub done : Bool

-- The error that a call comes back with, if any, and the writer after it.
abbrev pub Outcome : Type 0
Outcome = Option WriteError × Writer

abbrev pub Sink : Type 0
Sink = Bytes → Bytes → Bool

abbrev pub first_error : Option WriteError → WriteError → Option WriteError
first_error none e = some e
first_error (some old) e = some old

unfoldable pub fail : WriteError → Writer → Outcome
fail e tw = let err = first_error tw.err e in (err, record tw { err = err })

module _ (w : Wire) where
  unfoldable pub frame : ℕ → Bytes → Bytes
  frame kind payload =
      w.uint8.write kind
      ++ (w.uint64.write (length payload) ++ (w.raw (length payload)).write payload)

  -- The digest is that of all before the end record.
  unfoldable pub end_payload : (Bytes → Bytes) → Writer → Bytes
  end_payload sha256 tw =
      w.uint64.write tw.dirs ++ (w.uint64.write tw.files ++ (w.raw 32).write (sha256 tw.hashed))

unfoldable pub write : Sink → Bytes → Writer → Outcome
write takes p tw = elim tw.err [
  | some e ↦ (some e, tw)
  | none ↦
      if not (takes tw.out p)
      then fail sink_failed tw
      else (none, record tw { out = tw.out ++ p; hashed = tw.hashed ++ p })
]

abbrev pub opened : Writer
opened = record {
  out = [];
  hashed = [];
  dirs = 0;
  files = 0;
  connected = false;
  server = false;
  err = none;
  done = false;
}

-- What a record that was written adds to the writer.
abbrev pub noting : (Writer → Writer) → Outcome → Outcome
noting f (none, tw) = (none, f tw)
noting f (some e, tw) = (some e, tw)

abbrev pub has_entries : Writer → Bool
has_entries tw = ltb 0 tw.dirs || ltb 0 tw.files

module _ (takes : Sink) (w : Wire) where
  unfoldable pub write_record : ℕ → Bytes → Writer → Outcome
  write_record kind payload tw = elim tw.err [
    | some e ↦ (some e, tw)
    | none ↦
        if tw.done
        then (some closed_already, tw)
        else if ltb max_record_size (length payload)
        then fail too_large tw
        else write takes (frame w kind payload) tw
  ]

  unfoldable pub new_writer : Header w.Time w.Sealed → Outcome
  new_writer header =
      let (failed, tw) = write takes (w.text.write magic ++ w.uint8.write version) opened in
      elim failed [
        | some e ↦ (some e, tw)
        | none ↦ write_record kind_header (encode_header w header) tw
      ]

  unfoldable pub write_connection : Connection w.Time w.Sealed → Writer → Outcome
  write_connection c tw =
      if not (valid_connection w.Time w.Sealed c)
      then (some invalid, tw)
      else if tw.connected || tw.server
      then (some said_already, tw)
      else if has_entries tw
      then (some misplaced, tw)
      else noting (λ t. record t { connected = true })
          (write_record kind_connection (encode_connection w c) tw)

  unfoldable pub write_server : Server w.Time w.Sealed → Writer → Outcome
  write_server s tw =
      if not (valid_server w.Time w.Sealed s)
      then (some invalid, tw)
      else if tw.connected || tw.server
      then (some said_already, tw)
      else if has_entries tw
      then (some misplaced, tw)
      else noting (λ t. record t { server = true })
          (write_record kind_server (encode_server w s) tw)

  unfoldable pub write_directory : Directory w.Time w.Sealed → Writer → Outcome
  write_directory d tw =
      if not (valid_directory w.Time w.Sealed d)
      then (some invalid, tw)
      else if tw.server
      then (some misplaced, tw)
      else noting (λ t. record t { dirs = t.dirs + 1 })
          (write_record kind_directory (encode_directory w d) tw)

  unfoldable pub write_file : File w.Time w.Sealed → Writer → Outcome
  write_file f tw =
      if not (valid_file w.Time w.Sealed f)
      then (some invalid, tw)
      else if tw.server
      then (some misplaced, tw)
      else noting (λ t. record t { files = t.files + 1 })
          (write_record kind_file (encode_file w f) tw)

  -- The end record goes to the sink directly.
  unfoldable pub close : (Bytes → Bytes) → Writer → Outcome
  close sha256 tw = elim tw.err [
    | some e ↦ (some e, tw)
    | none ↦
        if tw.done
        then (some closed_already, tw)
        else (let end = frame w kind_end (end_payload w sha256 tw) in
            if takes tw.out end
            then (none, record tw { done = true; out = tw.out ++ end })
            else (some sink_failed, record tw { done = true }))
  ]

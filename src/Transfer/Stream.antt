-- ===== src/Transfer/Stream.antt =====
-- transfer/encoding.go: a stream as a sequence of records, written and read.
pub mod Frames
pub mod Items
pub mod Written
pub mod Ahead
pub mod Roundtrip
use sombrero.Base.{
  ℕ, zero, suc, ◌+◌, Bool, true, false, Option, none, some, List, [], ◌∷◌, ◌++◌, ◌≡◌, if◌then◌else◌,
}
use sombrero.Transfer.Types.{Bytes, Header, Connection, Server, Directory, File}
use sombrero.Transfer.Wire.{Wire}
use sombrero.Transfer.Writer.{
  Sink, Writer, WriteError, Outcome, new_writer, write_connection, write_server, write_directory,
  write_file, close,
}
use sombrero.Transfer.Reader.{
  Reader, Read, ok, failed, stuck, Item, directory, file, next_item, new_reader,
}

-- What a stream says that it belongs to.
pub data Subject (w : Wire) : Type 0 where
  nobody : Subject w
  whole_connection : Connection w.Time w.Sealed → Subject w
  whole_server : Server w.Time w.Sealed → Subject w

-- What a stream tells whoever reads it to the end.
pub record Contents (w : Wire) : Type 0 where
  pub header : Option (Header w.Time w.Sealed)
  pub connection : Option (Connection w.Time w.Sealed)
  pub server : Option (Server w.Time w.Sealed)
  pub items : List (Item w)
  pub dirs : ℕ
  pub files : ℕ

-- A call after another, where the one before reported no error.
infixr 1 ◌and_then◌
abbrev pub ◌and_then◌ : Outcome → (Writer → Outcome) → Outcome
(none, tw) and_then f = f tw
(some e, tw) and_then f = (some e, tw)

module _ (takes : Sink) (w : Wire) where
  abbrev pub write_subject : Subject w → Writer → Outcome
  write_subject nobody tw = (none, tw)
  write_subject (whole_connection c) tw = write_connection takes w c tw
  write_subject (whole_server s) tw = write_server takes w s tw

  abbrev pub write_item : Item w → Writer → Outcome
  write_item (directory d) tw = write_directory takes w d tw
  write_item (file f) tw = write_file takes w f tw

  unfoldable pub write_items : List (Item w) → Writer → Outcome
  write_items [] tw = (none, tw)
  write_items (i ∷ rest) tw = write_item i tw and_then write_items rest

  -- A stream from its first byte to its last.
  unfoldable pub write_stream :
      (Bytes → Bytes) → Header w.Time w.Sealed → Subject w → List (Item w) → Outcome
  write_stream sha256 header subject items = new_writer takes w header and_then (λ tw.
      write_subject subject tw and_then (λ tw. write_items items tw and_then close takes w sha256))

module _ (w : Wire) (sha256 : Bytes → Bytes) where
  -- Folders and files up to the end of the stream, `n` of them at most.
  unfoldable pub read_items : ℕ → Reader w → Read w (List (Item w)) × Reader w
  read_items zero r = (failed stuck, r)
  read_items (suc n) r =
      let (got, r') = next_item w sha256 r in
      let (others, r'') = read_items n r' in
      elim got as (λ _. Read w (List (Item w)) × Reader w) [
        | failed e ↦ (failed e, r')
        | ok none ↦ (ok [], r')
        | ok (some i) ↦ elim others as (λ _. Read w (List (Item w)) × Reader w) [
          | failed e ↦ (failed e, r'')
          | ok is ↦ (ok (i ∷ is), r'')
        ]
      ]

  unfoldable pub read_stream : ℕ → Bytes → Read w (Contents w)
  read_stream n input =
      let (opened, r) = new_reader w sha256 input in
      let (got, r') = read_items n r in
      elim opened as (λ _. Read w (Contents w)) [
        | failed e ↦ failed e
        | ok _ ↦ elim got as (λ _. Read w (Contents w)) [
          | failed e ↦ failed e
          | ok items ↦ ok (record {
            header = r'.header;
            connection = r'.connection;
            server = r'.server;
            items = items;
            dirs = r'.dirs;
            files = r'.files;
          })
        ]
      ]

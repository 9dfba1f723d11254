-- ===== src/Transfer/Tests.antt =====
-- A small stream that is written and read, and the theorems at it.
mod Plain
use sombrero.Base.{
  ℕ, ◌+◌, ◌-◌, ◌≤◌, ◌<◌, ◌^◌, true, false, not, Option, none, some, List, [], ◌∷◌, ◌++◌, ◌≡◌, ◌≢◌,
  refl, length, replicate, arith,
}
use sombrero.Transfer.Types.{
  Bytes, Header, Connection, Share, Workgroup, Account, Policy, Directory, Source, Part, File,
}
use sombrero.Transfer.Encoding.{
  encode_header, encode_share, encode_workgroup, encode_account, encode_policy, encode_source,
}
use sombrero.Transfer.Records.{
  encode_connection, encode_directory, encode_file, encode_part, part_flags,
}
use sombrero.Transfer.Valid.{
  valid_path, valid_directory, valid_connection, valid_accounts, valid_file, valid_parts,
  valid_part, part_end, gaps, gaps_from,
}
use sombrero.Transfer.Valid.Parts.{in_gap, described, none_wraps, in_gap-gaps, valid_file-wraps}
use sombrero.Transfer.Writer.{
  Writer, Outcome, write, write_record, new_writer, write_connection, write_directory, write_file,
  close, frame, end_payload, fail,
}
use sombrero.Transfer.Reader.{
  Item, directory, file, ok, failed, stuck, not_a_transfer, Read, new_reader,
}
use sombrero.Transfer.Reader.Ends.{read_stream-ends}
use sombrero.Transfer.Reader.Digest.{IsCovered}
use sombrero.Transfer.Reader.Covered.{read_stream-IsCovered}
use sombrero.Transfer.Stream.{
  Subject, nobody, whole_connection, Contents, write_stream, write_items, read_stream,
}
use sombrero.Transfer.Stream.Roundtrip.{read_stream-write_stream, kept_contents}
use sombrero.Transfer.Tests.Plain.{plain, plain-IsWire}

-- A digest of 32 numbers.
abbrev digest : Bytes → Bytes
digest bs = length bs ∷ replicate 31 7

abbrev header : Header ℕ ℕ
header = record {
  created_at = 12;
  source = 115 ∷ [];
  origin = 111 ∷ [];
  share = 100 ∷ [];
  workgroup = 119 ∷ [];
}

abbrev share : Share ℕ ℕ
share = record {
  name = 100 ∷ [];
  kind = 105 ∷ [];
  server = 115 ∷ [];
  password = [];
  bucket = [];
  remark = [];
  created_at = 11;
  data_shards = 10;
  parity_shards = 20;
  allow_guest = false;
  allow_anonymous = true;
  public_dir = [];
  skip_backup = false;
}

abbrev connection : Connection ℕ ℕ
connection = record {
  share = share;
  workgroup = record { uuid = replicate 16 9; name = 119 ∷ []; public_dirs = [] };
  accounts = record { name = 97 ∷ []; password_hash = replicate 16 5; created_at = 3 } ∷ [];
  policies =
      record { account = 97 ∷ []; read = true; write = false; delete = false; execute = true } ∷ [];
  app_key = [];
}

abbrev docs : Directory ℕ ℕ
docs = record {
  path = 47 ∷ 100 ∷ [];
  owner = 97 ∷ [];
  private = true;
  read_only = false;
  created_at = 4;
  modified_at = 5;
}

abbrev fetched : Source
fetched = record { kind = 105 ∷ []; origin = 111 ∷ []; bucket = []; key = 107 ∷ [] }

-- Bytes 2 to 4 of the file, carried along, and bytes 6 to 9, to be fetched.
abbrev note : File ℕ ℕ
note = record {
  path = 47 ∷ 110 ∷ [];
  owner = 97 ∷ [];
  size = 12;
  created_at = 6;
  modified_at = 7;
  parts =
      record {
        offset = 2;
        data_offset = 0;
        length = 3;
        object = replicate 32 0;
        pin = none;
        source = none;
        inline = some (1 ∷ 2 ∷ 3 ∷ []);
      }
      ∷ record {
        offset = 6;
        data_offset = 8;
        length = 4;
        object = replicate 32 1;
        pin = some 44;
        source = some fetched;
        inline = none;
      }
      ∷ [];
}

abbrev items : List (Item plain)
items = directory docs ∷ file note ∷ []

abbrev sent : Outcome
sent = write_stream (λ before more. true) plain digest header (whole_connection connection) items

sent-none : sent ≡ (none, sent.1)
unfolding write_stream write_items new_writer write write_record write_connection write_directory
    write_file close frame end_payload fail valid_path valid_directory valid_connection
    valid_accounts valid_file valid_parts valid_part part_end encode_header encode_share
    encode_workgroup encode_account encode_policy encode_source encode_connection encode_directory
    encode_file encode_part part_flags
sent-none = refl

read_stream-write_stream_example :
    read_stream plain digest 3 (sent.1.out ++ (1 ∷ 2 ∷ []))
    ≡ ok (
        kept_contents
          (λ before more. true)
          plain
          plain-IsWire
          digest
          header
          (whole_connection connection)
          items)
read_stream-write_stream_example =
    read_stream-write_stream (λ before more. true) plain plain-IsWire digest header
      (whole_connection connection) items sent.1 (1 ∷ 2 ∷ []) (λ b. refl)
      ((omega arith, omega arith), refl)
      (
        tt,
        (
          (
            omega arith,
            (
              (omega arith, omega arith, omega arith, refl),
              ((omega arith, omega arith, omega arith, refl), tt),
            ),
          ),
          tt,
        ),
      )
      (omega arith) sent-none

abbrev nothing_sent : Outcome
nothing_sent = write_stream (λ before more. true) plain digest header nobody []

abbrev nothing : Contents plain
nothing = kept_contents (λ before more. true) plain plain-IsWire digest header nobody []

nothing_sent-read : read_stream plain digest 1 (nothing_sent.1.out ++ []) ≡ ok nothing
unfolding write_stream write_items new_writer write write_record close frame end_payload
    encode_header
nothing_sent-read =
    read_stream-write_stream (λ before more. true) plain plain-IsWire digest header nobody []
      nothing_sent.1 [] (λ b. refl) tt tt (omega arith) refl

read_stream-IsCovered_example : IsCovered plain digest (nothing_sent.1.out ++ [])
read_stream-IsCovered_example =
    read_stream-IsCovered plain digest 1 (nothing_sent.1.out ++ []) nothing nothing_sent-read

read_stream-ends_example : read_stream plain digest 3 (17 ∷ 0 ∷ []) ≢ failed stuck
read_stream-ends_example = read_stream-ends plain digest (17 ∷ 0 ∷ [])

in_gap-gaps_example : in_gap ℕ ℕ 5 (gaps ℕ ℕ note) ≡ not (described ℕ ℕ 5 note.parts)
unfolding valid_file valid_path valid_parts valid_part part_end none_wraps
in_gap-gaps_example = in_gap-gaps ℕ ℕ note 5 refl refl (omega arith)

abbrev beyond : Part ℕ ℕ
beyond = record {
  offset = 100;
  data_offset = 0;
  length = 18446744073709551526;
  object = replicate 32 0;
  pin = none;
  source = some fetched;
  inline = none;
}

abbrev short : File ℕ ℕ
short = record {
  path = 47 ∷ 110 ∷ [];
  owner = [];
  size = 12;
  created_at = 6;
  modified_at = 7;
  parts = beyond ∷ [];
}

valid_file-wraps_example : (valid_file ℕ ℕ short ≡ true) × (described ℕ ℕ 100 short.parts ≡ true)
unfolding valid_path
valid_file-wraps_example =
    valid_file-wraps ℕ ℕ short beyond refl refl (omega arith) (omega arith) (omega arith)
      (omega arith) (omega arith) refl refl

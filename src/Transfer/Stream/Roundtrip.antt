-- ===== src/Transfer/Stream/Roundtrip.antt =====
-- transfer/encoding.go: a stream that was written is read back.
use sombrero.Base.{
  suc, ◌≤◌, ◌<◌, ◌^◌, Option, none, some, List, [], ◌∷◌, ◌++◌, ◌≡◌, refl, ap, ◌∙◌, map, All, length,
  append_assoc, append-nil, arith, length-append,
}
use sombrero.Transfer.Types.{Bytes, Header, Connection, Server}
use sombrero.Transfer.Wire.{Wire, IsWire}
use sombrero.Transfer.Encoding.{encode_header, decode_header}
use sombrero.Transfer.Writer.{
  Sink, Writer, frame, end_payload, magic, version, max_record_size, kind_header,
}
use sombrero.Transfer.Reader.{
  Reader, ok, Item, directory, file, decode, read_ahead, read_header, new_reader, started,
}
use sombrero.Transfer.Readback.{header-Reads, kept_header}
use sombrero.Transfer.Readback.Contents.{kept_connection, kept_server}
use sombrero.Transfer.Stream.{
  Subject, nobody, whole_connection, whole_server, Contents, write_stream, read_stream,
}
use sombrero.Transfer.Stream.Frames.{at, next-frame, read_full-append}
use sombrero.Transfer.Stream.Items.{ItemFits, kept_item, read_items-frames}
use sombrero.Transfer.Stream.Written.{
  subject_frames, opening, body, described, end_frame, dirs_in, files_in, write_stream-done,
}
use sombrero.Transfer.Stream.Ahead.{
  SubjectFits, opening-magic, after_subject, remaining, subject-ahead,
}

module _ (takes : Sink) (w : Wire) (h : IsWire w) (sha256 : Bytes → Bytes) where
  end_payload-small :
      (tw : Writer)
      → length (sha256 tw.hashed) ≡ 32
      → length (end_payload w sha256 tw) ≤ max_record_size
  unfolding end_payload
  end_payload-small tw width =
      let digest = (w.raw 32).write (sha256 tw.hashed) in
      let raw : length digest ≡ 32 = ap length (h.raw_write 32 (sha256 tw.hashed)) ∙ width in
      omega (
        arith,
        raw,
        h.uint64_width tw.dirs,
        h.uint64_width tw.files,
        length-append {0} (w.uint64.write tw.files) digest,
        length-append {0} (w.uint64.write tw.dirs) (w.uint64.write tw.files ++ digest),
      )

  -- The start of a stream, up to the subject.
  new_reader-header :
      (header : Header w.Time w.Sealed) (rest : Bytes)
      → length (encode_header w header) ≤ max_record_size
      → new_reader w sha256
          (opening takes w ++ (frame w kind_header (encode_header w header) ++ rest))
        ≡ read_ahead w sha256 (
            at w h sha256
              (record (started w sha256 []) { header = some (kept_header w h header) })
              rest
              (opening takes w ++ frame w kind_header (encode_header w header)))
  unfolding new_reader read_header decode
  new_reader-header header rest small =
      let f = frame w kind_header (encode_header w header) in
      let width : length (opening takes w) ≡ 26 = omega (
        arith,
        length-append {0} (w.text.write magic) (w.uint8.write version),
        h.text_width magic,
        h.uint8_width version,
      ) in
      let start = read_full-append 26 (opening takes w) (f ++ rest) width in
      let ours = opening-magic takes w h sha256 in
      let got =
        next-frame w h sha256 (started w sha256 []) kind_header (encode_header w header) rest
          (opening takes w) (omega arith) small in
      let back = ap (λ b. decode_header w b) (append-nil (encode_header w header)) in
      let whole = header-Reads w h header [] in ground (arith, start, ours, got, back, whole)

  abbrev connection_of : Subject w → Option (Connection w.Time w.Sealed)
  connection_of nobody = none
  connection_of (whole_connection c) = some (kept_connection w h c)
  connection_of (whole_server s) = none

  abbrev server_of : Subject w → Option (Server w.Time w.Sealed)
  server_of nobody = none
  server_of (whole_connection c) = none
  server_of (whole_server s) = some (kept_server w h s)

  -- What the subject leaves in a reader that knew of none.
  after_subject-fields :
      (s : Subject w) (r : Reader w)
      → r.connection ≡ none
      → r.server ≡ none
      → ((after_subject takes w h sha256 s r).header ≡ r.header)
        × ((after_subject takes w h sha256 s r).connection ≡ connection_of s)
        × ((after_subject takes w h sha256 s r).server ≡ server_of s)
        × ((after_subject takes w h sha256 s r).done ≡ r.done)
  after_subject-fields nobody r c d = (refl, c, d, refl)
  after_subject-fields (whole_connection c) r _ d = (refl, refl, d, refl)
  after_subject-fields (whole_server s) r c _ = (refl, c, refl, refl)

  -- What a stream tells of what was written to it.
  abbrev pub kept_contents : Header w.Time w.Sealed → Subject w → List (Item w) → Contents w
  kept_contents header subject items = record {
    header = some (kept_header w h header);
    connection = connection_of subject;
    server = server_of subject;
    items = map (kept_item w h sha256) items;
    dirs = dirs_in takes w items;
    files = files_in takes w items;
  }

  -- The parts of a stream side by side.
  stream-parts :
      (header : Header w.Time w.Sealed) (subject : Subject w) (items : List (Item w)) (rest : Bytes)
      → (body takes w header subject items ++ end_frame takes w sha256 header subject items) ++ rest
        ≡ opening takes w
          ++ (frame w kind_header (encode_header w header)
              ++ (subject_frames takes w subject
                  ++ remaining takes w h sha256 items
                      (end_payload w sha256 (described takes w header subject items))
                      rest))
  stream-parts header subject items rest = simp append_assoc refl

  counts-le :
      (items : List (Item w))
      → (dirs_in takes w items ≤ length items) × (files_in takes w items ≤ length items)
  counts-le [] = (omega arith, omega arith)
  counts-le (directory d ∷ is) = let rest = counts-le is in omega arith
  counts-le (file f ∷ is) = let rest = counts-le is in omega arith

-- A stream that the writer reports no error of, of records whose numbers fit what they are written in,
-- is read back to the end: the header, what it belongs to, every folder and file in order and the
-- counts of them, whatever follows it on the source. Times come back as the library keeps them
-- and in UTC.
pub read_stream-write_stream :
    (takes : Sink) (w : Wire) (h : IsWire w) (sha256 : Bytes → Bytes)
    (header : Header w.Time w.Sealed) (subject : Subject w) (items : List (Item w)) (tw : Writer)
    (rest : Bytes)
    → ((b : Bytes) → length (sha256 b) ≡ 32)
    → SubjectFits w subject
    → All (ItemFits w) items
    → length items < 2 ^ 64
    → write_stream takes w sha256 header subject items ≡ (none, tw)
    → read_stream w sha256 (suc (length items)) (tw.out ++ rest)
      ≡ ok (kept_contents takes w h sha256 header subject items)
unfolding read_stream
read_stream-write_stream takes w h sha256 header subject items tw rest width fits item_fits few e =
    let (out, small, subject_small, smalls) =
      write_stream-done takes w sha256 header subject items tw e in
    let end = described takes w header subject items in
    let payload = end_payload w sha256 end in
    let start = opening takes w ++ frame w kind_header (encode_header w header) in
    let base : Reader w = record (started w sha256 []) { header = some (kept_header w h header) } in
    let whole =
      ap (λ b. new_reader w sha256 (b ++ rest)) out
      ∙ ap (new_reader w sha256) (stream-parts takes w h sha256 header subject items rest) in
    let payload_small = end_payload-small takes w h sha256 end (width end.hashed) in
    let (r, ahead, live, upcoming_same) =
      subject-ahead takes w h sha256 subject items base payload rest start fits payload_small smalls
        subject_small refl in
    let opened_ok = whole ∙ new_reader-header takes w h sha256 header _ small ∙ ahead in
    let counts = counts-le takes w h sha256 items in
    let (header', connection', server', done') =
      after_subject-fields takes w h sha256 subject base refl refl in
    let read =
      read_items-frames w h sha256 items end r (after_subject takes w h sha256 subject base) rest
        (start ++ subject_frames takes w subject) (width end.hashed) (omega arith) (omega arith)
        payload_small refl item_fits smalls live done' upcoming_same in
    ground (arith, opened_ok, read, header', connection', server')

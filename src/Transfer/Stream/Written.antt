-- ===== src/Transfer/Stream/Written.antt =====
-- transfer/encoding.go: what the writer has put on the stream once its calls reported no error.
use sombrero.Base.{
  ℕ, suc, ◌+◌, ◌≤◌, false, none, List, [], ◌∷◌, ◌++◌, ◌≡◌, All, length, append_assoc, append-nil,
  arith,
}
use sombrero.Transfer.Types.{Bytes, Header}
use sombrero.Transfer.Wire.{Wire}
use sombrero.Transfer.Encoding.{encode_header}
use sombrero.Transfer.Records.{encode_directory, encode_file, encode_connection, encode_server}
use sombrero.Transfer.Writer.{
  Sink, Writer, frame, end_payload, write, write_record, write_directory, write_file,
  write_connection, write_server, new_writer, close, fail, opened, magic, version, max_record_size,
  kind_end, kind_header, kind_directory, kind_file, kind_connection, kind_server,
}
use sombrero.Transfer.Reader.{Item, directory, file}
use sombrero.Transfer.Stream.{
  Subject, nobody, whole_connection, whole_server, write_item, write_items, write_subject,
  write_stream,
}
use sombrero.Transfer.Stream.Items.{frames, item_kind, encode_item, IsSmall}

-- A writer in order: no error, not closed, and everything written was fed to the digest.
pub record IsLive (tw : Writer) : Type 0 where
  pub no_error : tw.err ≡ none
  pub not_done : tw.done ≡ false
  pub all_hashed : tw.hashed ≡ tw.out

module _ (takes : Sink) (w : Wire) where
  abbrev pub appended : Bytes → Writer → Writer
  appended p tw = record tw { out = tw.out ++ p; hashed = tw.hashed ++ p }

  pub write_record-done :
      (kind : ℕ) (payload : Bytes) (tw tw' : Writer)
      → write_record takes w kind payload tw ≡ (none, tw')
      → (tw' ≡ appended (frame w kind payload) tw)
        × (length payload ≤ max_record_size)
        × (tw.err ≡ none)
        × (tw.done ≡ false)
  unfolding write_record write fail
  write_record-done kind payload tw tw' e = ground (arith, e)

  abbrev pub dirs_in : List (Item w) → ℕ
  dirs_in [] = 0
  dirs_in (directory d ∷ is) = suc (dirs_in is)
  dirs_in (file f ∷ is) = dirs_in is

  abbrev pub files_in : List (Item w) → ℕ
  files_in [] = 0
  files_in (directory d ∷ is) = files_in is
  files_in (file f ∷ is) = suc (files_in is)

  counts-cons :
      (i : Item w) (is : List (Item w))
      → (dirs_in (i ∷ is) ≡ dirs_in (i ∷ []) + dirs_in is)
        × (files_in (i ∷ is) ≡ files_in (i ∷ []) + files_in is)
  counts-cons (directory d) is = (omega arith, omega arith)
  counts-cons (file f) is = (omega arith, omega arith)

  write_item-done :
      (i : Item w) (tw tw' : Writer)
      → write_item takes w i tw ≡ (none, tw')
      → (tw' ≡ record (appended (frame w (item_kind w i) (encode_item w i)) tw) {
        dirs = tw.dirs + dirs_in (i ∷ []);
        files = tw.files + files_in (i ∷ []);
      })
        × IsSmall w i
  unfolding write_directory write_file
  write_item-done (directory d) tw tw' e =
      let r = write_record takes w kind_directory (encode_directory w d) tw in
      let done = write_record-done kind_directory (encode_directory w d) tw r.1 in
      ground (arith, e, done)
  write_item-done (file f) tw tw' e =
      let r = write_record takes w kind_file (encode_file w f) tw in
      let done = write_record-done kind_file (encode_file w f) tw r.1 in ground (arith, e, done)

  abbrev pub with_items : List (Item w) → Writer → Writer
  with_items items tw = record (appended (frames w items) tw) {
    dirs = tw.dirs + dirs_in items;
    files = tw.files + files_in items;
  }

  pub write_items-done :
      (items : List (Item w)) (tw tw' : Writer)
      → write_items takes w items tw ≡ (none, tw')
      → (tw' ≡ with_items items tw) × All (IsSmall w) items
  unfolding write_items frames
  write_items-done [] tw tw' e = ground (arith, e, append-nil tw.out, append-nil tw.hashed)
  write_items-done (i ∷ is) tw tw' e =
      let r = write_item takes w i tw in
      let one = write_item-done i tw r.1 in
      let others = write_items-done is r.1 tw' in
      let counts = counts-cons i is in
      let f = frame w (item_kind w i) (encode_item w i) in
      let out = append_assoc tw.out f (frames w is) in
      let hashed = append_assoc tw.hashed f (frames w is) in
      ground (arith, e, one, others, counts, out, hashed)

  abbrev pub subject_frames : Subject w → Bytes
  subject_frames nobody = []
  subject_frames (whole_connection c) = frame w kind_connection (encode_connection w c)
  subject_frames (whole_server s) = frame w kind_server (encode_server w s)

  abbrev pub IsSmallSubject : Subject w → Type 0
  IsSmallSubject nobody = Unit
  IsSmallSubject (whole_connection c) = length (encode_connection w c) ≤ max_record_size
  IsSmallSubject (whole_server s) = length (encode_server w s) ≤ max_record_size

  -- What a writer has put on the stream, whatever else it keeps.
  abbrev pub HasWritten : Bytes → ℕ → ℕ → Writer → Type 0
  HasWritten bs dirs files tw =
      (tw.out ≡ bs) × (tw.hashed ≡ bs) × (tw.dirs ≡ dirs) × (tw.files ≡ files)

  write_subject-done :
      (s : Subject w) (tw tw' : Writer) (bs : Bytes)
      → HasWritten bs 0 0 tw
      → write_subject takes w s tw ≡ (none, tw')
      → HasWritten (bs ++ subject_frames s) 0 0 tw' × IsSmallSubject s
  unfolding write_connection write_server
  write_subject-done nobody tw tw' bs has e =
      let whole = append-nil bs in ground (arith, has, e, whole)
  write_subject-done (whole_connection c) tw tw' bs has e =
      let r = write_record takes w kind_connection (encode_connection w c) tw in
      let done = write_record-done kind_connection (encode_connection w c) tw r.1 in
      ground (arith, has, e, done)
  write_subject-done (whole_server s) tw tw' bs has e =
      let r = write_record takes w kind_server (encode_server w s) tw in
      let done = write_record-done kind_server (encode_server w s) tw r.1 in
      ground (arith, has, e, done)

  abbrev pub opening : Bytes
  opening = w.text.write magic ++ w.uint8.write version

  new_writer-done :
      (header : Header w.Time w.Sealed) (tw : Writer)
      → new_writer takes w header ≡ (none, tw)
      → HasWritten (opening ++ frame w kind_header (encode_header w header)) 0 0 tw
        × length (encode_header w header) ≤ max_record_size
  unfolding new_writer write fail
  new_writer-done header tw e =
      let r = write takes opening opened in
      let done = write_record-done kind_header (encode_header w header) r.1 tw in
      ground (arith, e, done)

  -- All that is on a stream before the end record.
  abbrev pub body : Header w.Time w.Sealed → Subject w → List (Item w) → Bytes
  body header subject items =
      ((opening ++ frame w kind_header (encode_header w header)) ++ subject_frames subject)
      ++ frames w items

  -- The writer as its end record describes it.
  abbrev pub described : Header w.Time w.Sealed → Subject w → List (Item w) → Writer
  described header subject items = record opened {
    hashed = body header subject items;
    dirs = dirs_in items;
    files = files_in items;
  }

  close-done :
      (sha256 : Bytes → Bytes) (tw tw' : Writer) (bs : Bytes) (dirs files : ℕ)
      → HasWritten bs dirs files tw
      → close takes w sha256 tw ≡ (none, tw')
      → tw'.out
        ≡ bs
          ++ frame w kind_end
              (end_payload w sha256 (record opened { hashed = bs; dirs = dirs; files = files }))
  unfolding close end_payload
  close-done sha256 tw tw' bs dirs files has e =
      let (out, hashed, d, f) = has in ground (arith, e, out, hashed, d, f)

  abbrev pub end_frame :
      (Bytes → Bytes) → Header w.Time w.Sealed → Subject w → List (Item w) → Bytes
  end_frame sha256 header subject items =
      frame w kind_end (end_payload w sha256 (described header subject items))

  -- A stream that was written to its end with no error: all of it, and that each record fits.
  pub write_stream-done :
      (sha256 : Bytes → Bytes) (header : Header w.Time w.Sealed) (subject : Subject w)
      (items : List (Item w)) (tw : Writer)
      → write_stream takes w sha256 header subject items ≡ (none, tw)
      → (tw.out ≡ body header subject items ++ end_frame sha256 header subject items)
        × (length (encode_header w header) ≤ max_record_size)
        × IsSmallSubject subject
        × All (IsSmall w) items
  unfolding write_stream
  write_stream-done sha256 header subject items tw e =
      let a = new_writer takes w header in
      let b = write_subject takes w subject a.1 in
      let c = write_items takes w items b.1 in
      let ok_a : a ≡ (none, a.1) = ground (arith, e) in
      let ok_b : b ≡ (none, b.1) = ground (arith, e) in
      let ok_c : c ≡ (none, c.1) = ground (arith, e) in
      let ok_d : close takes w sha256 c.1 ≡ (none, tw) = ground (arith, e) in
      let bs = opening ++ frame w kind_header (encode_header w header) in
      let (has_a, small_a) = new_writer-done header a.1 ok_a in
      let (has_b, small_b) = write_subject-done subject a.1 b.1 bs has_a ok_b in
      let (all, small_c) = write_items-done items b.1 c.1 ok_c in
      let has_c : HasWritten (body header subject items) (dirs_in items) (files_in items) c.1 =
        ground (arith, all, has_b) in
      (
        close-done sha256 c.1 tw (body header subject items) (dirs_in items) (files_in items) has_c
            ok_d,
        small_a,
        small_b,
        small_c,
      )

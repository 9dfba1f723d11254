-- ===== src/Transfer/Stream/Ahead.antt =====
-- transfer/encoding.go: what a reader finds behind the header of a stream that was written.
use sombrero.Base.{
  ℕ, ◌≤◌, false, none, some, List, [], ◌∷◌, ◌++◌, ◌≡◌, refl, ap, sym, ◌∙◌, All, length,
  append_assoc, append-nil, arith,
}
use sombrero.Transfer.Types.{Bytes}
use sombrero.Transfer.Wire.{Wire, IsWire}
use sombrero.Transfer.Records.{encode_connection, encode_server, decode_connection, decode_server}
use sombrero.Transfer.Writer.{
  Sink, frame, magic, version, max_record_size, kind_end, kind_file, kind_connection, kind_server,
}
use sombrero.Transfer.Reader.{
  Reader, ok, Item, directory, file, next, upcoming, decode, read_magic, read_ahead,
}
use sombrero.Transfer.Readback.Contents.{
  connection-read, kept_connection, ConnectionFits, server-read, kept_server, ServerFits,
}
use sombrero.Transfer.Stream.{Subject, nobody, whole_connection, whole_server}
use sombrero.Transfer.Stream.Frames.{at, next-frame, bytes_eq_refl}
use sombrero.Transfer.Stream.Items.{frames, item_kind, encode_item, IsSmall, next-item}
use sombrero.Transfer.Stream.Written.{subject_frames, IsSmallSubject}

module _ (w : Wire) where
  abbrev pub SubjectFits : Subject w → Type 0
  SubjectFits nobody = Unit
  SubjectFits (whole_connection c) = ConnectionFits w.Time w.Sealed c
  SubjectFits (whole_server s) = ServerFits w.Time w.Sealed s

module _ (takes : Sink) (w : Wire) (h : IsWire w) (sha256 : Bytes → Bytes) where
  pub opening-magic : read_magic w sha256 (w.text.write magic ++ w.uint8.write version) ≡ none
  unfolding read_magic
  opening-magic =
      let name = h.text magic (w.uint8.write version) tt in
      let number = h.uint8 version [] (omega arith) in
      let last = ap w.uint8.read (append-nil (w.uint8.write version)) in
      let same = bytes_eq_refl magic in ground (arith, name, number, last, same)

  -- The reader once it has read what the stream belongs to.
  abbrev pub after_subject : Subject w → Reader w → Reader w
  after_subject nobody r = r
  after_subject (whole_connection c) r = record r { connection = some (kept_connection w h c) }
  after_subject (whole_server s) r = record r { server = some (kept_server w h s) }

  read_ahead-connection :
      (c : _) (r : Reader w) (rest fed : Bytes)
      → ConnectionFits w.Time w.Sealed c
      → length (encode_connection w c) ≤ max_record_size
      → read_ahead w sha256
          (at w h sha256 r (frame w kind_connection (encode_connection w c) ++ rest) fed)
        ≡ (
          ok tt,
          record (at w h sha256 r rest (fed ++ frame w kind_connection (encode_connection w c))) {
            connection = some (kept_connection w h c);
          },
        )
  unfolding read_ahead decode
  read_ahead-connection c r rest fed fits small =
      let got =
        next-frame w h sha256 r kind_connection (encode_connection w c) rest fed (omega arith)
          small in
      let back = ap (λ b. decode_connection w b) (append-nil (encode_connection w c)) in
      let whole = connection-read w h c [] fits in ground (arith, got, back, whole)

  read_ahead-server :
      (s : _) (r : Reader w) (rest fed : Bytes)
      → ServerFits w.Time w.Sealed s
      → length (encode_server w s) ≤ max_record_size
      → read_ahead w sha256 (at w h sha256 r (frame w kind_server (encode_server w s) ++ rest) fed)
        ≡ (
          ok tt,
          record (at w h sha256 r rest (fed ++ frame w kind_server (encode_server w s))) {
            server = some (kept_server w h s);
          },
        )
  unfolding read_ahead decode
  read_ahead-server s r rest fed fits small =
      let got =
        next-frame w h sha256 r kind_server (encode_server w s) rest fed (omega arith) small in
      let back = ap (λ b. decode_server w b) (append-nil (encode_server w s)) in
      let whole = server-read w h s [] fits in ground (arith, got, back, whole)

  -- A record of another kind waits to be asked for.
  read_ahead-other :
      (kind : ℕ) (payload : Bytes) (r r' : Reader w)
      → kind ≤ kind_file
      → next w sha256 r ≡ (ok (kind, payload), r')
      → read_ahead w sha256 r ≡ (ok tt, record r' { pending = some (kind, payload) })
  unfolding read_ahead
  read_ahead-other kind payload r r' other e = ground (arith, e)

  -- The records that follow the subject: those of the items, and the end.
  abbrev pub remaining : List (Item w) → Bytes → Bytes → Bytes
  remaining items payload rest = frames w items ++ (frame w kind_end payload ++ rest)

  first_record :
      (items : List (Item w)) (r : Reader w) (payload rest fed : Bytes)
      → length payload ≤ max_record_size
      → All (IsSmall w) items
      → (kind : ℕ) × (first : Bytes) × (r' : Reader w) × (kind ≤ kind_file)
        × (next w sha256 (at w h sha256 r (remaining items payload rest) fed)
            ≡ (ok (kind, first), r'))
        × (r' ≡ record r' { pending = none })
        × (r'.done ≡ r.done)
  unfolding frames
  first_record [] r payload rest fed small smalls = (
    kind_end,
    payload,
    at w h sha256 r rest fed,
    omega arith,
    next-frame w h sha256 r kind_end payload rest fed (omega arith) small,
    refl,
    refl,
  )
  first_record (i ∷ is) r payload rest fed small (here, smalls) =
      let f = frame w (item_kind w i) (encode_item w i) in
      let more = remaining is payload rest in
      let apart = append_assoc f (frames w is) (frame w kind_end payload ++ rest) in
      (
        item_kind w i,
        encode_item w i,
        at w h sha256 r more (fed ++ f),
        kind_small i,
        ap (λ b. next w sha256 (at w h sha256 r b fed)) apart
            ∙ next-item w h sha256 i r more fed here,
        refl,
        refl,
      )
    where
      kind_small : (i : Item w) → item_kind w i ≤ kind_file
      kind_small (directory d) = omega arith
      kind_small (file f) = omega arith

  pub subject-ahead :
      (s : Subject w) (items : List (Item w)) (r : Reader w) (payload rest fed : Bytes)
      → SubjectFits w s
      → length payload ≤ max_record_size
      → All (IsSmall w) items
      → IsSmallSubject takes w s
      → r.done ≡ false
      → (r' : Reader w) × (read_ahead w sha256
            (at w h sha256 r (subject_frames takes w s ++ remaining items payload rest) fed)
          ≡ (ok tt, r'))
        × (r'.done ≡ false)
        × (upcoming w sha256 r'
            ≡ upcoming w sha256 (
                at w h sha256
                  (after_subject s r)
                  (remaining items payload rest)
                  (fed ++ subject_frames takes w s)))
  unfolding upcoming
  subject-ahead nobody items r payload rest fed fits small smalls subject_small live =
      let (kind, first, r', other, got, clean, same) =
        first_record items r payload rest fed small smalls in
      let waiting : Reader w = record r' { pending = some (kind, first) } in
      let none_fed =
        ap (λ b. next w sha256 (at w h sha256 r (remaining items payload rest) b))
          (append-nil fed) in
      (
        waiting,
        read_ahead-other kind first (at w h sha256 r (remaining items payload rest) fed) r' other
            got,
        same ∙ live,
        ap (λ (x : Reader w). (ok (kind, first), x)) (sym clean) ∙ sym (none_fed ∙ got),
      )
  subject-ahead (whole_connection c) items r payload rest fed fits small smalls subject_small live =
      (
        record (at w h sha256 r (remaining items payload rest)
            (fed ++ frame w kind_connection (encode_connection w c))) {
              connection = some (kept_connection w h c);
            },
        read_ahead-connection c r (remaining items payload rest) fed fits subject_small,
        live,
        refl,
      )
  subject-ahead (whole_server s) items r payload rest fed fits small smalls subject_small live = (
    record (at w h sha256 r (remaining items payload rest)
        (fed ++ frame w kind_server (encode_server w s))) { server = some (kept_server w h s) },
    read_ahead-server s r (remaining items payload rest) fed fits subject_small,
    live,
    refl,
  )

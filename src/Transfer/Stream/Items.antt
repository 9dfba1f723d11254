-- ===== src/Transfer/Stream/Items.antt =====
-- transfer/encoding.go: the folders and files of a stream, one call of `Next` after another.
use sombrero.Base.{
  ℕ, suc, ◌≤◌, ◌<◌, ◌^◌, true, false, none, some, List, [], ◌∷◌, ◌++◌, ◌≡◌, refl, ap, sym, ◌∙◌, map,
  All, length, append_assoc, append-nil, arith,
}
use sombrero.Transfer.Types.{Bytes}
use sombrero.Transfer.Wire.{Wire, IsWire}
use sombrero.Transfer.Records.{encode_directory, encode_file, decode_directory, decode_file}
use sombrero.Transfer.Writer.{
  frame, end_payload, Writer, max_record_size, kind_end, kind_directory, kind_file,
}
use sombrero.Transfer.Reader.{
  Reader, ok, Item, directory, file, next, upcoming, decode, next_item, next_item_fuel,
}
use sombrero.Transfer.Readback.Contents.{
  directory-read, file-read, kept_directory, kept_file, FileFits,
}
use sombrero.Transfer.Stream.{read_items}
use sombrero.Transfer.Stream.Frames.{at, next-frame, end_of-end_payload}

module _ (w : Wire) where
  abbrev pub item_kind : Item w → ℕ
  item_kind (directory d) = kind_directory
  item_kind (file f) = kind_file

  abbrev pub encode_item : Item w → Bytes
  encode_item (directory d) = encode_directory w d
  encode_item (file f) = encode_file w f

  -- The records of the folders and files, one behind the other.
  unfoldable pub frames : List (Item w) → Bytes
  frames [] = []
  frames (i ∷ is) = frame w (item_kind i) (encode_item i) ++ frames is

  abbrev pub ItemFits : Item w → Type 0
  ItemFits (directory d) = Unit
  ItemFits (file f) = FileFits w.Time w.Sealed f

  abbrev pub IsSmall : Item w → Type 0
  IsSmall i = length (encode_item i) ≤ max_record_size

module _ (w : Wire) (h : IsWire w) (sha256 : Bytes → Bytes) where
  -- An item as it is read back.
  abbrev pub kept_item : Item w → Item w
  kept_item (directory d) = directory (kept_directory w h d)
  kept_item (file f) = file (kept_file w h f)

  next_item-item :
      (i : Item w) (r r' : Reader w)
      → ItemFits w i
      → r.done ≡ false
      → upcoming w sha256 r ≡ (ok (item_kind w i, encode_item w i), r')
      → next_item w sha256 r ≡ (ok (some (kept_item i)), r')
  unfolding next_item next_item_fuel decode
  next_item-item (directory d) r r' fits live e =
      let back = ap (λ b. decode_directory w b) (append-nil (encode_directory w d)) in
      let whole = directory-read w h d [] in ground (arith, live, e, back, whole)
  next_item-item (file f) r r' fits live e =
      let back = ap (λ b. decode_file w b) (append-nil (encode_file w f)) in
      let whole = file-read w h f [] fits in ground (arith, live, e, back, whole)

  next_item-end :
      (tw : Writer) (r r' : Reader w)
      → (length (sha256 tw.hashed) ≡ 32)
      → tw.dirs < 2 ^ 64
      → tw.files < 2 ^ 64
      → r.done ≡ false
      → r'.hashed ≡ tw.hashed
      → upcoming w sha256 r ≡ (ok (kind_end, end_payload w sha256 tw), r')
      → next_item w sha256 r
        ≡ (ok none, record r' { dirs = tw.dirs; files = tw.files; done = true })
  unfolding next_item next_item_fuel
  next_item-end tw r r' width few_dirs few_files live same e =
      let ended = end_of-end_payload w h sha256 r' tw width few_dirs few_files same in
      ground (arith, live, e, ended)

  pub next-item :
      (i : Item w) (r : Reader w) (rest fed : Bytes)
      → IsSmall w i
      → next w sha256 (at w h sha256 r (frame w (item_kind w i) (encode_item w i) ++ rest) fed) ≡ (
        ok (item_kind w i, encode_item w i),
        at w h sha256 r rest (fed ++ frame w (item_kind w i) (encode_item w i)),
      )
  next-item (directory d) r rest fed small =
      next-frame w h sha256 r kind_directory (encode_directory w d) rest fed (omega arith) small
  next-item (file f) r rest fed small =
      next-frame w h sha256 r kind_file (encode_file w f) rest fed (omega arith) small

  abbrev finished : Reader w → Bytes → Writer → Reader w
  finished r rest tw = record (at w h sha256 r rest tw.hashed) {
    dirs = tw.dirs;
    files = tw.files;
    done = true;
  }

  -- A reader that has the records of some items ahead of it, and the end record behind them.
  pub read_items-frames :
      (items : List (Item w)) (tw : Writer) (r r' : Reader w) (rest fed : Bytes)
      → (length (sha256 tw.hashed) ≡ 32)
      → tw.dirs < 2 ^ 64
      → tw.files < 2 ^ 64
      → length (end_payload w sha256 tw) ≤ max_record_size
      → tw.hashed ≡ fed ++ frames w items
      → All (ItemFits w) items
      → All (IsSmall w) items
      → r.done ≡ false
      → r'.done ≡ false
      → upcoming w sha256 r
        ≡ upcoming w sha256 (
            at w h sha256 r'
              (frames w items ++ (frame w kind_end (end_payload w sha256 tw) ++ rest))
              fed)
      → read_items w sha256 (suc (length items)) r ≡ (ok (map kept_item items), finished r' rest tw)
  unfolding read_items frames upcoming
  read_items-frames [] tw r r' rest fed width few_dirs few_files small whole fits smalls live live'
        e =
      let first =
        next-frame w h sha256 r' kind_end (end_payload w sha256 tw) rest fed (omega arith) small in
      let fed_all : fed ≡ tw.hashed = sym (whole ∙ append-nil fed) in
      let ended =
        next_item-end tw r (at w h sha256 r' rest fed) width few_dirs few_files live fed_all
          (e ∙ first) in
      ground (arith, ended, fed_all)
  read_items-frames (i ∷ is) tw r r' rest fed width few_dirs few_files small whole fits smalls live
        live' e =
      let more = frames w is ++ (frame w kind_end (end_payload w sha256 tw) ++ rest) in
      let fed' = fed ++ frame w (item_kind w i) (encode_item w i) in
      let apart =
        append_assoc (frame w (item_kind w i) (encode_item w i)) (frames w is)
          (frame w kind_end (end_payload w sha256 tw) ++ rest) in
      let ahead : upcoming w sha256 r
          ≡ (ok (item_kind w i, encode_item w i), at w h sha256 r' more fed') =
        e
        ∙ ap (λ b. next w sha256 (at w h sha256 r' b fed)) apart
        ∙ next-item i r' more fed smalls.0 in
      let got = next_item-item i r (at w h sha256 r' more fed') fits.0 live ahead in
      let others =
        read_items-frames is tw (at w h sha256 r' more fed') r' rest fed' width few_dirs few_files
          small
          (whole ∙ sym (append_assoc fed (frame w (item_kind w i) (encode_item w i)) (frames w is)))
          fits.1 smalls.1 live' live' refl in
      ground (arith, got, others)

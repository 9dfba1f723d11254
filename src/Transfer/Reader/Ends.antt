-- ===== src/Transfer/Reader/Ends.antt =====
-- transfer/encoding.go: the rounds of `Next`, and the fuel that they take.
use sombrero.Base.{
  length-drop, ℕ, zero, suc, ◌≤◌, ◌<◌, Bool, true, false, Option, none, some, [], ◌≡◌, ◌≢◌, refl,
  take, drop, length, arith, ◌⊎◌, inl,
}
use sombrero.Transfer.Types.{Bytes}
use sombrero.Transfer.Wire.{Wire}
use sombrero.Transfer.Encoding.{decode_header}
use sombrero.Transfer.Stream.{read_items, read_stream}
use sombrero.Transfer.Reader.{
  new_reader, started, read_header, read_ahead, read_magic, Reader, Read, ok, failed, stuck, Item,
  read_full, next, upcoming, next_item_fuel, next_item, end_of, decode, or_zero, left,
}

module _ (w : Wire) (sha256 : Bytes → Bytes) where
  abbrev errs : {A : Type 0} → Read w A → Bool
  errs (ok a) = false
  errs (failed e) = true

  abbrev payload_of : Read w (ℕ × Bytes) → Bytes
  payload_of (ok (kind, payload)) = payload
  payload_of (failed e) = []

  -- A record takes nine bytes of the source at least.
  next-shorter :
      (r : Reader w)
      → (errs (next w sha256 r).0 ≡ true)
        ⊎ ((length (next w sha256 r).1.input < length r.input)
            × ((next w sha256 r).1.pending ≡ r.pending))
  unfolding next read_full
  next-shorter r =
      let size = or_zero (w.uint64.read (left (w.uint8.read (take 9 r.input)))) in
      let nine = length-drop {0} 9 r.input in
      let behind = length-drop {0} size (drop 9 r.input) in ground (arith, nine, behind)

  abbrev left_to_read : Reader w → ℕ
  left_to_read r = elim r.pending [ none ↦ length r.input | some _ ↦ suc (length r.input) ]

  next-ends : (r : Reader w) → (next w sha256 r).0 ≢ failed stuck
  unfolding next
  next-ends r e = ground (arith, e)

  upcoming-shorter :
      (r : Reader w)
      → (errs (upcoming w sha256 r).0 ≡ true)
        ⊎ (left_to_read (upcoming w sha256 r).1 < left_to_read r)
  unfolding upcoming
  upcoming-shorter r = let shorter = next-shorter r in ground (arith, shorter)

  upcoming-ends : (r : Reader w) → (upcoming w sha256 r).0 ≢ failed stuck
  unfolding upcoming
  upcoming-ends r e = let ends = next-ends r in ground (arith, e, ends)

  end_of-ends : (payload : Bytes) (r : Reader w) → (end_of w sha256 payload r).0 ≢ failed stuck
  unfolding end_of
  end_of-ends payload r e = ground (arith, e)

  next_item_fuel-ends :
      (fuel : ℕ) (r : Reader w)
      → left_to_read r < fuel
      → (next_item_fuel w sha256 fuel r).0 ≢ failed stuck
  unfolding next_item_fuel decode
  next_item_fuel-ends zero r few e = omega arith
  next_item_fuel-ends (suc fuel) r few e =
      let r' = (upcoming w sha256 r).1 in
      let ends = next_item_fuel-ends fuel r' in
      let shorter = upcoming-shorter r in
      let started = upcoming-ends r in
      let ended = end_of-ends (payload_of (upcoming w sha256 r).0) r' in
      ground (arith, e, few, ends, shorter, started, ended)

  -- What of a stream is no more than an error or its end.
  abbrev no_item : Read w (Option (Item w)) → Bool
  no_item (failed e) = true
  no_item (ok none) = true
  no_item (ok (some i)) = false

  next_item_fuel-shorter :
      (fuel : ℕ) (r : Reader w)
      → (no_item (next_item_fuel w sha256 fuel r).0 ≡ true)
        ⊎ (left_to_read (next_item_fuel w sha256 fuel r).1 < left_to_read r)
  unfolding next_item_fuel decode
  next_item_fuel-shorter zero r = inl refl
  next_item_fuel-shorter (suc fuel) r =
      let rest = next_item_fuel-shorter fuel (upcoming w sha256 r).1 in
      let shorter = upcoming-shorter r in ground (arith, rest, shorter)

  next_item-ends : (r : Reader w) → (next_item w sha256 r).0 ≢ failed stuck
  unfolding next_item
  next_item-ends r e =
      let ends = next_item_fuel-ends (suc (suc (length r.input))) r in ground (arith, ends)

  read_items-ends :
      (n : ℕ) (r : Reader w) → left_to_read r < n → (read_items w sha256 n r).0 ≢ failed stuck
  unfolding read_items next_item
  read_items-ends zero r few e = omega arith
  read_items-ends (suc n) r few e =
      let rest = read_items-ends n (next_item w sha256 r).1 in
      let ends = next_item-ends r in
      let shorter = next_item_fuel-shorter (suc (suc (length r.input))) r in
      ground (arith, rest, ends, shorter)

  read_ahead-shorter :
      (r : Reader w)
      → r.pending ≡ none
      → (errs (read_ahead w sha256 r).0 ≡ true)
        ⊎ (left_to_read (read_ahead w sha256 r).1 ≤ length r.input)
  unfolding read_ahead decode
  read_ahead-shorter r fresh = let shorter = next-shorter r in ground (arith, shorter, fresh)

  read_header-shorter :
      (r : Reader w)
      → r.pending ≡ none
      → (errs (read_header w sha256 r).0 ≡ true)
        ⊎ (left_to_read (read_header w sha256 r).1 ≤ length r.input)
  unfolding read_header
  read_header-shorter r fresh =
      let got = next w sha256 r in
      let header = decode w sha256 (payload_of got.0) (decode_header w) in
      let shorter = next-shorter r in
      let ahead = read_ahead-shorter (record got.1 { header = header }) in
      ground (arith, shorter, ahead, fresh)

  -- What a reader that was opened has left is less than the source held.
  new_reader-shorter :
      (input : Bytes)
      → (errs (new_reader w sha256 input).0 ≡ true)
        ⊎ (left_to_read (new_reader w sha256 input).1 ≤ length input)
  unfolding new_reader read_full
  new_reader-shorter input =
      let behind = length-drop {0} 26 input in
      let opened = record (started w sha256 (drop 26 input)) { hashed = take 26 input } in
      let shorter = read_header-shorter opened refl in ground (arith, behind, shorter)

  read_header-ends : (r : Reader w) → (read_header w sha256 r).0 ≢ failed stuck
  unfolding read_header read_ahead
  read_header-ends r e =
      let got = next w sha256 r in
      let header = decode w sha256 (payload_of got.0) (decode_header w) in
      let ends = next-ends r in
      let ahead = next-ends (record got.1 { header = header }) in ground (arith, ends, ahead)

  read_magic-ends : (head : Bytes) → read_magic w sha256 head ≢ some stuck
  unfolding read_magic
  read_magic-ends head e = ground arith

  new_reader-ends : (input : Bytes) → (new_reader w sha256 input).0 ≢ failed stuck
  unfolding new_reader read_full
  new_reader-ends input e =
      let opened = record (started w sha256 (drop 26 input)) { hashed = take 26 input } in
      let magic_ends = read_magic-ends (take 26 input) in
      let ends = read_header-ends opened in ground (arith, ends, magic_ends)

-- Reading a source to the end takes no more than one round for each of its bytes and one more, whatever
-- the source holds: what is told is what was read, or an error of the reader.
pub read_stream-ends :
    (w : Wire) (sha256 : Bytes → Bytes) (input : Bytes)
    → read_stream w sha256 (suc (length input)) input ≢ failed stuck
unfolding read_stream
read_stream-ends w sha256 input e =
    let opened = new_reader w sha256 input in
    let opens = new_reader-ends w sha256 input in
    let shorter = new_reader-shorter w sha256 input in
    let ends = read_items-ends w sha256 (suc (length input)) opened.1 in
    ground (arith, opens, shorter, ends)

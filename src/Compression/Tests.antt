-- ===== src/Compression/Tests.antt =====
-- A stream of a literal and of a match that runs into itself, and the theorems at it.
use sombrero.Base.{◌≤◌, [], ◌∷◌, ◌≡◌, refl, true, length, get_elem?, arith}
use sombrero.Compression.Decoder.{
  Bytes, done, refused, invalid_offset, unexpected_eof, decompress, decode_fuel, refill, read_item,
  read_literal, read_match, read_length, read_nibble, read_u8, read_u16, read_u32, copy_match,
}
use sombrero.Compression.Decoder.Copy.{copy_match-repeats}
use sombrero.Compression.Decoder.Limit.{settled, decompress-settled, decompress-within}

-- Two literals, and a match of six bytes from two before.
abbrev packed : Bytes
packed = 0 ∷ 0 ∷ 0 ∷ 63 ∷ 97 ∷ 98 ∷ 11 ∷ 0 ∷ []

abbrev unpacked : Bytes
unpacked = 97 ∷ 98 ∷ 97 ∷ 98 ∷ 97 ∷ 98 ∷ 97 ∷ 98 ∷ []

packed-unpacked : decompress packed 0 ≡ done unpacked
unfolding decompress decode_fuel refill read_item read_literal read_match read_length read_nibble
    read_u8 read_u16 read_u32 copy_match
packed-unpacked = refl

cut_short : decompress (0 ∷ 0 ∷ 0 ∷ 0 ∷ 97 ∷ []) 0 ≡ refused unexpected_eof
unfolding decompress decode_fuel refill read_item read_literal read_u8 read_u32
cut_short = refl

before_the_start : decompress (255 ∷ 255 ∷ 255 ∷ 255 ∷ 11 ∷ 0 ∷ []) 0 ≡ refused invalid_offset
unfolding decompress decode_fuel refill read_item read_match read_u16 read_u32
before_the_start = refl

decompress-settled_example : settled (decompress packed 8) ≡ true
decompress-settled_example = decompress-settled packed 8

decompress-within_example : length unpacked ≤ 8
unfolding decompress decode_fuel refill read_item read_literal read_match read_length read_nibble
    read_u8 read_u16 read_u32 copy_match
decompress-within_example = decompress-within packed 8 unpacked (omega arith) refl

copy_match-repeats_example :
    (get_elem? unpacked 1 ≡ get_elem? (97 ∷ 98 ∷ []) 1)
    × (get_elem? unpacked 5 ≡ get_elem? unpacked 3)
unfolding copy_match
copy_match-repeats_example =
    copy_match-repeats 6 2 5 1 (97 ∷ 98 ∷ []) unpacked (omega arith) (omega arith) refl
      (omega arith) (omega arith) (omega arith)

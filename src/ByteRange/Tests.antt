-- ===== src/ByteRange/Tests.antt =====
-- Tests of the byte ranges, and the theorems at inputs that meet their hypotheses.
use sombrero.Base.{ℕ, ◌+◌, ◌-◌, ◌^◌, ◌<◌, ◌≡◌, ◌↔◌, refl, true, false, arith}
use sombrero.ByteRange.Overlap.{Covers, overlaps_iff_common, overlaps_empty, overlaps_last_byte}
use sombrero.ByteRange.{ByteRange, overlaps, max_uint64}

abbrev at : ℕ → ℕ → ByteRange
at offset length = record { offset = offset; length = length }

-- A range that runs off the end is cut there, and does not cover the start of the file.
cut_at_the_end : overlaps (at (2 ^ 64 - 2) 10) (at 0 5) ≡ false
unfolding overlaps
cut_at_the_end = refl

overlaps_iff_common_example :
    (overlaps (at 0 10) (at 5 10) ≡ true)
    ↔ ((x : ℕ) × (x < max_uint64) × Covers (at 0 10) x × Covers (at 5 10) x)
overlaps_iff_common_example =
    overlaps_iff_common (at 0 10) (at 5 10) (omega arith) (omega arith) (omega arith) (omega arith)

overlaps_empty_example : (overlaps (at 3 0) (at 0 10) ≡ true) ↔ ((0 < 3) × (3 < 0 + 10))
overlaps_empty_example =
    overlaps_empty (at 3 0) (at 0 10) (omega arith) (omega arith) refl (omega arith)

overlaps_last_byte_example : overlaps (at max_uint64 1) (at max_uint64 1) ≡ false
overlaps_last_byte_example =
    overlaps_last_byte (at max_uint64 1) (at max_uint64 1) (omega arith) (omega arith) (omega arith)
      refl

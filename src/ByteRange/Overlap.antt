-- ===== src/ByteRange/Overlap.antt =====
-- What `overlaps` decides: a byte in common below the last offset, or an empty range strictly
-- inside the other.
use sombrero.Base.{ℕ, ◌+◌, ◌≤◌, ◌<◌, ◌^◌, ◌≡◌, ◌↔◌, max, true, false, arith}
use sombrero.ByteRange.{ByteRange, end, overlaps, range_eq, max_uint64}

-- Both numbers are ones that a `uint64` holds.
pub record IsWord (r : ByteRange) : Type 0 where
  pub offset_fits : r.offset < 2 ^ 64
  pub length_fits : r.length < 2 ^ 64

-- The byte at an offset lies in the range, counted without any bound.
abbrev pub Covers : ByteRange → ℕ → Type 0
Covers r x = (r.offset ≤ x) × (x < r.offset + r.length)

-- `overlaps` is symmetric.
pub overlaps_symm : (r s : ByteRange) → overlaps r s ≡ overlaps s r
unfolding overlaps
overlaps_symm r s = ground arith

-- The saturated end of a range is what it covers, cut at the largest offset.
pub end_saturates :
    (r : ByteRange) → IsWord r → (x : ℕ) → x < max_uint64 → (x < end r) ↔ (x < r.offset + r.length)
unfolding end
end_saturates r w x h = ground arith

pub range_eq_iff : (r s : ByteRange) → (range_eq r s ≡ true) ↔ (r ≡ s)
unfolding range_eq
range_eq_iff r s = ground arith

pub overlaps_of_common :
    (r s : ByteRange) (x : ℕ)
    → IsWord r
    → IsWord s
    → x < max_uint64
    → Covers r x
    → Covers s x
    → overlaps r s ≡ true
unfolding overlaps
overlaps_of_common r s x wr ws h a b = ground arith

pub common_of_overlaps :
    (r s : ByteRange)
    → IsWord r
    → IsWord s
    → 0 < r.length
    → 0 < s.length
    → overlaps r s ≡ true
    → (x : ℕ) × (x < max_uint64) × Covers r x × Covers s x
unfolding overlaps
common_of_overlaps r s wr ws hr hs e =
    (max r.offset s.offset, ground arith, ground arith, ground arith)

-- A range that covers a byte overlaps another one exactly when they cover a byte in common that is
-- not the last a 64-bit offset names.
pub overlaps_iff_common :
    (r s : ByteRange)
    → IsWord r
    → IsWord s
    → 0 < r.length
    → 0 < s.length
    → (overlaps r s ≡ true) ↔ ((x : ℕ) × (x < max_uint64) × Covers r x × Covers s x)
overlaps_iff_common r s wr ws hr hs =
    (common_of_overlaps r s wr ws hr hs, λ t. overlaps_of_common r s t.0 wr ws t.1 t.2 t.3)

-- An empty range overlaps a range that covers bytes exactly when it sits strictly inside it, and
-- it overlaps no empty range.
pub overlaps_empty :
    (r s : ByteRange)
    → IsWord r
    → IsWord s
    → r.length ≡ 0
    → r.offset < max_uint64
    → (overlaps r s ≡ true) ↔ ((s.offset < r.offset) × (r.offset < s.offset + s.length))
unfolding overlaps
overlaps_empty r s wr ws hr h = ground arith

-- A range that starts at the last offset overlaps nothing, itself included, however long it is.
pub overlaps_last_byte :
    (r s : ByteRange)
    → IsWord r
    → IsWord s
    → 0 < r.length
    → r.offset ≡ max_uint64
    → overlaps r s ≡ false
unfolding overlaps
overlaps_last_byte r s wr ws hr h = ground arith

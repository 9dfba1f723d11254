-- ===== src/ByteRange.antt =====
-- lock.go: `byteRange`, the stretch of a file that a lock names. Offsets and lengths are 64-bit.
pub mod Overlap
mod Tests
use sombrero.Base.{ℕ, ◌+◌, ◌-◌, ◌%◌, ◌^◌, Bool, true, false, ◌&&◌, ltb, ◌==◌, if◌then◌else◌}

pub record ByteRange : Type 0 where
  pub offset : ℕ
  pub length : ℕ

-- `math.MaxUint64`.
abbrev pub max_uint64 : ℕ
max_uint64 = 2 ^ 64 - 1

-- `uint64` addition.
abbrev pub add64 : ℕ → ℕ → ℕ
add64 a b = (a + b) % 2 ^ 64

pub end : ByteRange → ℕ
end r = if ltb (add64 r.offset r.length) r.offset then max_uint64 else add64 r.offset r.length

unfoldable pub overlaps : ByteRange → ByteRange → Bool
unfolding end
overlaps r other =
    if (r.length == 0) && (other.length == 0)
    then false
    else if r.length == 0
    then ltb other.offset r.offset && ltb r.offset (end other)
    else if other.length == 0
    then ltb r.offset other.offset && ltb other.offset (end r)
    else ltb r.offset (end other) && ltb other.offset (end r)

unfoldable pub range_eq : ByteRange → ByteRange → Bool
range_eq r other = (r.offset == other.offset) && (r.length == other.length)

-- ===== src/Message/Words.antt =====
-- encoding/binary and the slices that a message is read and written with: words with the least byte
-- first, and what an index out of range comes to, which is a panic.
pub mod Overwrite
use sombrero.Base.{
  ℕ, zero, suc, ◌+◌, ◌-◌, ◌*◌, ◌/◌, ◌%◌, ◌&&◌, List, [], ◌∷◌, leb, if◌then◌else◌, take, drop,
  length,
}

abbrev pub Bytes : Type 0
Bytes = List ℕ

-- The errors of the parsers. `stuck` is none of the source: a loop ran out of fuel.
pub data MessageError : Type 0 where
  wrong_length wrong_format wrong_protocol encrypted_message compressed_message : MessageError
  related_requests mixed_requests unaligned_requests stuck : MessageError

pub data Answer (A : Type 0) : Type 0 where
  done : A → Answer A
  refused : MessageError → Answer A
  panics : Answer A

infixl 5 ◌>>=◌
abbrev pub ◌>>=◌ : {A B : Type 0} → Answer A → (A → Answer B) → Answer B
◌>>=◌ (done a) f = f a
◌>>=◌ (refused e) f = refused e
◌>>=◌ panics f = panics

abbrev pub le_read : ℕ → Bytes → ℕ
le_read zero bs = 0
le_read (suc n) [] = 0
le_read (suc n) (b ∷ bs) = b + 256 * le_read n bs

abbrev pub le_write : ℕ → ℕ → Bytes
le_write zero v = []
le_write (suc n) v = v % 256 ∷ le_write n (v / 256)

-- `copy`: as many bytes as both have.
abbrev pub overwrite : Bytes → Bytes → Bytes
overwrite [] xs = xs
overwrite (b ∷ bs) [] = []
overwrite (b ∷ bs) (x ∷ xs) = b ∷ overwrite bs xs

abbrev pub overwrite_at : ℕ → Bytes → Bytes → Bytes
overwrite_at zero bs xs = overwrite bs xs
overwrite_at (suc off) bs [] = []
overwrite_at (suc off) bs (x ∷ xs) = x ∷ overwrite_at off bs xs

-- `data[from:to]` and `data[from:]`.
unfoldable pub slice : ℕ → ℕ → Bytes → Answer Bytes
slice from to bytes =
    if leb from to && leb to (length bytes)
    then done (take (to - from) (drop from bytes))
    else panics

unfoldable pub slice_from : ℕ → Bytes → Answer Bytes
slice_from from bytes = if leb from (length bytes) then done (drop from bytes) else panics

-- The word of `n` bytes at an offset, read and written.
unfoldable pub get : ℕ → ℕ → Bytes → Answer ℕ
get off n bytes = if leb (off + n) (length bytes) then done (le_read n (drop off bytes)) else panics

unfoldable pub put : ℕ → ℕ → ℕ → Bytes → Answer Bytes
put off n v bytes =
    if leb (off + n) (length bytes) then done (overwrite_at off (le_write n v) bytes) else panics

unfoldable pub get_bytes : ℕ → ℕ → Bytes → Answer Bytes
get_bytes off n bytes = slice off (off + n) bytes

unfoldable pub put_bytes : ℕ → ℕ → Bytes → Bytes → Answer Bytes
put_bytes off n bs bytes =
    if leb (off + n) (length bytes) then done (overwrite_at off (take n bs) bytes) else panics

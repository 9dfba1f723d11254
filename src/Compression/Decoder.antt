-- ===== src/Compression/Decoder.antt =====
-- compress/lz77/lz77.go: `Decompress`. `input` is what is left of the compressed bytes, and the decoder's
-- reads take from its front.
pub mod Copy
pub mod Limit
use sombrero.Base.{
  ℕ, zero, suc, ◌+◌, ◌-◌, ◌*◌, ◌/◌, ◌%◌, ◌^◌, Bool, true, false, not, ◌&&◌, ◌||◌, Option, none,
  some, List, [], ◌∷◌, ◌++◌, ltb, leb, ◌==◌, if◌then◌else◌, length, get_elem?, bit_and,
}

abbrev pub Bytes : Type 0
Bytes = List ℕ

pub data DecodeError : Type 0 where
  invalid_format unexpected_eof invalid_offset stuck : DecodeError

-- `panics` is an index out of range.
pub data Answer (A : Type 0) : Type 0 where
  done : A → Answer A
  refused : DecodeError → Answer A
  panics : Answer A

infixl 5 ◌>>=◌
abbrev pub ◌>>=◌ : {A B : Type 0} → Answer A → (A → Answer B) → Answer B
◌>>=◌ (done a) f = f a
◌>>=◌ (refused e) f = refused e
◌>>=◌ panics f = panics

abbrev pub window_size : ℕ
window_size = 8192

abbrev pub min_match : ℕ
min_match = 3

pub record Decoder : Type 0 where
  pub input : Bytes
  pub out : Bytes
  pub flags : ℕ
  pub flag_count : ℕ
  pub have_high_nibble : Bool
  pub saved_nibble_byte : ℕ

-- `readU8`, `readU16` and `readU32`.
unfoldable pub read_u8 : Decoder → Answer (ℕ × Decoder)
read_u8 d = elim d.input [
  | [] ↦ refused unexpected_eof
  | b ∷ rest ↦ done (b, record d { input = rest })
]

unfoldable pub read_u16 : Decoder → Answer (ℕ × Decoder)
read_u16 d = elim d.input [
  | a ∷ b ∷ rest ↦ done (a + 256 * b, record d { input = rest })
  | _ ↦ refused unexpected_eof
]

unfoldable pub read_u32 : Decoder → Answer (ℕ × Decoder)
read_u32 d = elim d.input [
  | a ∷ b ∷ c ∷ e ∷ rest ↦ done (a + 256 * (b + 256 * (c + 256 * e)), record d { input = rest })
  | _ ↦ refused unexpected_eof
]

-- Four bits of a length: the low half of a byte, then its high half.
unfoldable pub read_nibble : Decoder → Answer (ℕ × Decoder)
read_nibble d =
    if d.have_high_nibble
    then done (d.saved_nibble_byte / 16, record d { have_high_nibble = false })
    else (do
      (b, d') ← read_u8 d
      done (b % 16, record d' { saved_nibble_byte = b; have_high_nibble = true }))

-- A length of sixteen bits, or of thirty-two behind a zero.
unfoldable pub read_wide_length : Decoder → Answer (ℕ × Decoder)
read_wide_length d = do
  (v16, d') ← read_u16 d
  (m, d'') ← (if not (v16 == 0) then done (v16, d') else read_u32 d')
  if ltb m (15 + 7) then refused invalid_format else done (m + min_match, d'')

unfoldable pub read_length : ℕ → Decoder → Answer (ℕ × Decoder)
read_length base_len d = if ltb base_len 7 then done (base_len + min_match, d) else (do
  (nib, d') ← read_nibble d
  if ltb nib 15 then done (nib + 7 + min_match, d') else (do
    (b, d'') ← read_u8 d'
    if ltb b 255 then done (b + 15 + 7 + min_match, d'') else read_wide_length d''))

-- A match, a byte at a time, so that it may run into what it writes.
unfoldable pub copy_match : ℕ → ℕ → Bytes → Answer Bytes
copy_match zero src_pos out = done out
copy_match (suc n) src_pos out = elim (get_elem? out src_pos) [
  | none ↦ panics
  | some b ↦ copy_match n (suc src_pos) (out ++ b ∷ [])
]

abbrev pub over : ℕ → ℕ → Bool
over limit n = ltb 0 limit && ltb limit n

unfoldable pub read_literal : ℕ → Decoder → Answer Decoder
read_literal limit d = do
  (b, d') ← read_u8 d
  let out = d'.out ++ b ∷ []
  if over limit (length out) then refused invalid_format else done (record d' { out = out })

unfoldable pub read_match : ℕ → Decoder → Answer Decoder
read_match limit d = do
  (tok, d') ← read_u16 d
  let offset = tok / 8 + 1
  if ltb window_size offset || ltb (length d'.out) offset then refused invalid_offset else (do
    (n, d'') ← read_length (bit_and tok 7) d'
    if over limit (length d''.out + n) then refused invalid_format else (do
      out ← copy_match n (length d''.out - offset) d''.out
      done (record d'' { out = out })))

-- A round of the loop with a flag to look at: the decoder after it, or none at the end of the stream.
unfoldable pub read_item : ℕ → Decoder → Answer (Option Decoder)
read_item limit d =
    let flag_count = d.flag_count - 1 in
    let d' = record d { flag_count = flag_count } in
    if (d.flags / 2 ^ flag_count) % 2 == 0
    then (do d'' ← read_literal limit d'; done (some d''))
    else elim d.input as (λ _. Answer (Option Decoder)) [
      | [] ↦ done none
      | _ ∷ _ ↦ do d'' ← read_match limit d'; done (some d'')
    ]

unfoldable pub refill : Decoder → Answer (Option Decoder)
refill d =
    if not (d.flag_count == 0)
    then done (some d)
    else elim d.input as (λ _. Answer (Option Decoder)) [
      | [] ↦ done none
      | _ ∷ _ ↦ do
        (flags, d') ← read_u32 d
        done (some (record d' { flags = flags; flag_count = 32 }))
    ]

-- The loop of `Decompress`.
unfoldable pub decode_fuel : ℕ → ℕ → Decoder → Answer Bytes
decode_fuel zero limit d = refused stuck
decode_fuel (suc fuel) limit d = do
  ready ← refill d
  elim ready [
    | none ↦ done d.out
    | some d' ↦ do
      next ← read_item limit d'
      elim next [ none ↦ done d'.out | some d'' ↦ decode_fuel fuel limit d'' ]
  ]

unfoldable pub decompress : Bytes → ℕ → Answer Bytes
decompress src limit = decode_fuel (suc (length src)) limit (record {
  input = src;
  out = [];
  flags = 0;
  flag_count = 0;
  have_high_nibble = false;
  saved_nibble_byte = 0;
})

-- ===== src/Compression/Decoder/Limit.antt =====
-- compress/lz77/lz77.go: the rounds of the decoder, and its limit.
use sombrero.Base.{
  ℕ, zero, suc, ◌+◌, ◌-◌, ◌≤◌, ◌<◌, ◌/◌, Bool, true, false, Option, none, some, [], ◌≡◌, ap, ◌∙◌,
  length, arith, bit_and, ◌⊎◌,
}
use sombrero.Compression.Decoder.{
  Bytes, Answer, done, refused, panics, stuck, Decoder, read_u8, read_u16, read_u32, read_nibble,
  read_wide_length, read_length, copy_match, over, read_literal, read_match, read_item, refill,
  decode_fuel, decompress,
}
use sombrero.Compression.Decoder.Copy.{copy_match-copies}

-- An answer that the code gives: no index is out of range, and no loop runs on.
abbrev pub settled : {A : Type 0} → Answer A → Bool
settled (done a) = true
settled (refused stuck) = false
settled (refused e) = true
settled panics = false

abbrev token : Answer (ℕ × Decoder) → ℕ
token (done (n, d)) = n
token (refused e) = 0
token panics = 0

-- The decoder after a read.
abbrev after : {A : Type 0} → Decoder → Answer (A × Decoder) → Decoder
after d (done (a, d')) = d'
after d (refused e) = d
after d panics = d

read_nibble-kept :
    (d : Decoder)
    → (settled (read_nibble d) ≡ true)
      × (length (after d (read_nibble d)).input ≤ length d.input)
      × ((after d (read_nibble d)).out ≡ d.out)
unfolding read_nibble read_u8
read_nibble-kept d = ground arith

read_u8-kept :
    (d : Decoder)
    → (settled (read_u8 d) ≡ true)
      × (length (after d (read_u8 d)).input ≤ length d.input)
      × ((after d (read_u8 d)).out ≡ d.out)
unfolding read_u8
read_u8-kept d = ground arith

read_wide_length-kept :
    (d : Decoder)
    → (settled (read_wide_length d) ≡ true)
      × (length (after d (read_wide_length d)).input ≤ length d.input)
      × ((after d (read_wide_length d)).out ≡ d.out)
unfolding read_wide_length read_u16 read_u32
read_wide_length-kept d = ground arith

read_length-kept :
    (n : ℕ) (d : Decoder)
    → (settled (read_length n d) ≡ true)
      × (length (after d (read_length n d)).input ≤ length d.input)
      × ((after d (read_length n d)).out ≡ d.out)
unfolding read_length
read_length-kept n d =
    let d' = after d (read_nibble d) in
    let d'' = after d' (read_u8 d') in
    let nibble = read_nibble-kept d in
    let byte = read_u8-kept d' in
    let wide = read_wide_length-kept d'' in ground (arith, nibble, byte, wide)

abbrev is_done : {A : Type 0} → Answer A → Bool
is_done (done a) = true
is_done (refused e) = false
is_done panics = false

abbrev value_or : {A : Type 0} → A → Answer A → A
value_or a (done b) = b
value_or a (refused e) = a
value_or a panics = a

read_u16-kept :
    (d : Decoder)
    → (settled (read_u16 d) ≡ true)
      × ((is_done (read_u16 d) ≡ false) ⊎ (length (after d (read_u16 d)).input < length d.input))
      × ((after d (read_u16 d)).out ≡ d.out)
unfolding read_u16
read_u16-kept d = ground arith

copy_match-total :
    (n offset : ℕ) (out : Bytes)
    → 0 < offset
    → offset ≤ length out
    → (is_done (copy_match n (length out - offset) out) ≡ true)
      × (length (value_or [] (copy_match n (length out - offset) out)) ≡ length out + n)
copy_match-total n offset out some_back inside =
    let (out', copied, width, _, _) = copy_match-copies n offset out some_back inside in
    (ap is_done copied, ap (λ c. length (value_or [] c)) copied ∙ width)

-- What a step that did not end leaves: less of the input, and no more output than the limit lets.
abbrev Advances : ℕ → Decoder → Answer Decoder → Type 0
Advances limit d a =
    (settled a ≡ true)
    × ((is_done a ≡ false)
        ⊎ ((length (value_or d a).input < length d.input)
            × (over limit (length (value_or d a).out) ≡ false)))

read_match-Advances : (limit : ℕ) (d : Decoder) → Advances limit d (read_match limit d)
unfolding read_match
read_match-Advances limit d =
    let d' = after d (read_u16 d) in
    let tok = token (read_u16 d) in
    let d'' = after d' (read_length (bit_and tok 7) d') in
    let n = token (read_length (bit_and tok 7) d') in
    let word = read_u16-kept d in
    let len = read_length-kept (bit_and tok 7) d' in
    let copy = copy_match-total n (tok / 8 + 1) d''.out in ground (arith, word, len, copy)

read_literal-Advances : (limit : ℕ) (d : Decoder) → Advances limit d (read_literal limit d)
unfolding read_literal read_u8
read_literal-Advances limit d = ground arith

abbrev goes_on : Answer (Option Decoder) → Bool
goes_on (done none) = false
goes_on (done (some d)) = true
goes_on (refused e) = false
goes_on panics = false

abbrev went : Decoder → Answer (Option Decoder) → Decoder
went d (done none) = d
went d (done (some d')) = d'
went d (refused e) = d
went d panics = d

abbrev fresh : Bytes → Decoder
fresh src = record {
  input = src;
  out = [];
  flags = 0;
  flag_count = 0;
  have_high_nibble = false;
  saved_nibble_byte = 0;
}

read_item-advances :
    (limit : ℕ) (d : Decoder)
    → (settled (read_item limit d) ≡ true)
      × ((goes_on (read_item limit d) ≡ false)
          ⊎ ((length (went d (read_item limit d)).input < length d.input)
              × (over limit (length (went d (read_item limit d)).out) ≡ false)))
unfolding read_item
read_item-advances limit d =
    let d' = record d { flag_count = d.flag_count - 1 } in
    let literal = read_literal-Advances limit d' in
    let repeated = read_match-Advances limit d' in ground (arith, literal, repeated)

refill-kept :
    (d : Decoder)
    → (settled (refill d) ≡ true)
      × (length (went d (refill d)).input ≤ length d.input)
      × ((went d (refill d)).out ≡ d.out)
unfolding refill read_u32
refill-kept d = ground arith

decode_fuel-settled :
    (fuel limit : ℕ) (d : Decoder)
    → length d.input < fuel
    → settled (decode_fuel fuel limit d) ≡ true
unfolding decode_fuel
decode_fuel-settled zero limit d few = absurd (omega arith)
decode_fuel-settled (suc fuel) limit d few =
    let d' = went d (refill d) in
    let d'' = went d' (read_item limit d') in
    let ready = refill-kept d in
    let item = read_item-advances limit d' in
    let rest = decode_fuel-settled fuel limit d'' in ground (arith, few, ready, item, rest)

decode_fuel-within :
    (fuel limit : ℕ) (d : Decoder) (out : Bytes)
    → over limit (length d.out) ≡ false
    → decode_fuel fuel limit d ≡ done out
    → over limit (length out) ≡ false
unfolding decode_fuel
decode_fuel-within zero limit d out within e = ground (arith, e)
decode_fuel-within (suc fuel) limit d out within e =
    let d' = went d (refill d) in
    let d'' = went d' (read_item limit d') in
    let ready = refill-kept d in
    let item = read_item-advances limit d' in
    let rest = decode_fuel-within fuel limit d'' out in ground (arith, within, e, ready, item, rest)

-- Decompression comes to an end on every input and reads no byte out of range, neither of the input nor
-- of what it wrote: it gives the bytes, or one of the source's errors.
pub decompress-settled : (src : Bytes) (limit : ℕ) → settled (decompress src limit) ≡ true
unfolding decompress
decompress-settled src limit =
    decode_fuel-settled (suc (length src)) limit (fresh src) (omega arith)

-- Under a limit that is not zero, no more bytes come out than the limit lets.
pub decompress-within :
    (src : Bytes) (limit : ℕ) (out : Bytes)
    → 0 < limit
    → decompress src limit ≡ done out
    → length out ≤ limit
unfolding decompress
decompress-within src limit out some_limit e =
    let within = decode_fuel-within (suc (length src)) limit (fresh src) out in
    ground (arith, e, within)

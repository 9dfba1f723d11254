-- ===== src/Transfer/Valid/Parts.antt =====
-- transfer/transfer.go: the parts of a valid file and its gaps.
use sombrero.Base.{
  ℕ, ◌+◌, ◌-◌, ◌≤◌, ◌<◌, ◌^◌, Bool, true, false, not, ◌&&◌, ◌||◌, none, List, [], ◌∷◌, ◌≡◌, ltb,
  arith,
}
use sombrero.Transfer.Types.{Part, File}
use sombrero.Transfer.Encoding.{is_some}
use sombrero.Transfer.Valid.{
  valid_path, valid_part, valid_parts, valid_file, part_end, Gap, gaps_from, gaps,
}

-- The offsets from `from` on, `n` of them.
abbrev pub lies_in : ℕ → ℕ → ℕ → Bool
lies_in from n x = not (ltb x from) && ltb x (from + n)

module _ (Time Sealed : Type 0) where
  -- An offset of the file that a part describes.
  unfoldable pub described : ℕ → List (Part Time Sealed) → Bool
  described x [] = false
  described x (p ∷ rest) = lies_in p.offset p.length x || described x rest

  unfoldable pub in_gap : ℕ → List (Gap Time Sealed) → Bool
  in_gap x [] = false
  in_gap x (g ∷ rest) = lies_in g.offset g.length x || in_gap x rest

  -- No part runs past the last offset that 64 bits can name.
  unfoldable pub none_wraps : List (Part Time Sealed) → Bool
  none_wraps [] = true
  none_wraps (p ∷ rest) = ltb (p.offset + p.length) (2 ^ 64) && none_wraps rest

  -- What the test of a part asks of its place.
  valid_part-place :
      (start size : ℕ) (p : Part Time Sealed)
      → valid_part Time Sealed start size p ≡ true
      → p.offset + p.length < 2 ^ 64
      → (0 < p.length)
        × (start ≤ p.offset)
        × (p.offset + p.length ≤ size)
        × (part_end Time Sealed p ≡ p.offset + p.length)
  unfolding valid_part part_end
  valid_part-place start size p ok fits = ground (arith, ok, fits)

  described-bounds :
      (start size x : ℕ) (parts : List (Part Time Sealed))
      → valid_parts Time Sealed start size parts ≡ true
      → none_wraps parts ≡ true
      → described x parts ≡ true
      → (start ≤ x) × (x < size)
  unfolding described none_wraps valid_parts
  described-bounds start size x [] ok fits here = ground (arith, here)
  described-bounds start size x (p ∷ rest) ok fits here =
      let place = valid_part-place start size p in
      let others = described-bounds (part_end Time Sealed p) size x rest in
      ground (arith, ok, fits, here, place, others)

  gaps_from-above :
      (start size x : ℕ) (parts : List (Part Time Sealed))
      → valid_parts Time Sealed start size parts ≡ true
      → none_wraps parts ≡ true
      → x < start
      → in_gap x (gaps_from Time Sealed start size parts) ≡ false
  unfolding in_gap none_wraps valid_parts gaps_from
  gaps_from-above start size x [] ok fits below = ground (arith, below)
  gaps_from-above start size x (p ∷ rest) ok fits below =
      let place = valid_part-place start size p in
      let others = gaps_from-above (part_end Time Sealed p) size x rest in
      ground (arith, ok, fits, below, place, others)

  in_gap-gaps_from :
      (start size x : ℕ) (parts : List (Part Time Sealed))
      → valid_parts Time Sealed start size parts ≡ true
      → none_wraps parts ≡ true
      → start ≤ x
      → x < size
      → in_gap x (gaps_from Time Sealed start size parts) ≡ not (described x parts)
  unfolding in_gap none_wraps valid_parts gaps_from described
  in_gap-gaps_from start size x [] ok fits above inside = ground (arith, above, inside)
  in_gap-gaps_from start size x (p ∷ rest) ok fits above inside =
      let place = valid_part-place start size p in
      let before = described-bounds (part_end Time Sealed p) size x rest in
      let below = gaps_from-above (part_end Time Sealed p) size x rest in
      let others = in_gap-gaps_from (part_end Time Sealed p) size x rest in
      ground (arith, ok, fits, above, inside, place, before, below, others)

  -- Of a file that passes, and of which no part runs past what 64 bits can name, each offset of the file
  -- is in a gap or is described by a part, and never both.
  pub in_gap-gaps :
      (f : File Time Sealed) (x : ℕ)
      → valid_file Time Sealed f ≡ true
      → none_wraps f.parts ≡ true
      → x < f.size
      → in_gap x (gaps Time Sealed f) ≡ not (described x f.parts)
  unfolding valid_file gaps
  in_gap-gaps f x ok fits inside =
      let split = in_gap-gaps_from 0 f.size x f.parts in ground (arith, ok, split)

  -- A file of one part that lies behind the file's end passes, where the part is to be fetched, the file's
  -- path passes and the part is so long that its end wraps and is inside of the file.
  pub valid_file-wraps :
      (f : File Time Sealed) (p : Part Time Sealed)
      → f.parts ≡ p ∷ []
      → valid_path f.path ≡ true
      → f.size ≤ p.offset
      → p.offset < 2 ^ 64
      → p.length < 2 ^ 64
      → 2 ^ 64 ≤ p.offset + p.length
      → p.offset + p.length - 2 ^ 64 ≤ f.size
      → p.inline ≡ none
      → is_some p.source ≡ true
      → (valid_file Time Sealed f ≡ true) × (described p.offset f.parts ≡ true)
  unfolding valid_file valid_parts valid_part part_end described
  valid_file-wraps f p only path behind small_offset small_length wraps inside carried sourced =
      ground (arith, only, path)

-- ===== src/Transfer/Wire.antt =====
-- The encoder and the decoder that the descriptions are written with. They are the library's
-- (`types.Encoder` and `types.Decoder` of go.sia.tech/core), so what they do with a value of each
-- primitive type is a parameter here, and what is relied on is that a value is read back whole
-- and leaves what follows it. A decoder that met an error has no value to give.
use sombrero.Base.{ℕ, ◌+◌, ◌<◌, ◌^◌, Bool, List, ◌++◌, Option, none, some, ◌≡◌, map, All, length}
use sombrero.Transfer.Types.{Bytes}

abbrev pub Decoder : Type 0 → Type 0
Decoder A = Bytes → Option (A × Bytes)

infixl 5 ◌>>=◌
abbrev pub ◌>>=◌ : {A B : Type 0} → Decoder A → (A → Decoder B) → Decoder B
◌>>=◌ d f bs = elim (d bs) [ none ↦ none | some (a, rest) ↦ f a rest ]

abbrev pub pure : {A : Type 0} → A → Decoder A
pure a bs = some (a, bs)

pub record Codec (A : Type 0) : Type 0 where
  pub write : A → Bytes
  pub read : Decoder A

-- `sealed` is the sealed object of the indexer, and `sealed_utc` what the two times of one come to in
-- UTC.
pub record Wire : Type 1 where
  pub Time : Type 0
  pub Sealed : Type 0
  pub utc : Time → Time
  pub sealed_utc : Sealed → Sealed
  pub text : Codec Bytes
  pub bytes : Codec Bytes
  pub uint8 : Codec ℕ
  pub uint64 : Codec ℕ
  pub bool : Codec Bool
  pub time : Codec Time
  pub hash256 : Codec Bytes
  pub sealed : Codec Sealed
  pub raw : ℕ → Codec Bytes
  pub slice : {A : Type 0} → Codec A → Codec (List A)

-- What a codec reads back, of the values that it is made for, is the value after `norm`.
abbrev pub Reads : {A : Type 0} → Codec A → (A → A) → (A → Type 0) → Type 0
Reads {A} c norm P = (a : A) (rest : Bytes) → P a → c.read (c.write a ++ rest) ≡ some (norm a, rest)

abbrev pub itself : {A : Type 0} → A → A
itself a = a

abbrev pub Anything : {A : Type 0} → A → Type 0
Anything a = Unit

-- The documented behaviour of the library. What of a time and of a sealed object comes back (a
-- time is kept to the second, and read in the local zone) is left open. A slice is read back if no
-- item takes up no bytes: the decoder refuses a length beyond the bytes that are left.
pub record IsWire (w : Wire) : Type 1 where
  pub stored : w.Time → w.Time
  pub stored_sealed : w.Sealed → w.Sealed
  pub text : Reads w.text itself Anything
  pub bytes : Reads w.bytes itself Anything
  pub uint8 : Reads w.uint8 itself (λ n. n < 2 ^ 8)
  pub uint64 : Reads w.uint64 itself (λ n. n < 2 ^ 64)
  pub bool : Reads w.bool itself Anything
  pub time : Reads w.time stored Anything
  pub hash256 : Reads w.hash256 itself (λ b. length b ≡ 32)
  pub sealed : Reads w.sealed stored_sealed Anything
  pub raw : (n : ℕ) → Reads (w.raw n) itself (λ b. length b ≡ n)
  pub slice :
      {A : Type 0} (c : Codec A) (norm : A → A) (P : A → Type 0)
      → Reads c norm P
      → ((a : A) → P a → 0 < length (c.write a))
      → Reads (w.slice c) (map norm) (All P)
  pub raw_write : (n : ℕ) (b : Bytes) → (w.raw n).write b ≡ b
  pub uint8_width : (n : ℕ) → length (w.uint8.write n) ≡ 1
  pub uint64_width : (n : ℕ) → length (w.uint64.write n) ≡ 8
  pub text_width : (b : Bytes) → length (w.text.write b) ≡ 8 + length b

-- ===== src/Transfer/Tests/Plain.antt =====
-- A plain encoding with a number to a byte, which reads back as the transfer format relies on.
use sombrero.Base.{
  ℕ, zero, suc, Bool, true, false, none, some, List, [], ◌∷◌, ◌++◌, ◌≡◌, refl, ◌∙◌, map, All,
  length, append_assoc, replicate, arith, ◌==◌,
}
use sombrero.Transfer.Types.{Bytes}
use sombrero.Transfer.Wire.{Wire, IsWire, Codec, Decoder, ◌>>=◌, pure, Reads, itself, Anything}
use sombrero.Transfer.Reader.{read_full}
use sombrero.Transfer.Readback.{read_then}
use sombrero.Transfer.Stream.Frames.{read_full-append}

abbrev number : Codec ℕ
number = record {
  write = λ n. n ∷ [];
  read = λ bs. elim bs [ [] ↦ none | n ∷ rest ↦ some (n, rest) ];
}

abbrev wide : Codec ℕ
wide = record {
  write = λ n. n ∷ replicate 7 0;
  read = λ bs. elim (read_full 8 bs) [
    | none ↦ none
    | some ([], rest) ↦ none
    | some (n ∷ zeros, rest) ↦ some (n, rest)
  ];
}

abbrev truth : Codec Bool
truth = record {
  write = λ b. elim b [ true ↦ 1 ∷ [] | false ↦ 0 ∷ [] ];
  read = λ bs. elim bs [ [] ↦ none | n ∷ rest ↦ some (n == 1, rest) ];
}

abbrev fixed : ℕ → Codec Bytes
fixed n = record { write = λ b. b; read = read_full n }

abbrev counted : Codec Bytes
counted = record {
  write = λ b. wide.write (length b) ++ b;
  read = wide.read >>= (λ n. read_full n);
}

module _ {A : Type 0} (c : Codec A) where
  abbrev all : List A → Bytes
  all [] = []
  all (a ∷ rest) = c.write a ++ all rest

  abbrev read_all : ℕ → Decoder (List A)
  read_all zero = pure []
  read_all (suc n) = do a ← c.read; rest ← read_all n; pure (a ∷ rest)

  abbrev sequence : Codec (List A)
  sequence = record {
    write = λ xs. wide.write (length xs) ++ all xs;
    read = wide.read >>= read_all;
  }

abbrev pub plain : Wire
plain = record {
  Time = ℕ;
  Sealed = ℕ;
  utc = itself;
  sealed_utc = itself;
  text = counted;
  bytes = counted;
  uint8 = number;
  uint64 = wide;
  bool = truth;
  time = number;
  hash256 = fixed 32;
  sealed = number;
  raw = fixed;
  slice = sequence;
}

pub wide-Reads : Reads wide itself Anything
wide-Reads n rest _ =
    let whole = read_full-append 8 (n ∷ replicate 7 0) rest refl in ground (arith, whole)

pub counted-Reads : Reads counted itself Anything
counted-Reads b rest _ =
    read_then wide itself Anything wide-Reads (length b) (b ++ rest) (λ n. read_full n) tt
    ∙ read_full-append (length b) b rest refl

module _ {A : Type 0} (c : Codec A) (norm : A → A) (P : A → Type 0) where
  read_all-all :
      (xs : List A) (rest : Bytes)
      → Reads c norm P
      → All P xs
      → read_all c (length xs) (all c xs ++ rest) ≡ some (map norm xs, rest)
  read_all-all [] rest reads fits = refl
  read_all-all (x ∷ xs) rest reads fits =
      let others = read_all-all xs rest reads fits.1 in
      let first = reads x (all c xs ++ rest) fits.0 in
      rw (append_assoc (c.write x) (all c xs) rest) (ground (arith, first, others))

  pub sequence-Reads : Reads c norm P → Reads (sequence c) (map norm) (All P)
  sequence-Reads reads xs rest fits =
      read_then wide itself Anything wide-Reads (length xs) (all c xs ++ rest) (read_all c) tt
      ∙ read_all-all xs rest reads fits

pub truth-Reads : Reads truth itself Anything
truth-Reads true rest _ = refl
truth-Reads false rest _ = refl

abbrev pub plain-IsWire : IsWire plain
plain-IsWire = record {
  stored = itself;
  stored_sealed = itself;
  text = counted-Reads;
  bytes = counted-Reads;
  uint8 = λ n rest _. refl;
  uint64 = λ n rest _. wide-Reads n rest tt;
  bool = truth-Reads;
  time = λ n rest _. refl;
  hash256 = λ b rest width. read_full-append 32 b rest width;
  sealed = λ n rest _. refl;
  raw = λ n b rest width. read_full-append n b rest width;
  slice = λ c norm P reads _. sequence-Reads c norm P reads;
  raw_write = λ n b. refl;
  uint8_width = λ n. refl;
  uint64_width = λ n. refl;
  text_width = λ b. omega arith;
}

-- ===== src/Transfer/Stream/Frames.antt =====
-- transfer/encoding.go: one record after another, on the side of the reader.
use sombrero.Base.{
  ℕ, ◌≤◌, ◌<◌, ◌^◌, true, none, some, [], ◌∷◌, ◌++◌, ◌≡◌, refl, ap, sym, ◌∙◌, if◌then◌else◌, ◌==◌,
  take, drop, length, length-append, append_assoc, append-nil, arith,
}
use sombrero.Transfer.Types.{Bytes}
use sombrero.Transfer.Wire.{Wire, IsWire}
use sombrero.Transfer.Encoding.{bytes_eq}
use sombrero.Transfer.Writer.{frame, end_payload, Writer, max_record_size, kind_end}
use sombrero.Transfer.Reader.{Reader, ok, read_full, next, end_of}

take_length : (xs ys : Bytes) → take (length xs) (xs ++ ys) ≡ xs
take_length [] ys = refl
take_length (x ∷ xs) ys = ap (◌∷◌ x) (take_length xs ys)

drop_length : (xs ys : Bytes) → drop (length xs) (xs ++ ys) ≡ ys
drop_length [] ys = refl
drop_length (x ∷ xs) ys = drop_length xs ys

pub read_full-append :
    (n : ℕ) (xs ys : Bytes) → length xs ≡ n → read_full n (xs ++ ys) ≡ some (xs, ys)
unfolding read_full
read_full-append n xs ys e =
    let sum = length-append {0} xs ys in
    rw (← e) (ground (arith, sum, take_length xs ys, drop_length xs ys))

pub bytes_eq_refl : (b : Bytes) → bytes_eq b b ≡ true
bytes_eq_refl [] = refl
bytes_eq_refl (x ∷ xs) = let rest = bytes_eq_refl xs in ground (arith, rest)

module _ (w : Wire) (h : IsWire w) (sha256 : Bytes → Bytes) where
  -- The reader with some of its source read: `fed` is what the digest is fed with.
  abbrev pub at : Reader w → Bytes → Bytes → Reader w
  at r input fed = record r { input = input; hashed = fed; pending = none }

  abbrev pub feed : ℕ → Bytes → Bytes → Bytes
  feed kind payload fed = if kind == kind_end then fed else fed ++ frame w kind payload

  abbrev head : ℕ → Bytes → Bytes
  head kind payload = w.uint8.write kind ++ w.uint64.write (length payload)

  frame-head : (kind : ℕ) (payload : Bytes) → frame w kind payload ≡ head kind payload ++ payload
  unfolding frame
  frame-head kind payload = simp (append_assoc, h.raw_write) refl

  read_full-frame :
      (kind : ℕ) (payload rest : Bytes)
      → read_full 9 (frame w kind payload ++ rest) ≡ some (head kind payload, payload ++ rest)
  read_full-frame kind payload rest =
      let sum = length-append {0} (w.uint8.write kind) (w.uint64.write (length payload)) in
      let nine : length (head kind payload) ≡ 9 =
        omega (arith, sum, h.uint8_width kind, h.uint64_width (length payload)) in
      ap (λ f. read_full 9 (f ++ rest)) (frame-head kind payload)
      ∙ ap (read_full 9) (append_assoc (head kind payload) payload rest)
      ∙ read_full-append 9 (head kind payload) (payload ++ rest) nine

  read-kind :
      (kind : ℕ) (payload : Bytes)
      → kind < 2 ^ 8
      → w.uint8.read (head kind payload) ≡ some (kind, w.uint64.write (length payload))
  read-kind kind payload small = h.uint8 kind (w.uint64.write (length payload)) small

  read-size : (n : ℕ) → n < 2 ^ 64 → w.uint64.read (w.uint64.write n) ≡ some (n, [])
  read-size n small = ap w.uint64.read (sym (append-nil (w.uint64.write n))) ∙ h.uint64 n [] small

  -- A record that fits is read back, and so is what follows it.
  pub next-frame :
      (r : Reader w) (kind : ℕ) (payload rest fed : Bytes)
      → kind < 2 ^ 8
      → length payload ≤ max_record_size
      → next w sha256 (at r (frame w kind payload ++ rest) fed)
        ≡ (ok (kind, payload), at r rest (feed kind payload fed))
  unfolding next
  next-frame r kind payload rest fed small fits =
      let first = read_full-frame kind payload rest in
      let kind_read = read-kind kind payload small in
      let size_read = read-size (length payload) (omega arith) in
      let body = read_full-append (length payload) payload rest refl in
      let whole = frame-head kind payload in
      ground (arith, first, kind_read, size_read, body, whole)

  -- The end record of a writer that wrote what the reader has read.
  pub end_of-end_payload :
      (r : Reader w) (tw : Writer)
      → (length (sha256 tw.hashed) ≡ 32)
      → tw.dirs < 2 ^ 64
      → tw.files < 2 ^ 64
      → r.hashed ≡ tw.hashed
      → end_of w sha256 (end_payload w sha256 tw) r
        ≡ (ok tt, record r { dirs = tw.dirs; files = tw.files; done = true })
  unfolding end_of end_payload
  end_of-end_payload r tw width few_dirs few_files same =
      let digest = (w.raw 32).write (sha256 tw.hashed) in
      let first = h.uint64 tw.dirs (w.uint64.write tw.files ++ digest) few_dirs in
      let second = h.uint64 tw.files digest few_files in
      let third : (w.raw 32).read digest ≡ some (sha256 tw.hashed, []) =
        ap (w.raw 32).read (sym (append-nil digest)) ∙ h.raw 32 (sha256 tw.hashed) [] width in
      let equal = bytes_eq_refl (sha256 tw.hashed) in
      let digests = ap sha256 same in ground (arith, first, second, third, equal, digests)

-- ===== src/Transfer/Reader/Digest.antt =====
-- transfer/encoding.go: what the digest of a reader was fed with.
use sombrero.Base.{
  take-drop, length-take, length, subst, ℕ, suc, true, false, Option, none, some, [], ◌++◌, ◌≡◌,
  refl, ◌==◌, if◌then◌else◌, take, drop, arith, ◌⊎◌, inl, inr, sym, ap, ◌∙◌, append_assoc,
  Bool-cases,
}
use sombrero.Transfer.Types.{Bytes}
use sombrero.Transfer.Wire.{Wire}
use sombrero.Transfer.Writer.{kind_end}
use sombrero.Transfer.Readback.Contents.{bytes_eq-true}
use sombrero.Transfer.Reader.{
  Reader, Read, ReadError, ok, failed, Item, read_full, next, upcoming, next_item_fuel, end_of,
  decode, or_zero, left,
}

abbrev payload_of : Option (Bytes × Bytes) → Bytes
payload_of none = []
payload_of (some (b, rest)) = b

module _ (w : Wire) where
  -- The digest that the payload of an end record holds, behind the two counts.
  unfoldable pub stored_digest : Bytes → Option Bytes
  stored_digest payload = elim (w.uint64.read payload) [
    | none ↦ none
    | some (dirs, rest) ↦ elim (w.uint64.read rest) [
      | none ↦ none
      | some (files, rest') ↦ elim ((w.raw 32).read rest') [
        | none ↦ none
        | some (digest, _) ↦ some digest
      ]
    ]
  ]

module _ (w : Wire) where
  -- Nine bytes that announce a record: its kind and the length of its payload.
  abbrev pub IsFrame : ℕ → Bytes → Bytes → Type 0
  IsFrame kind head payload =
      (length head ≡ 9)
      × (or_zero (w.uint8.read head) ≡ kind)
      × (or_zero (w.uint64.read (left (w.uint8.read head))) ≡ length payload)

  -- The opening of a stream and whole records behind it, none of them an end record.
  pub data Records : Bytes → Type 0 where
    opening : (bs : Bytes) → length bs ≡ 26 → Records bs
    another :
        (bs : Bytes) (kind : ℕ) (head payload : Bytes)
        → Records bs
        → (kind == kind_end) ≡ false
        → IsFrame kind head payload
        → Records (bs ++ (head ++ payload))

module _ (w : Wire) (sha256 : Bytes → Bytes) where
  -- A source that holds an opening and whole records, and behind them an end record with the digest of
  -- all that stands before it.
  pub record IsCovered (input : Bytes) : Type 0 where
    pub covered : Bytes
    pub records : Records w covered
    pub head : Bytes
    pub payload : Bytes
    pub end : IsFrame w kind_end head payload
    pub rest : Bytes
    pub whole : input ≡ covered ++ (head ++ (payload ++ rest))
    pub digest : stored_digest w payload ≡ some (sha256 covered)

  -- All of the source before what is left went into the digest, as whole records.
  abbrev pub Behind : Bytes → Reader w → Type 0
  Behind bs r = (bs ≡ r.hashed ++ r.input) × Records w r.hashed

  -- The end record was taken, which does not go into the digest.
  abbrev pub AtEnd : Bytes → Bytes → Reader w → Type 0
  AtEnd bs payload r =
      (head : Bytes) × IsFrame w kind_end head payload
      × (bs ≡ r.hashed ++ (head ++ (payload ++ r.input)))
      × Records w r.hashed

  -- A record of the source `bs` that was taken.
  abbrev pub Took : Bytes → ℕ → Bytes → Reader w → Type 0
  Took bs kind payload r =
      (((kind == kind_end) ≡ true) × AtEnd bs payload r)
      ⊎ (((kind == kind_end) ≡ false) × Behind bs r)

  abbrev pub Follows : Bytes → Reader w → Type 0
  Follows bs r =
      ((r.pending ≡ none) × Behind bs r)
      ⊎ ((kind : ℕ) × (payload : Bytes) × (r.pending ≡ some (kind, payload))
          × Took bs kind payload r)

  -- Readers that agree on the source and on the digest stand at the same place.
  pub Took-same :
      (bs : Bytes) (r r' : Reader w) (kind kind' : ℕ) (payload payload' : Bytes)
      → r.hashed ≡ r'.hashed
      → r.input ≡ r'.input
      → kind ≡ kind'
      → payload ≡ payload'
      → Took bs kind payload r
      → Took bs kind' payload' r'
  Took-same bs r r' kind kind' payload payload' hashed input k p
        (inl (end, (head, frame, whole, records))) =
      inl (
        ap (λ x. x == kind_end) (sym k) ∙ end,
        (
          head,
          subst (IsFrame w kind_end head) p frame,
          ground (arith, whole, hashed, input, p),
          subst (Records w) hashed records,
        ),
      )
  Took-same bs r r' kind kind' payload payload' hashed input k p (inr (other, (whole, records))) =
      inr (
        ap (λ x. x == kind_end) (sym k) ∙ other,
        (ground (arith, whole, hashed, input), subst (Records w) hashed records),
      )

  next-IsFrame :
      (r r' : Reader w) (kind : ℕ) (payload : Bytes)
      → next w sha256 r ≡ (ok (kind, payload), r')
      → IsFrame w kind (take 9 r.input) payload
  unfolding next read_full
  next-IsFrame r r' kind payload e =
      let size = or_zero (w.uint64.read (left (w.uint8.read (take 9 r.input)))) in
      let nine = length-take {0} 9 r.input in
      let behind = length-take {0} size (drop 9 r.input) in ground (arith, e, nine, behind)

  pub next-parts :
      (r r' : Reader w) (kind : ℕ) (payload : Bytes)
      → next w sha256 r ≡ (ok (kind, payload), r')
      → (take 9 r.input ++ (payload ++ r'.input) ≡ r.input)
        × ((if kind == kind_end then r.hashed else r.hashed ++ (take 9 r.input ++ payload))
            ≡ r'.hashed)
        × (r'.pending ≡ r.pending)
        × (r'.done ≡ r.done)
  unfolding next read_full
  next-parts r r' kind payload e =
      let size = or_zero (w.uint64.read (left (w.uint8.read (take 9 r.input)))) in
      let nine = take-drop {0} 9 r.input in
      let behind = take-drop {0} size (drop 9 r.input) in ground (arith, e, nine, behind)

  pub next-Took :
      (bs : Bytes) (r r' : Reader w) (kind : ℕ) (payload : Bytes)
      → Behind bs r
      → next w sha256 r ≡ (ok (kind, payload), r')
      → Took bs kind payload r'
  next-Took bs r r' kind payload (follows, records) e =
      let (parts, hashed, _, _) = next-parts r r' kind payload e in
      let frame = next-IsFrame r r' kind payload e in
      elim (Bool-cases (kind == kind_end)) [
        | inl end ↦
            let same : r.hashed ≡ r'.hashed = ground (arith, hashed, end) in
            let is_end : kind ≡ kind_end = ground (arith, end) in
            inl (
              end,
              (
                take 9 r.input,
                subst (λ k. IsFrame w k (take 9 r.input) payload) is_end frame,
                follows
                    ∙ ap (λ x. r.hashed ++ x) (sym parts)
                    ∙ ap (λ x. x ++ (take 9 r.input ++ (payload ++ r'.input))) same,
                subst (Records w) same records,
              ),
            )
        | inr other ↦
            let fed : r.hashed ++ (take 9 r.input ++ payload) ≡ r'.hashed =
              ground (arith, hashed, other) in
            inr (
              other,
              (
                follows
                    ∙ ap (λ x. r.hashed ++ x) (sym parts)
                    ∙ simp append_assoc refl
                    ∙ ap (λ x. x ++ r'.input) fed,
                subst (Records w) fed
                    (another r.hashed kind (take 9 r.input) payload records other frame),
              ),
            )
      ]

  pub upcoming-Took :
      (bs : Bytes) (r r' : Reader w) (kind : ℕ) (payload : Bytes)
      → Follows bs r
      → upcoming w sha256 r ≡ (ok (kind, payload), r')
      → Took bs kind payload r'
  unfolding upcoming
  upcoming-Took bs r r' kind payload (inl (fresh, follows)) e =
      next-Took bs r r' kind payload follows (ground (arith, e, fresh))
  upcoming-Took bs r r' kind payload (inr (kind', payload', waiting, took)) e =
      let same : (kind' ≡ kind)
          × (payload' ≡ payload)
          × (r.hashed ≡ r'.hashed)
          × (r.input ≡ r'.input) =
        ground (arith, e, waiting) in
      let (kinds, payloads, hashed, input) = same in
      Took-same bs r r' kind' kind payload' payload hashed input kinds payloads took

  pub upcoming-clears :
      (r r' : Reader w) (kind : ℕ) (payload : Bytes)
      → upcoming w sha256 r ≡ (ok (kind, payload), r')
      → (r'.pending ≡ none) × (r'.done ≡ r.done)
  unfolding upcoming
  upcoming-clears r r' kind payload e =
      let parts = next-parts r r' kind payload in ground (arith, e, parts)

  pub end_of-IsCovered :
      (bs payload : Bytes) (r r' : Reader w) (u : Unit {0})
      → AtEnd bs payload r
      → end_of w sha256 payload r ≡ (ok u, r')
      → IsCovered bs
  unfolding end_of stored_digest
  end_of-IsCovered bs payload r r' u (head, frame, whole, records) e =
      let rest = left (w.uint64.read (left (w.uint64.read payload))) in
      let digest = payload_of ((w.raw 32).read rest) in
      let same = bytes_eq-true digest (sha256 r.hashed) in
      record {
        covered = r.hashed;
        records = records;
        head = head;
        payload = payload;
        end = frame;
        rest = r.input;
        whole = whole;
        digest = ground (arith, e, same);
      }

  pub upcoming-cases :
      (r : Reader w)
      → ((e : ReadError) × (upcoming w sha256 r ≡ (failed e, (upcoming w sha256 r).1)))
        ⊎ ((kind : ℕ) × (payload : Bytes) × (r' : Reader w) × (upcoming w sha256 r
              ≡ (ok (kind, payload), r')))
  upcoming-cases r = elim (cases (upcoming w sha256 r).0) [
    | inl (e, same) ↦ inl (e, ground (arith, same))
    | inr (kind, payload, same) ↦ inr (kind, payload, (upcoming w sha256 r).1, ground (arith, same))
  ]
    where
      cases :
          (got : Read w (ℕ × Bytes))
          → ((e : ReadError) × (got ≡ failed e))
            ⊎ ((kind : ℕ) × (payload : Bytes) × (got ≡ ok (kind, payload)))
      cases (failed e) = inl (e, refl)
      cases (ok (kind, payload)) = inr (kind, payload, refl)

  -- What a call of `Next` that took a record came to.
  pub next_item_fuel-none :
      (fuel : ℕ) (r r' r'' : Reader w) (kind : ℕ) (payload : Bytes)
      → r.done ≡ false
      → upcoming w sha256 r ≡ (ok (kind, payload), r')
      → next_item_fuel w sha256 (suc fuel) r ≡ (ok none, r'')
      → (((kind == kind_end) ≡ true) × (end_of w sha256 payload r' ≡ (ok tt, r'')))
        ⊎ (((kind == kind_end) ≡ false) × (next_item_fuel w sha256 fuel r' ≡ (ok none, r'')))
  unfolding next_item_fuel decode
  next_item_fuel-none fuel r r' r'' kind payload live got e = ground (arith, live, got, e)

  pub next_item_fuel-some :
      (fuel : ℕ) (r r' r'' : Reader w) (kind : ℕ) (payload : Bytes) (i : Item w)
      → r.done ≡ false
      → upcoming w sha256 r ≡ (ok (kind, payload), r')
      → next_item_fuel w sha256 (suc fuel) r ≡ (ok (some i), r'')
      → ((kind == kind_end) ≡ false)
        × ((r'' ≡ r') ⊎ (next_item_fuel w sha256 fuel r' ≡ (ok (some i), r'')))
  unfolding next_item_fuel decode
  next_item_fuel-some fuel r r' r'' kind payload i live got e = ground (arith, live, got, e)

  pub next_item_fuel-fails :
      (fuel : ℕ) (r r' : Reader w) (e : ReadError)
      → r.done ≡ false
      → upcoming w sha256 r ≡ (failed e, r')
      → (next_item_fuel w sha256 (suc fuel) r).0 ≡ failed e
  unfolding next_item_fuel
  next_item_fuel-fails fuel r r' e live got = ground (arith, live, got)

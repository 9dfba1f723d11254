-- ===== src/Transfer/Reader/Covered.antt =====
-- transfer/encoding.go: what a source holds from which a stream is read to its end.
use sombrero.Base.{
  take-drop, length-take, ℕ, zero, suc, true, false, none, some, List, ◌≡◌, refl, ◌==◌, take, drop,
  length, arith, ◌⊎◌, inl, inr, sym, ◌∙◌, subst,
}
use sombrero.Transfer.Types.{Bytes}
use sombrero.Transfer.Wire.{Wire}
use sombrero.Transfer.Writer.{kind_end}
use sombrero.Transfer.Encoding.{decode_header}
use sombrero.Transfer.Stream.{read_items, read_stream, Contents}
use sombrero.Transfer.Reader.{
  new_reader, started, read_header, read_ahead, Reader, Read, ReadError, ok, failed, Item,
  read_full, next, next_item_fuel, next_item, end_of, decode,
}
use sombrero.Transfer.Reader.Digest.{
  IsCovered, opening, Behind, Took, Took-same, Follows, next-Took, next-parts, upcoming-Took,
  upcoming-clears, end_of-IsCovered, upcoming-cases, next_item_fuel-none, next_item_fuel-some,
  next_item_fuel-fails,
}

-- What a call of the reader came to.
read-cases :
    {w : Wire} {A : Type 0} (x : Read w A × Reader w)
    → ((e : ReadError) × (x ≡ (failed e, x.1))) ⊎ ((a : A) × (x ≡ (ok a, x.1)))
read-cases (failed e, r) = inl (e, refl)
read-cases (ok a, r) = inr (a, refl)

module _ (w : Wire) (sha256 : Bytes → Bytes) where
  -- A record that is not the end leaves a reader that follows the source.
  Took-other :
      (bs : Bytes) (r : Reader w) (kind : ℕ) (payload : Bytes)
      → (kind == kind_end) ≡ false
      → Took w sha256 bs kind payload r
      → Behind w sha256 bs r
  Took-other bs r kind payload other (inl (end, _)) = ground (arith, end, other)
  Took-other bs r kind payload other (inr (_, follows)) = follows

  Took-end :
      (bs : Bytes) (r r' : Reader w) (kind : ℕ) (payload : Bytes) (u : Unit {0})
      → (kind == kind_end) ≡ true
      → Took w sha256 bs kind payload r
      → end_of w sha256 payload r ≡ (ok u, r')
      → IsCovered w sha256 bs
  Took-end bs r r' kind payload u end (inl (_, ended)) e =
      end_of-IsCovered w sha256 bs payload r r' u ended e
  Took-end bs r r' kind payload u end (inr (other, _)) e = ground (arith, end, other)

  next_item_fuel-IsCovered :
      (fuel : ℕ) (bs : Bytes) (r r' : Reader w)
      → r.done ≡ false
      → Follows w sha256 bs r
      → next_item_fuel w sha256 fuel r ≡ (ok none, r')
      → IsCovered w sha256 bs
  unfolding next_item_fuel
  next_item_fuel-IsCovered zero bs r r' live follows e = ground (arith, e)
  next_item_fuel-IsCovered (suc fuel) bs r r' live follows e = elim (upcoming-cases w sha256 r) [
    | inl (error, got) ↦
        let fails = next_item_fuel-fails w sha256 fuel r _ error live got in
        ground (arith, e, fails)
    | inr (kind, payload, r'', got) ↦
        let took = upcoming-Took w sha256 bs r r'' kind payload follows got in
        let (clear, same) = upcoming-clears w sha256 r r'' kind payload got in
        elim (next_item_fuel-none w sha256 fuel r r'' r' kind payload live got e) [
          | inl (end, ended) ↦ Took-end bs r'' r' kind payload tt end took ended
          | inr (other, rest) ↦
              next_item_fuel-IsCovered fuel bs r'' r' (same ∙ live)
                (inl (clear, Took-other bs r'' kind payload other took)) rest
        ]
  ]

  next_item_fuel-Follows :
      (fuel : ℕ) (bs : Bytes) (r r' : Reader w) (i : Item w)
      → r.done ≡ false
      → Follows w sha256 bs r
      → next_item_fuel w sha256 fuel r ≡ (ok (some i), r')
      → Follows w sha256 bs r' × (r'.done ≡ false)
  unfolding next_item_fuel
  next_item_fuel-Follows zero bs r r' i live follows e = ground (arith, e)
  next_item_fuel-Follows (suc fuel) bs r r' i live follows e = elim (upcoming-cases w sha256 r) [
    | inl (error, got) ↦
        let fails = next_item_fuel-fails w sha256 fuel r _ error live got in
        ground (arith, e, fails)
    | inr (kind, payload, r'', got) ↦
        let took = upcoming-Took w sha256 bs r r'' kind payload follows got in
        let (clear, same) = upcoming-clears w sha256 r r'' kind payload got in
        let (other, ended) = next_item_fuel-some w sha256 fuel r r'' r' kind payload i live got e in
        let still : Follows w sha256 bs r'' × (r''.done ≡ false) =
          (inl (clear, Took-other bs r'' kind payload other took), same ∙ live) in
        elim ended [
          | inl here ↦
              subst (λ (x : Reader w). Follows w sha256 bs x × (x.done ≡ false)) (sym here) still
          | inr rest ↦ next_item_fuel-Follows fuel bs r'' r' i still.1 still.0 rest
        ]
  ]

  -- What a list of folders and files that was read to the end of the stream is proof of.
  read_items-IsCovered :
      (n : ℕ) (bs : Bytes) (r r' : Reader w) (items : List (Item w))
      → r.done ≡ false
      → Follows w sha256 bs r
      → read_items w sha256 n r ≡ (ok items, r')
      → IsCovered w sha256 bs
  unfolding read_items next_item
  read_items-IsCovered zero bs r r' items live follows e = ground (arith, e)
  read_items-IsCovered (suc n) bs r r' items live follows e =
      let fuel = suc (suc (length r.input)) in
      let r'' = (next_item w sha256 r).1 in
      elim (read-cases (next_item w sha256 r)) [
        | inl (error, got) ↦ ground (arith, e, got)
        | inr (none, got) ↦ next_item_fuel-IsCovered fuel bs r r'' live follows got
        | inr (some i, got) ↦
            let (still, live') = next_item_fuel-Follows fuel bs r r'' i live follows got in
            elim (read-cases (read_items w sha256 n r'')) [
              | inl (error, others) ↦ ground (arith, e, got, others)
              | inr (is, others) ↦ read_items-IsCovered n bs r'' _ is live' still others
            ]
      ]

  read_ahead-kept :
      (r r' r'' : Reader w) (u : Unit {0}) (kind : ℕ) (payload : Bytes)
      → next w sha256 r ≡ (ok (kind, payload), r')
      → read_ahead w sha256 r ≡ (ok u, r'')
      → ((r'.hashed ≡ r''.hashed) × (r'.input ≡ r''.input) × (r''.done ≡ r'.done))
        × ((((kind == kind_end) ≡ false) × (r''.pending ≡ r'.pending))
            ⊎ (r''.pending ≡ some (kind, payload)))
  unfolding read_ahead decode
  read_ahead-kept r r' r'' u kind payload got e = ground (arith, got, e)

  -- What a reader that was opened is left with.
  read_ahead-Follows :
      (bs : Bytes) (r r' : Reader w) (u : Unit {0})
      → r.pending ≡ none
      → r.done ≡ false
      → Behind w sha256 bs r
      → read_ahead w sha256 r ≡ (ok u, r')
      → Follows w sha256 bs r' × (r'.done ≡ false)
  unfolding read_ahead
  read_ahead-Follows bs r r' u fresh live follows e =
      elim (read-cases (next w sha256 r)) as (λ _. Follows w sha256 bs r' × (r'.done ≡ false)) [
        | inl (error, got) ↦ ground (arith, e, got)
        | inr ((kind, payload), got) ↦
            let behind = (next w sha256 r).1 in
            let took = next-Took w sha256 bs r behind kind payload follows got in
            let (_, _, clear, same) = next-parts w sha256 r behind kind payload got in
            let ((hashed, input, done), rest) = read_ahead-kept r behind r' u kind payload got e in
            let took' =
              Took-same w sha256 bs behind r' kind kind payload payload hashed input refl refl
                took in
            elim rest [
              | inl (other, pending) ↦ (
                inl (pending ∙ clear ∙ fresh, Took-other bs r' kind payload other took'),
                done ∙ same ∙ live,
              )
              | inr waiting ↦ (inr (kind, payload, waiting, took'), done ∙ same ∙ live)
            ]
      ]

  read_header-Follows :
      (bs : Bytes) (r r' : Reader w) (u : Unit {0})
      → r.pending ≡ none
      → r.done ≡ false
      → Behind w sha256 bs r
      → read_header w sha256 r ≡ (ok u, r')
      → Follows w sha256 bs r' × (r'.done ≡ false)
  unfolding read_header decode
  read_header-Follows bs r r' u fresh live follows e =
      elim (read-cases (next w sha256 r)) as (λ _. Follows w sha256 bs r' × (r'.done ≡ false)) [
        | inl (error, got) ↦ ground (arith, e, got)
        | inr ((kind, payload), got) ↦
            let behind = (next w sha256 r).1 in
            let header = decode w sha256 payload (decode_header w) in
            let took = next-Took w sha256 bs r behind kind payload follows got in
            let (_, _, clear, same) = next-parts w sha256 r behind kind payload got in
            let other : (kind == kind_end) ≡ false = ground (arith, e, got) in
            let ahead : read_ahead w sha256 (record behind { header = header }) ≡ (ok u, r') =
              ground (arith, e, got) in
            read_ahead-Follows bs (record behind { header = header }) r' u (clear ∙ fresh)
              (same ∙ live) (Took-other bs behind kind payload other took) ahead
      ]

  new_reader-Follows :
      (input : Bytes) (r : Reader w) (u : Unit {0})
      → new_reader w sha256 input ≡ (ok u, r)
      → Follows w sha256 input r × (r.done ≡ false)
  unfolding new_reader read_full
  new_reader-Follows input r u e =
      let opened : Reader w = record (started w sha256 (drop 26 input)) {
        hashed = take 26 input;
      } in
      let header : read_header w sha256 opened ≡ (ok u, r) = ground (arith, e) in
      let enough : length (take 26 input) ≡ 26 =
        let long = length-take {0} 26 input in ground (arith, e, long) in
      read_header-Follows input opened r u refl refl
        (sym (take-drop {0} 26 input), opening (take 26 input) enough) header

-- A source that is read to the end of a stream, with no error, holds that stream whole: an opening of
-- 26 bytes, records behind it of which none is an end record, each with nine bytes that announce its
-- kind and length, and then an end record. The digest in the end record is that of exactly the bytes
-- before it.
pub read_stream-IsCovered :
    (w : Wire) (sha256 : Bytes → Bytes) (n : ℕ) (input : Bytes) (contents : Contents w)
    → read_stream w sha256 n input ≡ ok contents
    → IsCovered w sha256 input
unfolding read_stream
read_stream-IsCovered w sha256 n input contents e =
    let r = (new_reader w sha256 input).1 in
    elim (read-cases (new_reader w sha256 input)) as (λ _. IsCovered w sha256 input) [
      | inl (error, got) ↦ ground (arith, e, got)
      | inr (u, got) ↦
          let (follows, live) = new_reader-Follows w sha256 input r u got in
          elim (read-cases (read_items w sha256 n r)) [
            | inl (error, others) ↦ ground (arith, e, got, others)
            | inr (items, others) ↦
                read_items-IsCovered w sha256 n input r _ items live follows others
          ]
    ]

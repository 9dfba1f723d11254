-- ===== src/Compression/Decoder/Copy.antt =====
-- compress/lz77/lz77.go: a match repeats what stands at its offset, also where it runs into itself.
use sombrero.Base.{
  ℕ, zero, suc, ◌+◌, ◌-◌, ◌≤◌, ◌<◌, some, [], ◌∷◌, ◌++◌, ◌≡◌, refl, sym, ap, ◌∙◌, length,
  length-append, get_elem?, arith, ◌⊎◌, inl, inr, Bool-cases, ◌==◌, subst,
}
use sombrero.Compression.Decoder.{Bytes, done, copy_match}

get_elem?-inside : (i : ℕ) (xs : Bytes) → i < length xs → (b : ℕ) × (get_elem? xs i ≡ some b)
get_elem?-inside i [] h = absurd (omega arith)
get_elem?-inside zero (x ∷ xs) h = (x, refl)
get_elem?-inside (suc i) (x ∷ xs) h = get_elem?-inside i xs (omega arith)

get_elem?-left : (i : ℕ) (xs ys : Bytes) → i < length xs → get_elem? (xs ++ ys) i ≡ get_elem? xs i
get_elem?-left i [] ys h = absurd (omega arith)
get_elem?-left zero (x ∷ xs) ys h = refl
get_elem?-left (suc i) (x ∷ xs) ys h = get_elem?-left i xs ys (omega arith)

get_elem?-last : (xs : Bytes) (b : ℕ) → get_elem? (xs ++ b ∷ []) (length xs) ≡ some b
get_elem?-last [] b = refl
get_elem?-last (x ∷ xs) b = get_elem?-last xs b

copy_match-step :
    (n src_pos b : ℕ) (out : Bytes)
    → get_elem? out src_pos ≡ some b
    → copy_match (suc n) src_pos out ≡ copy_match n (suc src_pos) (out ++ b ∷ [])
unfolding copy_match
copy_match-step n src_pos b out here = ground (arith, here)

last_or_later : (n i : ℕ) → n ≤ i → (i ≡ n) ⊎ (suc n ≤ i)
last_or_later n i h = elim (Bool-cases (n == i)) [
  | inl same ↦ inl (ground (arith, same))
  | inr other ↦ inr (ground (arith, other))
]

-- A match of `n` bytes that begins inside of what is there keeps that and adds `n` bytes.
pub copy_match-copies :
    (n offset : ℕ) (out : Bytes)
    → 0 < offset
    → offset ≤ length out
    → (out' : Bytes) × (copy_match n (length out - offset) out ≡ done out')
      × (length out' ≡ length out + n)
      × ((i : ℕ) → i < length out → get_elem? out' i ≡ get_elem? out i)
      × ((i : ℕ)
          → length out ≤ i
          → i < length out + n
          → get_elem? out' i ≡ get_elem? out' (i - offset))
unfolding copy_match
copy_match-copies zero offset out some_back inside =
    (out, refl, omega arith, λ i h. refl, λ i above below. absurd (omega arith))
copy_match-copies (suc n) offset out some_back inside =
    let (b, here) = get_elem?-inside (length out - offset) out (omega arith) in
    let more = out ++ b ∷ [] in
    let wide = length-append {0} out (b ∷ []) in
    let (out', copied, width, kept, repeats) =
      copy_match-copies n offset more some_back (omega arith) in
    let at : suc (length out - offset) ≡ length more - offset = omega arith in
    (
      out',
      copy_match-step n (length out - offset) b out here
          ∙ ap (λ k. copy_match n k more) at
          ∙ copied,
      omega arith,
      λ i h. kept i (omega arith) ∙ get_elem?-left i out (b ∷ []) h,
      λ i above below. elim (last_or_later (length out) i above) [
        | inl first ↦
            let here' =
              kept (length out - offset) (omega arith)
              ∙ get_elem?-left (length out - offset) out (b ∷ []) (omega arith)
              ∙ here in
            ap (get_elem? out') first
            ∙ kept (length out) (omega arith)
            ∙ get_elem?-last out b
            ∙ sym (ap (λ k. get_elem? out' (k - offset)) first ∙ here')
        | inr later ↦ repeats i (omega arith) (omega arith)
      ],
    )

-- Each byte that a match adds is the one that stands as far before it as the match's offset says, be that
-- one added by the same match, and all before the match stays. The match begins inside of what is
-- there.
pub copy_match-repeats :
    (n offset i j : ℕ) (out out' : Bytes)
    → 0 < offset
    → offset ≤ length out
    → copy_match n (length out - offset) out ≡ done out'
    → j < length out
    → length out ≤ i
    → i < length out + n
    → (get_elem? out' j ≡ get_elem? out j) × (get_elem? out' i ≡ get_elem? out' (i - offset))
copy_match-repeats n offset i j out out' some_back inside e before above below =
    let (copy, copied, width, kept, repeats) = copy_match-copies n offset out some_back inside in
    let same : copy ≡ out' = ground (arith, e, copied) in
    subst
      (λ (x : Bytes).
        (get_elem? x j ≡ get_elem? out j) × (get_elem? x i ≡ get_elem? x (i - offset)))
      same (kept j before, repeats i above below)

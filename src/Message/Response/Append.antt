-- ===== src/Message/Response/Append.antt =====
-- smb2/request.go: a response that is appended to a chain of responses is found at its end.
use sombrero.Base.{
  ℕ, zero, suc, ◌+◌, ◌-◌, ◌*◌, ◌%◌, ◌^◌, ◌≤◌, ◌<◌, List, [], ◌∷◌, ◌++◌, append_assoc, append-nil,
  All, All-append, ◌≡◌, refl, sym, ap, ◌∙◌, length, length-append, replicate, drop, arith,
  bit_and_seven, bit_or,
}
use sombrero.Message.Words.{Bytes, done, get, put, le_read, le_write, overwrite_at}
use sombrero.Message.Words.Overwrite.{length-overwrite_at, le_read-written, drop-after}
use sombrero.Message.Header.{flags_related_operations}
use sombrero.Message.Fields.{set_flag, set_flags, flags}
use sombrero.Message.Response.{Response, append, last_offset, roundup, padding}

pub drop-beyond : (pre ys : Bytes) (k : ℕ) → drop (length pre + k) (pre ++ ys) ≡ drop k ys
drop-beyond [] ys k = let same : 0 + k ≡ k = omega arith in ap (λ n. drop n ys) same
drop-beyond (p ∷ pre) ys k =
    let same : length (p ∷ pre) + k ≡ suc (length pre + k) = omega arith in
    ap (λ n. drop n (p ∷ (pre ++ ys))) same ∙ drop-beyond pre ys k

pub overwrite_at-beyond :
    (pre ys bs : Bytes) (k : ℕ)
    → overwrite_at (length pre + k) bs (pre ++ ys) ≡ pre ++ overwrite_at k bs ys
overwrite_at-beyond [] ys bs k =
    let same : 0 + k ≡ k = omega arith in ap (λ n. overwrite_at n bs ys) same
overwrite_at-beyond (p ∷ pre) ys bs k =
    let same : length (p ∷ pre) + k ≡ suc (length pre + k) = omega arith in
    ap (λ n. overwrite_at n bs (p ∷ (pre ++ ys))) same
    ∙ ap (λ b. p ∷ b) (overwrite_at-beyond pre ys bs k)

le_read-front : (n : ℕ) (xs ys : Bytes) → n ≤ length xs → le_read n (xs ++ ys) ≡ le_read n xs
le_read-front zero xs ys h = refl
le_read-front (suc n) [] ys h = absurd (omega arith)
le_read-front (suc n) (x ∷ xs) ys h = ap (λ k. x + 256 * k) (le_read-front n xs ys (omega arith))

le_read-left :
    (o n : ℕ) (xs ys : Bytes)
    → o + n ≤ length xs
    → le_read n (drop o (xs ++ ys)) ≡ le_read n (drop o xs)
le_read-left zero n xs ys h = le_read-front n xs ys (omega arith)
le_read-left (suc o) n [] ys h = absurd (omega arith)
le_read-left (suc o) n (x ∷ xs) ys h = le_read-left o n xs ys (omega arith)

-- Where a response of a chain says that the next one begins.
abbrev pub next_of : Bytes → ℕ
next_of bytes = le_read 4 (drop 20 bytes)

-- A response with another behind it, and the last one.
abbrev pub IsLinked : Bytes → Type 0
IsLinked x = (64 ≤ length x) × (length x % 8 ≡ 0) × (next_of x ≡ length x)

abbrev pub IsLast : Bytes → Type 0
IsLast x = (64 ≤ length x) × (next_of x ≡ 0)

abbrev pub joined : List Bytes → Bytes
joined [] = []
joined (x ∷ xs) = x ++ joined xs

joined-append : (xs : List Bytes) (x : Bytes) → joined (xs ++ x ∷ []) ≡ joined xs ++ x
joined-append [] x = append-nil x
joined-append (y ∷ xs) x =
    ap (λ b. y ++ b) (joined-append xs x) ∙ sym (append_assoc y (joined xs) x)

last_offset-joined :
    (fuel : ℕ) (pre last : Bytes) (xs : List Bytes)
    → length (joined xs) < fuel
    → length pre + (length (joined xs) + length last) < 2 ^ 32
    → All IsLinked xs
    → IsLast last
    → last_offset fuel (pre ++ (joined xs ++ last)) (length pre)
      ≡ done (length pre + length (joined xs))
unfolding last_offset get
last_offset-joined zero pre last xs few small links ends = absurd (omega arith)
last_offset-joined (suc fuel) pre last [] few small links ends =
    let word = ap (le_read 4) (drop-beyond pre last 20) in
    let wide = length-append {0} pre last in ground (arith, word, wide)
last_offset-joined (suc fuel) pre last (x ∷ xs) few small links ends =
    let (long, eights, link) = links.0 in
    let bytes = pre ++ ((x ++ joined xs) ++ last) in
    let wide_x = length-append {0} x (joined xs) in
    let wide_pre = length-append {0} pre x in
    let wide_all = length-append {0} (x ++ joined xs) last in
    let wide = length-append {0} pre ((x ++ joined xs) ++ last) in
    let within : 20 + 4 ≤ length x = omega arith in
    let word : le_read 4 (drop (length pre + 20) bytes) ≡ length x =
      ap (le_read 4) (drop-beyond pre ((x ++ joined xs) ++ last) 20)
      ∙ ap (λ b. le_read 4 (drop 20 b)) (append_assoc x (joined xs) last)
      ∙ le_read-left 20 4 x (joined xs ++ last) within
      ∙ link in
    let apart : bytes ≡ (pre ++ x) ++ (joined xs ++ last) = simp append_assoc refl in
    let at : (length pre + length x) % 2 ^ 32 ≡ length (pre ++ x) = omega arith in
    let rest : last_offset fuel bytes ((length pre + length x) % 2 ^ 32)
        ≡ done (length (pre ++ x) + length (joined xs)) =
      ap (λ n. last_offset fuel bytes n) at
      ∙ ap (λ b. last_offset fuel b (length (pre ++ x))) apart
      ∙ last_offset-joined fuel (pre ++ x) last xs (omega arith) (omega arith) links.1 ends in
    let here : (length pre + 20) % 2 ^ 32 ≡ length pre + 20 = omega arith in
    let got : get ((length pre + 20) % 2 ^ 32) 4 bytes ≡ done (length x) =
      ap (λ n. get n 4 bytes) here ∙ ground (arith, word, wide, wide_all, wide_x) in
    let sum : length (pre ++ x) + length (joined xs) ≡ length pre + length (x ++ joined xs) =
      omega arith in
    ground (arith, got, rest, sum, long)

roundup-eights : (x : ℕ) → (x ≤ roundup x 8) × (roundup x 8 < x + 8) × (roundup x 8 % 8 ≡ 0)
unfolding roundup
roundup-eights x = let low = bit_and_seven (x + 7) in omega (arith, low)

joined-eights : (xs : List Bytes) → All IsLinked xs → length (joined xs) % 8 ≡ 0
joined-eights [] links = omega arith
joined-eights (x ∷ xs) ((long, eights, link), links) =
    let rest = joined-eights xs links in omega (arith, rest, length-append {0} x (joined xs))

length-replicate : (n : ℕ) → length {A = ℕ} (replicate n 0) ≡ n
length-replicate zero = refl
length-replicate (suc n) = ap suc (length-replicate n)

-- The last response of a chain with the padding behind it and its link set.
abbrev pub linked_last : Bytes → Bytes → Bytes
linked_last last pad = overwrite_at 20 (le_write 4 (length (last ++ pad))) (last ++ pad)

linked_last-IsLinked :
    (last pad : Bytes)
    → 64 ≤ length last
    → length (last ++ pad) % 8 ≡ 0
    → length (last ++ pad) < 2 ^ 32
    → IsLinked (linked_last last pad)
linked_last-IsLinked last pad long eights small =
    let v = length (last ++ pad) in
    let wide = length-append {0} last pad in
    let same = length-overwrite_at 20 (le_write 4 v) (last ++ pad) in
    (
      omega (arith, wide, same),
      omega (arith, same),
      le_read-written 20 4 v (last ++ pad) (omega (arith, wide)) small ∙ sym same,
    )

-- Setting a flag of a last response.
set_flag-IsLast :
    (flag : ℕ) (bytes : Bytes)
    → IsLast bytes
    → (related : Bytes) × (set_flag flag bytes ≡ done related)
      × IsLast related
      × (drop 20 related ≡ drop 20 bytes)
unfolding set_flag set_flags flags get put
set_flag-IsLast flag bytes (long, alone) =
    let word = le_write 4 (bit_or (le_read 4 (drop 16 bytes)) flag) in
    let related = overwrite_at 16 word bytes in
    let same = length-overwrite_at 16 word bytes in
    let behind : drop 20 related ≡ drop 20 bytes = drop-after 20 16 word bytes (omega arith) in
    (related, ground (arith, long), (omega (arith, same), ap (le_read 4) behind ∙ alone), behind)

put-linked :
    (xs : List Bytes) (last pad : Bytes)
    → 64 ≤ length last
    → length (joined xs ++ (last ++ pad)) < 2 ^ 32
    → put
        ((length (joined xs) + 20) % 2 ^ 32)
        4
        ((length (joined xs ++ (last ++ pad)) + 2 ^ 32 - length (joined xs)) % 2 ^ 32)
        (joined xs ++ (last ++ pad))
      ≡ done (joined xs ++ linked_last last pad)
unfolding put
put-linked xs last pad long small =
    let bytes = joined xs ++ (last ++ pad) in
    let wide = length-append {0} (joined xs) (last ++ pad) in
    let wide_last = length-append {0} last pad in
    let at : (length (joined xs) + 20) % 2 ^ 32 ≡ length (joined xs) + 20 = omega arith in
    let v : (length bytes + 2 ^ 32 - length (joined xs)) % 2 ^ 32 ≡ length (last ++ pad) =
      omega arith in
    let there =
      overwrite_at-beyond (joined xs) (last ++ pad) (le_write 4 (length (last ++ pad))) 20 in
    ap (λ n. put n 4 ((length bytes + 2 ^ 32 - length (joined xs)) % 2 ^ 32) bytes) at
    ∙ ap (λ n. put (length (joined xs) + 20) 4 n bytes) v
    ∙ ground (arith, there, wide, wide_last, long)

All-then :
    (xs : List Bytes) (x : Bytes) → All IsLinked xs → IsLinked x → All IsLinked (xs ++ x ∷ [])
All-then xs x links link = All-append IsLinked xs (x ∷ []) links (link, tt)

-- A response that is appended to a chain of responses, each of which says where the next one begins, comes
-- to stand behind the last one, which then says so: it is filled up to a number of eights, and of
-- its bytes only the link is changed. The one that is appended is the last of the new chain. The
-- responses are whole headers at least, and the chain is shorter than 2^32 bytes.
pub append-IsLinked :
    (resp added : Response) (xs : List Bytes) (last : Bytes)
    → resp.body ≡ joined xs ++ last
    → All IsLinked xs
    → IsLast last
    → IsLast added.body
    → length resp.body + 8 < 2 ^ 32
    → (related : Bytes) × (append resp added
        ≡ done (
          record resp {
            body = joined (xs ++ linked_last last (padding resp.body) ∷ []) ++ related;
          },
          record added { body = related },
        ))
      × (All IsLinked (xs ++ linked_last last (padding resp.body) ∷ []))
      × (IsLast related)
      × (drop 20 related ≡ drop 20 added.body)
unfolding append
append-IsLinked resp added xs last whole links ends single small =
    let pad = padding resp.body in
    let (above, below, eights) = roundup-eights (length resp.body) in
    let wide = ap length whole ∙ length-append {0} (joined xs) last in
    let wide_pad = length-replicate (roundup (length resp.body) 8 - length resp.body) in
    let wide_last = length-append {0} last pad in
    let wide_all = length-append {0} (joined xs) (last ++ pad) in
    let even = joined-eights xs links in
    let link = linked_last-IsLinked last pad ends.0 (omega arith) (omega arith) in
    let (related, flagged, last_again, same) =
      set_flag-IsLast flags_related_operations added.body single in
    let zero_more : 0 + length (joined xs) ≡ length (joined xs) = omega arith in
    let found : last_offset (suc (length resp.body)) resp.body 0 ≡ done (length (joined xs)) =
      ap (λ b. last_offset (suc (length resp.body)) b 0) whole
      ∙ last_offset-joined (suc (length resp.body)) [] last xs (omega arith) (omega arith) links
          ends
      ∙ ap done zero_more in
    let apart : resp.body ++ pad ≡ joined xs ++ (last ++ pad) =
      ap (λ b. b ++ pad) whole ∙ append_assoc (joined xs) last pad in
    let put_there = put-linked xs last pad ends.0 (omega arith) in
    let linked =
      ap
        (λ b.
          put ((length (joined xs) + 20) % 2 ^ 32) 4
            ((length b + 2 ^ 32 - length (joined xs)) % 2 ^ 32) b)
        apart
      ∙ put_there in
    let body = sym (joined-append xs (linked_last last pad)) in
    (
      related,
      ground (arith, found, linked, flagged, body),
      All-then xs (linked_last last pad) links link,
      last_again,
      same,
    )

-- ===== src/Message/Words/Overwrite.antt =====
-- encoding/binary: a word that is written is read back, and what lies beside it stays.
use sombrero.Base.{
  ℕ, zero, suc, ◌+◌, ◌*◌, ◌/◌, ◌^◌, ◌≤◌, ◌<◌, [], ◌∷◌, ◌≡◌, refl, ap, drop, length, arith,
}
use sombrero.Message.Words.{Bytes, le_read, le_write, overwrite, overwrite_at}

pub length-overwrite : (bs xs : Bytes) → length (overwrite bs xs) ≡ length xs
length-overwrite [] xs = refl
length-overwrite (b ∷ bs) [] = refl
length-overwrite (b ∷ bs) (x ∷ xs) = ap suc (length-overwrite bs xs)

pub length-overwrite_at : (off : ℕ) (bs xs : Bytes) → length (overwrite_at off bs xs) ≡ length xs
length-overwrite_at zero bs xs = length-overwrite bs xs
length-overwrite_at (suc off) bs [] = refl
length-overwrite_at (suc off) bs (x ∷ xs) = ap suc (length-overwrite_at off bs xs)

pub length-le_write : (n v : ℕ) → length (le_write n v) ≡ n
length-le_write zero v = refl
length-le_write (suc n) v = ap suc (length-le_write n (v / 256))

le_read-overwrite :
    (n v : ℕ) (xs : Bytes)
    → n ≤ length xs
    → v < 256 ^ n
    → le_read n (overwrite (le_write n v) xs) ≡ v
le_read-overwrite zero v xs fits small = omega arith
le_read-overwrite (suc n) v [] fits small = absurd (omega arith)
le_read-overwrite (suc n) v (x ∷ xs) fits small =
    let rest = le_read-overwrite n (v / 256) xs (omega arith) (omega arith) in omega (arith, rest)

-- A word is read back from where it was written.
pub le_read-written :
    (off n v : ℕ) (xs : Bytes)
    → off + n ≤ length xs
    → v < 256 ^ n
    → le_read n (drop off (overwrite_at off (le_write n v) xs)) ≡ v
le_read-written zero n v xs fits small = le_read-overwrite n v xs (omega arith) small
le_read-written (suc off) n v [] fits small = absurd (omega arith)
le_read-written (suc off) n v (x ∷ xs) fits small = le_read-written off n v xs (omega arith) small

le_read-ahead :
    (m off : ℕ) (bs xs : Bytes) → m ≤ off → le_read m (overwrite_at off bs xs) ≡ le_read m xs
le_read-ahead zero off bs xs h = refl
le_read-ahead (suc m) zero bs xs h = absurd (omega arith)
le_read-ahead (suc m) (suc off) bs [] h = refl
le_read-ahead (suc m) (suc off) bs (x ∷ xs) h =
    ap (λ n. x + 256 * n) (le_read-ahead m off bs xs (omega arith))

-- A word that ends before what was written.
pub le_read-before :
    (o m off : ℕ) (bs xs : Bytes)
    → o + m ≤ off
    → le_read m (drop o (overwrite_at off bs xs)) ≡ le_read m (drop o xs)
le_read-before zero m off bs xs h = le_read-ahead m off bs xs (omega arith)
le_read-before (suc o) m zero bs xs h = absurd (omega arith)
le_read-before (suc o) m (suc off) bs [] h = refl
le_read-before (suc o) m (suc off) bs (x ∷ xs) h = le_read-before o m off bs xs (omega arith)

drop-overwrite : (o : ℕ) (bs xs : Bytes) → length bs ≤ o → drop o (overwrite bs xs) ≡ drop o xs
drop-overwrite o [] xs h = refl
drop-overwrite zero (b ∷ bs) xs h = absurd (omega arith)
drop-overwrite (suc o) (b ∷ bs) [] h = refl
drop-overwrite (suc o) (b ∷ bs) (x ∷ xs) h = drop-overwrite o bs xs (omega arith)

-- What begins after what was written.
pub drop-after :
    (o off : ℕ) (bs xs : Bytes) → off + length bs ≤ o → drop o (overwrite_at off bs xs) ≡ drop o xs
drop-after o zero bs xs h = drop-overwrite o bs xs (omega arith)
drop-after zero (suc off) bs xs h = absurd (omega arith)
drop-after (suc o) (suc off) bs [] h = refl
drop-after (suc o) (suc off) bs (x ∷ xs) h = drop-after o off bs xs (omega arith)

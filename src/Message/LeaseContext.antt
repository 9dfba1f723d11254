-- ===== src/Message/LeaseContext.antt =====
-- smb2/lease.go: the create contexts by which a client asks for a lease and is told of it.
use sombrero.Base.{
  ℕ, zero, suc, ◌+◌, ◌^◌, ◌<◌, Option, none, some, [], ◌∷◌, ◌++◌, ◌≡◌, refl, ap, sym, ◌∙◌, leb, ltb,
  ◌==◌, if◌then◌else◌, length, length-append, take, drop, replicate, arith, take-append_at, ◌⊎◌,
  inl, inr,
}
use sombrero.Message.Words.{Bytes, le_read, le_write, overwrite_at, overwrite}
use sombrero.Message.Response.Append.{drop-beyond, overwrite_at-beyond}

abbrev pub lease_request_v1_size : ℕ
lease_request_v1_size = 32

abbrev pub lease_request_v2_size : ℕ
lease_request_v2_size = 52

-- The keys are of sixteen bytes.
pub record LeaseRequest : Type 0 where
  pub lease_key : Bytes
  pub lease_state : ℕ
  pub flags : ℕ
  pub parent_lease_key : Bytes
  pub epoch : ℕ
  pub version : ℕ

unfoldable pub parse_lease_request : Bytes → Option LeaseRequest
parse_lease_request bytes =
    if ltb (length bytes) lease_request_v1_size
    then none
    else (let req : LeaseRequest = record {
      lease_key = take 16 bytes;
      lease_state = le_read 4 (drop 16 bytes);
      flags = le_read 4 (drop 20 bytes);
      parent_lease_key = replicate 16 0;
      epoch = 0;
      version = 1;
    } in
        if leb lease_request_v2_size (length bytes)
        then some (record req {
          version = 2;
          parent_lease_key = take 16 (drop 32 bytes);
          epoch = le_read 2 (drop 48 bytes);
        })
        else some req)

unfoldable pub handle_create_request_lease : LeaseRequest → ℕ → ℕ → Bytes
handle_create_request_lease req granted epoch =
    let size = if req.version == 2 then lease_request_v2_size else lease_request_v1_size in
    let resp =
      overwrite_at 16 (le_write 4 granted)
        (overwrite_at 0 (take 16 req.lease_key) (replicate size 0)) in
    if req.version == 2 then overwrite_at 48 (le_write 2 epoch) resp else resp

overwrite-key :
    (n : ℕ) (key ys : Bytes) → length key ≡ n → overwrite key (replicate n 0 ++ ys) ≡ key ++ ys
overwrite-key zero [] ys e = refl
overwrite-key zero (k ∷ key) ys e = absurd (omega arith)
overwrite-key (suc n) [] ys e = absurd (omega arith)
overwrite-key (suc n) (k ∷ key) ys e = ap (λ b. k ∷ b) (overwrite-key n key ys (omega arith))

all_of : (key : Bytes) → take (length key) key ≡ key
all_of [] = refl
all_of (k ∷ key) = ap (λ b. k ∷ b) (all_of key)

-- The key and the state of an answer of sixteen bytes and `n` more.
module _ (key : Bytes) (width : length key ≡ 16) where
  answer-start :
      (n granted : ℕ)
      → overwrite_at 16
          (le_write 4 granted)
          (overwrite_at 0 (take 16 key) (replicate 16 0 ++ replicate n 0))
        ≡ key ++ overwrite (le_write 4 granted) (replicate n 0)
  answer-start n granted =
      let whole : take 16 key ≡ key = ap (λ k. take k key) (sym width) ∙ all_of key in
      let at : 16 ≡ length key + 0 = omega arith in
      ap (λ b. overwrite_at 16 (le_write 4 granted) (overwrite b (replicate 16 0 ++ replicate n 0)))
        whole
      ∙ ap (overwrite_at 16 (le_write 4 granted)) (overwrite-key 16 key (replicate n 0) width)
      ∙ ap (λ k. overwrite_at k (le_write 4 granted) (key ++ replicate n 0)) at
      ∙ overwrite_at-beyond key (replicate n 0) (le_write 4 granted) 0

  answer-part : (k : ℕ) (ys : Bytes) → drop (16 + k) (key ++ ys) ≡ drop k ys
  answer-part k ys = ap (λ n. drop (n + k) (key ++ ys)) (sym width) ∙ drop-beyond key ys k

handle-v1 :
    (req : LeaseRequest) (granted epoch : ℕ)
    → length req.lease_key ≡ 16
    → req.version ≡ 1
    → handle_create_request_lease req granted epoch
      ≡ req.lease_key ++ overwrite (le_write 4 granted) (replicate 16 0)
unfolding handle_create_request_lease
handle-v1 req granted epoch width v =
    let start = answer-start req.lease_key width 16 granted in rw v start

handle-v2 :
    (req : LeaseRequest) (granted epoch : ℕ)
    → length req.lease_key ≡ 16
    → req.version ≡ 2
    → handle_create_request_lease req granted epoch
      ≡ req.lease_key
        ++ overwrite_at 32 (le_write 2 epoch) (overwrite (le_write 4 granted) (replicate 36 0))
unfolding handle_create_request_lease
handle-v2 req granted epoch width v =
    let start = answer-start req.lease_key width 36 granted in
    let ys = overwrite (le_write 4 granted) (replicate 36 0) in
    let at : 48 ≡ length req.lease_key + 32 = omega arith in
    rw v (
      ap (overwrite_at 48 (le_write 2 epoch)) start
      ∙ ap (λ k. overwrite_at k (le_write 2 epoch) (req.lease_key ++ ys)) at
      ∙ overwrite_at-beyond req.lease_key ys (le_write 2 epoch) 32)

-- What a client is told of its lease.
abbrev pub answered : LeaseRequest → ℕ → ℕ → LeaseRequest
answered req granted epoch = record {
  lease_key = req.lease_key;
  lease_state = granted;
  flags = 0;
  parent_lease_key = replicate 16 0;
  epoch = if req.version == 2 then epoch else 0;
  version = req.version;
}

four_bytes : (n : ℕ) → n < 2 ^ 32 → le_read 4 (le_write 4 n) ≡ n
four_bytes n small = omega arith

parse-key :
    (key ys : Bytes) (n : ℕ)
    → length key ≡ 16
    → length ys ≡ n
    → (length (key ++ ys) ≡ 16 + n)
      × (take 16 (key ++ ys) ≡ key)
      × (drop 16 (key ++ ys) ≡ ys)
      × (drop 20 (key ++ ys) ≡ drop 4 ys)
      × (drop 32 (key ++ ys) ≡ drop 16 ys)
      × (drop 48 (key ++ ys) ≡ drop 32 ys)
parse-key key ys n width rest = (
  omega (arith, length-append {0} key ys, width, rest),
  take-append_at 16 key ys (sym width),
  answer-part key width 0 ys,
  answer-part key width 4 ys,
  answer-part key width 16 ys,
  answer-part key width 32 ys,
)

-- The answer to a request for a lease, read as a request is, names the lease key that was asked for and
-- tells the state that was granted, in the version that the client asked in, with the epoch if that
-- is the second; no flag is set and there is no parent key. The key is of sixteen bytes, and the
-- numbers fit their fields.
pub parse_lease_request-handle_create_request_lease :
    (req : LeaseRequest) (granted epoch : ℕ)
    → length req.lease_key ≡ 16
    → granted < 2 ^ 32
    → epoch < 2 ^ 16
    → (req.version ≡ 1) ⊎ (req.version ≡ 2)
    → parse_lease_request (handle_create_request_lease req granted epoch)
      ≡ some (answered req granted epoch)
unfolding parse_lease_request
parse_lease_request-handle_create_request_lease req granted epoch width small small_epoch
      (inl first) =
    let ys = overwrite (le_write 4 granted) (replicate 16 0) in
    let parts = parse-key req.lease_key ys 16 width refl in
    let state = four_bytes granted small in
    ap parse_lease_request (handle-v1 req granted epoch width first)
    ∙ ground (arith, parts, state, first)
parse_lease_request-handle_create_request_lease req granted epoch width small small_epoch
      (inr second) =
    let ys = overwrite_at 32 (le_write 2 epoch) (overwrite (le_write 4 granted) (replicate 36 0)) in
    let parts = parse-key req.lease_key ys 36 width refl in
    let state = four_bytes granted small in
    ap parse_lease_request (handle-v2 req granted epoch width second)
    ∙ ground (arith, parts, state, second)

-- ===== src/Message/Request/Parts.antt =====
-- smb2/request.go: what requests are of the message that they were cut from.
use sombrero.Base.{
  ℕ, ◌%◌, ◌<◌, Bool, true, false, ◌&&◌, List, [], ◌∷◌, ◌++◌, ◌≡◌, refl, ap, ◌∙◌, map, ltb, ◌==◌,
  ==_refl, length, arith,
}
use sombrero.Message.Words.{Bytes}
use sombrero.Message.Fields.{next_command}
use sombrero.Message.Request.{Request}
use sombrero.Message.Request.Chain.{value_or}

-- The bytes of some requests, one behind the other.
unfoldable pub bodies : List Request → Bytes
bodies [] = []
bodies (req ∷ rest) = req.body ++ bodies rest

-- Each request but the last is a number of eights long, and not empty.
unfoldable pub aligned : List Request → Bool
aligned [] = true
aligned (req ∷ []) = true
aligned (req ∷ other ∷ rest) =
    (ltb 0 (length req.body) && (length req.body % 8 == 0)) && aligned (other ∷ rest)

-- Where the message says that the next request begins, counted from the first of these.
abbrev pub next_of : List Request → ℕ
next_of reqs = value_or 0 (next_command (bodies reqs))

-- Each request but the last is as long as its `NextCommand` says, and that of the last is 0.
unfoldable pub linked : List Request → Bool
linked [] = false
linked (req ∷ []) = next_of (req ∷ []) == 0
linked (req ∷ other ∷ rest) =
    (next_of (req ∷ other ∷ rest) == length req.body) && linked (other ∷ rest)

pub aligned-more :
    (req : Request) (rest : List Request)
    → 0 < length req.body
    → length req.body % 8 ≡ 0
    → aligned rest ≡ true
    → aligned (req ∷ rest) ≡ true
unfolding aligned
aligned-more req [] some eights ok = refl
aligned-more req (other ∷ rest) some eights ok = ground (arith, some, eights, ok)

pub linked-last :
    (req : Request) (bytes : Bytes)
    → bodies (req ∷ []) ≡ bytes
    → value_or 0 (next_command bytes) ≡ 0
    → linked (req ∷ []) ≡ true
unfolding linked
linked-last req bytes whole last =
    ap (λ b. value_or 0 (next_command b) == 0) whole ∙ ap (λ n. n == 0) last

pub linked-more :
    (req : Request) (rest : List Request) (bytes : Bytes)
    → bodies (req ∷ rest) ≡ bytes
    → value_or 0 (next_command bytes) ≡ length req.body
    → linked rest ≡ true
    → linked (req ∷ rest) ≡ true
unfolding linked
linked-more req [] bytes whole next ok = ground (arith, ok)
linked-more req (other ∷ rest) bytes whole next ok =
    let here : (next_of (req ∷ other ∷ rest) == length req.body) ≡ true =
      ap (λ b. value_or 0 (next_command b) == length req.body) whole
      ∙ ap (λ n. n == length req.body) next
      ∙ ==_refl (length req.body) in
    ap (λ b. b && linked (other ∷ rest)) here ∙ ok

-- A group says nothing of where requests begin and end.
abbrev pub regrouped : ℕ → List Request → List Request
regrouped id reqs = map (λ (req : Request). record req { group_id = id }) reqs

pub bodies-regrouped : (id : ℕ) (reqs : List Request) → bodies (regrouped id reqs) ≡ bodies reqs
unfolding bodies
bodies-regrouped id [] = refl
bodies-regrouped id (r ∷ rest) = ap (λ b. r.body ++ b) (bodies-regrouped id rest)

pub aligned-regrouped : (id : ℕ) (reqs : List Request) → aligned (regrouped id reqs) ≡ aligned reqs
unfolding aligned
aligned-regrouped id [] = refl
aligned-regrouped id (r ∷ []) = refl
aligned-regrouped id (r ∷ other ∷ rest) =
    ap (λ b. (ltb 0 (length r.body) && (length r.body % 8 == 0)) && b)
      (aligned-regrouped id (other ∷ rest))

pub linked-regrouped : (id : ℕ) (reqs : List Request) → linked (regrouped id reqs) ≡ linked reqs
unfolding linked bodies
linked-regrouped id [] = refl
linked-regrouped id (r ∷ []) = refl
linked-regrouped id (r ∷ other ∷ rest) =
    ap (λ b. (value_or 0 (next_command b) == length r.body) && linked (regrouped id (other ∷ rest)))
      (bodies-regrouped id (r ∷ other ∷ rest))
    ∙ ap (λ b. (next_of (r ∷ other ∷ rest) == length r.body) && b)
        (linked-regrouped id (other ∷ rest))

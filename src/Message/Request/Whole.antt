-- ===== src/Message/Request/Whole.antt =====
-- smb2/request.go: the requests of a chain are the message cut at its boundaries.
use sombrero.Base.{
  drop-drop, take-drop, length-take, length-drop, ℕ, zero, suc, ◌+◌, ◌%◌, ◌^◌, ◌≤◌, ◌<◌, Bool, true,
  false, ◌||◌, List, [], ◌∷◌, ◌++◌, append-nil, ◌≡◌, refl, sym, ap, ◌∙◌, length, has, take, drop,
  arith, ◌⊎◌, inl, inr, Bool-cases, bit_and_seven,
}
use sombrero.Message.Words.{Bytes, done, slice, slice_from}
use sombrero.Message.Fields.{next_command, is_flag_set}
use sombrero.Message.Request.{
  Request, Arrival, new_request, cut, chain_fuel, get_requests, Taken, group,
}
use sombrero.Message.Request.Parts.{
  bodies, aligned, linked, aligned-more, linked-last, linked-more, bodies-regrouped,
  aligned-regrouped, linked-regrouped,
}
use sombrero.Message.Request.Chain.{value_or, cut-fits, is_done}

has-eights : (n : ℕ) → has n 7 ≡ false → n % 8 ≡ 0
has-eights n e = let bits = bit_and_seven n in ground (arith, e, bits)

-- What a cut leaves of a request that begins at `off`.
cut-body :
    (bytes : Bytes) (off next : ℕ) (req req' : Request)
    → length bytes < 2 ^ 32
    → 0 < next
    → cut bytes off next req ≡ done req'
    → req'.body ≡ take next (drop off bytes)
unfolding cut slice
cut-body bytes off next req req' small some e = ground (arith, e, small, some)

cut-last :
    (bytes : Bytes) (off : ℕ) (req req' : Request) → cut bytes off 0 req ≡ done req' → req' ≡ req
unfolding cut
cut-last bytes off req req' e = ground (arith, e)

abbrev none_taken : Taken
none_taken = record { reqs = []; related = false }

-- One round of the loop that took something.
chain_fuel-step :
    (fuel : ℕ) (from : Arrival) (bytes : Bytes) (off so_far : ℕ) (related : Bool) (req : Request)
    (next : ℕ) (t : Taken)
    → chain_fuel (suc fuel) from bytes off so_far related req next ≡ done t
    → let off' = (off + next) % 2 ^ 32 in
      let set = related || value_or false (is_flag_set 4 req.body) in
      let following = new_request from (suc so_far) (drop off' bytes) in
      let req' = value_or req (cut bytes off next req) in
      let rest =
        chain_fuel fuel from bytes off'
          (suc so_far)
          set
          following
          (value_or 0 (next_command following.body)) in
      (cut bytes off next req ≡ done req')
      × (has next 7 ≡ false)
      × (((next ≡ 0) × (t.reqs ≡ req' ∷ []))
          ⊎ ((0 < next)
              × (rest ≡ done (value_or none_taken rest))
              × (t.reqs ≡ req' ∷ (value_or none_taken rest).reqs)))
unfolding chain_fuel slice_from
chain_fuel-step fuel from bytes off so_far related req next t e = ground (arith, e)

chain_fuel-empty :
    (from : Arrival) (bytes : Bytes) (off so_far : ℕ) (related : Bool) (req : Request) (next : ℕ)
    (t : Taken)
    → ¬ (chain_fuel zero from bytes off so_far related req next ≡ done t)
unfolding chain_fuel
chain_fuel-empty from bytes off so_far related req next t e = ground (arith, e)

new_request-body :
    (from : Arrival) (k : ℕ) (bytes : Bytes) → (new_request from k bytes).body ≡ bytes
unfolding new_request
new_request-body from k bytes = refl

chain_fuel-whole :
    (fuel : ℕ) (from : Arrival) (bytes : Bytes) (off so_far : ℕ) (related : Bool) (req : Request)
    (next : ℕ) (t : Taken)
    → length bytes < 2 ^ 32
    → off ≤ length bytes
    → req.body ≡ drop off bytes
    → value_or 0 (next_command req.body) ≡ next
    → chain_fuel fuel from bytes off so_far related req next ≡ done t
    → (bodies t.reqs ≡ drop off bytes) × (aligned t.reqs ≡ true) × (linked t.reqs ≡ true)
unfolding bodies aligned
chain_fuel-whole zero from bytes off so_far related req next t small inside here link e =
    absurd (chain_fuel-empty from bytes off so_far related req next t e)
chain_fuel-whole (suc fuel) from bytes off so_far related req next t small inside here link e =
    let off' = (off + next) % 2 ^ 32 in
    let set = related || value_or false (is_flag_set 4 req.body) in
    let following = new_request from (suc so_far) (drop off' bytes) in
    let next' = value_or 0 (next_command following.body) in
    let req' = value_or req (cut bytes off next req) in
    let others =
      value_or none_taken (chain_fuel fuel from bytes off' (suc so_far) set following next') in
    let (cut_ok, eights, came) = chain_fuel-step fuel from bytes off so_far related req next t e in
    elim came [
      | inl (last, only) ↦
          let same =
            cut-last bytes off req req' (ap (λ n. cut bytes off n req) (sym last) ∙ cut_ok) in
          let whole : bodies (req' ∷ []) ≡ drop off bytes =
            append-nil req'.body ∙ ap (λ (r : Request). r.body) same ∙ here in
          let ends : value_or 0 (next_command (drop off bytes)) ≡ 0 =
            ap (λ b. value_or 0 (next_command b)) (sym here) ∙ link ∙ last in
          (
            ap bodies only ∙ whole,
            ap aligned only,
            ap linked only ∙ linked-last req' (drop off bytes) whole ends,
          )
      | inr (more, rest, reqs) ↦
          let fits : off + next ≤ length bytes =
            cut-fits bytes off next req (ap is_done cut_ok) inside in
          let at : off + next ≡ off' = omega arith in
          let body = cut-body bytes off next req req' small more cut_ok in
          let (others_whole, others_aligned, others_linked) =
            chain_fuel-whole fuel from bytes off' (suc so_far) set following next' others small
              (omega arith) (new_request-body from (suc so_far) (drop off' bytes)) refl rest in
          let left = length-drop {0} off bytes in
          let wide : length req'.body ≡ next =
            ap length body ∙ length-take {0} next (drop off bytes) (omega arith) in
          let whole_eights = has-eights next eights in
          let parts = take-drop {0} next (drop off bytes) in
          let further = drop-drop {0} off next bytes in
          let whole : bodies (req' ∷ others.reqs) ≡ drop off bytes =
            ap (λ b. b ++ bodies others.reqs) body
            ∙ ap (λ b. take next (drop off bytes) ++ b)
                (others_whole ∙ ap (λ k. drop k bytes) (sym at) ∙ sym further)
            ∙ parts in
          let begins : value_or 0 (next_command (drop off bytes)) ≡ length req'.body =
            ap (λ b. value_or 0 (next_command b)) (sym here) ∙ link ∙ sym wide in
          (
            ap bodies reqs ∙ whole,
            ap aligned reqs
                ∙ aligned-more req' others.reqs (omega arith) (omega arith) others_aligned,
            ap linked reqs
                ∙ linked-more req' others.reqs (drop off bytes) whole begins others_linked,
          )
    ]

group-whole :
    (id : ℕ) (t : Taken)
    → (bodies (group id t) ≡ bodies t.reqs)
      × (aligned (group id t) ≡ aligned t.reqs)
      × (linked (group id t) ≡ linked t.reqs)
unfolding group
group-whole id t =
    elim (Bool-cases t.related)
      as (λ _.
        (bodies (group id t) ≡ bodies t.reqs)
        × (aligned (group id t) ≡ aligned t.reqs)
        × (linked (group id t) ≡ linked t.reqs)) [
          | inl related ↦
              rw related (
                bodies-regrouped id t.reqs,
                aligned-regrouped id t.reqs,
                linked-regrouped id t.reqs,
              )
          | inr alone ↦ rw alone (refl, refl, refl)
        ]

-- The two ways that a message comes to requests.
get_requests-came :
    (from : Arrival) (bytes : Bytes) (reqs : List Request)
    → get_requests from bytes ≡ done reqs
    → let req = new_request from 0 bytes in
      let next = value_or 0 (next_command req.body) in
      let chain = chain_fuel (suc (length bytes)) from bytes 0 0 false req next in
      let t = value_or none_taken chain in
      ((next ≡ 0) × (reqs ≡ req ∷ []))
      ⊎ ((chain ≡ done t) × (reqs ≡ group (from.draw (length t.reqs)) t))
unfolding get_requests
get_requests-came from bytes reqs e = ground (arith, e)

-- The requests that a message comes to are the message, cut where its chain says: together they are
-- all of its bytes, in order; each but the last is some eights long and not empty, and as long as
-- the `NextCommand` of the message says where the request begins; and that of the last is 0. The
-- message is shorter than 2^32 bytes.
pub get_requests-whole :
    (from : Arrival) (bytes : Bytes) (reqs : List Request)
    → length bytes < 2 ^ 32
    → get_requests from bytes ≡ done reqs
    → (bodies reqs ≡ bytes) × (aligned reqs ≡ true) × (linked reqs ≡ true)
unfolding bodies aligned
get_requests-whole from bytes reqs small e =
    let req = new_request from 0 bytes in
    let next = value_or 0 (next_command req.body) in
    let chain = chain_fuel (suc (length bytes)) from bytes 0 0 false req next in
    let t = value_or none_taken chain in
    let body = new_request-body from 0 bytes in
    let single : bodies (req ∷ []) ≡ req.body = append-nil req.body in
    elim (get_requests-came from bytes reqs e) [
      | inl (last, alone) ↦ (
        ap bodies alone ∙ single ∙ body,
        ap aligned alone,
        ap linked alone ∙ linked-last req req.body single last,
      )
      | inr (got, grouped) ↦
          let (whole, even, links) =
            chain_fuel-whole (suc (length bytes)) from bytes 0 0 false req next t small
              (omega arith) body refl got in
          let (same, same_aligned, same_linked) = group-whole (from.draw (length t.reqs)) t in
          (
            ap bodies grouped ∙ same ∙ whole,
            ap aligned grouped ∙ same_aligned ∙ even,
            ap linked grouped ∙ same_linked ∙ links,
          )
    ]

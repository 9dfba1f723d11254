-- ===== src/Base/KeyMaps.antt =====
-- A Go map whose keys are structs, as an association list: `eq` is the test of keys, what is set
-- last is found first.
use mathlib.Core.Path.{◌≡◌, sym, ◌∙◌}
use mathlib.Core.Bool.{Bool, true}
use mathlib.Core.Logic.{◌↔◌}
use mathlib.Core.Option.{Option, none, some}
use mathlib.Core.List.{List, [], ◌∷◌}
use native.Mathlib.Omega.{arith}
use sombrero.Base.Tests.{if◌then◌else◌}

-- A test that decides equality.
abbrev pub Decides {ℓ} : {K : Type ℓ} → (K → K → Bool) → Type ℓ
Decides {K = K} eq = (a b : K) → (eq a b ≡ true) ↔ (a ≡ b)

module _ {ℓ} {K : Type ℓ} (eq : K → K → Bool) (law : Decides eq) where
  eq_comm : (a b : K) → eq a b ≡ true → eq b a ≡ true
  eq_comm a b h = (law b a).1 (sym ((law a b).0 h))

  -- Keys that are equal to a third alike are equal.
  eq_via : (a b c : K) → eq a c ≡ true → eq b c ≡ true → eq a b ≡ true
  eq_via a b c h k = (law a b).1 ((law a c).0 h ∙ sym ((law b c).0 k))

  eq_onto : (a b c : K) → eq a b ≡ true → eq b c ≡ true → eq a c ≡ true
  eq_onto a b c h k = (law a c).1 ((law a b).0 h ∙ (law b c).0 k)

module _ {ℓ} {K : Type ℓ} {V : Type ℓ} (eq : K → K → Bool) where
  unfoldable pub find_key : K → List (K × V) → Option V
  find_key key [] = none
  find_key key (entry ∷ rest) = if eq key entry.0 then some entry.1 else find_key key rest

  unfoldable pub erase_key : K → List (K × V) → List (K × V)
  erase_key key [] = []
  erase_key key (entry ∷ rest) =
      let kept = erase_key key rest in if eq key entry.0 then kept else entry ∷ kept

  unfoldable pub set_key : K → V → List (K × V) → List (K × V)
  set_key key value entries = (key, value) ∷ erase_key key entries

  module _ (law : Decides eq) where
    pub find-erase :
        (key other : K) (entries : List (K × V))
        → find_key other (erase_key key entries)
          ≡ (if eq key other then none else find_key other entries)
    unfolding find_key erase_key
    find-erase key other [] = ground arith
    find-erase key other (entry ∷ rest) =
        let kept = find-erase key other rest in
        let same = eq_via eq law key other entry.0 in
        let onto = eq_onto eq law key other entry.0 in ground (arith, kept, same, onto)

    pub find-set :
        (key other : K) (value : V) (entries : List (K × V))
        → find_key other (set_key key value entries)
          ≡ (if eq key other then some value else find_key other entries)
    unfolding find_key set_key
    find-set key other value entries =
        ground
          (arith, find-erase key other entries, eq_comm eq law key other, eq_comm eq law other key)

-- ===== src/Base/Bits.antt =====
-- Masks as the source writes them: `x & m != 0` and `x &^ m`.
use Prim.Native.Nat.{
  ℕ, zero, suc, ◌+◌, ◌-◌, ◌*◌, ◌/◌, ◌%◌, ◌≤◌, min, bit_and, digits, bit_and-bitwise,
}
use mathlib.Core.Path.{◌≡◌, refl, ap}
use mathlib.Core.Bool.{Bool, not}
use native.Mathlib.Omega.{arith}
use sombrero.Base.Tests.{◌==◌}

abbrev pub has : ℕ → ℕ → Bool
has x m = not (bit_and x m == 0)

-- The bits of `x` that are not in `m`: `x & m` is a part of `x`, so taking it away clears them.
abbrev pub and_not : ℕ → ℕ → ℕ
and_not x m = x - bit_and x m

-- `&` one binary digit at a time. The native operation is fuelled by its first argument, and any
-- more fuel gives the same.
module _ (f : ℕ → ℕ) (g : ℕ → ℕ → ℕ) where
  more_fuel : (k a n b : ℕ) → a ≤ k → k ≤ n → digits f g n a b ≡ digits f g k a b
  more_fuel zero zero zero b h l = refl
  more_fuel zero zero (suc n) b h l = refl
  more_fuel zero (suc a) n b h l = elim h [ ]
  more_fuel (suc k) a zero b h l = absurd (omega arith)
  more_fuel (suc k) zero (suc n) b h l = refl
  more_fuel (suc k) (suc a) (suc n) b h l =
      let rest = more_fuel k (suc a / 2) n (b / 2) (omega arith) (omega arith) in
      ground (arith, rest)

none_and : (m : ℕ) → bit_and 0 m ≡ 0
none_and = bit_and-bitwise 0

and_halves : (m k : ℕ) → bit_and k m ≡ min (k % 2) (m % 2) + 2 * bit_and (k / 2) (m / 2)
and_halves m zero = ground (arith, none_and m, none_and (m / 2))
and_halves m (suc k) =
    let half = suc k / 2 in
    let whole = bit_and-bitwise (suc k) m in
    let part = bit_and-bitwise half (m / 2) in
    omega (
      arith,
      whole,
      part,
      more_fuel (λ x. zero) min half half k (m / 2) (omega arith) (omega arith),
    )

-- The laws below are by induction on a bound of the first argument, a digit a step.
bit_and-le_fuel : (n a b : ℕ) → a ≤ n → bit_and a b ≤ a
bit_and-le_fuel n zero b h = omega (arith, none_and b)
bit_and-le_fuel zero (suc a) b h = absurd (omega arith)
bit_and-le_fuel (suc n) (suc a) b h =
    omega (arith, and_halves b (suc a), bit_and-le_fuel n (suc a / 2) (b / 2) (omega arith))

pub bit_and-le : (a b : ℕ) → bit_and a b ≤ a
bit_and-le a b = bit_and-le_fuel a a b (omega arith)

bit_and-narrow_fuel : (n a b c : ℕ) → a ≤ n → bit_and a (bit_and b c) ≤ bit_and a b
bit_and-narrow_fuel n zero b c h = omega (arith, none_and (bit_and b c))
bit_and-narrow_fuel zero (suc a) b c h = absurd (omega arith)
bit_and-narrow_fuel (suc n) (suc a) b c h =
    let half : bit_and b c / 2 ≡ bit_and (b / 2) (c / 2) = omega (arith, and_halves c b) in
    omega (
      arith,
      and_halves b (suc a),
      and_halves c b,
      and_halves (bit_and b c) (suc a),
      ap (bit_and (suc a / 2)) half,
      bit_and-narrow_fuel n (suc a / 2) (b / 2) (c / 2) (omega arith),
    )

-- A smaller mask keeps fewer bits.
pub bit_and-narrow : (a b c : ℕ) → bit_and a (bit_and b c) ≤ bit_and a b
bit_and-narrow a b c = bit_and-narrow_fuel a a b c (omega arith)

bit_and_self_fuel : (n a : ℕ) → a ≤ n → bit_and a a ≡ a
bit_and_self_fuel n zero h = none_and 0
bit_and_self_fuel zero (suc a) h = absurd (omega arith)
bit_and_self_fuel (suc n) (suc a) h =
    omega (arith, and_halves (suc a) (suc a), bit_and_self_fuel n (suc a / 2) (omega arith))

pub bit_and_self : (a : ℕ) → bit_and a a ≡ a
bit_and_self a = bit_and_self_fuel a a (omega arith)

-- What a mask kept it keeps again.
bit_and-again_fuel : (n a m : ℕ) → a ≤ n → bit_and (bit_and a m) m ≡ bit_and a m
bit_and-again_fuel n zero m h = omega (arith, none_and m, ap (λ x. bit_and x m) (none_and m))
bit_and-again_fuel zero (suc a) m h = absurd (omega arith)
bit_and-again_fuel (suc n) (suc a) m h =
    let half : bit_and (suc a) m / 2 ≡ bit_and (suc a / 2) (m / 2) =
      omega (arith, and_halves m (suc a)) in
    omega (
      arith,
      and_halves m (suc a),
      and_halves m (bit_and (suc a) m),
      ap (λ x. bit_and x (m / 2)) half,
      bit_and-again_fuel n (suc a / 2) (m / 2) (omega arith),
    )

pub bit_and-again : (a m : ℕ) → bit_and (bit_and a m) m ≡ bit_and a m
bit_and-again a m = bit_and-again_fuel a a m (omega arith)

bit_and-within_fuel :
    (n a t m : ℕ) → a ≤ n → bit_and a m ≡ a → bit_and (bit_and a t) m ≡ bit_and a t
bit_and-within_fuel n zero t m h e =
    omega (arith, none_and t, none_and m, ap (λ x. bit_and x m) (none_and t))
bit_and-within_fuel zero (suc a) t m h e = absurd (omega arith)
bit_and-within_fuel (suc n) (suc a) t m h e =
    let half : bit_and (suc a) t / 2 ≡ bit_and (suc a / 2) (t / 2) =
      omega (arith, and_halves t (suc a)) in
    let part : bit_and (suc a / 2) (m / 2) ≡ suc a / 2 = omega (arith, and_halves m (suc a)) in
    omega (
      arith,
      and_halves t (suc a),
      and_halves m (suc a),
      and_halves m (bit_and (suc a) t),
      ap (λ x. bit_and x (m / 2)) half,
      bit_and-within_fuel n (suc a / 2) (t / 2) (m / 2) (omega arith) part,
    )

-- A part of what lies within a mask lies within it too.
pub and_not-within : (a t m : ℕ) → and_not a m ≡ 0 → and_not (bit_and a t) m ≡ 0
and_not-within a t m h = omega (
  arith,
  bit_and-le a m,
  bit_and-within_fuel a a t m (omega arith) (omega (arith, bit_and-le a m)),
)

pub and_not-masked : (a m : ℕ) → and_not (bit_and a m) m ≡ 0
and_not-masked a m = omega (arith, bit_and-again a m)

pub and_not_self : (a : ℕ) → and_not a a ≡ 0
and_not_self a = omega (arith, bit_and_self a)

and_not-cleared_fuel : (n a m : ℕ) → a ≤ n → bit_and (and_not a m) m ≡ 0
and_not-cleared_fuel n zero m h =
    let none_left : and_not 0 m ≡ 0 = omega arith in
    omega (arith, none_and m, ap (λ x. bit_and x m) none_left)
and_not-cleared_fuel zero (suc a) m h = absurd (omega arith)
and_not-cleared_fuel (suc n) (suc a) m h =
    let low = and_halves m (suc a) in
    let rest : and_not (suc a) m / 2 ≡ and_not (suc a / 2) (m / 2) =
      omega (arith, low, bit_and-le (suc a / 2) (m / 2)) in
    omega (
      arith,
      low,
      bit_and-le (suc a / 2) (m / 2),
      and_halves m (and_not (suc a) m),
      ap (λ x. bit_and x (m / 2)) rest,
      and_not-cleared_fuel n (suc a / 2) (m / 2) (omega arith),
    )

-- What `&^` clears is clear.
pub and_not-cleared : (a m : ℕ) → bit_and (and_not a m) m ≡ 0
and_not-cleared a m = and_not-cleared_fuel a a m (omega arith)

and_none_fuel : (n a : ℕ) → a ≤ n → bit_and a 0 ≡ 0
and_none_fuel n zero h = none_and 0
and_none_fuel zero (suc a) h = absurd (omega arith)
and_none_fuel (suc n) (suc a) h =
    omega (arith, and_halves 0 (suc a), and_none_fuel n (suc a / 2) (omega arith))

-- The last three bits are what is left over of a number of eights.
pub bit_and_seven : (a : ℕ) → bit_and a 7 ≡ a % 8
bit_and_seven a = omega (
  arith,
  and_halves 7 a,
  and_halves 3 (a / 2),
  and_halves 1 (a / 2 / 2),
  and_none_fuel (a / 2 / 2 / 2) (a / 2 / 2 / 2) (omega arith),
)

-- ===== src/Prelude/Bits.antt =====
-- `|` of a shifted number and a low field, and `&` with a mask of ones, as arithmetic.
use Prim.Native.Nat.{ℕ, zero, suc, ◌+◌, ◌-◌, ◌*◌, ◌/◌, ◌%◌, ◌^◌, ◌≤◌, ◌<◌, min, max}
use Prim.Native.Nat.{bit_and, bit_or, digits, bitwise, bit_and-bitwise, bit_or-bitwise}
use mathlib.Core.Path.{◌≡◌, refl, ap, ◌∙◌}
use native.Mathlib.Nat.{
  le_refl, pow-suc, one-le-pow, div-add-mod', mod-lt, mod-eq_of_lt, add-mul-mod_self_right,
}
use native.Mathlib.Omega.{arith}

-- The native operations are recursions on binary digits with fuel; any fuel that is enough serves.
module _ (at_zero : ℕ → ℕ) (digit : ℕ → ℕ → ℕ) where
  enough_fuel :
      (m n a b : ℕ) → a ≤ m → a ≤ n → digits at_zero digit m a b ≡ digits at_zero digit n a b
  enough_fuel zero zero a b p q = refl
  enough_fuel zero (suc n) zero b p q = refl
  enough_fuel zero (suc n) (suc a) b p q = absurd (omega arith)
  enough_fuel (suc m) zero zero b p q = refl
  enough_fuel (suc m) zero (suc a) b p q = absurd (omega arith)
  enough_fuel (suc m) (suc n) zero b p q = refl
  enough_fuel (suc m) (suc n) (suc a) b p q =
      rw (enough_fuel m n (suc a / 2) (b / 2) (omega arith) (omega arith))

  lowest_digit :
      (a b : ℕ)
      → bitwise at_zero digit (suc a) b
        ≡ bitwise at_zero digit (suc a / 2) (b / 2) * 2 + digit (suc a % 2) (b % 2)
  lowest_digit a b =
      omega (arith, enough_fuel a (suc a / 2) (suc a / 2) (b / 2) (omega arith) (le_refl _))

or_digit : (a b : ℕ) → bit_or a b ≡ bit_or (a / 2) (b / 2) * 2 + max (a % 2) (b % 2)
or_digit zero b = simp bit_or-bitwise (omega arith)
or_digit (suc a) b = simp bit_or-bitwise (lowest_digit (λ n. n) max a b)

and_digit : (a b : ℕ) → bit_and a b ≡ bit_and (a / 2) (b / 2) * 2 + min (a % 2) (b % 2)
and_digit zero b = simp bit_and-bitwise (omega arith)
and_digit (suc a) b = simp bit_and-bitwise (lowest_digit (λ n. 0) min a b)

or-zero_below : (m a : ℕ) → a ≤ m → bit_or a 0 ≡ a
or-zero_below m zero h = refl
or-zero_below zero (suc a) h = absurd (omega arith)
or-zero_below (suc m) (suc a) h =
    omega (arith, or_digit (suc a) 0, or-zero_below m (suc a / 2) (omega arith))

and-zero_below : (m a : ℕ) → a ≤ m → bit_and a 0 ≡ 0
and-zero_below m zero h = refl
and-zero_below zero (suc a) h = absurd (omega arith)
and-zero_below (suc m) (suc a) h =
    omega (arith, and_digit (suc a) 0, and-zero_below m (suc a / 2) (omega arith))

shift_digit : (a k : ℕ) → a * 2 ^ suc k ≡ a * 2 ^ k * 2
shift_digit a k = rw pow-suc (grind arith)

mod_digit : (k a : ℕ) → a % 2 ^ suc k ≡ a / 2 % 2 ^ k * 2 + a % 2
mod_digit k a =
    let low = a / 2 % 2 ^ k * 2 + a % 2 in
    let high = a / 2 / 2 ^ k in
    let whole : a ≡ low + high * 2 ^ suc k =
      omega (arith, div-add-mod' (a / 2) (2 ^ k), shift_digit high k) in
    let fits : low < 2 ^ suc k =
      omega (arith, mod-lt (a / 2) (one-le-pow k 2 (omega arith)), pow-suc 2 k) in
    ap (λ n. n % 2 ^ suc k) whole ∙ add-mul-mod_self_right low high (2 ^ suc k) ∙ mod-eq_of_lt fits

-- (a << k) | b adds, where b fits in the k low bits.
pub bit_or-shift : (k a b : ℕ) → b < 2 ^ k → bit_or (a * 2 ^ k) b ≡ a * 2 ^ k + b
bit_or-shift zero a zero h = omega (arith, or-zero_below (a * 1) (a * 1) (le_refl _))
bit_or-shift zero a (suc b) h = absurd (omega arith)
bit_or-shift (suc k) a b h = ground (
  arith,
  or_digit (a * 2 ^ suc k) b,
  shift_digit a k,
  pow-suc 2 k,
  bit_or-shift k a (b / 2) (omega (arith, pow-suc 2 k)),
)

-- a & (2 ^ k - 1) is the remainder.
pub bit_and-mask : (k a : ℕ) → bit_and a (2 ^ k - 1) ≡ a % 2 ^ k
bit_and-mask zero a = omega (arith, and-zero_below a a (le_refl _))
bit_and-mask (suc k) a = ground (
  arith,
  and_digit a (2 ^ suc k - 1),
  pow-suc 2 k,
  one-le-pow k 2,
  bit_and-mask k (a / 2),
  mod_digit k a,
)

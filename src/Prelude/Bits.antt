-- ===== src/Prelude/Bits.antt =====
-- `&` on numbers whose mask has at most sixteen bits.
use Prim.Native.Nat.{ℕ, zero, suc, ◌+◌, ◌*◌, ◌/◌, ◌%◌, ◌<◌, min}
use mathlib.Core.Path.{◌≡◌, refl}
use mathlib.Core.Bool.{Bool, true, ◌&&◌}
use native.Mathlib.Omega.{arith}

-- The lowest `width` digits of `a & mask`.
unfoldable pub and_digits : ℕ → ℕ → ℕ → ℕ
and_digits zero a mask = 0
and_digits (suc width) a mask = min (a % 2) (mask % 2) + 2 * and_digits width (a / 2) (mask / 2)

abbrev pub bit_and : ℕ → ℕ → ℕ
bit_and a mask = and_digits 16 a mask

-- A mask without digits gives nothing.
no_digits : (width a : ℕ) → and_digits width a 0 ≡ 0
unfolding and_digits
no_digits zero a = refl
no_digits (suc width) a = omega (arith, no_digits width (a / 2))

-- A mask that ends in a one keeps the lowest digit.
odd_mask :
    (width a half : ℕ)
    → and_digits (suc width) a (2 * half + 1) ≡ a % 2 + 2 * and_digits width (a / 2) half
unfolding and_digits
odd_mask width a half =
    let halved : (2 * half + 1) / 2 ≡ half = omega arith in
    let lowest : (2 * half + 1) % 2 ≡ 1 = omega arith in rw (halved, lowest) (omega arith)

low_four : (a : ℕ) → and_digits 12 a 15 ≡ a % 16
low_four a = omega (
  arith,
  odd_mask 11 a 7,
  odd_mask 10 (a / 2) 3,
  odd_mask 9 (a / 2 / 2) 1,
  odd_mask 8 (a / 2 / 2 / 2) 0,
  no_digits 8 (a / 2 / 2 / 2 / 2),
)

-- `a & 255` is the low byte.
pub bit_and-byte : (a : ℕ) → bit_and a 255 ≡ a % 256
bit_and-byte a = omega (
  arith,
  odd_mask 15 a 127,
  odd_mask 14 (a / 2) 63,
  odd_mask 13 (a / 2 / 2) 31,
  odd_mask 12 (a / 2 / 2 / 2) 15,
  low_four (a / 2 / 2 / 2 / 2),
)

unfoldable pub holds_below : ℕ → (ℕ → Bool) → Bool
holds_below zero p = true
holds_below (suc n) p = p n && holds_below n p

pub holds_below_sound : (n : ℕ) (p : ℕ → Bool) (x : ℕ) → holds_below n p ≡ true → x < n → p x ≡ true
unfolding holds_below
holds_below_sound zero p x h lt = absurd (omega arith)
holds_below_sound (suc n) p x h lt = ground (arith, holds_below_sound n p x)

-- ===== src/Prelude/Mask.antt =====
-- `x & (2^k - 1)` is `x % 2^k`, at every width.
use Prim.Native.Nat.{
  ℕ, zero, suc, ◌+◌, ◌-◌, ◌*◌, ◌/◌, ◌%◌, ◌^◌, ◌≤◌, ◌<◌, min, bit_and, digits, bit_and-bitwise,
}
use mathlib.Core.Path.{◌≡◌, refl, sym, ap, ◌∙◌}
use native.Mathlib.Nat.{
  div-div-eq-div-mul, pow-suc, mul-add-mod_self_left, mod-eq_of_lt, div-add-mod, mod-lt, mul_comm,
}
use native.Mathlib.Omega.{arith}

-- The digit recursion behind `bit_and` does not depend on its fuel, once that covers the number.
common_bits : ℕ → ℕ → ℕ → ℕ
common_bits fuel x y = digits (λ _. zero) min fuel x y

common_bits_fuel : (k m x y : ℕ) → x ≤ k → x ≤ m → common_bits k x y ≡ common_bits m x y
unfolding common_bits
common_bits_fuel zero zero x y p q = refl
common_bits_fuel zero (suc m) zero y p q = refl
common_bits_fuel zero (suc m) (suc x) y p q = absurd (omega arith)
common_bits_fuel (suc k) zero zero y p q = refl
common_bits_fuel (suc k) zero (suc x) y p q = absurd (omega arith)
common_bits_fuel (suc k) (suc m) zero y p q = refl
common_bits_fuel (suc k) (suc m) (suc x) y p q =
    omega (arith, common_bits_fuel k m (suc x / 2) (y / 2) (omega arith) (omega arith))

-- One binary digit of `bit_and`.
pub bit_and-digit : (x y : ℕ) → bit_and x y ≡ 2 * bit_and (x / 2) (y / 2) + min (x % 2) (y % 2)
unfolding common_bits
bit_and-digit zero y = omega (arith, bit_and-bitwise 0 y, bit_and-bitwise 0 (y / 2))
bit_and-digit (suc x) y = omega (
  arith,
  bit_and-bitwise (suc x) y,
  bit_and-bitwise (suc x / 2) (y / 2),
  common_bits_fuel x (suc x / 2) (suc x / 2) (y / 2) (omega arith) (omega arith),
)

zero_mask : (fuel x : ℕ) → x ≤ fuel → bit_and x 0 ≡ 0
zero_mask fuel zero h = refl
zero_mask zero (suc x) h = absurd (omega arith)
zero_mask (suc fuel) (suc x) h =
    omega (arith, bit_and-digit (suc x) 0, zero_mask fuel (suc x / 2) (omega arith))

pow_pos : (k : ℕ) → 1 ≤ 2 ^ k
pow_pos zero = omega arith
pow_pos (suc k) = omega (arith, pow_pos k, pow-suc 2 k)

-- x % 2p in terms of the half of x.
mod_double : (x p : ℕ) → 1 ≤ p → x % (2 * p) ≡ 2 * (x / 2 % p) + x % 2
mod_double x p h =
    let r = 2 * (x / 2 % p) + x % 2 in
    let e : x ≡ 2 * p * (x / 2 / p) + r = omega (arith, div-add-mod (x / 2) p) in
    ap (λ n. n % (2 * p)) e
    ∙ mul-add-mod_self_left (2 * p) (x / 2 / p) r
    ∙ mod-eq_of_lt (omega (arith, mod-lt (x / 2) {m = p} h))

pub bit_and-mask : (k x : ℕ) → bit_and x (2 ^ k - 1) ≡ x % 2 ^ k
bit_and-mask zero x = omega (arith, zero_mask x x (omega arith))
bit_and-mask (suc k) x =
    let half : (2 ^ suc k - 1) / 2 ≡ 2 ^ k - 1 = omega (arith, pow-suc 2 k) in
    omega (
      arith,
      pow-suc 2 k,
      pow_pos k,
      bit_and-digit x (2 ^ suc k - 1),
      ap (bit_and (x / 2)) half,
      bit_and-mask k (x / 2),
      ap (λ n. x % n) (pow-suc 2 k ∙ mul_comm (2 ^ k) 2),
      mod_double x (2 ^ k) (pow_pos k),
    )

-- A mask whose low bits are zeros.
pub bit_and-high : (k x y : ℕ) → bit_and x (2 ^ k * y) ≡ 2 ^ k * bit_and (x / 2 ^ k) y
bit_and-high zero x y =
    let e : 2 ^ 0 * y ≡ y = omega arith in
    let f : x / 2 ^ 0 ≡ x = omega arith in
    ap (bit_and x) e ∙ ap (λ n. bit_and n y) (sym f) ∙ omega arith
bit_and-high (suc k) x y =
    let double : 2 ^ suc k * y ≡ 2 * (2 ^ k * y) = ap (λ n. n * y) (pow-suc 2 k) ∙ omega arith in
    let half : 2 * (2 ^ k * y) / 2 ≡ 2 ^ k * y = omega arith in
    let even : 2 * (2 ^ k * y) % 2 ≡ 0 = omega arith in
    let deeper : x / 2 / 2 ^ k ≡ x / 2 ^ suc k =
      div-div-eq-div-mul x 2 (2 ^ k) ∙ ap (λ n. x / n) (sym (pow-suc 2 k ∙ mul_comm (2 ^ k) 2)) in
    let b = bit_and (x / 2 ^ suc k) y in
    let inner : bit_and (x / 2) (2 * (2 ^ k * y) / 2) ≡ 2 ^ k * b =
      ap (bit_and (x / 2)) half ∙ bit_and-high k (x / 2) y ∙ ap (λ n. 2 ^ k * bit_and n y) deeper in
    let twice : bit_and x (2 * (2 ^ k * y)) ≡ 2 * (2 ^ k * b) =
      omega (arith, bit_and-digit x (2 * (2 ^ k * y)), inner, even) in
    let order : 2 * (2 ^ k * b) ≡ 2 * 2 ^ k * b = omega arith in
    ap (bit_and x) double ∙ twice ∙ order ∙ ap (λ n. n * b) (two_pow k)
  where
    two_pow : (n : ℕ) → 2 * 2 ^ n ≡ 2 ^ suc n
    two_pow n = omega (arith, pow-suc 2 n)

-- The start of the page of a 32-bit address.
pub bit_and-page : (x : ℕ) → x < 2 ^ 32 → bit_and x 0xffff_f000 ≡ x / 0x1000 * 0x1000
bit_and-page x h = omega (arith, bit_and-high 12 x 0xf_ffff, bit_and-mask 20 (x / 0x1000))

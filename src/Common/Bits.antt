-- ===== src/Common/Bits.antt =====
-- Laws of `bit_and` and `bit_or` at variables: masks and shifted fields as arithmetic.
use Prim.Native.Nat.{
  ℕ, zero, suc, ◌+◌, ◌-◌, ◌*◌, ◌/◌, ◌%◌, ◌^◌, ◌≤◌, ◌<◌, min, max, bit_and, bit_or, digits, bitwise,
  bit_and-bitwise, bit_or-bitwise,
}
use mathlib.Core.Path.{◌≡◌, refl, ap, ◌∙◌}
use native.Mathlib.Nat.{
  le_refl, pow-suc, mul-one, div-one, div-div-eq-div-mul, add-mul-mod_self_left, mod-eq_of_lt,
  mod-lt, div-add-mod,
}
use native.Mathlib.Omega.{arith}

module _ (z : ℕ → ℕ) (f : ℕ → ℕ → ℕ) where
  -- The count of digits to go may be anything that is large enough.
  digits_enough : (n m a b : ℕ) → a ≤ n → a ≤ m → digits z f n a b ≡ digits z f m a b
  digits_enough zero zero a b p q = refl
  digits_enough (suc n) zero zero b p q = refl
  digits_enough (suc n) zero (suc a) b p q = absurd (omega arith)
  digits_enough zero (suc m) zero b p q = refl
  digits_enough zero (suc m) (suc a) b p q = absurd (omega arith)
  digits_enough (suc n) (suc m) zero b p q = refl
  digits_enough (suc n) (suc m) (suc a) b p q =
      omega (arith, digits_enough n m (suc a / 2) (b / 2) (omega arith) (omega arith))

  bitwise_lowest :
      (a b : ℕ)
      → bitwise z f (suc a) b ≡ bitwise z f (suc a / 2) (b / 2) * 2 + f (suc a % 2) (b % 2)
  bitwise_lowest a b =
      omega (arith, digits_enough a (suc a / 2) (suc a / 2) (b / 2) (omega arith) (le_refl _))

pub bit_or_step : (x y : ℕ) → bit_or x y ≡ max (x % 2) (y % 2) + 2 * bit_or (x / 2) (y / 2)
bit_or_step zero y = omega (arith, bit_or-bitwise 0 y, bit_or-bitwise 0 (y / 2))
bit_or_step (suc x) y = simp bit_or-bitwise (omega (arith, bitwise_lowest (λ digit. digit) max x y))

pub bit_and_step : (x y : ℕ) → bit_and x y ≡ min (x % 2) (y % 2) + 2 * bit_and (x / 2) (y / 2)
bit_and_step zero y = omega (arith, bit_and-bitwise 0 y, bit_and-bitwise 0 (y / 2))
bit_and_step (suc x) y = simp bit_and-bitwise (omega (arith, bitwise_lowest (λ digit. 0) min x y))

zero-bit_and : (b : ℕ) → bit_and 0 b ≡ 0
zero-bit_and b = bit_and-bitwise 0 b

pub zero-bit_or : (b : ℕ) → bit_or 0 b ≡ b
zero-bit_or b = bit_or-bitwise 0 b

bit_and-zero_fuel : (n a : ℕ) → a ≤ n → bit_and a 0 ≡ 0
bit_and-zero_fuel zero zero h = refl
bit_and-zero_fuel zero (suc a) h = absurd (omega arith)
bit_and-zero_fuel (suc n) a h =
    omega (arith, bit_and_step a 0, bit_and-zero_fuel n (a / 2) (omega arith))

bit_and-zero : (a : ℕ) → bit_and a 0 ≡ 0
bit_and-zero a = bit_and-zero_fuel a a (le_refl a)

pow_pos : (k : ℕ) → 0 < 2 ^ k
pow_pos zero = omega arith
pow_pos (suc k) = omega (arith, pow-suc 2 k, pow_pos k)

split_double : (a p : ℕ) → a ≡ a / 2 % p * 2 + a % 2 + p * 2 * (a / 2 / p)
split_double a p = omega (arith, div-add-mod (a / 2) p)

mod_double : (a p : ℕ) → 0 < p → a % (p * 2) ≡ a / 2 % p * 2 + a % 2
mod_double a p h =
    ap (λ (t : ℕ). t % (p * 2)) (split_double a p)
    ∙ add-mul-mod_self_left (a / 2 % p * 2 + a % 2) (p * 2) (a / 2 / p)
    ∙ mod-eq_of_lt (omega (arith, mod-lt (a / 2) h))

pow_half : (k : ℕ) → (2 ^ suc k - 1) / 2 ≡ 2 ^ k - 1
pow_half k = omega (arith, pow-suc 2 k, pow_pos k)

-- A mask of `k` ones keeps the `k` lowest bits.
pub bit_and_mask : (k a : ℕ) → bit_and a (2 ^ k - 1) ≡ a % 2 ^ k
bit_and_mask zero a = omega (arith, bit_and-zero a)
bit_and_mask (suc k) a = omega (
  arith,
  bit_and_step a (2 ^ suc k - 1),
  ap (bit_and (a / 2)) (pow_half k),
  bit_and_mask k (a / 2),
  mod_double a (2 ^ k) (pow_pos k),
  ap (λ (t : ℕ). a % t) (pow-suc 2 k),
  pow-suc 2 k,
  pow_pos k,
)

double_half : (k m : ℕ) → m * 2 ^ suc k / 2 ≡ m * 2 ^ k
double_half k m = omega (arith, ap (λ (t : ℕ). m * t) (pow-suc 2 k))

double_even : (k m : ℕ) → m * 2 ^ suc k % 2 ≡ 0
double_even k m = omega (arith, ap (λ (t : ℕ). m * t) (pow-suc 2 k))

half_shift : (k a : ℕ) → a / 2 / 2 ^ k ≡ a / 2 ^ suc k
half_shift k a = div-div-eq-div-mul a 2 (2 ^ k) ∙ ap (λ (t : ℕ). a / t) (omega (arith, pow-suc 2 k))

-- A mask of ones above `k` zeros.
pub bit_and_shifted : (k a m : ℕ) → bit_and a (m * 2 ^ k) ≡ bit_and (a / 2 ^ k) m * 2 ^ k
bit_and_shifted zero a m =
    omega (arith, ap (bit_and a) (mul-one m), ap (λ (t : ℕ). bit_and t m) (div-one a))
bit_and_shifted (suc k) a m = omega (
  arith,
  bit_and_step a (m * 2 ^ suc k),
  ap (bit_and (a / 2)) (double_half k m),
  double_even k m,
  bit_and_shifted k (a / 2) m,
  ap (λ (t : ℕ). bit_and t m * 2 ^ k) (half_shift k a),
  ap (λ (t : ℕ). bit_and (a / 2 ^ suc k) m * t) (pow-suc 2 k),
)

-- Two fields that do not overlap.
pub bit_or_disjoint : (k a b : ℕ) → a < 2 ^ k → bit_or a (b * 2 ^ k) ≡ a + b * 2 ^ k
bit_or_disjoint zero zero b h = omega (arith, zero-bit_or (b * 1))
bit_or_disjoint zero (suc a) b h = absurd (omega arith)
bit_or_disjoint (suc k) a b h = omega (
  arith,
  bit_or_step a (b * 2 ^ suc k),
  ap (bit_or (a / 2)) (double_half k b),
  double_even k b,
  bit_or_disjoint k (a / 2) b (omega (arith, pow-suc 2 k)),
  ap (λ (t : ℕ). b * t) (pow-suc 2 k),
)

-- `|` does not reach beyond the width of its operands.
pub bit_or-lt : (k a b : ℕ) → a < 2 ^ k → b < 2 ^ k → bit_or a b < 2 ^ k
bit_or-lt zero zero b h g = omega (arith, zero-bit_or b)
bit_or-lt zero (suc a) b h g = absurd (omega arith)
bit_or-lt (suc k) a b h g = omega (
  arith,
  bit_or_step a b,
  bit_or-lt k (a / 2) (b / 2) (omega (arith, pow-suc 2 k)) (omega (arith, pow-suc 2 k)),
  pow-suc 2 k,
)

pub bit_and-one : (a : ℕ) → bit_and a 1 ≡ a % 2
bit_and-one a = bit_and_mask 1 a

-- One bit, read and compared.
pub bit_and-one_shifted : (k a : ℕ) → bit_and a (1 * 2 ^ k) ≡ a / 2 ^ k % 2 * 2 ^ k
bit_and-one_shifted k a =
    bit_and_shifted k a 1 ∙ ap (λ (t : ℕ). t * 2 ^ k) (bit_and-one (a / 2 ^ k))

bit_or-zero_fuel : (n a : ℕ) → a ≤ n → bit_or a 0 ≡ a
bit_or-zero_fuel zero zero h = refl
bit_or-zero_fuel zero (suc a) h = absurd (omega arith)
bit_or-zero_fuel (suc n) a h =
    omega (arith, bit_or_step a 0, bit_or-zero_fuel n (a / 2) (omega arith))

pub bit_or-zero : (a : ℕ) → bit_or a 0 ≡ a
bit_or-zero a = bit_or-zero_fuel a a (le_refl a)

mod_half : (k a : ℕ) → a % 2 ^ suc k / 2 ≡ a / 2 % 2 ^ k
mod_half k a =
    omega
      (arith, mod_double a (2 ^ k) (pow_pos k), ap (λ (t : ℕ). a % t) (pow-suc 2 k), pow-suc 2 k)

mod_lowest : (k a : ℕ) → a % 2 ^ suc k % 2 ≡ a % 2
mod_lowest k a =
    omega
      (arith, mod_double a (2 ^ k) (pow_pos k), ap (λ (t : ℕ). a % t) (pow-suc 2 k), pow-suc 2 k)

sum_half : (k low high : ℕ) → (low + high * 2 ^ suc k) / 2 ≡ low / 2 + high * 2 ^ k
sum_half k low high = omega (arith, double_half k high, double_even k high)

sum_lowest : (k low high : ℕ) → (low + high * 2 ^ suc k) % 2 ≡ low % 2
sum_lowest k low high = omega (arith, double_even k high)

whole_part : (n : ℕ) → 0 + n * 2 ^ 0 ≡ n
whole_part n = omega arith

-- A mask of two parts.
pub bit_and_split :
    (k a low high : ℕ)
    → low < 2 ^ k
    → bit_and a (low + high * 2 ^ k) ≡ bit_and (a % 2 ^ k) low + bit_and (a / 2 ^ k) high * 2 ^ k
bit_and_split zero a zero high h =
    ap (bit_and a) (whole_part high)
    ∙ omega (arith, ap (λ (t : ℕ). bit_and t high) (div-one a), bit_and-zero (a % 1))
bit_and_split zero a (suc low) high h = absurd (omega arith)
bit_and_split (suc k) a low high h = omega (
  arith,
  bit_and_step a (low + high * 2 ^ suc k),
  ap (bit_and (a / 2)) (sum_half k low high),
  sum_lowest k low high,
  bit_and_split k (a / 2) (low / 2) high (omega (arith, pow-suc 2 k)),
  bit_and_step (a % 2 ^ suc k) low,
  ap (λ (t : ℕ). bit_and t (low / 2)) (mod_half k a),
  mod_lowest k a,
  ap (λ (t : ℕ). bit_and t high * 2 ^ k) (half_shift k a),
  ap (λ (t : ℕ). bit_and (a / 2 ^ suc k) high * t) (pow-suc 2 k),
)

-- Two numbers, each of two parts.
pub bit_or_split :
    (k a b c d : ℕ)
    → a < 2 ^ k
    → b < 2 ^ k
    → bit_or (a + c * 2 ^ k) (b + d * 2 ^ k) ≡ bit_or a b + bit_or c d * 2 ^ k
bit_or_split zero zero zero c d h g =
    ap (bit_or (0 + c * 2 ^ 0)) (whole_part d)
    ∙ ap (λ (t : ℕ). bit_or t d) (whole_part c)
    ∙ omega (arith, zero-bit_or 0)
bit_or_split zero (suc a) b c d h g = absurd (omega arith)
bit_or_split zero zero (suc b) c d h g = absurd (omega arith)
bit_or_split (suc k) a b c d h g = omega (
  arith,
  bit_or_step (a + c * 2 ^ suc k) (b + d * 2 ^ suc k),
  ap (bit_or ((a + c * 2 ^ suc k) / 2)) (sum_half k b d),
  ap (λ (t : ℕ). bit_or t (b / 2 + d * 2 ^ k)) (sum_half k a c),
  sum_lowest k a c,
  sum_lowest k b d,
  bit_or_split k (a / 2) (b / 2) c d (omega (arith, pow-suc 2 k)) (omega (arith, pow-suc 2 k)),
  bit_or_step a b,
  ap (λ (t : ℕ). bit_or c d * t) (pow-suc 2 k),
)

padded : (k b : ℕ) → b ≡ b + 0 * 2 ^ k
padded k b = omega arith

front_zero : (k a : ℕ) → a * 2 ^ k ≡ 0 + a * 2 ^ k
front_zero k a = omega arith

-- A number above `k` zeros, and one below.
pub bit_or_below : (k a b : ℕ) → b < 2 ^ k → bit_or (a * 2 ^ k) b ≡ b + a * 2 ^ k
bit_or_below k a b h =
    ap (λ (t : ℕ). bit_or t b) (front_zero k a)
    ∙ ap (bit_or (0 + a * 2 ^ k)) (padded k b)
    ∙ bit_or_split k 0 b a 0 (pow_pos k) h
    ∙ omega (arith, zero-bit_or b, ap (λ (t : ℕ). t * 2 ^ k) (bit_or-zero a))

-- ===== src/Prelude/Bits.antt =====
-- The bit operations of C++ at the masks and shifts that the code uses, as arithmetic.
use Prim.Native.Nat.{
  ℕ, zero, suc, ◌+◌, ◌-◌, ◌*◌, ◌/◌, ◌%◌, ◌^◌, ◌≤◌, ◌<◌, min, max, bit_and, bit_or, digits,
  bit_and-bitwise, bit_or-bitwise,
}
use mathlib.Core.Path.{◌≡◌, refl, ap, ap₂, ◌∙◌}
use native.Mathlib.Nat.{pow-suc, mod-lt, mod-add-div, add-mul-mod_self_right, mod-eq_of_lt}
use native.Mathlib.Omega.{arith}

module _ (z : ℕ → ℕ) (f : ℕ → ℕ → ℕ) where
  -- More digits than the first number has change nothing.
  digits_enough : (n m a b : ℕ) → a ≤ n → a ≤ m → digits z f n a b ≡ digits z f m a b
  digits_enough zero zero a b p q = refl
  digits_enough zero (suc m) zero b p q = refl
  digits_enough zero (suc m) (suc a) b p q = absurd (omega arith)
  digits_enough (suc n) zero zero b p q = refl
  digits_enough (suc n) zero (suc a) b p q = absurd (omega arith)
  digits_enough (suc n) (suc m) zero b p q = refl
  digits_enough (suc n) (suc m) (suc a) b p q =
      ap (λ t. t * 2 + f (suc a % 2) (b % 2))
        (digits_enough n m (suc a / 2) (b / 2) (omega arith) (omega arith))

  digits_step :
      (a b : ℕ)
      → digits z f (suc a) (suc a) b
        ≡ digits z f (suc a / 2) (suc a / 2) (b / 2) * 2 + f (suc a % 2) (b % 2)
  digits_step a b =
      ap (λ t. t * 2 + f (suc a % 2) (b % 2))
        (digits_enough a (suc a / 2) (suc a / 2) (b / 2) (omega arith) (omega arith))

bit_and-zero_left : (b : ℕ) → bit_and 0 b ≡ 0
bit_and-zero_left b = bit_and-bitwise 0 b

bit_and_step : (a b : ℕ) → bit_and a b ≡ bit_and (a / 2) (b / 2) * 2 + min (a % 2) (b % 2)
bit_and_step zero b = omega (arith, bit_and-zero_left b, bit_and-zero_left (b / 2))
bit_and_step (suc a) b = omega (
  arith,
  bit_and-bitwise (suc a) b,
  bit_and-bitwise (suc a / 2) (b / 2),
  digits_step (λ b. zero) min a b,
)

bit_or-zero_left : (b : ℕ) → bit_or 0 b ≡ b
bit_or-zero_left b = bit_or-bitwise 0 b

bit_or_step : (a b : ℕ) → bit_or a b ≡ bit_or (a / 2) (b / 2) * 2 + max (a % 2) (b % 2)
bit_or_step zero b = omega (arith, bit_or-zero_left b, bit_or-zero_left (b / 2))
bit_or_step (suc a) b = omega (
  arith,
  bit_or-bitwise (suc a) b,
  bit_or-bitwise (suc a / 2) (b / 2),
  digits_step (λ b. b) max a b,
)

two-pow-pos : (k : ℕ) → 0 < 2 ^ k
two-pow-pos zero = omega arith
two-pow-pos (suc k) = omega (arith, pow-suc 2 k, two-pow-pos k)

bit_and-zero_right : (n a : ℕ) → a ≤ n → bit_and a 0 ≡ 0
bit_and-zero_right n zero h = bit_and-zero_left 0
bit_and-zero_right zero (suc a) h = absurd (omega arith)
bit_and-zero_right (suc n) (suc a) h =
    omega (arith, bit_and_step (suc a) 0, bit_and-zero_right n (suc a / 2) (omega arith))

mod-double : (p a : ℕ) → 0 < p → a % (p * 2) ≡ a / 2 % p * 2 + a % 2
mod-double p a h =
    let q = a / 2 / p in
    let r = a / 2 % p * 2 + a % 2 in
    let small : r < p * 2 = omega (arith, mod-lt (a / 2) h) in
    let parts : a ≡ r + q * (p * 2) = omega (arith, ap (λ t. 2 * t) (mod-add-div (a / 2) p)) in
    ap (λ t. t % (p * 2)) parts ∙ add-mul-mod_self_right r q (p * 2) ∙ mod-eq_of_lt small

-- A mask of `k` ones.
pub bit_and-mask : (k a : ℕ) → bit_and a (2 ^ k - 1) ≡ a % 2 ^ k
bit_and-mask zero a = omega (arith, bit_and-zero_right a a)
bit_and-mask (suc k) a = omega (
  arith,
  pow-suc 2 k,
  bit_and_step a (2 ^ suc k - 1),
  ap (bit_and (a / 2)) (half k),
  bit_and-mask k (a / 2),
  mod-double (2 ^ k) a (two-pow-pos k),
  ap (λ t. a % t) (pow-suc 2 k),
  two-pow-pos k,
)
  where
    half : (k : ℕ) → (2 ^ suc k - 1) / 2 ≡ 2 ^ k - 1
    half k = omega (arith, pow-suc 2 k, two-pow-pos k)

bit_and-even : (a m : ℕ) → bit_and a (m * 2) ≡ bit_and (a / 2) m * 2
bit_and-even a m =
    let half : m * 2 / 2 ≡ m = omega arith in
    let low : min (a % 2) (m * 2 % 2) ≡ 0 = omega arith in
    bit_and_step a (m * 2)
    ∙ ap₂ (λ x y. x + y) (ap (λ x. bit_and (a / 2) x * 2) half) low
    ∙ omega arith

-- The top bit of a byte.
pub bit_and-top : (a : ℕ) → a < 256 → bit_and a 0x80 ≡ a / 128 * 128
bit_and-top a h =
    bit_and-even a 64
    ∙ ap (λ x. x * 2) (bit_and-even (a / 2) 32)
    ∙ ap (λ x. x * 2 * 2) (bit_and-even (a / 2 / 2) 16)
    ∙ ap (λ x. x * 2 * 2 * 2) (bit_and-even (a / 2 / 2 / 2) 8)
    ∙ ap (λ x. x * 2 * 2 * 2 * 2) (bit_and-even (a / 2 / 2 / 2 / 2) 4)
    ∙ ap (λ x. x * 2 * 2 * 2 * 2 * 2) (bit_and-even (a / 2 / 2 / 2 / 2 / 2) 2)
    ∙ ap (λ x. x * 2 * 2 * 2 * 2 * 2 * 2) (bit_and-even (a / 2 / 2 / 2 / 2 / 2 / 2) 1)
    ∙ ap (λ x. x * 2 * 2 * 2 * 2 * 2 * 2 * 2) (bit_and-mask 1 (a / 2 / 2 / 2 / 2 / 2 / 2 / 2))
    ∙ top a h
  where
    top :
        (a : ℕ)
        → a < 256
        → a / 2 / 2 / 2 / 2 / 2 / 2 / 2 % 2 ^ 1 * 2 * 2 * 2 * 2 * 2 * 2 * 2 ≡ a / 128 * 128
    top a h = omega arith

-- Numbers with no common digit are joined by adding.
pub bit_or-add : (s a g : ℕ) → a < 2 ^ s → bit_or a (g * 2 ^ s) ≡ a + g * 2 ^ s
bit_or-add zero a g h =
    let e : a ≡ 0 = omega arith in rw e (bit_or-zero_left (g * 2 ^ 0) ∙ omega arith)
bit_or-add (suc s) a g h =
    let p : g * 2 ^ suc s ≡ 2 * (g * 2 ^ s) = ap (λ t. g * t) (pow-suc 2 s) ∙ omega arith in
    let half : g * 2 ^ suc s / 2 ≡ g * 2 ^ s = omega (arith, p) in
    omega (
      arith,
      p,
      bit_or_step a (g * 2 ^ suc s),
      ap (bit_or (a / 2)) half,
      bit_or-add s (a / 2) g (omega (arith, pow-suc 2 s)),
    )

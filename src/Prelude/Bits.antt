-- ===== src/Prelude/Bits.antt =====
-- Masks and exclusive or on numbers of any width.
use Prim.Native.Nat.{
  ℕ, zero, suc, ◌+◌, ◌-◌, ◌*◌, ◌/◌, ◌%◌, ◌^◌, ◌≤◌, ◌<◌, min, bit_and, bit_xor, digits, differ,
  bit_and-bitwise, bit_xor-bitwise,
}
use mathlib.Core.Path.{◌≡◌, refl, ap, ap₂, ◌∙◌, sym}
use native.Mathlib.Omega.{arith}
use native.Mathlib.Nat.{pow-suc, one-le-pow, div-div-eq-div-mul, div-add-mod'}

-- The count of digits to go does not matter once it is large enough.
module _ (z : ℕ → ℕ) (f : ℕ → ℕ → ℕ) where
  digits_enough : (n m a b : ℕ) → a ≤ n → a ≤ m → digits z f n a b ≡ digits z f m a b
  digits_enough zero zero zero b p q = refl
  digits_enough zero (suc m) zero b p q = refl
  digits_enough (suc n) zero zero b p q = refl
  digits_enough (suc n) (suc m) zero b p q = refl
  digits_enough (suc n) (suc m) (suc a) b p q =
      ap (λ (t : ℕ). t * 2 + f (suc a % 2) (b % 2))
        (digits_enough n m (suc a / 2) (b / 2) (omega arith) (omega arith))
  digits_enough zero m (suc a) b p q = absurd (omega arith)
  digits_enough (suc n) zero (suc a) b p q = absurd (omega arith)

and_zero : (b : ℕ) → bit_and 0 b ≡ 0
and_zero b = bit_and-bitwise 0 b

and_halves : (a b : ℕ) → bit_and a b ≡ bit_and (a / 2) (b / 2) * 2 + min (a % 2) (b % 2)
and_halves zero b = omega (arith, and_zero b, and_zero (b / 2))
and_halves (suc a) b =
    let z : ℕ → ℕ = λ _. zero in
    omega (
      arith,
      bit_and-bitwise (suc a) b,
      bit_and-bitwise (suc a / 2) (b / 2),
      digits_enough z min a (suc a / 2) (suc a / 2) (b / 2) (omega arith) (omega arith),
    )

xor_zero : (b : ℕ) → bit_xor 0 b ≡ b
xor_zero b = bit_xor-bitwise 0 b

pub xor_halves : (a b : ℕ) → bit_xor a b ≡ bit_xor (a / 2) (b / 2) * 2 + differ (a % 2) (b % 2)
xor_halves zero b = omega (arith, xor_zero b, xor_zero (b / 2))
xor_halves (suc a) b =
    let z : ℕ → ℕ = λ c. c in
    omega (
      arith,
      bit_xor-bitwise (suc a) b,
      bit_xor-bitwise (suc a / 2) (b / 2),
      digits_enough z differ a (suc a / 2) (suc a / 2) (b / 2) (omega arith) (omega arith),
    )

low_digit : (x y : ℕ) → x < 2 → y < 2 → (differ x y < 2) × (differ (differ x y) y ≡ x)
low_digit zero zero p q = omega arith
low_digit zero (suc zero) p q = omega arith
low_digit (suc zero) zero p q = omega arith
low_digit (suc zero) (suc zero) p q = omega arith
low_digit zero (suc (suc y)) p q = absurd (omega arith)
low_digit (suc zero) (suc (suc y)) p q = absurd (omega arith)
low_digit (suc (suc x)) y p q = absurd (omega arith)

-- Flipping the same digits twice changes nothing. `n` bounds the digits.
xor_twice : (n a b : ℕ) → a ≤ n → b ≤ n → bit_xor (bit_xor a b) b ≡ a
xor_twice zero zero zero p q = refl
xor_twice zero (suc a) b p q = absurd (omega arith)
xor_twice zero zero (suc b) p q = absurd (omega arith)
xor_twice (suc n) a b p q =
    let x = bit_xor a b in
    let digit = low_digit (a % 2) (b % 2) (omega arith) (omega arith) in
    let half : x / 2 ≡ bit_xor (a / 2) (b / 2) = omega (arith, xor_halves a b, digit.0) in
    let low : x % 2 ≡ differ (a % 2) (b % 2) = omega (arith, xor_halves a b, digit.0) in
    ground (
      arith,
      xor_halves x b,
      digit.1,
      half,
      low,
      xor_twice n (a / 2) (b / 2) (omega arith) (omega arith),
    )

pub bit_xor-cancel : (a b : ℕ) → bit_xor (bit_xor a b) b ≡ a
bit_xor-cancel a b = xor_twice (a + b) a b (omega arith) (omega arith)

-- A mask of ones keeps the remainder.
mod_double : (a m : ℕ) → 0 < m → a / 2 % m * 2 + a % 2 ≡ a % (m + m)
mod_double a m h = grind arith

and_nothing : (n a : ℕ) → a ≤ n → bit_and a 0 ≡ 0
and_nothing zero zero h = refl
and_nothing zero (suc a) h = absurd (omega arith)
and_nothing (suc n) a h = omega (arith, and_halves a 0, and_nothing n (a / 2) (omega arith))

pub bit_and-mask : (k a : ℕ) → bit_and a (2 ^ k - 1) ≡ a % 2 ^ k
bit_and-mask zero a = omega (arith, and_nothing a a (omega arith))
bit_and-mask (suc k) a =
    let p = 2 ^ k in
    let mask = 2 ^ suc k - 1 in
    let wide : 2 ^ suc k ≡ p + p = omega (arith, pow-suc 2 k) in
    let pos : 0 < p = one-le-pow k 2 (omega arith) in
    let half : mask / 2 ≡ p - 1 = omega (arith, wide, pos) in
    let low : mask % 2 ≡ 1 = omega (arith, wide, pos) in
    ground (arith, and_halves a mask, half, low, wide, bit_and-mask k (a / 2), mod_double a p pos)

-- A half of an exclusive or, and its lowest digit.
pub bit_xor-half : (a b : ℕ) → bit_xor a b / 2 ≡ bit_xor (a / 2) (b / 2)
bit_xor-half a b =
    omega (arith, xor_halves a b, low_digit (a % 2) (b % 2) (omega arith) (omega arith))

pub bit_xor-low : (a b : ℕ) → bit_xor a b % 2 ≡ differ (a % 2) (b % 2)
bit_xor-low a b =
    omega (arith, xor_halves a b, low_digit (a % 2) (b % 2) (omega arith) (omega arith))

pub differ_even : (x : ℕ) → x < 2 → differ x 0 ≡ x
differ_even zero h = refl
differ_even (suc zero) h = refl
differ_even (suc (suc x)) h = absurd (omega arith)

differ_assoc : (x y z : ℕ) → x < 2 → y < 2 → z < 2 → differ (differ x y) z ≡ differ x (differ y z)
differ_assoc zero zero zero p q r = refl
differ_assoc zero zero (suc zero) p q r = refl
differ_assoc zero (suc zero) zero p q r = refl
differ_assoc zero (suc zero) (suc zero) p q r = refl
differ_assoc (suc zero) zero zero p q r = refl
differ_assoc (suc zero) zero (suc zero) p q r = refl
differ_assoc (suc zero) (suc zero) zero p q r = refl
differ_assoc (suc zero) (suc zero) (suc zero) p q r = refl
differ_assoc (suc (suc x)) y z p q r = absurd (omega arith)
differ_assoc x (suc (suc y)) z p q r = absurd (omega arith)
differ_assoc x y (suc (suc z)) p q r = absurd (omega arith)

xor_assoc :
    (n a b c : ℕ) → a ≤ n → b ≤ n → c ≤ n → bit_xor (bit_xor a b) c ≡ bit_xor a (bit_xor b c)
xor_assoc zero zero zero zero p q r = refl
xor_assoc zero (suc a) b c p q r = absurd (omega arith)
xor_assoc zero a (suc b) c p q r = absurd (omega arith)
xor_assoc zero a b (suc c) p q r = absurd (omega arith)
xor_assoc (suc n) a b c p q r =
    let low = differ_assoc (a % 2) (b % 2) (c % 2) (omega arith) (omega arith) (omega arith) in
    let rest = xor_assoc n (a / 2) (b / 2) (c / 2) (omega arith) (omega arith) (omega arith) in
    xor_halves (bit_xor a b) c
    ∙ (ap₂ (λ x y. bit_xor x (c / 2) * 2 + differ y (c % 2)) (bit_xor-half a b) (bit_xor-low a b)
        ∙ (ap₂ (λ x y. x * 2 + y) rest low
            ∙ (ap₂ (λ x y. bit_xor (a / 2) x * 2 + differ (a % 2) y) (sym (bit_xor-half b c))
                  (sym (bit_xor-low b c))
                ∙ sym (xor_halves a (bit_xor b c)))))

pub bit_xor_assoc : (a b c : ℕ) → bit_xor (bit_xor a b) c ≡ bit_xor a (bit_xor b c)
bit_xor_assoc a b c = xor_assoc (a + b + c) a b c (omega arith) (omega arith) (omega arith)

-- The low digits and the others make the number.
pub bit_xor-split : (k c : ℕ) → bit_xor (c % 2 ^ k) (c / 2 ^ k * 2 ^ k) ≡ c
bit_xor-split zero c =
    ap₂ bit_xor (let e : c % 1 ≡ 0 = omega arith in e) (let e : c / 1 * 1 ≡ c = omega arith in e)
    ∙ xor_zero c
bit_xor-split (suc k) c =
    let p = 2 ^ k in
    let a = c % 2 ^ suc k in
    let b = c / 2 ^ suc k * 2 ^ suc k in
    let wide : 2 ^ suc k ≡ p + p = omega (arith, pow-suc 2 k) in
    let pos : 0 < p = one-le-pow k 2 (omega arith) in
    let double : c / 2 % p * 2 + c % 2 ≡ a = mod_double c p pos ∙ ap (λ m. c % m) (sym wide) in
    let whole : b + a ≡ c = div-add-mod' c (2 ^ suc k) in
    let half : c / 2 / p * p + c / 2 % p ≡ c / 2 = div-add-mod' (c / 2) p in
    let a_half : a / 2 ≡ c / 2 % p = omega (arith, double) in
    let b_half : b / 2 ≡ c / 2 / p * p = omega (arith, double, whole, half) in
    let a_low : a % 2 ≡ c % 2 = omega (arith, double) in
    let b_low : b % 2 ≡ 0 = omega (arith, double, whole) in
    xor_halves a b
    ∙ (ap₂ (λ x y. x * 2 + y) (ap₂ bit_xor a_half b_half ∙ bit_xor-split k (c / 2))
          (ap₂ differ a_low b_low ∙ differ_even (c % 2) (omega arith))
        ∙ omega arith)

xor_right : (n a : ℕ) → a ≤ n → bit_xor a 0 ≡ a
xor_right zero zero h = refl
xor_right zero (suc a) h = absurd (omega arith)
xor_right (suc n) a h =
    omega
      (arith, xor_halves a 0, xor_right n (a / 2) (omega arith), differ_even (a % 2) (omega arith))

-- Low digits do not reach the high ones.
pub bit_xor-high : (k c u : ℕ) → u < 2 ^ k → bit_xor c u / 2 ^ k ≡ c / 2 ^ k
bit_xor-high zero c zero h = ap (λ x. x / 1) (xor_right c c (omega arith))
bit_xor-high zero c (suc u) h = absurd (omega arith)
bit_xor-high (suc k) c u h =
    let wide : 2 ^ suc k ≡ 2 * 2 ^ k = omega (arith, pow-suc 2 k) in
    ap (λ m. bit_xor c u / m) wide
    ∙ (sym (div-div-eq-div-mul (bit_xor c u) 2 (2 ^ k))
        ∙ (ap (λ x. x / 2 ^ k) (bit_xor-half c u)
            ∙ (bit_xor-high k (c / 2) (u / 2) (omega (arith, wide))
                ∙ (div-div-eq-div-mul c 2 (2 ^ k) ∙ ap (λ m. c / m) (sym wide)))))

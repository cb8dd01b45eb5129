-- ===== src/Prelude/Bits.antt =====
-- Bit operations on native numbers: the equation of the lowest digit, halving, and masks of ones.
use Prim.Native.Nat.{
  ℕ, zero, suc, ◌+◌, ◌-◌, ◌*◌, ◌/◌, ◌%◌, ◌^◌, ◌≤◌, ◌<◌, min, max, digits, bit_and, bit_or, bit_xor,
  bit_and-bitwise, bit_or-bitwise, bit_xor-bitwise, differ,
}
use mathlib.Core.Path.{◌≡◌, refl, sym, ◌∙◌, ap, ap₂}
use native.Mathlib.Omega.{arith}
use native.Mathlib.Nat.{pow-suc, mul_comm, div-div-eq-div-mul, div-one}
-- The bit operations of C, and `~x` on 32 bits.
pub use Prim.Native.Nat.{bit_and, bit_or, bit_xor}

abbrev pub not32 : ℕ → ℕ
not32 x = 2 ^ 32 - 1 - x

module _ (z : ℕ → ℕ) (f : ℕ → ℕ → ℕ) where
  -- Any two amounts of fuel from the number on give the same digits.
  enough_fuel : (k l a b : ℕ) → a ≤ k → a ≤ l → digits z f k a b ≡ digits z f l a b
  enough_fuel k l zero b hk hl = at_zero k ∙ sym (at_zero l)
    where
      at_zero : (j : ℕ) → digits z f j zero b ≡ z b
      at_zero zero = refl
      at_zero (suc j) = refl
  enough_fuel zero l (suc a) b hk hl = absurd (omega arith)
  enough_fuel (suc k) zero (suc a) b hk hl = absurd (omega arith)
  enough_fuel (suc k) (suc l) (suc a) b hk hl =
      ap (λ t. t * 2 + f (suc a % 2) (b % 2))
        (enough_fuel k l (suc a / 2) (b / 2) (omega arith) (omega arith))

pub bit_and-digit : (a b : ℕ) → bit_and a b ≡ bit_and (a / 2) (b / 2) * 2 + min (a % 2) (b % 2)
bit_and-digit zero b = omega (arith, bit_and-bitwise 0 b, bit_and-bitwise 0 (b / 2))
bit_and-digit (suc a) b =
    bit_and-bitwise (suc a) b
    ∙ ap (λ t. t * 2 + min (suc a % 2) (b % 2))
        (enough_fuel (λ y. 0) min a (suc a / 2) (suc a / 2) (b / 2) (omega arith) (omega arith)
          ∙ sym (bit_and-bitwise (suc a / 2) (b / 2)))

pub bit_or-digit : (a b : ℕ) → bit_or a b ≡ bit_or (a / 2) (b / 2) * 2 + max (a % 2) (b % 2)
bit_or-digit zero b = omega (arith, bit_or-bitwise 0 b, bit_or-bitwise 0 (b / 2))
bit_or-digit (suc a) b =
    bit_or-bitwise (suc a) b
    ∙ ap (λ t. t * 2 + max (suc a % 2) (b % 2))
        (enough_fuel (λ y. y) max a (suc a / 2) (suc a / 2) (b / 2) (omega arith) (omega arith)
          ∙ sym (bit_or-bitwise (suc a / 2) (b / 2)))

bit_and-half : (a b : ℕ) → bit_and a b / 2 ≡ bit_and (a / 2) (b / 2)
bit_and-half a b = omega (arith, bit_and-digit a b)

bit_or-half : (a b : ℕ) → bit_or a b / 2 ≡ bit_or (a / 2) (b / 2)
bit_or-half a b = omega (arith, bit_or-digit a b)

div-pow_suc : (x k : ℕ) → x / 2 ^ suc k ≡ x / 2 / 2 ^ k
div-pow_suc x k =
    ap (λ t. x / t) (pow-suc 2 k ∙ mul_comm (2 ^ k) 2) ∙ sym (div-div-eq-div-mul x 2 (2 ^ k))

-- The digits from k on, of a conjunction and of a disjunction.
pub bit_and-shift : (k a b : ℕ) → bit_and a b / 2 ^ k ≡ bit_and (a / 2 ^ k) (b / 2 ^ k)
bit_and-shift zero a b = div-one (bit_and a b) ∙ ap₂ bit_and (sym (div-one a)) (sym (div-one b))
bit_and-shift (suc k) a b =
    div-pow_suc (bit_and a b) k
    ∙ ap (λ t. t / 2 ^ k) (bit_and-half a b)
    ∙ bit_and-shift k (a / 2) (b / 2)
    ∙ ap₂ bit_and (sym (div-pow_suc a k)) (sym (div-pow_suc b k))

pow_pos : (k : ℕ) → 0 < 2 ^ k
pow_pos zero = omega arith
pow_pos (suc k) = omega (arith, pow-suc 2 k, pow_pos k)

pub bit_or-shift : (k a b : ℕ) → bit_or a b / 2 ^ k ≡ bit_or (a / 2 ^ k) (b / 2 ^ k)
bit_or-shift zero a b = div-one (bit_or a b) ∙ ap₂ bit_or (sym (div-one a)) (sym (div-one b))
bit_or-shift (suc k) a b =
    div-pow_suc (bit_or a b) k
    ∙ ap (λ t. t / 2 ^ k) (bit_or-half a b)
    ∙ bit_or-shift k (a / 2) (b / 2)
    ∙ ap₂ bit_or (sym (div-pow_suc a k)) (sym (div-pow_suc b k))

-- A mask of k ones keeps a number of k digits.
pub bit_and-ones : (k x : ℕ) → x < 2 ^ k → bit_and x (2 ^ k - 1) ≡ x
bit_and-ones zero zero h = bit_and-bitwise 0 0
bit_and-ones zero (suc x) h = absurd (omega arith)
bit_and-ones (suc k) x h =
    let double = pow-suc 2 k in
    let front = bit_and-ones k (x / 2) (omega (arith, double)) in
    let mask : (2 ^ suc k - 1) / 2 ≡ 2 ^ k - 1 = omega (arith, double, pow_pos k) in
    omega
      (arith, double, pow_pos k, bit_and-digit x (2 ^ suc k - 1), ap (bit_and (x / 2)) mask, front)

bit_or-zero_fuel : (n x : ℕ) → x ≤ n → bit_or x 0 ≡ x
bit_or-zero_fuel n zero h = bit_or-bitwise 0 0
bit_or-zero_fuel zero (suc x) h = absurd (omega arith)
bit_or-zero_fuel (suc n) (suc x) h =
    omega (arith, bit_or-digit (suc x) 0, bit_or-zero_fuel n (suc x / 2) (omega arith))

pub bit_or-zero : (x : ℕ) → bit_or x 0 ≡ x
bit_or-zero x = bit_or-zero_fuel x x (omega arith)

bit_and-zero_fuel : (n x : ℕ) → x ≤ n → bit_and x 0 ≡ 0
bit_and-zero_fuel n zero h = bit_and-bitwise 0 0
bit_and-zero_fuel zero (suc x) h = absurd (omega arith)
bit_and-zero_fuel (suc n) (suc x) h =
    omega (arith, bit_and-digit (suc x) 0, bit_and-zero_fuel n (suc x / 2) (omega arith))

pub bit_and-zero : (x : ℕ) → bit_and x 0 ≡ 0
bit_and-zero x = bit_and-zero_fuel x x (omega arith)

-- Digit k of a conjunction, and of a disjunction.
pub bit_and-bit : (k a b : ℕ) → bit_and a b / 2 ^ k % 2 ≡ min (a / 2 ^ k % 2) (b / 2 ^ k % 2)
bit_and-bit k a b = omega (arith, bit_and-shift k a b, bit_and-digit (a / 2 ^ k) (b / 2 ^ k))

pub bit_or-bit : (k a b : ℕ) → bit_or a b / 2 ^ k % 2 ≡ max (a / 2 ^ k % 2) (b / 2 ^ k % 2)
bit_or-bit k a b = omega (arith, bit_or-shift k a b, bit_or-digit (a / 2 ^ k) (b / 2 ^ k))

differ_digit : (x y : ℕ) → x < 2 → y < 2 → (differ x y < 2) × (differ x y ≡ 0 → x ≡ y)
differ_digit zero y hx hy = (hy, sym)
differ_digit (suc x) zero hx hy = (hx, λ e. e)
differ_digit (suc zero) (suc y) hx hy = (omega arith, λ e. omega arith)
differ_digit (suc (suc x)) (suc y) hx hy = absurd (omega arith)

-- 1 for two different digits.
pub bit_xor-digit : (a b : ℕ) → bit_xor a b ≡ bit_xor (a / 2) (b / 2) * 2 + differ (a % 2) (b % 2)
bit_xor-digit zero b = at_zero b
  where
    at_zero : (b : ℕ) → bit_xor 0 b ≡ bit_xor 0 (b / 2) * 2 + differ 0 (b % 2)
    at_zero b = omega (arith, bit_xor-bitwise 0 b, bit_xor-bitwise 0 (b / 2))
bit_xor-digit (suc a) b =
    bit_xor-bitwise (suc a) b
    ∙ ap (λ t. t * 2 + differ (suc a % 2) (b % 2))
        (enough_fuel (λ y. y) differ a (suc a / 2) (suc a / 2) (b / 2) (omega arith) (omega arith)
          ∙ sym (bit_xor-bitwise (suc a / 2) (b / 2)))

bit_xor-half : (a b : ℕ) → bit_xor a b / 2 ≡ bit_xor (a / 2) (b / 2)
bit_xor-half a b =
    omega (arith, bit_xor-digit a b, (differ_digit (a % 2) (b % 2) (omega arith) (omega arith)).0)

pub bit_xor-shift : (k a b : ℕ) → bit_xor a b / 2 ^ k ≡ bit_xor (a / 2 ^ k) (b / 2 ^ k)
bit_xor-shift zero a b = div-one (bit_xor a b) ∙ ap₂ bit_xor (sym (div-one a)) (sym (div-one b))
bit_xor-shift (suc k) a b =
    div-pow_suc (bit_xor a b) k
    ∙ ap (λ t. t / 2 ^ k) (bit_xor-half a b)
    ∙ bit_xor-shift k (a / 2) (b / 2)
    ∙ ap₂ bit_xor (sym (div-pow_suc a k)) (sym (div-pow_suc b k))

pub bit_xor-bit : (k a b : ℕ) → bit_xor a b / 2 ^ k % 2 ≡ differ (a / 2 ^ k % 2) (b / 2 ^ k % 2)
bit_xor-bit k a b = omega (
  arith,
  bit_xor-shift k a b,
  bit_xor-digit (a / 2 ^ k) (b / 2 ^ k),
  (differ_digit (a / 2 ^ k % 2) (b / 2 ^ k % 2) (omega arith) (omega arith)).0,
)

zero-div-pow : (k : ℕ) → 0 / 2 ^ k ≡ 0
zero-div-pow zero = div-one 0
zero-div-pow (suc k) = div-pow_suc 0 k ∙ zero-div-pow k

-- Where two numbers do not differ under a mask, they have the same digits there.
pub bit_xor_masked :
    (k a b full mask : ℕ)
    → bit_and (bit_xor (bit_and a full) (bit_and b full)) mask ≡ 0
    → full / 2 ^ k % 2 ≡ 1
    → mask / 2 ^ k % 2 ≡ 1
    → a / 2 ^ k % 2 ≡ b / 2 ^ k % 2
bit_xor_masked k a b full mask h hf hm =
    let x = bit_and a full in
    let y = bit_and b full in
    let same = (differ_digit (x / 2 ^ k % 2) (y / 2 ^ k % 2) (omega arith) (omega arith)).1 in
    omega (
      arith,
      same (
          omega (
            arith,
            bit_and-bit k (bit_xor x y) mask,
            bit_xor-bit k x y,
            ap (λ t. t / 2 ^ k % 2) h,
            zero-div-pow k,
            (differ_digit (x / 2 ^ k % 2) (y / 2 ^ k % 2) (omega arith) (omega arith)).0,
          )),
      bit_and-bit k a full,
      bit_and-bit k b full,
    )

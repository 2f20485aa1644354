-- ===== src/Prelude/Bits.antt =====
-- `|` and `&` on words of any width, digit by digit: the laws that the native operations lack.
use Prim.Native.Nat.{ℕ, zero, suc, ◌+◌, ◌-◌, ◌*◌, ◌/◌, ◌%◌, ◌^◌, ◌≤◌, ◌<◌, min, max}
use Prim.Native.Nat.{bit_and, bit_or, digits, bit_and-bitwise, bit_or-bitwise}
use mathlib.Core.Path.{◌≡◌, refl, sym, ap, ◌∙◌}
use mathlib.Core.Logic.{◌≢◌}
use mathlib.Core.Bool.{Bool, not}
use native.Mathlib.Nat.{pow-suc, div-div-eq-div-mul}
use native.Mathlib.Omega.{arith}
use avaria.Prelude.Tests.{◌==◌, if◌then◌else◌}

-- Digit `i` of `x`, as a number.
abbrev pub bit : ℕ → ℕ → ℕ
bit zero x = x % 2
bit (suc i) x = bit i (x / 2)

-- `x & (1 << i) != 0`
abbrev pub test_bit : ℕ → ℕ → Bool
test_bit x i = not (bit_and x (2 ^ i) == 0)

-- `x | (1 << i)`
abbrev pub with_bit : ℕ → ℕ → ℕ
with_bit x i = bit_or x (2 ^ i)

-- `x & !m`: what is left of `x` without the bits that it shares with `m`.
abbrev pub and_not : ℕ → ℕ → ℕ
and_not x m = x - bit_and x m

-- The operations run `digits` on as much fuel as the first operand. More fuel changes nothing.
module _ (z : ℕ → ℕ) (f : ℕ → ℕ → ℕ) where
  one_more : (n x y : ℕ) → x ≤ n → digits z f (suc n) x y ≡ digits z f n x y
  one_more zero zero y h = refl
  one_more (suc n) zero y h = refl
  one_more zero (suc x) y h = absurd (omega arith)
  one_more (suc n) (suc x) y h = rw (one_more n (suc x / 2) (y / 2) (omega arith))

  any_more : (k n x y : ℕ) → x ≤ n → digits z f (k + n) x y ≡ digits z f n x y
  any_more zero n x y h = let e : 0 + n ≡ n = omega arith in rw e refl
  any_more (suc k) n x y h =
      let e : suc k + n ≡ suc (k + n) = omega arith in
      rw e (one_more (k + n) x y (omega arith) ∙ any_more k n x y h)

  lowest_digit :
      (x y : ℕ)
      → digits z f (suc x) (suc x) y
        ≡ f (suc x % 2) (y % 2) + 2 * digits z f (suc x / 2) (suc x / 2) (y / 2)
  lowest_digit x y =
      let half = suc x / 2 in
      let enough : x - half + half ≡ x = omega arith in
      let rest = any_more (x - half) half half (y / 2) (omega arith) in
      omega (arith, ap (λ n. digits z f n half (y / 2)) enough, rest)

pub bit_or_step : (x y : ℕ) → bit_or x y ≡ max (x % 2) (y % 2) + 2 * bit_or (x / 2) (y / 2)
bit_or_step zero y = simp bit_or-bitwise (omega arith)
bit_or_step (suc x) y = simp bit_or-bitwise (lowest_digit (λ t. t) max x y)

pub bit_and_step : (x y : ℕ) → bit_and x y ≡ min (x % 2) (y % 2) + 2 * bit_and (x / 2) (y / 2)
bit_and_step zero y = simp bit_and-bitwise (omega arith)
bit_and_step (suc x) y = simp bit_and-bitwise (lowest_digit (λ t. 0) min x y)

pub bit-bit_or : (i a b : ℕ) → bit i (bit_or a b) ≡ max (bit i a) (bit i b)
bit-bit_or zero a b = omega (arith, bit_or_step a b)
bit-bit_or (suc i) a b =
    let e : bit_or a b / 2 ≡ bit_or (a / 2) (b / 2) = omega (arith, bit_or_step a b) in
    rw e (bit-bit_or i (a / 2) (b / 2))

pub bit-bit_and : (i a b : ℕ) → bit i (bit_and a b) ≡ min (bit i a) (bit i b)
bit-bit_and zero a b = omega (arith, bit_and_step a b)
bit-bit_and (suc i) a b =
    let e : bit_and a b / 2 ≡ bit_and (a / 2) (b / 2) = omega (arith, bit_and_step a b) in
    rw e (bit-bit_and i (a / 2) (b / 2))

pub bit-lt : (i a : ℕ) → bit i a < 2
bit-lt zero a = omega arith
bit-lt (suc i) a = bit-lt i (a / 2)

pub bit-zero : (i : ℕ) → bit i 0 ≡ 0
bit-zero zero = refl
bit-zero (suc i) = bit-zero i

-- Either operation at 0.
pub at_zero : (n x : ℕ) → x ≤ n → (bit_or x 0 ≡ x) × (bit_and x 0 ≡ 0)
at_zero n zero h = (refl, refl)
at_zero zero (suc x) h = absurd (omega arith)
at_zero (suc n) (suc x) h =
    let half = at_zero n (suc x / 2) (omega arith) in
    (omega (arith, bit_or_step (suc x) 0, half.0), omega (arith, bit_and_step (suc x) 0, half.1))

pub bit_or-zero : (n a : ℕ) → a ≤ n → bit_or a 0 ≡ a
bit_or-zero n a h = (at_zero n a h).0

pub bit_and-zero : (n a : ℕ) → a ≤ n → bit_and a 0 ≡ 0
bit_and-zero n a h = (at_zero n a h).1

pub half-two_pow : (i : ℕ) → (2 ^ suc i / 2 ≡ 2 ^ i) × (2 ^ suc i % 2 ≡ 0)
half-two_pow i = omega (arith, pow-suc 2 i)

-- `x & (1 << i)` is the digit in its place, and `x | (1 << i)` adds it where it is missing.
pub bit_and-two_pow : (i x : ℕ) → bit_and x (2 ^ i) ≡ bit i x * 2 ^ i
bit_and-two_pow zero x = omega (arith, bit_and_step x 1, bit_and-zero (x / 2) (x / 2) (omega arith))
bit_and-two_pow (suc i) x = omega (
  arith,
  bit_and_step x (2 ^ suc i),
  ap (bit_and (x / 2)) (half-two_pow i).0,
  half-two_pow i,
  bit_and-two_pow i (x / 2),
  ap (λ (t : ℕ). bit i (x / 2) * t) (pow-suc 2 i),
)

pub bit-two_pow : (i j : ℕ) → bit i (2 ^ j) ≡ (if i == j then 1 else 0)
bit-two_pow zero zero = refl
bit-two_pow zero (suc j) = ground (arith, half-two_pow j)
bit-two_pow (suc i) zero = bit-zero i ∙ ground arith
bit-two_pow (suc i) (suc j) = rw (half-two_pow j).0 (rw (bit-two_pow i j) (ground arith))

bit-le : (i x : ℕ) → bit i x * 2 ^ i ≤ x
bit-le zero x = omega arith
bit-le (suc i) x = omega (arith, bit-le i (x / 2), ap (λ (t : ℕ). bit i (x / 2) * t) (pow-suc 2 i))

pub bit-sub_self : (j x : ℕ) → bit j (x - bit j x * 2 ^ j) ≡ 0
bit-sub_self zero x = omega arith
bit-sub_self (suc j) x =
    let b = bit j (x / 2) in
    let e : (x - b * 2 ^ suc j) / 2 ≡ x / 2 - b * 2 ^ j =
      omega (arith, bit-le j (x / 2), ap (λ (t : ℕ). b * t) (pow-suc 2 j)) in
    rw e (bit-sub_self j (x / 2))

pub bit-sub_ne : (i j x : ℕ) → i ≢ j → bit i (x - bit j x * 2 ^ j) ≡ bit i x
bit-sub_ne zero zero x ne = absurd (ne refl)
bit-sub_ne (suc i) zero x ne = ap (bit i) (omega arith)
bit-sub_ne zero (suc j) x ne =
    omega (arith, bit-le j (x / 2), ap (λ (t : ℕ). bit j (x / 2) * t) (pow-suc 2 j))
bit-sub_ne (suc i) (suc j) x ne =
    let b = bit j (x / 2) in
    let e : (x - b * 2 ^ suc j) / 2 ≡ x / 2 - b * 2 ^ j =
      omega (arith, bit-le j (x / 2), ap (λ (t : ℕ). b * t) (pow-suc 2 j)) in
    rw e (bit-sub_ne i j (x / 2) (λ h. ne (ap suc h)))

-- Digit `i` by division, and a mask of digits from `k` on.
pub bit-eq : (i x : ℕ) → bit i x ≡ x / 2 ^ i % 2
bit-eq zero x = omega arith
bit-eq (suc i) x =
    bit-eq i (x / 2)
    ∙ ap (λ t. t % 2)
        (div-div-eq-div-mul x 2 (2 ^ i) ∙ ap (λ t. x / t) (omega (arith, pow-suc 2 i)))

pub bit_and-shifted : (k x m : ℕ) → bit_and x (m * 2 ^ k) ≡ bit_and (x / 2 ^ k) m * 2 ^ k
bit_and-shifted zero x m =
    let one : m * 2 ^ 0 ≡ m = omega arith in
    let whole : x / 2 ^ 0 ≡ x = omega arith in rw (one, whole) (omega arith)
bit_and-shifted (suc k) x m =
    let p : 2 ^ suc k ≡ 2 * 2 ^ k = omega (arith, pow-suc 2 k) in
    let double : m * 2 ^ suc k ≡ 2 * (m * 2 ^ k) = omega (arith, ap (λ (t : ℕ). m * t) p) in
    let half : 2 * (m * 2 ^ k) / 2 ≡ m * 2 ^ k = omega arith in
    let quotient : x / 2 / 2 ^ k ≡ x / 2 ^ suc k =
      div-div-eq-div-mul x 2 (2 ^ k) ∙ ap (λ t. x / t) (sym p) in
    let r = bit_and (x / 2 ^ suc k) m in
    omega (
      arith,
      ap (bit_and x) double,
      bit_and_step x (2 * (m * 2 ^ k)),
      ap (bit_and (x / 2)) half,
      bit_and-shifted k (x / 2) m,
      ap (λ t. bit_and t m * 2 ^ k) quotient,
      ap (λ (t : ℕ). r * t) p,
    )

-- ===== src/Prelude/Masks.antt =====
-- Tests, sets and clears of one bit, the joining of fields, and the low digits of a word.
use Prim.Native.Nat.{ℕ, zero, suc, ◌+◌, ◌-◌, ◌*◌, ◌/◌, ◌%◌, ◌^◌, ◌<◌}
use Prim.Native.Nat.{bit_and, bit_or}
use mathlib.Core.Path.{◌≡◌, refl, sym, ap, ◌∙◌}
use mathlib.Core.Logic.{◌≢◌, inl, inr}
use mathlib.Core.Bool.{true, false}
use native.Mathlib.Nat.{
  pow-suc, one-le-pow, div-add-mod', mod-lt, mod-eq_of_lt, add-mul-mod_self_right,
}
use native.Mathlib.Omega.{arith}
use avaria.Prelude.Tests.{◌==◌, Bool-cases, ==→≡}
use avaria.Prelude.Bits.{
  bit, test_bit, with_bit, and_not, bit_or_step, bit_and_step, bit-bit_or, bit-lt, bit-zero,
  bit_or-zero, bit_and-zero, bit_and-two_pow, bit-two_pow, bit-sub_self, bit-sub_ne,
}

-- The test, the set and the clear of one bit.
pub test_bit-eq-bit : (x i : ℕ) → test_bit x i ≡ (bit i x == 1)
test_bit-eq-bit x i = rw (bit_and-two_pow i x) (elim (Bool-cases (bit i x == 1)) [
  | inl e ↦ rw (==→≡ _ _ e) (ground (arith, one-le-pow i 2))
  | inr e ↦ let z : bit i x ≡ 0 = ground (arith, bit-lt i x) in rw z (ground arith)
])

pub test_bit-zero : (i : ℕ) → test_bit 0 i ≡ false
test_bit-zero i = rw (test_bit-eq-bit 0 i, bit-zero i) refl

pub test_bit-with_bit_self : (x i : ℕ) → test_bit (with_bit x i) i ≡ true
test_bit-with_bit_self x i =
    rw (test_bit-eq-bit (with_bit x i) i)
      (ground (arith, bit-bit_or i x (2 ^ i), bit-two_pow i i, bit-lt i x))

pub test_bit-with_bit_ne : (x i j : ℕ) → i ≢ j → test_bit (with_bit x i) j ≡ test_bit x j
test_bit-with_bit_ne x i j ne =
    rw (test_bit-eq-bit (with_bit x i) j, test_bit-eq-bit x j)
      (ap (λ b. b == 1) (ground (arith, bit-bit_or j x (2 ^ i), bit-two_pow j i)))

pub test_bit-and_not_self : (x i : ℕ) → test_bit (and_not x (2 ^ i)) i ≡ false
test_bit-and_not_self x i =
    rw (test_bit-eq-bit (and_not x (2 ^ i)) i, bit_and-two_pow i x, bit-sub_self i x) refl

pub test_bit-and_not_ne : (x i j : ℕ) → i ≢ j → test_bit (and_not x (2 ^ i)) j ≡ test_bit x j
test_bit-and_not_ne x i j ne =
    rw
      (
        test_bit-eq-bit (and_not x (2 ^ i)) j,
        test_bit-eq-bit x j,
        bit_and-two_pow i x,
        bit-sub_ne j i x (λ e. ne (sym e)),
      )
      refl

-- `(q << k) | r` joins two fields when `r` fits `k` bits, and `& (2 ^ k - 1)` keeps the low one.
pub bit_or_join : (k q r : ℕ) → r < 2 ^ k → bit_or (q * 2 ^ k) r ≡ q * 2 ^ k + r
bit_or_join zero q r h =
    let z : r ≡ 0 = omega arith in rw z (omega (arith, bit_or-zero (q * 1) (q * 1) (omega arith)))
bit_or_join (suc k) q r h =
    let e : q * 2 ^ suc k ≡ 2 * (q * 2 ^ k) = omega (arith, ap (λ (t : ℕ). q * t) (pow-suc 2 k)) in
    rw e (
      omega (
        arith,
        bit_or_step (2 * (q * 2 ^ k)) r,
        ap (λ (t : ℕ). bit_or t (r / 2))
            (let s : 2 * (q * 2 ^ k) / 2 ≡ q * 2 ^ k = omega arith in s),
        bit_or_join k q (r / 2) (omega (arith, pow-suc 2 k)),
      ))

mod_double : (x k : ℕ) → x % 2 ^ suc k ≡ x / 2 % 2 ^ k * 2 + x % 2
mod_double x k =
    let r = x / 2 % 2 ^ k in
    let q = x / 2 / 2 ^ k in
    let split : x ≡ r * 2 + x % 2 + q * 2 ^ suc k =
      omega (arith, div-add-mod' (x / 2) (2 ^ k), ap (λ (t : ℕ). q * t) (pow-suc 2 k)) in
    let below = mod-lt (x / 2) (one-le-pow k 2 (omega arith)) in
    ap (λ t. t % 2 ^ suc k) split
    ∙ add-mul-mod_self_right (r * 2 + x % 2) q (2 ^ suc k)
    ∙ mod-eq_of_lt (omega (arith, below, pow-suc 2 k))

pub bit_and_low : (k x : ℕ) → bit_and x (2 ^ k - 1) ≡ x % 2 ^ k
bit_and_low zero x = omega (arith, bit_and-zero x x (omega arith))
bit_and_low (suc k) x =
    let p = pow-suc 2 k in
    let pos = one-le-pow k 2 in
    let m : (2 ^ suc k - 1) / 2 ≡ 2 ^ k - 1 = omega (arith, p, pos (omega arith)) in
    omega (
      arith,
      p,
      pos (omega arith),
      bit_and_step x (2 ^ suc k - 1),
      ap (bit_and (x / 2)) m,
      bit_and_low k (x / 2),
      mod_double x k,
    )

-- The digits of the complement in `n` bits, and of a value whose `k` low digits are all 1.
pub bit_complement : (n i w : ℕ) → i < n → w < 2 ^ n → bit i (2 ^ n - 1 - w) + bit i w ≡ 1
bit_complement zero i w lt h = absurd (omega arith)
bit_complement (suc n) zero w lt h = omega (arith, pow-suc 2 n)
bit_complement (suc n) (suc i) w lt h =
    let e : (2 ^ suc n - 1 - w) / 2 ≡ 2 ^ n - 1 - w / 2 = omega (arith, pow-suc 2 n) in
    rw e (bit_complement n i (w / 2) (omega arith) (omega (arith, pow-suc 2 n)))

pub low_ones : (k w : ℕ) → ((j : ℕ) → j < k → bit j w ≡ 1) → w % 2 ^ k ≡ 2 ^ k - 1
low_ones zero w ones = omega arith
low_ones (suc k) w ones = omega (
  arith,
  pow-suc 2 k,
  mod_double w k,
  ones 0 (omega arith),
  low_ones k (w / 2) (λ j h. ones (suc j) (omega arith)),
  one-le-pow k 2,
)

pub bit_of_low_ones : (k w j : ℕ) → w % 2 ^ k ≡ 2 ^ k - 1 → j < k → bit j w ≡ 1
bit_of_low_ones zero w j e lt = absurd (omega arith)
bit_of_low_ones (suc k) w zero e lt =
    omega (arith, pow-suc 2 k, mod_double w k, one-le-pow k 2, mod-lt (w / 2) {m = 2 ^ k})
bit_of_low_ones (suc k) w (suc j) e lt =
    bit_of_low_ones k (w / 2) j
      (omega (arith, pow-suc 2 k, mod_double w k, one-le-pow k 2, mod-lt (w / 2) {m = 2 ^ k}))
      (omega arith)

pub bit_or-lt : (n a b : ℕ) → a < 2 ^ n → b < 2 ^ n → bit_or a b < 2 ^ n
bit_or-lt zero a b ha hb =
    let za : a ≡ 0 = omega arith in let zb : b ≡ 0 = omega arith in rw (za, zb) (omega arith)
bit_or-lt (suc n) a b ha hb = omega (
  arith,
  pow-suc 2 n,
  bit_or_step a b,
  bit_or-lt n (a / 2) (b / 2) (omega (arith, pow-suc 2 n)) (omega (arith, pow-suc 2 n)),
)

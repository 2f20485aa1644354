-- ===== src/Mm/Slab/Words.antt =====
-- The lowest clear bit of a bitmap word, and a word that is full (`src/kern/mm/slab.rs`).
use native.Mathlib.Nat.{pow-suc}
use avaria.Prelude.{ℕ, zero, suc, ◌-◌, ◌/◌, ◌%◌, ◌^◌, ◌<◌, ◌≤◌, ◌≡◌, sym, ◌∙◌, ◌≢◌, arith}
use avaria.Prelude.{true, false, Bool-cases, inl, inr, ◌==◌, ==→≡, ==→≢, ≡→==, ≢→==, bit, test_bit}
use avaria.Prelude.{
  test_bit-eq-bit, bit_complement, low_ones, bit_of_low_ones, bit_and_low, bit_and, ◌↔◌,
}
use avaria.Mm.Slab.{trailing_zeros, not_u64, u64_max}

-- The digits below the lowest set bit are 0, and that bit is 1.
pub trailing_zeros-lt : (n x : ℕ) → 0 < x → x < 2 ^ n → trailing_zeros n x < n
unfolding trailing_zeros
trailing_zeros-lt zero x pos h = absurd (omega arith)
trailing_zeros-lt (suc n) x pos h = elim (Bool-cases (x % 2 == 1)) [
  | inl e ↦ rw e (omega arith)
  | inr e ↦
      let even = ==→≢ (x % 2) 1 e in
      rw e (omega (arith, trailing_zeros-lt n (x / 2) (omega arith) (omega (arith, pow-suc 2 n))))
]

pub bit-trailing_zeros : (n x : ℕ) → 0 < x → x < 2 ^ n → bit (trailing_zeros n x) x ≡ 1
unfolding trailing_zeros
bit-trailing_zeros zero x pos h = absurd (omega arith)
bit-trailing_zeros (suc n) x pos h = elim (Bool-cases (x % 2 == 1)) [
  | inl e ↦ rw e (==→≡ (x % 2) 1 e)
  | inr e ↦
      let even = ==→≢ (x % 2) 1 e in
      rw e (bit-trailing_zeros n (x / 2) (omega arith) (omega (arith, pow-suc 2 n)))
]

bit-below_even :
    (n x i : ℕ)
    → x % 2 ≡ 0
    → i < suc (trailing_zeros n (x / 2))
    → ((j : ℕ) → j < trailing_zeros n (x / 2) → bit j (x / 2) ≡ 0)
    → bit i x ≡ 0
bit-below_even n x zero even lt below = even
bit-below_even n x (suc i) even lt below = below i (omega arith)

pub bit-below_trailing_zeros :
    (n x i : ℕ) → 0 < x → x < 2 ^ n → i < trailing_zeros n x → bit i x ≡ 0
unfolding trailing_zeros
bit-below_trailing_zeros zero x i pos h lt = absurd (omega arith)
bit-below_trailing_zeros (suc n) x i pos h lt = elim (Bool-cases (x % 2 == 1)) [
  | inl e ↦ absurd (let none_below : i < 0 = rw e at lt in omega arith)
  | inr e ↦
      let even = ==→≢ (x % 2) 1 e in
      let lt' : i < suc (trailing_zeros n (x / 2)) = rw e at lt in
      bit-below_even n x i (omega arith) lt'
        (λ j. bit-below_trailing_zeros n (x / 2) j (omega arith) (omega (arith, pow-suc 2 n)))
]

-- The lowest clear bit of a word that is not full, and the bits of one that is.
module _ (w : ℕ) (h : w < 2 ^ 64) where
  abbrev lowest : ℕ
  lowest = trailing_zeros 64 (not_u64 w)

  set_of_one : (i : ℕ) → bit i w ≡ 1 → test_bit w i ≡ true
  set_of_one i e = test_bit-eq-bit w i ∙ ≡→== (bit i w) 1 e

  clear_of_zero : (i : ℕ) → bit i w ≡ 0 → test_bit w i ≡ false
  clear_of_zero i e = test_bit-eq-bit w i ∙ ≢→== (bit i w) 1 (λ o. omega arith)

  pub lowest_clear :
      w ≢ u64_max
      → (lowest < 64) × (test_bit w lowest ≡ false) × ((j : ℕ) → j < lowest → test_bit w j ≡ true)
  lowest_clear ne =
      let in_range = trailing_zeros-lt 64 (not_u64 w) (omega arith) (omega arith) in
      let one = bit-trailing_zeros 64 (not_u64 w) (omega arith) (omega arith) in
      (
        in_range,
        clear_of_zero lowest (omega (arith, bit_complement 64 lowest w in_range h)),
        λ j lt. set_of_one j (
            omega (
              arith,
              bit_complement 64 j w (omega arith) h,
              bit-below_trailing_zeros 64 (not_u64 w) j (omega arith) (omega arith) lt,
            )),
      )

  pub full_set : w ≡ u64_max → (j : ℕ) → j < 64 → test_bit w j ≡ true
  full_set e j lt = set_of_one j (bit_of_low_ones 64 w j (omega arith) lt)

  -- The masked comparison of `is_full`.
  pub mask_full :
      (k : ℕ)
      → k ≤ 64
      → (bit_and w (2 ^ k - 1) ≡ 2 ^ k - 1) ↔ ((j : ℕ) → j < k → test_bit w j ≡ true)
  mask_full k le = (
    λ e j lt. set_of_one j (bit_of_low_ones k w j (sym (bit_and_low k w) ∙ e) lt),
    λ all. bit_and_low k w ∙ low_ones k w (λ j lt. one_of_set j (all j lt)),
  )
    where
      one_of_set : (j : ℕ) → test_bit w j ≡ true → bit j w ≡ 1
      one_of_set j t = ==→≡ (bit j w) 1 (sym (test_bit-eq-bit w j) ∙ t)

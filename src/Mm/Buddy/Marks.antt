-- ===== src/Mm/Buddy/Marks.antt =====
-- The bits that `mark_allocated` and `mark_free` of `src/kern/mm/buddy.rs` set and clear.
use avaria.Prelude.{ℕ, ◌*◌, ◌/◌, ◌%◌, ◌<◌, ◌≡◌, refl, sym, ap, ◌∙◌, ◌≢◌, arith, Bool}
use avaria.Prelude.{true, false, not, ◌==◌, ltb, leb, if◌then◌else◌, Bool-cases, inl, inr}
use avaria.Prelude.{lt→ltb, leb→le, ==→≡, ==→≢, ==_self, ≢→==}
use avaria.Prelude.{test_bit, update, test_bit-with_bit_self, test_bit-with_bit_ne}
use avaria.Prelude.{test_bit-and_not_self, test_bit-and_not_ne}
use avaria.Mm.Buddy.{BuddyAllocator, bitmap_bytes, bit_index, get_bit, set_bit, clear_bit, is_free}
use avaria.Mm.Buddy.{mark_allocated, mark_free}

-- A bit that the array has.
abbrev pub InBitmap : ℕ → Type 0
InBitmap i = i < 8 * bitmap_bytes

-- Reading any bit of a bitmap in which byte `n` was replaced by one that differs from it in bit
-- `i % 8` alone.
get_bit-update :
    (b : BuddyAllocator) (i j w : ℕ) (v : Bool)
    → InBitmap i
    → test_bit w (i % 8) ≡ v
    → ((k : ℕ) → i % 8 ≢ k → test_bit w k ≡ test_bit (b.bitmap (i / 8)) k)
    → get_bit (record b { bitmap = update b.bitmap (i / 8) w }) j
      ≡ (if i == j then v else get_bit b j)
unfolding get_bit
get_bit-update b i j w v h at_i others = elim (Bool-cases (leb bitmap_bytes (j / 8))) [
  | inl e ↦ let ne : i ≢ j = λ same. omega (arith, leb→le _ _ e, same) in rw (e, ≢→== i j ne) refl
  | inr e ↦ rw e (elim (Bool-cases (i == j)) [
    | inl s ↦ rw (s, ← ==→≡ i j s, ==_self (i / 8)) at_i
    | inr s ↦ rw s (elim (Bool-cases (i / 8 == j / 8)) [
      | inl q ↦
          let same = ==→≡ (i / 8) (j / 8) q in
          let ne = ==→≢ i j s in
          rw q
            (others (j % 8) (λ r. ne (omega arith)) ∙ ap (λ n. test_bit (b.bitmap n) (j % 8)) same)
      | inr q ↦ rw q refl
    ])
  ])
]

pub get_bit-set_bit :
    (b : BuddyAllocator) (i j : ℕ)
    → InBitmap i
    → get_bit (set_bit b i) j ≡ (if i == j then true else get_bit b j)
unfolding set_bit
get_bit-set_bit b i j h = rw (lt→ltb (i / 8) bitmap_bytes (omega arith)) (
    get_bit-update b i j _ true h (test_bit-with_bit_self _ (i % 8))
      (λ k ne. test_bit-with_bit_ne _ (i % 8) k ne))

pub get_bit-clear_bit :
    (b : BuddyAllocator) (i j : ℕ)
    → InBitmap i
    → get_bit (clear_bit b i) j ≡ (if i == j then false else get_bit b j)
unfolding clear_bit
get_bit-clear_bit b i j h = rw (lt→ltb (i / 8) bitmap_bytes (omega arith)) (
    get_bit-update b i j _ false h (test_bit-and_not_self _ (i % 8))
      (λ k ne. test_bit-and_not_ne _ (i % 8) k ne))

pub is_free-eq-not-get_bit :
    (b : BuddyAllocator) (order idx : ℕ)
    → is_free b order idx ≡ not (get_bit b (bit_index order idx))
unfolding is_free
is_free-eq-not-get_bit b order idx = elim (Bool-cases (order == b.max_order)) [
  | inl e ↦ rw e refl
  | inr e ↦ rw e refl
]

module _ (b : BuddyAllocator) (order idx : ℕ) where
  -- Marking leaves everything but the bitmap.
  pub set_bit-frame :
      ((mark_allocated b order idx).base ≡ b.base)
      × ((mark_allocated b order idx).total_pages ≡ b.total_pages)
      × ((mark_allocated b order idx).max_order ≡ b.max_order)
  unfolding mark_allocated set_bit
  set_bit-frame = elim (Bool-cases (ltb (bit_index order idx / 8) bitmap_bytes)) [
    | inl e ↦ rw e (refl, refl, refl)
    | inr e ↦ rw e (refl, refl, refl)
  ]

  pub clear_bit-frame :
      ((mark_free b order idx).base ≡ b.base)
      × ((mark_free b order idx).total_pages ≡ b.total_pages)
      × ((mark_free b order idx).max_order ≡ b.max_order)
  unfolding mark_free clear_bit
  clear_bit-frame = elim (Bool-cases (ltb (bit_index order idx / 8) bitmap_bytes)) [
    | inl e ↦ rw e (refl, refl, refl)
    | inr e ↦ rw e (refl, refl, refl)
  ]

  pub is_free-mark_allocated :
      (o i : ℕ)
      → InBitmap (bit_index order idx)
      → is_free (mark_allocated b order idx) o i
        ≡ (if bit_index order idx == bit_index o i then false else is_free b o i)
  unfolding mark_allocated
  is_free-mark_allocated o i h =
      is_free-eq-not-get_bit (mark_allocated b order idx) o i
      ∙ ap not (get_bit-set_bit b (bit_index order idx) (bit_index o i) h)
      ∙ elim (Bool-cases (bit_index order idx == bit_index o i)) [
        | inl e ↦ rw e refl
        | inr e ↦ rw e (sym (is_free-eq-not-get_bit b o i))
      ]

  pub is_free-mark_free :
      (o i : ℕ)
      → InBitmap (bit_index order idx)
      → is_free (mark_free b order idx) o i
        ≡ (if bit_index order idx == bit_index o i then true else is_free b o i)
  unfolding mark_free
  is_free-mark_free o i h =
      is_free-eq-not-get_bit (mark_free b order idx) o i
      ∙ ap not (get_bit-clear_bit b (bit_index order idx) (bit_index o i) h)
      ∙ elim (Bool-cases (bit_index order idx == bit_index o i)) [
        | inl e ↦ rw e refl
        | inr e ↦ rw e (sym (is_free-eq-not-get_bit b o i))
      ]

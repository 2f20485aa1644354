-- ===== src/Mm/Buddy/Overlap.antt =====
-- `init` of `src/kern/mm/buddy.rs` leaves the blocks of every order free at once, and the orders
-- share bits of the bitmap.
use avaria.Prelude.{ℕ, zero, suc, ◌+◌, ◌*◌, ◌/◌, ◌%◌, ◌^◌, ◌<◌, ◌≤◌, ◌≡◌, refl, ap, ◌∙◌, arith}
use avaria.Prelude.{true, false, Bool-cases, some, ltb, lt→leb, le→ltb}
use avaria.Prelude.{
  ltb→lt, ltb→le, ◌==◌, inl, inr, test_bit-zero, two_pow_pos, two_pow_mono, two_pow-add,
}
use avaria.Prelude.{==→≡, ==→≢, ≡→==, Option}
use avaria.Mm.Buddy.{BuddyAllocator, page_size, bitmap_bytes, init, grow_order, is_free, get_bit}
use avaria.Mm.Buddy.{bit_index, mark_allocated, block_addr, alloc_pages, alloc_one}
use avaria.Mm.Buddy.Marks.{InBitmap, is_free-eq-not-get_bit, is_free-mark_allocated, set_bit-frame}
use avaria.Mm.Buddy.Search.{find_free-first}

grow_order-ge : (left order pages : ℕ) → order ≤ grow_order left order pages
unfolding grow_order
grow_order-ge zero order pages = omega arith
grow_order-ge (suc left) order pages = ground (arith, grow_order-ge left (order + 1) pages)

grow_order-covers :
    (left order pages : ℕ)
    → pages ≤ 2 ^ (order + left)
    → (pages ≤ 2 ^ grow_order left order pages)
      × ((o : ℕ) → order ≤ o → o < grow_order left order pages → 2 ^ o < pages)
unfolding grow_order
grow_order-covers zero order pages h =
    (rw (let e : order ≡ order + 0 = omega arith in e) h, λ o lo hi. absurd (omega arith))
grow_order-covers (suc left) order pages h = elim (Bool-cases (ltb (2 ^ order) pages)) [
  | inr e ↦ rw e (ltb→le _ _ e, λ o lo hi. absurd (omega arith))
  | inl e ↦
      let more =
        grow_order-covers left (order + 1) pages
          (rw (let e : order + 1 + left ≡ order + suc left = omega arith in e) h) in
      rw e (
        more.0,
        λ o lo hi. elim (Bool-cases (order == o)) [
          | inl q ↦ rw (← ==→≡ order o q) (ltb→lt _ _ e)
          | inr q ↦ let ne = ==→≢ order o q in more.1 o (omega arith) hi
        ],
      )
]

-- For at most 2 ^ 20 pages, `init` chooses the least order whose block covers all of them.
pub max_order-init :
    (b : BuddyAllocator) (base size : ℕ)
    → size / page_size ≤ 2 ^ 20
    → (size / page_size ≤ 2 ^ (init b base size).max_order)
      × ((o : ℕ) → o < (init b base size).max_order → 2 ^ o < size / page_size)
unfolding init
max_order-init b base size h =
    let c = grow_order-covers 20 0 (size / page_size) h in (c.0, λ o hi. c.1 o (omega arith) hi)

is_free-init :
    (b : BuddyAllocator) (base size order idx : ℕ)
    → InBitmap (bit_index order idx)
    → is_free (init b base size) order idx ≡ true
unfolding init get_bit
is_free-init b base size order idx h =
    is_free-eq-not-get_bit (init b base size) order idx
    ∙ rw
        (
          lt→leb bitmap_bytes (bit_index order idx / 8) (omega arith),
          test_bit-zero (bit_index order idx % 8),
        )
        refl

alloc_pages_first :
    (b : BuddyAllocator) (order : ℕ)
    → order ≤ b.max_order
    → 0 < b.total_pages / 2 ^ order
    → is_free b order 0 ≡ true
    → alloc_pages b order ≡ (mark_allocated b order 0, some (block_addr b order 0))
unfolding alloc_pages
alloc_pages_first b order le room free =
    rw (le→ltb b.max_order order le, find_free-first b order room free, alloc_pages) refl

block_addr-zero : (b : BuddyAllocator) (order : ℕ) → block_addr b order 0 ≡ b.base % 2 ^ 64
unfolding block_addr
block_addr-zero b order = omega arith

-- After `init` on at least two pages, a single page and then a block of two pages are both given
-- out at the base address: the same page twice, with no free between.
pub alloc_twice_same :
    (b : BuddyAllocator) (base size : ℕ)
    → 2 ≤ size / page_size
    → ((alloc_one (init b base size)).1 ≡ some (base % 2 ^ 64))
      × ((alloc_pages (alloc_one (init b base size)).0 1).1 ≡ some (base % 2 ^ 64))
unfolding alloc_one init
alloc_twice_same b base size h =
    let i = init b base size in
    let wide : 1 ≤ i.max_order = ground (arith, grow_order-ge 19 1 (size / page_size)) in
    let one =
      alloc_pages_first i 0 (omega arith) (omega arith)
        (is_free-init b base size 0 0 (omega arith)) in
    let after = mark_allocated i 0 0 in
    let frame = set_bit-frame i 0 0 in
    let still : is_free after 1 0 ≡ true =
      is_free-mark_allocated i 0 0 1 0 (omega arith) ∙ is_free-init b base size 1 0 (omega arith) in
    let two = alloc_pages_first after 1 (omega arith) (omega arith) still in
    (
      ap (λ (x : BuddyAllocator × Option ℕ). x.1) one ∙ ap some (block_addr-zero i 0),
      ap (λ (x : BuddyAllocator × Option ℕ). (alloc_pages x.0 1).1) one
          ∙ ap (λ (x : BuddyAllocator × Option ℕ). x.1) two
          ∙ ap some (block_addr-zero after 1 ∙ ap (λ n. n % 2 ^ 64) frame.0),
    )

-- For orders `k` from 1 to 18, taking block `2 ^ k` of order `k` also takes the first block of order
-- `k + 1`, although the pages of the one, which are counted from 0, start after those of the other: both
-- use one bit.
pub mark_allocated_alias :
    (b : BuddyAllocator) (k : ℕ)
    → 0 < k
    → k < 19
    → (0 * 2 ^ (k + 1) + 2 ^ (k + 1) ≤ 2 ^ k * 2 ^ k)
      × (is_free (mark_allocated b k (2 ^ k)) (k + 1) 0 ≡ false)
mark_allocated_alias b k pos h =
    let double : 2 ^ (k + 1) ≡ 2 ^ k + 2 ^ k = omega (arith, two_pow-add k 1) in
    let square : 2 ^ (k + k) ≡ 2 ^ k * 2 ^ k = two_pow-add k k in
    let same : bit_index k (2 ^ k) ≡ bit_index (k + 1) 0 = omega (arith, two_pow_pos k) in
    let small : InBitmap (bit_index k (2 ^ k)) =
      omega (arith, two_pow_mono (k + 1) 19 (omega arith), two_pow_pos k) in
    (
      omega (arith, square, two_pow_mono (k + 1) (k + k) (omega arith)),
      is_free-mark_allocated b k (2 ^ k) (k + 1) 0 small ∙ rw (≡→== _ _ same) refl,
    )

-- ===== src/Mm/Buddy/Free.antt =====
-- `free_pages` of `src/kern/mm/buddy.rs`: the block, merged with its buddies, is free again.
use native.Mathlib.Nat.{div-div-eq-div-mul, div-lt_iff_lt-mul}
use avaria.Prelude.{ℕ, zero, suc, ◌+◌, ◌-◌, ◌*◌, ◌/◌, ◌^◌, ◌<◌, ◌≤◌, ◌≡◌, refl, ap, ◌∙◌, arith}
use avaria.Prelude.{true, false, Bool-cases, inl, inr, le→ltb, ==_self, bit_xor}
use avaria.Prelude.{two_pow-add, two_pow_pos}
use avaria.Mm.Buddy.{
  BuddyAllocator, page_size, bit_index, is_free, mark_allocated, mark_free, merge_up,
}
use avaria.Mm.Buddy.{free_pages}
use mathlib.Core.Path.{subst}
use avaria.Mm.Buddy.Marks.{InBitmap, is_free-mark_free}

sum_lt : (d p q : ℕ) → 0 < d → q < p → d - 1 + q < p * d
sum_lt d p q hd hq = grind arith

-- The blocks that hold a page below 2 ^ 20 have their bits inside the bitmap.
bit_index-InBitmap : (o page : ℕ) → o ≤ 20 → page < 2 ^ 20 → InBitmap (bit_index o (page / 2 ^ o))
bit_index-InBitmap o page ho hp =
    let p = 2 ^ (20 - o) in
    let whole : 2 ^ 20 ≡ p * 2 ^ o =
      ap (λ n. 2 ^ n) (let e : 20 ≡ 20 - o + o = omega arith in e) ∙ two_pow-add (20 - o) o in
    let below : page / 2 ^ o < p = (div-lt_iff_lt-mul (two_pow_pos o)).1 (omega (arith, whole)) in
    omega (arith, whole, sum_lt (2 ^ o) p (page / 2 ^ o) (two_pow_pos o) below)

-- The block of `page` at `order`, or one of the wider ones around it up to `limit`, is free.
pub record Freed (b : BuddyAllocator) (order page limit : ℕ) : Type 0 where
  pub level : ℕ
  pub at_least : order ≤ level
  pub at_most : level ≤ limit
  pub free : is_free b level (page / 2 ^ level) ≡ true

-- The other half of the block of the next order that holds `page`.
abbrev pub buddy : ℕ → ℕ → ℕ
buddy order page = bit_xor (page / 2 ^ order) 1

-- From a state in which the block of `page` at an order is free, blocks are joined as far as they can be:
-- up to the limit, or up to an order at which the buddy is not free. When the buddy is free, both halves
-- are taken and the block around them is free in their place.
pub data Merged (page limit : ℕ) : BuddyAllocator → ℕ → BuddyAllocator → Type 0 where
  widest : {b : BuddyAllocator} → Merged page limit b limit b
  stops :
      {b : BuddyAllocator} {order : ℕ}
      → order < limit
      → is_free b order (buddy order page) ≡ false
      → Merged page limit b order b
  joins :
      {b b' : BuddyAllocator} {order : ℕ}
      → order < limit
      → is_free b order (buddy order page) ≡ true
      → Merged page limit
          (mark_free
            (mark_allocated (mark_allocated b order (page / 2 ^ order)) order (buddy order page))
            (order + 1)
            (page / 2 ^ (order + 1)))
          (order + 1)
          b'
      → Merged page limit b order b'

half_block : (page o : ℕ) → page / 2 ^ o / 2 ≡ page / 2 ^ (o + 1)
half_block page o =
    div-div-eq-div-mul page (2 ^ o) 2
    ∙ ap (λ n. page / n) (let e : 2 ^ o * 2 ≡ 2 ^ (o + 1) = omega (arith, two_pow-add o 1) in e)

merge_up-Freed :
    (page left order : ℕ) (b : BuddyAllocator)
    → page < 2 ^ 20
    → order + left ≤ 20
    → is_free b order (page / 2 ^ order) ≡ true
    → Freed (merge_up b left order (page / 2 ^ order)) order page (order + left)
unfolding merge_up
merge_up-Freed page zero order b hp ho free = record {
  level = order;
  at_least = omega arith;
  at_most = omega arith;
  free = free;
}
merge_up-Freed page (suc left) order b hp ho free =
    let idx = page / 2 ^ order in
    elim (Bool-cases (is_free b order (bit_xor idx 1))) [
      | inr e ↦ record {
        level = order;
        at_least = omega arith;
        at_most = omega arith;
        free = rw e free;
      }
      | inl e ↦
          let taken = mark_allocated (mark_allocated b order idx) order (bit_xor idx 1) in
          let up = page / 2 ^ (order + 1) in
          let now : is_free (mark_free taken (order + 1) up) (order + 1) up ≡ true =
            is_free-mark_free taken (order + 1) up (order + 1) up
              (bit_index-InBitmap (order + 1) page (omega arith) hp)
            ∙ rw (==_self (bit_index (order + 1) up)) refl in
          let rest =
            merge_up-Freed page left (order + 1) (mark_free taken (order + 1) up) hp (omega arith)
              now in
          record {
            level = rest.level;
            at_least = omega (arith, rest.at_least);
            at_most = omega (arith, rest.at_most);
            free = rw (e, half_block page order) rest.free;
          }
    ]

merge_up-Merged :
    (page left order : ℕ) (b : BuddyAllocator)
    → Merged page (order + left) b order (merge_up b left order (page / 2 ^ order))
unfolding merge_up
merge_up-Merged page zero order b = rw (let e : order + 0 ≡ order = omega arith in e) widest
merge_up-Merged page (suc left) order b = elim (Bool-cases (is_free b order (buddy order page))) [
  | inr e ↦ rw e (stops (omega arith) e)
  | inl e ↦
      let next =
        mark_free
          (mark_allocated (mark_allocated b order (page / 2 ^ order)) order (buddy order page))
          (order + 1) (page / 2 ^ (order + 1)) in
      let total : order + suc left ≡ order + 1 + left = omega arith in
      rw (e, half_block page order, total)
        (joins (omega arith) e (merge_up-Merged page left (order + 1) next))
]

-- After `free_pages` of a block whose first page is one of at most 2 ^ 20 managed pages, the block
-- or one of the wider blocks around it, up to the largest order, is free; and the block is joined with its
-- buddy, and so on with the block around them, exactly as long as the buddy is free and the order is
-- below the largest.
pub free_pages-Freed :
    (b : BuddyAllocator) (addr order : ℕ)
    → b.base ≤ addr
    → (addr - b.base) / page_size < 2 ^ 20
    → order ≤ b.max_order
    → b.max_order ≤ 20
    → Freed (free_pages b addr order) order ((addr - b.base) / page_size) b.max_order
      × Merged
          ((addr - b.base) / page_size)
          b.max_order
          (mark_free b order ((addr - b.base) / page_size / 2 ^ order))
          order
          (free_pages b addr order)
unfolding free_pages
free_pages-Freed b addr order ge hp ho hm =
    let page = (addr - b.base) / page_size in
    let idx = page / 2 ^ order in
    let now : is_free (mark_free b order idx) order idx ≡ true =
      is_free-mark_free b order idx order idx (bit_index-InBitmap order page (omega arith) hp)
      ∙ rw (==_self (bit_index order idx)) refl in
    let rest =
      merge_up-Freed page (b.max_order - order) order (mark_free b order idx) hp (omega arith)
        now in
    let whole : order + (b.max_order - order) ≡ b.max_order = omega arith in
    let joined = merge_up-Merged page (b.max_order - order) order (mark_free b order idx) in
    (
      record {
        level = rest.level;
        at_least = rest.at_least;
        at_most = omega (arith, rest.at_most);
        free = rw (le→ltb addr b.base ge) rest.free;
      },
      rw (le→ltb addr b.base ge) (
          subst
            (λ n.
              Merged page n (mark_free b order idx) order
                (merge_up (mark_free b order idx) (b.max_order - order) order idx))
            whole joined),
    )

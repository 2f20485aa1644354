-- ===== src/Mm/Buddy.antt =====
-- `src/kern/mm/buddy.rs`: the page allocator. The bitmap is a function of the byte's index; every
-- access of the source is guarded by the array's length, and so it is here.
pub mod Marks
pub mod Search
pub mod Alloc
pub mod Free
pub mod Overlap
use package.avaria.Prelude.{
  ℕ, zero, suc, ◌+◌, ◌-◌, ◌*◌, ◌/◌, ◌%◌, ◌^◌, Bool, true, false, not, ◌==◌, ltb,
}
use package.avaria.Prelude.{
  leb, if◌then◌else◌, Option, none, some, test_bit, with_bit, and_not, bit_xor,
}
use package.avaria.Prelude.{update, add_w}

abbrev pub page_size : ℕ
page_size = 4096

abbrev pub max_order_limit : ℕ
max_order_limit = 20

-- `bitmap.len()`, in bytes.
abbrev pub bitmap_bytes : ℕ
bitmap_bytes = 2 ^ 20 / 8

pub record BuddyAllocator : Type 0 where
  pub base : ℕ
  pub total_pages : ℕ
  pub bitmap : ℕ → ℕ
  pub max_order : ℕ

abbrev pub new : BuddyAllocator
new = record { base = 0; total_pages = 0; bitmap = λ _. 0; max_order = 0 }

-- The loop of `init`, with the rounds left up to `MAX_ORDER`.
pub grow_order : ℕ → ℕ → ℕ → ℕ
grow_order zero order pages = order
grow_order (suc left) order pages =
    let more = grow_order left (order + 1) pages in if ltb (2 ^ order) pages then more else order

unfoldable pub init : BuddyAllocator → ℕ → ℕ → BuddyAllocator
unfolding grow_order
init b base size = record {
  base = base;
  total_pages = size / page_size;
  bitmap = λ _. 0;
  max_order = grow_order max_order_limit 0 (size / page_size);
}

abbrev pub bit_index : ℕ → ℕ → ℕ
bit_index order idx = 2 ^ order - 1 + idx

-- A bit past the array reads as taken.
pub get_bit : BuddyAllocator → ℕ → Bool
get_bit b i = if leb bitmap_bytes (i / 8) then true else test_bit (b.bitmap (i / 8)) (i % 8)

pub set_bit : BuddyAllocator → ℕ → BuddyAllocator
set_bit b i =
    if ltb (i / 8) bitmap_bytes
    then record b { bitmap = update b.bitmap (i / 8) (with_bit (b.bitmap (i / 8)) (i % 8)) }
    else b

pub clear_bit : BuddyAllocator → ℕ → BuddyAllocator
clear_bit b i =
    if ltb (i / 8) bitmap_bytes
    then record b { bitmap = update b.bitmap (i / 8) (and_not (b.bitmap (i / 8)) (2 ^ (i % 8))) }
    else b

pub is_free : BuddyAllocator → ℕ → ℕ → Bool
unfolding get_bit
is_free b order idx =
    if order == b.max_order
    then not (get_bit b (bit_index order idx))
    else not (get_bit b (bit_index order idx))

pub mark_allocated : BuddyAllocator → ℕ → ℕ → BuddyAllocator
unfolding set_bit
mark_allocated b order idx = set_bit b (bit_index order idx)

pub mark_free : BuddyAllocator → ℕ → ℕ → BuddyAllocator
unfolding clear_bit
mark_free b order idx = clear_bit b (bit_index order idx)

-- The loop of `find_free`, at index `idx` with `left` indices to go.
pub find_from : BuddyAllocator → ℕ → ℕ → ℕ → Option ℕ
unfolding is_free
find_from b order zero idx = none
find_from b order (suc left) idx =
    let rest = find_from b order left (idx + 1) in if is_free b order idx then some idx else rest

pub find_free : BuddyAllocator → ℕ → Option ℕ
unfolding find_from
find_free b order = find_from b order (b.total_pages / 2 ^ order) 0

-- `base + (idx << order) * PAGE_SIZE`
pub block_addr : BuddyAllocator → ℕ → ℕ → ℕ
block_addr b order idx = add_w 64 b.base (idx * 2 ^ order % 2 ^ 64 * page_size)

-- The inner loop of `alloc_pages`: `left` halvings of block `idx` of `order` to go, each of which
-- frees the right half.
pub split_down : BuddyAllocator → ℕ → ℕ → ℕ → BuddyAllocator × ℕ
unfolding mark_free
split_down b zero order idx = (b, idx)
split_down b (suc left) order idx =
    split_down (mark_free b (order - 1) (idx * 2 + 1)) left (order - 1) (idx * 2)

-- The outer loop, at `split_order` with `left` orders to go.
pub split_from : BuddyAllocator → ℕ → ℕ → ℕ → BuddyAllocator × Option ℕ
unfolding find_free mark_allocated split_down block_addr
split_from b order zero split_order = (b, none)
split_from b order (suc left) split_order = elim (find_free b split_order) [
  | some idx ↦
      let (b', i) =
        split_down (mark_allocated b split_order idx) (split_order - order) split_order idx in
      (b', some (block_addr b order i))
  | none ↦ split_from b order left (split_order + 1)
]

unfoldable pub alloc_pages : BuddyAllocator → ℕ → BuddyAllocator × Option ℕ
unfolding find_free mark_allocated split_from block_addr
alloc_pages b order =
    let wider = split_from b order (b.max_order - order) (order + 1) in
    if ltb b.max_order order then (b, none) else elim (find_free b order) [
      | some idx ↦ (mark_allocated b order idx, some (block_addr b order idx))
      | none ↦ wider
    ]

-- The loop of `free_pages`, with `left` orders up to `max_order`.
pub merge_up : BuddyAllocator → ℕ → ℕ → ℕ → BuddyAllocator
unfolding is_free mark_allocated mark_free
merge_up b zero order idx = b
merge_up b (suc left) order idx =
    let buddy = bit_xor idx 1 in
    let taken = mark_allocated (mark_allocated b order idx) order buddy in
    let merged = merge_up (mark_free taken (order + 1) (idx / 2)) left (order + 1) (idx / 2) in
    if is_free b order buddy then merged else b

unfoldable pub free_pages : BuddyAllocator → ℕ → ℕ → BuddyAllocator
unfolding mark_free merge_up
free_pages b addr order =
    let idx = (addr - b.base) / page_size / 2 ^ order in
    if ltb addr b.base then b else merge_up (mark_free b order idx) (b.max_order - order) order idx

unfoldable pub alloc_one : BuddyAllocator → BuddyAllocator × Option ℕ
unfolding alloc_pages
alloc_one b = alloc_pages b 0

unfoldable pub free_one : BuddyAllocator → ℕ → BuddyAllocator
unfolding free_pages
free_one b addr = free_pages b addr 0

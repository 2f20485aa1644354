-- ===== src/Mm/Heap/Blocks.antt =====
-- The blocks of pages that `kmalloc` and `kmalloc_aligned` of `src/kern/mem.rs` return.
use avaria.Prelude.{ℕ, ◌+◌, ◌*◌, ◌^◌, ◌<◌, ◌≤◌, ◌≡◌, refl, ap, ◌≢◌, arith}
use avaria.Prelude.{Option-cases, inl, inr, ltb, ≢→==, lt→leb, if◌then◌else◌}
use avaria.Mm.Buddy
use avaria.Mm.Buddy.{page_size, BuddyAllocator}
use avaria.Mm.Buddy.Alloc.{FitsMemory, alloc_pages_inside}
use avaria.Mm.Heap.{Heap, order_for, or_null, alloc_block, kmalloc, kmalloc_aligned}
use avaria.Mm.Heap.Orders.{order_for-least}

-- `size` bytes from `ptr` on are managed memory, and `ptr` is a whole number of pages from its start.
pub record Inside (b : BuddyAllocator) (ptr size : ℕ) : Type 0 where
  pub page : ℕ
  pub from_base : ptr ≡ b.base + page * page_size
  pub to_end : ptr + size ≤ b.base + b.total_pages * page_size

alloc_block-Inside :
    (h : Heap) (size : ℕ)
    → FitsMemory h.buddy
    → size + page_size ≤ 2 ^ 64
    → (alloc_block h size).1 ≢ 0
    → Inside h.buddy (alloc_block h size).1 size
unfolding alloc_block
alloc_block-Inside h size fits small nonnull =
    let order = order_for size in
    elim (Option-cases (Buddy.alloc_pages h.buddy order).1) [
      | inl e ↦ absurd (nonnull (ap or_null e))
      | inr (addr, e) ↦
          let (k, place, inside) = alloc_pages_inside h.buddy order fits e in
          let covers = (order_for-least size small).0 in
          rw e (record { page = k * 2 ^ order; from_base = place; to_end = omega arith })
    ]

-- When the managed pages lie inside the address space, a request for more than 2048 bytes that does
-- not wrap when it is rounded up, and that succeeds, gets that many bytes of managed memory, a whole
-- number of pages from its start.
pub kmalloc-Inside :
    (h : Heap) (size : ℕ)
    → FitsMemory h.buddy
    → 2048 < size
    → size + page_size ≤ 2 ^ 64
    → (kmalloc h size).1 ≢ 0
    → Inside h.buddy (kmalloc h size).1 size
kmalloc-Inside h size fits large small nonnull =
    let direct : kmalloc h size ≡ alloc_block h size =
      unfold kmalloc in rw (≢→== size 0 (omega arith), lt→leb size 2048 large) refl in
    rw direct (alloc_block-Inside h size fits small (rw direct at nonnull))

-- When the managed pages lie inside the address space, a request to `kmalloc_aligned` for a positive
-- size that succeeds gets that many bytes of managed memory, a whole number of pages from its start,
-- as long as neither the size nor the alignment wraps when it is rounded up.
pub kmalloc_aligned-Inside :
    (h : Heap) (size align : ℕ)
    → FitsMemory h.buddy
    → 0 < size
    → size + page_size ≤ 2 ^ 64
    → align + page_size ≤ 2 ^ 64
    → (kmalloc_aligned h size align).1 ≢ 0
    → Inside h.buddy (kmalloc_aligned h size align).1 size
kmalloc_aligned-Inside h size align fits pos small asmall nonnull =
    let want = if ltb size align then align else size in
    let direct : kmalloc_aligned h size align ≡ alloc_block h want =
      unfold kmalloc_aligned in rw (≢→== size 0 (omega arith)) refl in
    let bound : (want + page_size ≤ 2 ^ 64) × (size ≤ want) = ground arith in
    let i = alloc_block-Inside h want fits bound.0 (rw direct at nonnull) in
    rw direct (record { page = i.page; from_base = i.from_base; to_end = omega (arith, i.to_end) })

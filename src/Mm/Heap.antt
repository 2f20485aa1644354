-- ===== src/Mm/Heap.antt =====
-- `src/kern/mem.rs`: which region the kernel manages, `kmalloc` and `kfree` over the two
-- allocators, and the direct map. A null pointer is 0.
pub mod Orders
pub mod Blocks
use package.avaria.Prelude.{
  ℕ, zero, suc, ◌+◌, ◌-◌, ◌*◌, ◌/◌, ◌%◌, ◌^◌, Bool, true, false, ◌==◌, ltb, leb,
}
use package.avaria.Prelude.{
  ◌&&◌, ◌||◌, if◌then◌else◌, Option, none, some, List, [], ◌∷◌, add_w, sub_w,
}
use package.avaria.Mm.Buddy
use package.avaria.Mm.Buddy.{BuddyAllocator, page_size}
use package.avaria.Mm.Cache.{SlabAllocator, new_allocator, slab_alloc, slab_free}

-- `BUDDY`, `SLAB` and `HHDM`.
pub record Heap : Type 0 where
  pub buddy : BuddyAllocator
  pub slab : SlabAllocator
  pub hhdm : ℕ

abbrev pub new_heap : Heap
new_heap = record { buddy = Buddy.new; slab = new_allocator; hhdm = 0 }

-- An entry of the boot loader's memory map; `usable` stands for its type being `USABLE`.
pub record Entry : Type 0 where
  pub usable : Bool
  pub base : ℕ
  pub size : ℕ

-- The loop of `init`: the first largest usable region, as base and size.
pub best_region : List Entry → ℕ × ℕ → ℕ × ℕ
best_region [] best = best
best_region (e ∷ es) (base, size) =
    best_region es (if e.usable && ltb size e.size then (e.base, e.size) else (base, size))

pub mem_init : Heap → ℕ → List Entry → Heap
unfolding best_region Buddy.init
mem_init h hhdm_offset entries =
    let (best_base, best_size) = best_region entries (0, 0) in
    if best_size == 0 then record h { hhdm = hhdm_offset } else record h {
      hhdm = hhdm_offset;
      buddy = Buddy.init h.buddy (add_w 64 hhdm_offset best_base) best_size;
    }

-- `(size + PAGE_SIZE - 1) / PAGE_SIZE`
abbrev pub pages_for : ℕ → ℕ
pages_for size = sub_w 64 (add_w 64 size page_size) 1 / page_size

-- `while (1 << order) < pages { order += 1; }`; 64 rounds suffice for any number of pages.
pub order_from : ℕ → ℕ → ℕ → ℕ
order_from zero order pages = order
order_from (suc fuel) order pages =
    let more = order_from fuel (order + 1) pages in if ltb (2 ^ order) pages then more else order

unfoldable pub order_for : ℕ → ℕ
unfolding order_from
order_for size = order_from 64 0 (pages_for size)

abbrev pub or_null : Option ℕ → ℕ
or_null none = 0
or_null (some addr) = addr

pub alloc_block : Heap → ℕ → Heap × ℕ
unfolding order_for Buddy.alloc_pages
alloc_block h size =
    let (buddy', addr) = Buddy.alloc_pages h.buddy (order_for size) in
    (record h { buddy = buddy' }, or_null addr)

pub free_block : Heap → ℕ → ℕ → Heap
unfolding order_for Buddy.free_pages
free_block h ptr size = record h { buddy = Buddy.free_pages h.buddy ptr (order_for size) }

-- A pointer from the slabs, or a block of pages.
pub kmalloc_after_slab : ℕ → Heap × Option ℕ → Heap × ℕ
unfolding alloc_block
kmalloc_after_slab size (h, some ptr) = (h, ptr)
kmalloc_after_slab size (h, none) = alloc_block h size

unfoldable pub kmalloc : Heap → ℕ → Heap × ℕ
unfolding kmalloc_after_slab slab_alloc
kmalloc h size =
    let (slab', buddy', small) = slab_alloc h.slab size h.buddy in
    if size == 0
    then (h, 0)
    else if leb size 2048
    then kmalloc_after_slab size (record h { slab = slab'; buddy = buddy' }, small)
    else alloc_block h size

unfoldable pub kfree : Heap → ℕ → ℕ → Heap
unfolding free_block slab_free
kfree h ptr size =
    let (slab', buddy', done) = slab_free h.slab ptr h.buddy in
    let h' = record h { slab = slab'; buddy = buddy' } in
    if ptr == 0 || size == 0
    then h
    else if leb size 2048
    then (if done then h' else free_block h' ptr size)
    else free_block h ptr size

unfoldable pub kmalloc_aligned : Heap → ℕ → ℕ → Heap × ℕ
unfolding alloc_block
kmalloc_aligned h size align =
    if size == 0 then (h, 0) else alloc_block h (if ltb size align then align else size)

unfoldable pub alloc_pages : Heap → ℕ → Heap × Option ℕ
unfolding Buddy.alloc_pages
alloc_pages h order =
    let (buddy', addr) = Buddy.alloc_pages h.buddy order in (record h { buddy = buddy' }, addr)

unfoldable pub free_pages : Heap → ℕ → ℕ → Heap
unfolding Buddy.free_pages
free_pages h addr order = record h { buddy = Buddy.free_pages h.buddy addr order }

pub total_pages : Heap → ℕ
total_pages h = h.buddy.total_pages

unfoldable pub virt_to_phys : Heap → ℕ → ℕ
virt_to_phys h vaddr = sub_w 64 vaddr h.hhdm

pub phys_to_virt : Heap → ℕ → ℕ
phys_to_virt h phys = add_w 64 h.hhdm phys

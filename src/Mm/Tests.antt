-- ===== src/Mm/Tests.antt =====
-- Runs of the allocators of `src/kern/mm` and `src/kern/mem.rs`, and their theorems on them.
use avaria.Prelude.{
  ℕ, zero, suc, ◌+◌, ◌*◌, ◌/◌, ◌^◌, ◌<◌, ◌≤◌, ◌≡◌, refl, ◌↔◌, ◌⊎◌, arith, true, false, none, some,
}
use avaria.Prelude.{[], ◌∷◌, get_or}
use avaria.Mm.Buddy.{
  mark_free, BuddyAllocator, page_size, init, alloc_pages, alloc_one, free_pages, is_free,
  mark_allocated,
}
use avaria.Mm.Buddy.Alloc.{FitsMemory, alloc_pages_inside, alloc_pages_fails}
use avaria.Mm.Buddy.Free.{Freed, Merged, free_pages-Freed}
use avaria.Mm.Buddy.Overlap.{alloc_twice_same, mark_allocated_alias}
use avaria.Mm.Slab.{SlabPage, page_alloc, page_free}
use avaria.Mm.Slab.Page.{IsValid, in_use, Takes, SlotSet, page_alloc-Takes, page_free-SlotSet}
use avaria.Mm.Heap.{Heap, new_heap, kmalloc, kmalloc_aligned}
use avaria.Mm.Heap.Blocks.{Inside, kmalloc-Inside}

-- Four pages from 0x10000 on, none of them taken.
abbrev four_pages : BuddyAllocator
four_pages = record { base = 0x10000; total_pages = 4; bitmap = λ _. 0; max_order = 2 }

four_pages-FitsMemory : FitsMemory four_pages
four_pages-FitsMemory = omega arith

first_block : (alloc_pages four_pages 1).1 ≡ some 0x10000
unfolding alloc_pages
first_block = refl

alloc_pages_inside_example :
    (k : ℕ) × (0x10000 ≡ 0x10000 + k * 2 ^ 1 * page_size) × ((k + 1) * 2 ^ 1 ≤ 4)
alloc_pages_inside_example = alloc_pages_inside four_pages 1 four_pages-FitsMemory first_block

alloc_pages_fails_example :
    (((alloc_pages four_pages 2).1 ≡ none)
      ↔ ((o i : ℕ) → 2 ≤ o → o ≤ 2 → i < 4 / 2 ^ o → is_free four_pages o i ≡ false))
    × ((alloc_pages four_pages 2).1 ≡ none → (alloc_pages four_pages 2).0 ≡ four_pages)
alloc_pages_fails_example = alloc_pages_fails four_pages 2

free_pages-Freed_example :
    Freed (free_pages four_pages 0x12000 1) 1 2 2
    × Merged 2 2 (mark_free four_pages 1 1) 1 (free_pages four_pages 0x12000 1)
free_pages-Freed_example =
    free_pages-Freed four_pages 0x12000 1 (omega arith) (omega arith) (omega arith) (omega arith)

alloc_twice_same_example :
    ((alloc_one (init four_pages 0x10000 0x4000)).1 ≡ some 0x10000)
    × ((alloc_pages (alloc_one (init four_pages 0x10000 0x4000)).0 1).1 ≡ some 0x10000)
alloc_twice_same_example = alloc_twice_same four_pages 0x10000 0x4000 (omega arith)

mark_allocated_alias_example :
    (0 * 2 ^ 2 + 2 ^ 2 ≤ 2 ^ 1 * 2 ^ 1) × (is_free (mark_allocated four_pages 1 2) 2 0 ≡ false)
mark_allocated_alias_example = mark_allocated_alias four_pages 1 (omega arith) (omega arith)

-- A page of four objects of 1024 bytes, the first of them in use.
abbrev one_used : SlabPage
one_used = record { base = 0x10000; obj_size = 1024; capacity = 4; bitmap = 1 ∷ 0 ∷ 0 ∷ 0 ∷ [] }

narrow_words : (k : ℕ) → get_or one_used.bitmap k 0 < 2 ^ 64
narrow_words zero = omega arith
narrow_words (suc zero) = omega arith
narrow_words (suc (suc zero)) = omega arith
narrow_words (suc (suc (suc zero))) = omega arith
narrow_words (suc (suc (suc (suc k)))) = omega arith

one_used-IsValid : IsValid one_used
one_used-IsValid = record {
  words = refl;
  slots = omega arith;
  sized = omega arith;
  fits = omega arith;
  narrow = narrow_words;
}

page_alloc-Takes_example :
    ((addr : ℕ) → (page_alloc one_used).1 ≡ some addr → Takes one_used (page_alloc one_used).0 addr)
    × (((page_alloc one_used).1 ≡ none) ↔ ((i : ℕ) → i < 4 → in_use one_used i ≡ true))
    × ((page_alloc one_used).1 ≡ none → (page_alloc one_used).0 ≡ one_used)
page_alloc-Takes_example = page_alloc-Takes one_used one_used-IsValid

page_free-SlotSet_example :
    ((i off : ℕ)
      → i < 4
      → off < 1024
      → ((page_free one_used (0x10000 + i * 1024 + off)).1 ≡ true)
        × SlotSet one_used i false (page_free one_used (0x10000 + i * 1024 + off)).0)
    × ((addr : ℕ)
        → (addr < 0x10000) ⊎ (0x10000 + 4 * 1024 ≤ addr)
        → page_free one_used addr ≡ (one_used, false))
page_free-SlotSet_example = page_free-SlotSet one_used one_used-IsValid (omega arith)

abbrev small_heap : Heap
small_heap = record new_heap { buddy = four_pages }

large_block : (kmalloc small_heap 0x1800).1 ≡ 0x10000
unfolding kmalloc
large_block = refl

kmalloc-Inside_example : Inside four_pages (kmalloc small_heap 0x1800).1 0x1800
kmalloc-Inside_example =
    kmalloc-Inside small_heap 0x1800 four_pages-FitsMemory (omega arith) (omega arith)
      (λ e. omega (arith, large_block, e))

aligned_block : (kmalloc_aligned small_heap 100 4096).1 ≡ 0x10000
unfolding kmalloc_aligned
aligned_block = refl

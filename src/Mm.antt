-- ===== src/Mm.antt =====
-- `src/kern/mm` and `src/kern/mem.rs`: the page allocator, the object allocator on top of it, and
-- the kernel's `kmalloc`.
pub mod Buddy
pub mod Slab
pub mod Cache
pub mod Heap
pub mod Paging
pub mod Mmio
mod Tests

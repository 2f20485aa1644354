-- ===== src/Mm/Mmio.antt =====
-- `map_mmio` of `src/kern/mem.rs`: device memory in the direct map. The processor's cache of
-- translations is left out.
pub mod Kept
pub mod Tables
use package.avaria.Prelude.{ℕ, zero, suc, ◌+◌, ◌*◌, ◌^◌, bit_or, Bool, true, false, ◌&&◌, ltb, leb}
use package.avaria.Prelude.{if◌then◌else◌, Option, none, some, add_w, update}
use package.avaria.Mm.Heap
use package.avaria.Mm.Heap.{Heap, virt_to_phys}
use package.avaria.Mm.Paging.{
  Memory, is_present, is_huge, table_of, table_index, entry_address, page_floor,
}

-- `ptr::write_bytes(page, 0, 4096)`
abbrev pub zeroed : Memory → ℕ → Memory
zeroed m page a = if leb page a && ltb a (page + 0x1000) then 0 else m a

-- `page_phys | PTE_PRESENT | PTE_WRITABLE`, and the entry of a page of device memory.
abbrev pub table_entry : ℕ → ℕ
table_entry page_phys = bit_or (bit_or page_phys 1) (2 ^ 1)

abbrev pub device_entry : ℕ → ℕ
device_entry phys = bit_or (bit_or (bit_or (table_entry phys) (2 ^ 3)) (2 ^ 4)) (2 ^ 63)

-- The new table, when the page allocator gives one; the last component is whether it did.
unfoldable pub add_table : Heap → Memory → ℕ → Heap × Option ℕ → Heap × Memory × Bool
unfolding virt_to_phys
add_table h m at (h', none) = (h', m, false)
add_table h m at (h', some page) =
    (h', update (zeroed m page) at (table_entry (virt_to_phys h page)), true)

-- An entry that is not present gets a new table.
unfoldable pub ensure_table : Heap → Memory → ℕ → Heap × Memory × Bool
unfolding add_table Heap.alloc_pages
ensure_table h m at =
    if is_present (m at) then (h, m, true) else add_table h m at (Heap.alloc_pages h 0)

module _ (hhdm vaddr phys : ℕ) where
  -- In the page table.
  unfoldable pub map_entry : Memory → ℕ → Memory
  map_entry m t =
      let at = entry_address hhdm t (table_index 12 vaddr) in
      if is_present (m at) then m else update m at (device_entry phys)

  -- Below an entry at `at` of the directory that leads to a table, if there is one.
  unfoldable pub map_in_table : ℕ → Heap × Memory × Bool → Heap × Memory × Bool
  unfolding map_entry
  map_in_table at (h, m, false) = (h, m, false)
  map_in_table at (h, m, true) = (h, map_entry m (table_of (m at)), true)

  unfoldable pub map_in_directory : ℕ → Heap × Memory × Bool → Heap × Memory × Bool
  unfolding ensure_table map_in_table
  map_in_directory at3 (h, m, false) = (h, m, false)
  map_in_directory at3 (h, m, true) =
      let at = entry_address hhdm (table_of (m at3)) (table_index 21 vaddr) in
      if is_present (m at) && is_huge (m at)
      then (h, m, true)
      else map_in_table at (ensure_table h m at)

  unfoldable pub map_in_pointers : ℕ → Heap × Memory × Bool → Heap × Memory × Bool
  unfolding ensure_table map_in_directory
  map_in_pointers at4 (h, m, false) = (h, m, false)
  map_in_pointers at4 (h, m, true) =
      let at = entry_address hhdm (table_of (m at4)) (table_index 30 vaddr) in
      if is_present (m at) && is_huge (m at)
      then (h, m, true)
      else map_in_directory at (ensure_table h m at)

  -- The body of the loop, for one page.
  unfoldable pub map_page : ℕ → Heap → Memory → Heap × Memory × Bool
  unfolding ensure_table map_in_pointers
  map_page top h m =
      let at = entry_address hhdm top (table_index 39 vaddr) in
      map_in_pointers at (ensure_table h m at)

-- The loop, from page `page_i` on with `left` pages to go; it ends when a table cannot be had.
unfoldable pub map_pages : ℕ → ℕ → ℕ → ℕ → ℕ → Heap × Memory × Bool → Heap × Memory × Bool
unfolding map_page
map_pages hhdm top phys_base page_i zero r = r
map_pages hhdm top phys_base page_i (suc left) (h, m, false) = (h, m, false)
map_pages hhdm top phys_base page_i (suc left) (h, m, true) =
    let phys = add_w 64 phys_base (page_i * 0x1000) in
    map_pages hhdm top phys_base (page_i + 1) left (map_page hhdm (add_w 64 hhdm phys) phys top h m)

-- The address of the mapping, or 0.
unfoldable pub map_mmio : ℕ → Heap → Memory → ℕ → ℕ → ℕ × Heap × Memory
unfolding map_pages
map_mmio cr3 h m phys_base num_pages =
    let (h', m', done) = map_pages h.hhdm (page_floor cr3) phys_base 0 num_pages (h, m, true) in
    (if done then add_w 64 h.hhdm phys_base else 0, h', m')

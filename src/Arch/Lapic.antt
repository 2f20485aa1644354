-- ===== src/Arch/Lapic.antt =====
-- `src/kern/arch/x86_64/lapic.rs`: the registers of the local interrupt controller, mapped into the
-- direct map of memory and set up. What is printed is left out.
pub mod Mapped
mod Tests
use package.avaria.Prelude.{
  ℕ, ◌+◌, ◌*◌, ◌^◌, ◌==◌, bit_or, Bool, not, ◌&&◌, if◌then◌else◌, Option, none, some,
}
use package.avaria.Prelude.{add_w, update}
use package.avaria.Mm.Heap
use package.avaria.Mm.Heap.{Heap, virt_to_phys}
use package.avaria.Mm.Paging.{
  Memory, is_present, is_huge, table_of, table_index, entry_address, page_floor,
}
use package.avaria.Mm.Mmio.{zeroed, table_entry}

abbrev pub lapic_phys : ℕ
lapic_phys = 0xFEE00000

-- The entry of the page: present, writable, written through and not cached.
abbrev pub lapic_entry : ℕ
lapic_entry = bit_or (bit_or (bit_or (bit_or lapic_phys 1) 2) 8) 0x10

-- In a page table that the directory has.
unfoldable pub map_in_old : Memory → ℕ → Memory
map_in_old m pt_at = if is_present (m pt_at) then m else update m pt_at lapic_entry

-- In a new page table, if a page for it can be had; the entry of the directory is at `pd_at`.
unfoldable pub map_in_new : ℕ → ℕ → ℕ → Heap → Memory → Heap × Option ℕ → ℕ × Heap × Memory
unfolding virt_to_phys
map_in_new hhdm vaddr pd_at h m (h', none) = (0, h', m)
map_in_new hhdm vaddr pd_at h m (h', some page) =
    let phys = virt_to_phys h page in
    (
      vaddr,
      h',
      update (update (zeroed m page) pd_at (table_entry phys))
          (entry_address hhdm phys (table_index 12 vaddr)) lapic_entry,
    )

-- The address of the page, or 0, with the heap and the memory.
unfoldable pub map_lapic_page : ℕ → ℕ → Heap → Memory → ℕ × Heap × Memory
unfolding map_in_old map_in_new Heap.alloc_pages
map_lapic_page hhdm cr3 h m =
    let vaddr = add_w 64 hhdm lapic_phys in
    let pml4e = m (entry_address hhdm (page_floor cr3) (table_index 39 vaddr)) in
    let pdpte = m (entry_address hhdm (table_of pml4e) (table_index 30 vaddr)) in
    let pd_at = entry_address hhdm (table_of pdpte) (table_index 21 vaddr) in
    let pde = m pd_at in
    if not (is_present pml4e)
    then (0, h, m)
    else if is_present pdpte && is_huge pdpte
    then (vaddr, h, m)
    else if not (is_present pdpte)
    then (0, h, m)
    else if is_present pde && is_huge pde
    then (vaddr, h, m)
    else if not (is_present pde)
    then map_in_new hhdm vaddr pd_at h m (Heap.alloc_pages h 0)
    else (vaddr, h, map_in_old m (entry_address hhdm (table_of pde) (table_index 12 vaddr)))

abbrev pub svr : ℕ
svr = 0xF0

abbrev pub lint0 : ℕ
lint0 = 0x350

abbrev pub lint1 : ℕ
lint1 = 0x360

-- `LAPIC_VIRT`, and the controller: its registers by their addresses.
pub record Lapic : Type 0 where
  pub lapic_virt : ℕ
  pub regs : ℕ → ℕ

pub read_reg : Lapic → ℕ → ℕ
read_reg l off = l.regs (add_w 64 l.lapic_virt off)

pub write_reg : Lapic → ℕ → ℕ → Lapic
write_reg l off val = record l { regs = update l.regs (add_w 64 l.lapic_virt off) val }

-- The writes of `init` to the registers.
pub set_up : Lapic → Lapic
unfolding read_reg write_reg
set_up l =
    let l1 = write_reg l svr (bit_or (bit_or (read_reg l svr) (2 ^ 8)) 0xFF) in
    write_reg (write_reg l1 lint0 (7 * 2 ^ 8)) lint1 (4 * 2 ^ 8)

unfoldable pub init : ℕ → ℕ → Heap → Memory → Lapic → Lapic × Heap × Memory
unfolding map_lapic_page set_up
init hhdm cr3 h m l =
    let (vaddr, h', m') = map_lapic_page hhdm cr3 h m in
    if vaddr == 0 then (l, h', m') else (set_up (record l { lapic_virt = vaddr }), h', m')

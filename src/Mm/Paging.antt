-- ===== src/Mm/Paging.antt =====
-- Page tables: the walks of `src/kern/mem.rs` (`make_executable`) and of
-- `src/kern/drv/ring3/mod.rs` (`make_user_accessible`). Physical memory is seen through the direct
-- map, as a function from the address of an 8-byte word to its value.
pub mod Access
pub mod Walk
pub mod Range
pub mod Rights
pub mod Levels
pub mod User
mod Tests
use package.avaria.Prelude.{ℕ, zero, suc, ◌+◌, ◌*◌, ◌/◌, ◌%◌, ◌^◌, bit_and, bit_or, Bool, not, ltb}
use package.avaria.Prelude.{if◌then◌else◌, add_w, test_bit, and_not, update}

abbrev pub Memory : Type 0
Memory = ℕ → ℕ

-- `PTE_PRESENT`, bit 0 of an entry; bit 7, an entry that maps memory itself; the table below.
abbrev pub is_present : ℕ → Bool
is_present entry = test_bit entry 0

abbrev pub is_huge : ℕ → Bool
is_huge entry = test_bit entry 7

abbrev pub table_of : ℕ → ℕ
table_of entry = bit_and entry 0xFFFFFFFFFF000

-- `& !0xFFF`
abbrev pub page_floor : ℕ → ℕ
page_floor addr = and_not addr 0xFFF

-- `(addr >> shift) & 0x1FF`
abbrev pub table_index : ℕ → ℕ → ℕ
table_index shift addr = bit_and (addr / 2 ^ shift) 0x1FF

-- `phys_to_virt(hhdm_offset, phys).add(idx)`
abbrev pub entry_address : ℕ → ℕ → ℕ → ℕ
entry_address hhdm phys idx = add_w 64 (add_w 64 hhdm phys) (8 * idx)

-- The loop over the pages from `addr` to `end`; its body leaves by `continue`.
pub each_page : (Memory → ℕ → Memory) → ℕ → ℕ → ℕ → Memory → Memory
each_page body zero addr end m = m
each_page body (suc fuel) addr end m =
    let rest = each_page body fuel (addr + 0x1000) end (body m addr) in
    if ltb addr end then rest else m

-- `(vaddr + size + 0xFFF) & !0xFFF`
abbrev pub range_end : ℕ → ℕ → ℕ
range_end vaddr size = page_floor (add_w 64 (add_w 64 vaddr size) 0xFFF)

-- The pages of a range, first to last.
pub over_range : (Memory → ℕ → Memory) → ℕ → ℕ → Memory → Memory
unfolding each_page
over_range body vaddr size m =
    each_page body (size / 0x1000 + 2) (page_floor vaddr) (range_end vaddr size) m

-- `entry & !PTE_NX | PTE_WRITABLE`
abbrev pub executable : ℕ → ℕ
executable entry = bit_or (and_not entry (2 ^ 63)) (2 ^ 1)

-- `entry | PTE_USER`, and `(entry | PTE_USER | PTE_WRITABLE) & !PTE_NX`
abbrev pub with_user : ℕ → ℕ
with_user entry = bit_or entry (2 ^ 2)

abbrev pub user_page : ℕ → ℕ
user_page entry = and_not (bit_or (with_user entry) (2 ^ 1)) (2 ^ 63)

module _ (hhdm pml4_phys : ℕ) where
  pub make_page_executable : Memory → ℕ → Memory
  make_page_executable m addr =
      let pml4e = m (entry_address hhdm pml4_phys (table_index 39 addr)) in
      let pdpt_at = entry_address hhdm (table_of pml4e) (table_index 30 addr) in
      let pdpte = m pdpt_at in
      let pd_at = entry_address hhdm (table_of pdpte) (table_index 21 addr) in
      let pde = m pd_at in
      let pt_at = entry_address hhdm (table_of pde) (table_index 12 addr) in
      let pte = m pt_at in
      if not (is_present pml4e)
      then m
      else if not (is_present pdpte)
      then m
      else if is_huge pdpte
      then update m pdpt_at (executable pdpte)
      else if not (is_present pde)
      then m
      else if is_huge pde
      then update m pd_at (executable pde)
      else if is_present pte
      then update m pt_at (executable pte)
      else m

  pub make_page_user : Memory → ℕ → Memory
  make_page_user m addr =
      let pml4_at = entry_address hhdm pml4_phys (table_index 39 addr) in
      let pml4e = m pml4_at in
      let m1 = update m pml4_at (with_user pml4e) in
      let pdpt_at = entry_address hhdm (table_of pml4e) (table_index 30 addr) in
      let pdpte = m1 pdpt_at in
      let m2 = update m1 pdpt_at (with_user pdpte) in
      let pd_at = entry_address hhdm (table_of pdpte) (table_index 21 addr) in
      let pde = m2 pd_at in
      let m3 = update m2 pd_at (with_user pde) in
      let pt_at = entry_address hhdm (table_of pde) (table_index 12 addr) in
      let pte = m3 pt_at in
      if not (is_present pml4e)
      then m
      else if not (is_present pdpte)
      then m1
      else if is_huge pdpte
      then update m2 pdpt_at (user_page pdpte)
      else if not (is_present pde)
      then m2
      else if is_huge pde
      then update m3 pd_at (user_page pde)
      else if is_present pte
      then update m3 pt_at (user_page pte)
      else m3

-- `cr3` is the register that holds the address of the top table.
unfoldable pub make_executable : ℕ → ℕ → ℕ → ℕ → Memory → Memory
unfolding over_range make_page_executable
make_executable hhdm cr3 vaddr size m =
    over_range (make_page_executable hhdm (page_floor cr3)) vaddr size m

unfoldable pub make_user_accessible : ℕ → ℕ → ℕ → ℕ → Memory → Memory
unfolding over_range make_page_user
make_user_accessible hhdm cr3 vaddr size m =
    over_range (make_page_user hhdm (page_floor cr3)) vaddr size m

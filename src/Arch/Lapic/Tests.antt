-- ===== src/Arch/Lapic/Tests.antt =====
-- The registers mapped through a new page table.
use package.avaria.Prelude.{ℕ, ◌≡◌, refl, arith, sym, ◌∙◌, Option, some, update}
use mathlib.Core.Path.{subst}
use package.avaria.Mm.Heap
use package.avaria.Mm.Heap.{Heap, new_heap}
use package.avaria.Mm.Paging.{Memory, page_floor}
use package.avaria.Arch.Lapic.{map_lapic_page, init}
use package.avaria.Arch.Lapic.Mapped.{IsFresh, Outcome, map_lapic_page-Outcome}

abbrev heap : Heap
heap = record new_heap {
  buddy = record { base = 0x10000; total_pages = 4; bitmap = λ _. 0; max_order = 2 };
}

-- The first two tables; the directory at 0x3000 is empty.
abbrev tables : Memory
tables = update (update (λ a. 0) 0x1000 0x2003) 0x2018 0x3003

mapped_entry : (map_lapic_page 0 0x1000 heap tables).2 0x10000 ≡ 0xFEE0001B
unfolding map_lapic_page
mapped_entry = refl

-- The controller is switched on, and every other bit of the register stays.
set_up_svr :
    (init 0 0x1000 heap tables (record { lapic_virt = 0; regs = λ a. 0x1000 })).0.regs 0xFEE000F0
    ≡ 0x11FF
unfolding init
set_up_svr = refl

gives_first : (Heap.alloc_pages heap 0).1 ≡ some 0x10000
unfolding Heap.alloc_pages
gives_first = refl

first-IsFresh : IsFresh 0 0x1000 heap tables 0x10000
first-IsFresh = record {
  from = omega arith;
  aligned = refl;
  fits = omega arith;
  out4 = refl;
  out3 = refl;
  out2 = refl;
}

given-IsFresh :
    (page : ℕ) → (Heap.alloc_pages heap 0).1 ≡ some page → IsFresh 0 0x1000 heap tables page
given-IsFresh page e =
    let both : ◌≡◌ {A = Option ℕ} (some 0x10000) (some page) = sym gives_first ∙ e in
    let same : ◌≡◌ {A = ℕ} 0x10000 page = cc in
    subst (IsFresh 0 0x1000 heap tables) same first-IsFresh

map_lapic_page-Outcome_example :
    Outcome 0 (page_floor 0x1000) heap tables (map_lapic_page 0 0x1000 heap tables)
map_lapic_page-Outcome_example =
    map_lapic_page-Outcome 0 0x1000 heap tables refl (omega arith) given-IsFresh

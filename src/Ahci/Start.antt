-- ===== src/Ahci/Start.antt =====
-- `init` of `src/kern/drv/disk/ahci.rs`: the controller is found on the bus, its registers are mapped,
-- and its ports are brought up. The page tables stand apart from the rest of memory.
use package.avaria.Prelude.{ℕ, ◌+◌, ◌-◌, ◌/◌, ◌==◌, if◌then◌else◌, if_Has}
use package.avaria.Prelude.{Option, none, some}
use package.avaria.Mm.Heap.{kmalloc_aligned}
use package.avaria.Mm.Paging.{Memory, page_floor}
use package.avaria.Mm.Mmio.{map_mmio}
use package.avaria.Pci.{Ports, PciAddr, Pci, find_by_class, enable_bus_master, bar_mem_base}
use package.avaria.Ahci.{Controller, Ahci}
use package.avaria.Ahci.Ports.{init_ports}
use package.avaria.Ahci.Driver.{driver}
use package.avaria.Ahci.Active.{IsSetUp, init_ports-IsSetUp}

-- `((abar_phys - abar_phys_aligned) as usize + 0x1100 + 0xFFF) / 0x1000`
abbrev pub abar_pages : ℕ → ℕ
abar_pages abar_phys = (abar_phys - page_floor abar_phys + 0x1100 + 0xFFF) / 0x1000

module _ {D P : Type 0} (hba : Controller D) (io : Ports P) (cr3 : ℕ) where
  -- After the mapping, at `mapped`.
  unfoldable pub at_mapping : Ahci D → Pci P → ℕ → ℕ → Memory → Ahci D × Pci P × Memory
  unfolding init_ports
  at_mapping s pci abar_phys mapped tables = if mapped == 0 then (s, pci, tables) else (
    init_ports hba (record s { abar = mapped + (abar_phys - page_floor abar_phys) }),
    pci,
    tables,
  )

  -- Of the controller that was found on the bus, if one was.
  unfoldable pub at_controller : Ahci D → Pci P → Memory → Option PciAddr → Ahci D × Pci P × Memory
  unfolding enable_bus_master bar_mem_base map_mmio at_mapping
  at_controller s pci tables none = (s, pci, tables)
  at_controller s pci tables (some addr) =
      let (abar_phys, p) = bar_mem_base io (enable_bus_master io pci.ports addr) addr 5 in
      let pci' = record pci { ports = p } in
      let (mapped, heap', tables') =
        map_mmio cr3 s.heap tables (page_floor abar_phys) (abar_pages abar_phys) in
      if abar_phys == 0
      then (s, pci', tables)
      else at_mapping (record s { heap = heap' }) pci' abar_phys mapped tables'

  unfoldable pub init : Ahci D → Pci P → Memory → Ahci D × Pci P × Memory
  unfolding kmalloc_aligned find_by_class at_controller
  init s pci tables =
      let (heap', id_buf) = kmalloc_aligned s.heap 4096 4096 in
      let s' = record s { heap = heap' } in
      if id_buf == 0
      then (s', pci, tables)
      else at_controller (record s' { identify_buf = id_buf }) pci tables
          (find_by_class pci 0x01 0x06 0x01)

  abbrev Ready : Ahci D × Pci P × Memory → Type 0
  Ready r = IsSetUp (driver r.0)

  at_mapping-IsSetUp :
      (s : Ahci D) (pci : Pci P) (abar_phys mapped : ℕ) (tables : Memory)
      → IsSetUp (driver s)
      → Ready (at_mapping s pci abar_phys mapped tables)
  unfolding at_mapping
  at_mapping-IsSetUp s pci abar_phys mapped tables h =
      let s' = record s { abar = mapped + (abar_phys - page_floor abar_phys) } in
      if_Has Ready (mapped == 0) h (init_ports-IsSetUp hba s' h)

  at_controller-IsSetUp :
      (s : Ahci D) (pci : Pci P) (tables : Memory) (found : Option PciAddr)
      → IsSetUp (driver s)
      → Ready (at_controller s pci tables found)
  unfolding at_controller
  at_controller-IsSetUp s pci tables none h = h
  at_controller-IsSetUp s pci tables (some addr) h =
      let bar = bar_mem_base io (enable_bus_master io pci.ports addr) addr 5 in
      let done = map_mmio cr3 s.heap tables (page_floor bar.0) (abar_pages bar.0) in
      if_Has Ready (bar.0 == 0) h (
        at_mapping-IsSetUp (record s { heap = done.1 }) (record pci { ports = bar.1 }) bar.0 done.0
          done.2 h)

-- Whatever the controller and the bus answer, and whether memory and a controller can be had or not,
-- from a state in which every active port is one of the 32 and has its command list, its area for
-- received frames and its command table, `init` comes to such a state.
pub init-IsSetUp :
    {D P : Type 0} (hba : Controller D) (io : Ports P) (cr3 : ℕ) (s : Ahci D) (pci : Pci P)
    (tables : Memory)
    → IsSetUp (driver s)
    → IsSetUp (driver (init hba io cr3 s pci tables).0)
unfolding init
init-IsSetUp {D} {P} hba io cr3 s pci tables h =
    let got = kmalloc_aligned s.heap 4096 4096 in
    let s' = record s { heap = got.0; identify_buf = got.1 } in
    if_Has (λ (r : Ahci D × Pci P × Memory). IsSetUp (driver r.0)) (got.1 == 0) h
      (at_controller-IsSetUp hba io cr3 s' pci tables (find_by_class pci 1 6 1) h)

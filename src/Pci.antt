-- ===== src/Pci.antt =====
-- `src/kern/drv/pci.rs`: the configuration space of PCI functions, read through two ports, and the
-- table of the functions that are present. The listing of the table on the serial port is left out.
pub mod Address
pub mod Space
pub mod Scanned
pub mod Found
mod Tests
use avaria.Prelude.{
  ℕ, zero, suc, ◌+◌, ◌-◌, ◌*◌, ◌/◌, ◌%◌, ◌^◌, bit_and, bit_or, Bool, not, ◌&&◌, ◌==◌, ltb,
}
use avaria.Prelude.{if◌then◌else◌, Option, none, some, update, test_bit, and_not}

-- `outl` and `inl` of the processor, on the state `P` of what the ports lead to.
pub record Ports (P : Type 0) : Type 0 where
  pub outl : P → ℕ → ℕ → P
  pub inl : P → ℕ → ℕ × P

abbrev pub pci_config_addr : ℕ
pci_config_addr = 0xCF8

abbrev pub pci_config_data : ℕ
pci_config_data = 0xCFC

pub record PciAddr : Type 0 where
  pub bus : ℕ
  pub dev : ℕ
  pub func : ℕ

-- What `config_read32` and `config_write32` write to the address port.
unfoldable pub config_address : PciAddr → ℕ → ℕ
config_address a offset =
    bit_or (bit_or (bit_or (bit_or 0x80000000 (a.bus * 2 ^ 16)) (a.dev * 2 ^ 11)) (a.func * 2 ^ 8))
      (bit_and offset 0xFC)

-- The word that holds a 16-bit or an 8-bit register, cut to it.
abbrev pub half_of : ℕ → ℕ → ℕ
half_of offset val = val / 2 ^ (bit_and offset 2 * 8) % 2 ^ 16

abbrev pub byte_of : ℕ → ℕ → ℕ
byte_of offset val = val / 2 ^ (bit_and offset 3 * 8) % 2 ^ 8

pub record PciDevice : Type 0 where
  pub addr : PciAddr
  pub vendor_id : ℕ
  pub device_id : ℕ
  pub class : ℕ
  pub subclass : ℕ
  pub prog_if : ℕ

abbrev pub max_pci_devices : ℕ
max_pci_devices = 64

-- `PCI_DEVICES` and `PCI_COUNT`, the ports, and the `count` of `scan`.
pub record Pci (P : Type 0) : Type 0 where
  pub ports : P
  pub devices : ℕ → Option PciDevice
  pub pci_count : ℕ
  pub count : ℕ

-- `if header & 0x80 != 0 { 8 } else { 1 }`
abbrev pub functions_of : ℕ → ℕ
functions_of header = if test_bit header 7 then 8 else 1

module _ {P : Type 0} (io : Ports P) where
  pub config_read32 : P → PciAddr → ℕ → ℕ × P
  unfolding config_address
  config_read32 p a offset =
      io.inl (io.outl p pci_config_addr (config_address a offset)) pci_config_data

  unfoldable pub config_write32 : P → PciAddr → ℕ → ℕ → P
  unfolding config_address
  config_write32 p a offset val =
      io.outl (io.outl p pci_config_addr (config_address a offset)) pci_config_data val

  pub config_read16 : P → PciAddr → ℕ → ℕ × P
  unfolding config_read32
  config_read16 p a offset =
      let (val, p') = config_read32 p a (bit_and offset 0xFC) in (half_of offset val, p')

  pub config_read8 : P → PciAddr → ℕ → ℕ × P
  unfolding config_read32
  config_read8 p a offset =
      let (val, p') = config_read32 p a (bit_and offset 0xFC) in (byte_of offset val, p')

  abbrev pub vendor_id_at : P → PciAddr → ℕ × P
  vendor_id_at p a = config_read16 p a 0x00

  abbrev pub device_id_at : P → PciAddr → ℕ × P
  device_id_at p a = config_read16 p a 0x02

  abbrev pub class_code : P → PciAddr → ℕ × P
  class_code p a = config_read8 p a 0x0B

  abbrev pub subclass_at : P → PciAddr → ℕ × P
  subclass_at p a = config_read8 p a 0x0A

  abbrev pub prog_if_at : P → PciAddr → ℕ × P
  prog_if_at p a = config_read8 p a 0x09

  abbrev pub header_type : P → PciAddr → ℕ × P
  header_type p a = config_read8 p a 0x0E

  abbrev pub interrupt_line : P → PciAddr → ℕ × P
  interrupt_line p a = config_read8 p a 0x3C

  abbrev pub interrupt_pin : P → PciAddr → ℕ × P
  interrupt_pin p a = config_read8 p a 0x3D

  pub bar : P → PciAddr → ℕ → ℕ × P
  unfolding config_read32
  bar p a index = config_read32 p a ((0x10 + index * 4) % 2 ^ 8)

  unfoldable pub bar_mem_base : P → PciAddr → ℕ → ℕ × P
  unfolding bar
  bar_mem_base p a index =
      let (bar0, p1) = bar p a index in
      let base_lo = and_not bar0 0xF in
      let (bar1, p2) = bar p1 a (index + 1) in
      if test_bit bar0 0
      then (and_not bar0 0x3, p1)
      else if bit_and (bar0 / 2) 0x3 == 2
      then (bit_or base_lo (bar1 * 2 ^ 32), p2)
      else (base_lo, p1)

  unfoldable pub enable_bus_master : P → PciAddr → P
  unfolding config_read16 config_read32 config_write32
  enable_bus_master p a =
      let (cmd, p1) = config_read16 p a 0x04 in
      let (full, p2) = config_read32 p1 a 0x04 in
      config_write32 p2 a 0x04 (bit_or (bit_and full 0xFFFF0000) (bit_or cmd 0x06))

  -- The registers that `scan` reads of a function that is present, after its vendor.
  pub read_device : P → PciAddr → ℕ → PciDevice × P
  unfolding config_read16 config_read8
  read_device p faddr vid =
      let (did, p1) = device_id_at p faddr in
      let (class, p2) = class_code p1 faddr in
      let (subclass, p3) = subclass_at p2 faddr in
      let (prog_if, p4) = prog_if_at p3 faddr in
      (
        record {
          addr = faddr;
          vendor_id = vid;
          device_id = did;
          class = class;
          subclass = subclass;
          prog_if = prog_if;
        },
        p4,
      )

  -- A device is stored while there is room, and counted in any case.
  abbrev pub add_device : Pci P → PciDevice × P → Pci P
  add_device s (device, p) =
      if ltb s.count max_pci_devices
      then (record s {
        ports = p;
        devices = update s.devices s.count (some device);
        pci_count = s.count + 1;
        count = s.count + 1;
      })
      else (record s { ports = p; count = s.count + 1 })

  -- The body of the inner loop of `scan`, and the loop: from `func` on, `left` functions.
  pub scan_func : Pci P → PciAddr → Pci P
  unfolding config_read16 read_device
  scan_func s faddr =
      let (vid, p) = vendor_id_at s.ports faddr in
      if vid == 0xFFFF then record s { ports = p } else add_device s (read_device p faddr vid)

  pub scan_funcs : Pci P → ℕ → ℕ → ℕ → ℕ → Pci P
  unfolding scan_func
  scan_funcs s bus dev func zero = s
  scan_funcs s bus dev func (suc left) =
      scan_funcs (scan_func s (record { bus = bus; dev = dev; func = func })) bus dev (func + 1)
        left

  pub scan_dev : Pci P → ℕ → ℕ → Pci P
  unfolding config_read16 config_read8 scan_funcs
  scan_dev s bus dev =
      let addr : PciAddr = record { bus = bus; dev = dev; func = 0 } in
      let (vendor, p1) = vendor_id_at s.ports addr in
      let (header, p2) = header_type p1 addr in
      if vendor == 0xFFFF
      then record s { ports = p1 }
      else scan_funcs (record s { ports = p2 }) bus dev 0 (functions_of header)

  pub scan_devs : Pci P → ℕ → ℕ → ℕ → Pci P
  unfolding scan_dev
  scan_devs s bus dev zero = s
  scan_devs s bus dev (suc left) = scan_devs (scan_dev s bus dev) bus (dev + 1) left

  pub scan_buses : Pci P → ℕ → ℕ → Pci P
  unfolding scan_devs
  scan_buses s bus zero = s
  scan_buses s bus (suc left) = scan_buses (scan_devs s bus 0 32) (bus + 1) left

  unfoldable pub scan : Pci P → Pci P
  unfolding scan_buses
  scan s = scan_buses (record s { count = 0 }) 0 256

abbrev pub is_class : ℕ → ℕ → ℕ → PciDevice → Bool
is_class class subclass prog_if d =
    d.class == class && (d.subclass == subclass && d.prog_if == prog_if)

-- The loop of `find_by_class`, at `i` with `left` to go.
pub search_from : (ℕ → Option PciDevice) → (PciDevice → Bool) → ℕ → ℕ → Option PciAddr
search_from devices test i zero = none
search_from devices test i (suc left) =
    let rest = search_from devices test (i + 1) left in
    elim (devices i) [ some d ↦ if test d then some d.addr else rest | none ↦ rest ]

unfoldable pub find_by_class : {P : Type 0} → Pci P → ℕ → ℕ → ℕ → Option PciAddr
unfolding search_from
find_by_class s class subclass prog_if =
    search_from s.devices (is_class class subclass prog_if) 0 s.pci_count

-- ===== src/Pci/Space.antt =====
-- What `scan` of `src/kern/drv/pci.rs` should find in a configuration space, and what its steps do.
use package.avaria.Prelude.{test_bit}
use package.avaria.Prelude.{ℕ, zero, suc, ◌+◌, ◌<◌, min, bit_and}
use package.avaria.Prelude.{
  ◌≡◌, refl, true, false, List, [], ◌∷◌, ◌++◌, length, get_elem?, if◌then◌else◌, ◌==◌,
}
use package.avaria.Pci.{
  Ports, PciAddr, PciDevice, Pci, config_address, half_of, byte_of, config_read16, config_read8,
  read_device, add_device, scan_func, scan_funcs, scan_dev,
}

-- The ports lead to a configuration space: `view p` is its words by address. Selecting a word and
-- reading the data port gives that word and changes none.
pub record IsConfigSpace {P : Type 0} (io : Ports P) (view : P → ℕ → ℕ) : Type 0 where
  pub value : (p : P) (a : ℕ) → (io.inl (io.outl p 0xCF8 a) 0xCFC).0 ≡ view p a
  pub same : (p : P) (a : ℕ) → view (io.inl (io.outl p 0xCF8 a) 0xCFC).1 ≡ view p

-- A device has one function, or up to eight where bit 7 of its header type is set.
abbrev pub func_count : ℕ → ℕ
func_count header = if test_bit header 7 then 8 else 1

-- Registers of a space.
module _ (space : ℕ → ℕ) where
  abbrev pub half_at : PciAddr → ℕ → ℕ
  half_at a offset = half_of offset (space (config_address a (bit_and offset 0xFC)))

  abbrev pub byte_at : PciAddr → ℕ → ℕ
  byte_at a offset = byte_of offset (space (config_address a (bit_and offset 0xFC)))

  abbrev pub device_at : PciAddr → PciDevice
  device_at a = record {
    addr = a;
    vendor_id = half_at a 0;
    device_id = half_at a 2;
    class = byte_at a 0x0B;
    subclass = byte_at a 0x0A;
    prog_if = byte_at a 0x09;
  }

  -- The functions that are present: on a device, on a bus, in all.
  pub func_present : PciAddr → List PciDevice
  func_present a = if half_at a 0 == 0xFFFF then [] else device_at a ∷ []

  unfoldable pub funcs_present : ℕ → ℕ → ℕ → ℕ → List PciDevice
  unfolding func_present
  funcs_present bus dev func zero = []
  funcs_present bus dev func (suc left) =
      func_present (record { bus = bus; dev = dev; func = func })
      ++ funcs_present bus dev (func + 1) left

  pub dev_present : ℕ → ℕ → List PciDevice
  unfolding funcs_present
  dev_present bus dev =
      let a : PciAddr = record { bus = bus; dev = dev; func = 0 } in
      if half_at a 0 == 0xFFFF then [] else funcs_present bus dev 0 (func_count (byte_at a 0x0E))

  unfoldable pub devs_present : ℕ → ℕ → ℕ → List PciDevice
  unfolding dev_present
  devs_present bus dev zero = []
  devs_present bus dev (suc left) = dev_present bus dev ++ devs_present bus (dev + 1) left

  unfoldable pub buses_present : ℕ → ℕ → List PciDevice
  unfolding devs_present
  buses_present bus zero = []
  buses_present bus (suc left) = devs_present bus 0 32 ++ buses_present (bus + 1) left

-- The table holds the first 64 of the functions found so far.
pub record Holds {P : Type 0} (view : P → ℕ → ℕ) (space : ℕ → ℕ) (found : List PciDevice)
    (s : Pci P) : Type 0 where
  pub same_space : view s.ports ≡ space
  pub counted : s.count ≡ length found
  pub listed : s.pci_count ≡ min 64 (length found)
  pub stored : (i : ℕ) → i < min 64 (length found) → s.devices i ≡ get_elem? found i

-- The branches of the scan and of the reference, one by one.
pub func_absent :
    (space : ℕ → ℕ) (a : PciAddr) → (half_at space a 0 == 0xFFFF) ≡ true → func_present space a ≡ []
unfolding func_present
func_absent space a q = rw q refl

pub func_there :
    (space : ℕ → ℕ) (a : PciAddr)
    → (half_at space a 0 == 0xFFFF) ≡ false
    → func_present space a ≡ device_at space a ∷ []
unfolding func_present
func_there space a q = rw q refl

pub dev_absent :
    (space : ℕ → ℕ) (bus dev : ℕ)
    → (half_at space (record { bus = bus; dev = dev; func = 0 }) 0 == 0xFFFF) ≡ true
    → dev_present space bus dev ≡ []
unfolding dev_present
dev_absent space bus dev q = rw q refl

pub dev_there :
    (space : ℕ → ℕ) (bus dev : ℕ)
    → (half_at space (record { bus = bus; dev = dev; func = 0 }) 0 == 0xFFFF) ≡ false
    → dev_present space bus dev
      ≡ funcs_present space bus dev 0
          (func_count (byte_at space (record { bus = bus; dev = dev; func = 0 }) 0x0E))
unfolding dev_present
dev_there space bus dev q = rw q refl

module _ {P : Type 0} (io : Ports P) (s : Pci P) where
  pub scan_func_absent :
      (a : PciAddr)
      → ((config_read16 io s.ports a 0).0 == 0xFFFF) ≡ true
      → scan_func io s a ≡ record s { ports = (config_read16 io s.ports a 0).1 }
  unfolding scan_func
  scan_func_absent a q = rw q refl

  pub scan_func_there :
      (a : PciAddr)
      → ((config_read16 io s.ports a 0).0 == 0xFFFF) ≡ false
      → scan_func io s a
        ≡ add_device io s
            (read_device io (config_read16 io s.ports a 0).1 a (config_read16 io s.ports a 0).0)
  unfolding scan_func
  scan_func_there a q = rw q refl

  pub scan_dev_absent :
      (bus dev : ℕ)
      → ((config_read16 io s.ports (record { bus = bus; dev = dev; func = 0 }) 0).0 == 0xFFFF)
        ≡ true
      → scan_dev io s bus dev ≡ record s {
        ports = (config_read16 io s.ports (record { bus = bus; dev = dev; func = 0 }) 0).1;
      }
  unfolding scan_dev
  scan_dev_absent bus dev q = rw q refl

  pub scan_dev_there :
      (bus dev : ℕ) {header : ℕ}
      → ((config_read16 io s.ports (record { bus = bus; dev = dev; func = 0 }) 0).0 == 0xFFFF)
        ≡ false
      → (config_read8 io
          (config_read16 io s.ports (record { bus = bus; dev = dev; func = 0 }) 0).1
          (record { bus = bus; dev = dev; func = 0 })
          0x0E).0
        ≡ header
      → scan_dev io s bus dev
        ≡ scan_funcs io
            (record s {
              ports =
                  (config_read8 io
                    (config_read16 io s.ports (record { bus = bus; dev = dev; func = 0 }) 0).1
                    (record { bus = bus; dev = dev; func = 0 })
                    0x0E).1;
            })
            bus
            dev
            0
            (func_count header)
  unfolding scan_dev
  scan_dev_there bus dev q e = rw (q, e) refl

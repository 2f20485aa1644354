-- ===== src/Pci/Tests.antt =====
-- The theorems on PCI at a configuration space with two functions.
use package.avaria.Prelude.{ℕ, ◌≡◌, refl, ◌==◌, if◌then◌else◌, none, update, take}
use package.avaria.Pci.{Ports, PciAddr, Pci, config_address, scan, find_by_class, is_class}
use package.avaria.Pci.{bar_mem_base}
use package.avaria.Pci.Space.{IsConfigSpace, buses_present}
use package.avaria.Pci.Found.{first_match, find_by_class-scan}

-- The words of a space, and the address that was selected last.
abbrev two_ports : Ports (ℕ × (ℕ → ℕ))
two_ports = record {
  outl = λ p port val.
      if port == 0xCF8 then (val, p.1) else if port == 0xCFC then (p.0, update p.1 p.0 val) else p;
  inl = λ p port. (p.1 p.0, p);
}

two_ports-IsConfigSpace : IsConfigSpace two_ports (λ p. p.1)
two_ports-IsConfigSpace = record { value = λ p a. refl; same = λ p a. refl }

abbrev disk : PciAddr
disk = record { bus = 0; dev = 3; func = 0 }

-- Nothing anywhere but a disk controller with its registers above 4 GiB.
abbrev one_disk : ℕ → ℕ
one_disk =
    update
      (update
        (update (update (update (λ a. 0xFFFFFFFF) 0x80001800 0x29228086) 0x80001808 0x01060102)
          0x8000180C 0)
        0x80001824 0xFEB00004)
      0x80001828 1

abbrev before : Pci (ℕ × (ℕ → ℕ))
before = record { ports = (0, one_disk); devices = λ i. none; pci_count = 0; count = 0 }

find_by_class-scan_example :
    find_by_class (scan two_ports before) 1 6 1
    ≡ first_match (is_class 1 6 1) (take 64 (buses_present one_disk 0 256))
find_by_class-scan_example =
    find_by_class-scan two_ports (λ p. p.1) two_ports-IsConfigSpace before 1 6 1 refl

base_above_4g : (bar_mem_base two_ports before.ports disk 5).0 ≡ 0x1FEB00000
unfolding bar_mem_base config_address
base_above_4g = refl

-- ===== src/Ahci/Tests.antt =====
-- The theorems on the disk driver at a controller with one disk.
use package.avaria.Prelude.{
  ℕ, ◌+◌, ◌*◌, ◌^◌, ◌≡◌, refl, arith, inl, true, false, ◌==◌, if◌then◌else◌,
}
use package.avaria.Prelude.{test_bit-zero, sym, ◌∙◌}
use package.avaria.Mm.Heap.{new_heap}
use package.avaria.Ahci.{Controller, Ahci, Ram, setup_command}
use package.avaria.Ahci.Command.{decode, decode-setup_command}
use package.avaria.Ahci.Start.{init, init-IsSetUp}
use package.avaria.Pci.{Ports, Pci}
use package.avaria.Prelude.{some}
use package.avaria.Ahci.Driver.{driver}
use package.avaria.Ahci.Active.{IsSetUp}

-- Port 0 holds a disk that is at rest; `ABAR` is 0.
abbrev one_port : Controller ℕ
one_port = record {
  read = λ d ram at. (
    if at == 0x0C then 1 else if at == 0x128 then 0x113 else if at == 0x124 then 0x101 else 0,
    d,
    ram,
  );
  write = λ d ram at val. (d + 1, ram);
}

abbrev at_boot : Ahci ℕ
at_boot = record {
  abar = 0;
  active_ports = 0;
  port_clb = λ i. 0;
  port_fb = λ i. 0;
  port_ctba = λ i. 0;
  identify_buf = 0;
  heap = new_heap;
  device = 0;
  ram = λ a. 0;
}

no_ports : IsSetUp (driver at_boot)
unfolding IsSetUp
no_ports port on = let bad : false ≡ true = sym (test_bit-zero port) ∙ on in absurd (cc)

-- A bus with that controller's function at its start, and registers at 0xFEB00000.
abbrev bus : Ports ℕ
bus = record { outl = λ p port val. p; inl = λ p port. (0xFEB00000, p) }

abbrev listed : Pci ℕ
listed = record {
  ports = 0;
  devices = λ i. some (record {
    addr = record { bus = 0; dev = 3; func = 0 };
    vendor_id = 0x8086;
    device_id = 0x2922;
    class = 1;
    subclass = 6;
    prog_if = 1;
  });
  pci_count = 1;
  count = 1;
}

init-IsSetUp_example : IsSetUp (driver (init one_port bus 0x1000 at_boot listed (λ a. 0)).0)
init-IsSetUp_example = init-IsSetUp one_port bus 0x1000 at_boot listed (λ a. 0) no_ports

-- Port 3 is active.
abbrev with_disk : Ahci ℕ
with_disk = record at_boot {
  active_ports = 8;
  port_clb = λ i. 0x1000;
  port_fb = λ i. 0x2000;
  port_ctba = λ i. 0x3000;
}

abbrev no_ram : Ram
no_ram = λ a. 0xFF

decode-setup_command_example :
    decode
      (setup_command no_ram 0x1000 0x3000 0x25 0x123456789A 8 0x40000 0x1000 false)
      0x1000
      0x3000
    ≡ record {
      frame_words = 5;
      entries = 1;
      transferred = 0;
      frame_type = 0x27;
      is_command = true;
      lba_mode = true;
      code = 0x25;
      lba = 0x123456789A;
      count = 8;
      address = 0x40000;
      bytes = 0x1000;
      writes = false;
    }
decode-setup_command_example =
    decode-setup_command no_ram 0x1000 0x3000 0x25 0x123456789A 8 0x40000 0x1000 false
      (inl (omega arith)) (omega arith) (omega arith) (omega arith) (omega arith) (omega arith)

-- A read of 0 sectors stands for 65536, and the controller takes the buffer to be of 4 MiB.
whole_count :
    (decode (setup_command no_ram 0x1000 0x3000 0x25 0 0 0 (65536 * 512) false) 0x1000 0x3000).bytes
    ≡ 2 ^ 22
unfolding decode setup_command
whole_count = refl

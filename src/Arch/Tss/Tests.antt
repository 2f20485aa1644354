-- ===== src/Arch/Tss/Tests.antt =====
-- The theorem for the kernel's own table of descriptors.
use package.avaria.Prelude.{refl, arith}
use package.avaria.Arch.Gdt.{table, install_tss}
use package.avaria.Arch.Tss.{new_tss, init_tss, set_kernel_stack, tss_size}
use package.avaria.Arch.Tss.Installed.{Installed, install_tss-Installed}

install_tss-Installed_example :
    Installed table
      (install_tss table 0xFFFFFFFF80201000 tss_size)
      0xFFFFFFFF80201000
      (set_kernel_stack (init_tss new_tss 0x5000) 0x9000)
      0x9000
install_tss-Installed_example =
    install_tss-Installed table 0xFFFFFFFF80201000 (init_tss new_tss 0x5000) 0x9000 refl
      (omega arith) (omega arith)

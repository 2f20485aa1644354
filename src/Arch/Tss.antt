-- ===== src/Arch/Tss.antt =====
-- `src/kern/arch/x86_64/tss.rs`: the task state segment. Its address and that of the kernel's stack are
-- arguments, and the loading of the task register is assembly.
pub mod Installed
mod Tests
use package.avaria.Prelude.{ℕ, ◌+◌, ◌-◌, ◌%◌, ◌^◌, List, [], ◌++◌, length, le_bytes}

pub record Tss : Type 0 where
  pub reserved0 : ℕ
  pub rsp0 : ℕ
  pub rsp1 : ℕ
  pub rsp2 : ℕ
  pub reserved1 : ℕ
  pub ist1 : ℕ
  pub ist2 : ℕ
  pub ist3 : ℕ
  pub ist4 : ℕ
  pub ist5 : ℕ
  pub ist6 : ℕ
  pub ist7 : ℕ
  pub reserved2 : ℕ
  pub reserved3 : ℕ
  pub iomap_base : ℕ

-- The fields after `rsp0`.
abbrev pub rest_bytes : Tss → List ℕ
rest_bytes t =
    le_bytes 8 t.rsp1
    ++ (le_bytes 8 t.rsp2
        ++ (le_bytes 8 t.reserved1
            ++ (le_bytes 8 t.ist1
                ++ (le_bytes 8 t.ist2
                    ++ (le_bytes 8 t.ist3
                        ++ (le_bytes 8 t.ist4
                            ++ (le_bytes 8 t.ist5
                                ++ (le_bytes 8 t.ist6
                                    ++ (le_bytes 8 t.ist7
                                        ++ (le_bytes 8 t.reserved2
                                            ++ (le_bytes 2 t.reserved3
                                                ++ le_bytes 2 t.iomap_base)))))))))))

-- The `repr(C, packed)` layout.
abbrev pub tss_bytes : Tss → List ℕ
tss_bytes t = le_bytes 4 t.reserved0 ++ (le_bytes 8 t.rsp0 ++ rest_bytes t)

-- `size_of::<Tss>()`.
abbrev pub size_of_tss : ℕ
size_of_tss = 104

abbrev pub new_tss : Tss
new_tss = record {
  reserved0 = 0;
  rsp0 = 0;
  rsp1 = 0;
  rsp2 = 0;
  reserved1 = 0;
  ist1 = 0;
  ist2 = 0;
  ist3 = 0;
  ist4 = 0;
  ist5 = 0;
  ist6 = 0;
  ist7 = 0;
  reserved2 = 0;
  reserved3 = 0;
  iomap_base = size_of_tss % 2 ^ 16;
}

-- `init`, with the address of `KERNEL_STACK`.
abbrev pub init_tss : Tss → ℕ → Tss
init_tss t kernel_stack = record t { rsp0 = kernel_stack + 0x4000 }

unfoldable pub tss_size : ℕ
tss_size = (size_of_tss - 1) % 2 ^ 16

unfoldable pub set_kernel_stack : Tss → ℕ → Tss
set_kernel_stack t rsp0 = record t { rsp0 = rsp0 }

-- ===== src/Arch.antt =====
-- `src/kern/arch/x86_64`: the devices and tables of the processor.
pub mod Pic
pub mod Context
pub mod Gdt
pub mod Idt
pub mod Tss
pub mod Clock
pub mod Lapic
pub mod Cpu
pub mod Smp

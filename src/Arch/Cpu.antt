-- ===== src/Arch/Cpu.antt =====
-- `src/kern/arch/x86_64/cpu.rs`: what the processor says of itself, over a parameter for the instruction
-- `cpuid`, the interrupt flag, and the control registers that `sse.rs` beside it
-- changes. The other functions are one instruction each.
mod Tests
use package.avaria.Prelude.{
  ℕ, ◌+◌, ◌-◌, ◌*◌, ◌/◌, ◌^◌, bit_or, Bool, true, false, ltb, if◌then◌else◌, List, ◌++◌, le_bytes,
  test_bit, and_not,
}

-- `rdmsr`, from the two halves that the instruction gives, and the halves that `wrmsr` hands over.
abbrev pub rdmsr : ℕ → ℕ → ℕ
rdmsr lo hi = hi * 2 ^ 32 + lo

-- `save_irq` and `restore_irq`: bit 9 of the flags says whether interrupts are on, and the processor's
-- state is its flags.
unfoldable pub save_irq : ℕ → ℕ × ℕ
save_irq flags = (flags, if test_bit flags 9 then flags - 2 ^ 9 else flags)

unfoldable pub restore_irq : ℕ → ℕ → ℕ
restore_irq saved flags = if test_bit saved 9 then bit_or flags (2 ^ 9) else flags

pub record Registers : Type 0 where
  pub eax : ℕ
  pub ebx : ℕ
  pub ecx : ℕ
  pub edx : ℕ

module _ (cpuid : ℕ → Registers) where
  pub cpu_vendor : List ℕ
  cpu_vendor = le_bytes 4 (cpuid 0).ebx ++ (le_bytes 4 (cpuid 0).edx ++ le_bytes 4 (cpuid 0).ecx)

  pub has_feature_sse : Bool
  has_feature_sse = test_bit (cpuid 1).edx 25

  pub has_feature_sse2 : Bool
  has_feature_sse2 = test_bit (cpuid 1).edx 26

  pub has_feature_sse3 : Bool
  has_feature_sse3 = test_bit (cpuid 1).ecx 0

  pub has_feature_sse41 : Bool
  has_feature_sse41 = test_bit (cpuid 1).ecx 19

  pub has_feature_sse42 : Bool
  has_feature_sse42 = test_bit (cpuid 1).ecx 20

  pub has_feature_avx : Bool
  has_feature_avx = test_bit (cpuid 1).ecx 28

  pub has_tsc : Bool
  has_tsc = test_bit (cpuid 1).edx 4

  pub has_invariant_tsc : Bool
  has_invariant_tsc =
      if ltb (cpuid 0x80000000).eax 0x80000007 then false else test_bit (cpuid 0x80000007).edx 8

  pub lapic_id : ℕ
  lapic_id = (cpuid 1).ebx / 2 ^ 24

-- The control registers that `sse::init` of `src/kern/arch/x86_64/sse.rs` changes.
pub record Controls : Type 0 where
  pub cr0 : ℕ
  pub cr4 : ℕ
  pub xcr0 : ℕ

unfoldable pub sse_init : (ℕ → Registers) → Controls → Controls
unfolding has_feature_sse has_feature_avx
sse_init cpuid c =
    let avx = has_feature_avx cpuid in
    let cr0 = bit_or (and_not c.cr0 (2 ^ 2)) (2 ^ 1) in
    let cr4 = bit_or (bit_or c.cr4 (2 ^ 9)) (2 ^ 10) in
    let on : Controls = record {
      cr0 = cr0;
      cr4 = if avx then bit_or cr4 (2 ^ 18) else cr4;
      xcr0 = if avx then 0x7 else c.xcr0;
    } in
    if has_feature_sse cpuid then on else c

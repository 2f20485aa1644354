-- ===== src/Arch/Cpu/Tests.antt =====
-- A processor that names itself, and interrupts switched off and on again.
use package.avaria.Prelude.{◌≡◌, refl, [], ◌∷◌, ℕ}
use package.avaria.Arch.Cpu.{Registers, cpu_vendor, save_irq, restore_irq, sse_init}

abbrev cpuid : ℕ → Registers
cpuid leaf = record { eax = 0x80000008; ebx = 0x756E6547; ecx = 0x6C65746E; edx = 0x49656E69 }

genuine :
    cpu_vendor cpuid
    ≡ b'G' ∷ b'e' ∷ b'n' ∷ b'u' ∷ b'i' ∷ b'n' ∷ b'e' ∷ b'I' ∷ b'n' ∷ b't' ∷ b'e' ∷ b'l' ∷ []
unfolding cpu_vendor
genuine = refl

restored : restore_irq (save_irq 0x246).0 (save_irq 0x246).1 ≡ 0x246
unfolding save_irq restore_irq
restored = refl

abbrev with_avx : ℕ → Registers
with_avx leaf = record { eax = 0; ebx = 0; ecx = 0x10000000; edx = 0x2000000 }

vectors_on :
    sse_init with_avx (record { cr0 = 0x80000015; cr4 = 0x20; xcr0 = 1 })
    ≡ record { cr0 = 0x80000013; cr4 = 0x40620; xcr0 = 7 }
unfolding sse_init
vectors_on = refl

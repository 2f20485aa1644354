-- ===== src/Arch/Idt/Tests.antt =====
-- The theorems on the interrupt table at concrete tables.
use package.avaria.Prelude.{
  ℕ, zero, suc, ◌<◌, ◌≤◌, ◌^◌, ◌≡◌, ◌≢◌, refl, arith, none, replicate, get_or, List, true, [], ◌∷◌,
}
use package.avaria.Arch.Context.{IsrContext}
use package.avaria.Arch.Idt.{
  interrupt_dispatch, Idt, Handlers, empty_gate, gate, init, set_gate_dpl,
}
use package.avaria.Arch.Idt.Stubs.{InterruptFrame, Reg, reg_rax, reg_r15, run, isr}
use package.avaria.Arch.Idt.Resume.{Resumes, delivered, context, isr-Resumes}
use package.avaria.Arch.Idt.Gates.{LeadsTo, init-Gates}

abbrev at_boot : Idt
at_boot = replicate 256 empty_gate

-- All stubs at one address.
abbrev stubs : List ℕ
stubs = replicate 48 0xFFFFFFFF80001000

stub_fits : (n k : ℕ) → get_or (replicate n 0xFFFFFFFF80001000) k 0 < 2 ^ 64
stub_fits zero k = omega arith
stub_fits (suc n) zero = omega arith
stub_fits (suc n) (suc k) = stub_fits n k

init-Gates_example :
    ((v : ℕ) → v < 48 → LeadsTo (get_or stubs v 0) (gate (init at_boot stubs 0xFFFFFFFF80002000) v))
    × LeadsTo 0xFFFFFFFF80002000 (gate (init at_boot stubs 0xFFFFFFFF80002000) 0x80)
    × ((v : ℕ)
        → 48 ≤ v
        → v ≢ 0x80
        → gate (init at_boot stubs 0xFFFFFFFF80002000) v ≡ gate at_boot v)
init-Gates_example =
    init-Gates at_boot stubs 0xFFFFFFFF80002000 refl refl (λ k lt. stub_fits 48 k) (omega arith)

abbrev no_handlers : Handlers ℕ
no_handlers = record { isr_handlers = λ v. none; isr_ctx_handlers = λ v. none }

abbrev at_rest : IsrContext
at_rest = record {
  r15 = 0;
  r14 = 0;
  r13 = 0;
  r12 = 0;
  r11 = 0;
  r10 = 0;
  r9 = 0;
  r8 = 0;
  rbp = 0;
  rdi = 0;
  rsi = 0;
  rdx = 0;
  rcx = 0;
  rbx = 0;
  rax = 0;
  vector = 32;
  error_code = 0;
  rip = 0;
  cs = 8;
  rflags = 2;
  rsp = 0;
  ss = 16;
}

-- `set_gate_dpl(0x80, 3)` opens the gate to user code.
open_gate : (gate (set_gate_dpl (init at_boot stubs 0x2000) 0x80 3) 0x80).type_attr ≡ 0xEE
unfolding set_gate_dpl init
open_gate = refl

-- A page fault, whose context keeps the error code.
abbrev interrupted : InterruptFrame
interrupted = record { rip = 0x400000; cs = 0x1B; rflags = 0x202; rsp = 0x7000; ss = 0x23 }

abbrev counted_regs : Reg → ℕ
counted_regs reg_rax = 1
counted_regs reg_r15 = 15
counted_regs _ = 0

isr-Resumes_example :
    Resumes
      (interrupt_dispatch no_handlers 7 (context counted_regs 14 6 interrupted)).0
      (interrupt_dispatch no_handlers 7 (context counted_regs 14 6 interrupted)).1
      (5 ∷ [])
      (run no_handlers
        (λ regs q. 99)
        (isr 14)
        (record {
          limit = 0x9000;
          regs = counted_regs;
          stack = delivered true 6 interrupted (5 ∷ []);
          state = 7;
        }))
isr-Resumes_example =
    isr-Resumes no_handlers (λ regs q. 99) counted_regs 7 0x9000 14 6 interrupted (5 ∷ [])

-- ===== src/Kxvm/Tests.antt =====
-- A program that writes two bytes, and the theorem for it.
use avaria.Prelude.{
  ℕ, zero, suc, ◌+◌, ◌%◌, ◌^◌, ◌<◌, ◌≡◌, get_or, refl, arith, none, List, [], ◌∷◌, replicate,
}
use avaria.Arch.Context.{IsrContext}
use avaria.Arch.Idt
use avaria.Arch.Idt.{empty_gate, Idt, gate, Handlers, interrupt_dispatch}
use avaria.Arch.Idt.Gates.{gate_address}
use avaria.Serial.{puts}
use avaria.Kxvm.{slice, Kernel, syscall_dispatch, init}
use avaria.Kxvm.Calls.{Serves, init-Serves}

abbrev program : IsrContext
program = record {
  r15 = 0;
  r14 = 0;
  r13 = 0;
  r12 = 0;
  r11 = 0;
  r10 = 0;
  r9 = 0;
  r8 = 0;
  rbp = 0;
  rdi = 0x400000;
  rsi = 2;
  rdx = 0;
  rcx = 0;
  rbx = 0;
  rax = 1;
  vector = 0x80;
  error_code = 0;
  rip = 0x401000;
  cs = 0x23;
  rflags = 0x202;
  rsp = 0x7000;
  ss = 0x1B;
}

abbrev kernel : Kernel
kernel = record { memory = λ a. a % 256 + 65; serial = [] }

abbrev idle_handlers : Handlers Kernel
idle_handlers = record { isr_handlers = λ _. none; isr_ctx_handlers = λ _. none }

abbrev gates : Idt
gates = replicate 256 empty_gate

abbrev stubs : List ℕ
stubs = replicate 48 0x1000

writes_two :
    (syscall_dispatch 0x2000 0x3000 kernel program).0.serial ≡ (0x3F8, 65) ∷ (0x3F8, 66) ∷ []
unfolding syscall_dispatch slice puts
writes_two = refl

stub_fits : (n k : ℕ) → get_or (replicate n 0x1000) k 0 < 2 ^ 64
stub_fits zero k = omega arith
stub_fits (suc n) zero = omega arith
stub_fits (suc n) (suc k) = stub_fits n k

init-Serves_example :
    (gate_address (gate (init 0x2000 0x3000 (Idt.init gates stubs 0x4000) idle_handlers).0 0x80)
      ≡ 0x4000)
    × ((gate (init 0x2000 0x3000 (Idt.init gates stubs 0x4000) idle_handlers).0 0x80).selector ≡ 8)
    × ((gate (init 0x2000 0x3000 (Idt.init gates stubs 0x4000) idle_handlers).0 0x80).type_attr
        ≡ 0xEE)
    × Serves
        (init 0x2000 0x3000 (Idt.init gates stubs 0x4000) idle_handlers).1
        0x2000
        0x3000
        kernel
        program
init-Serves_example =
    init-Serves 0x2000 0x3000 gates stubs 0x4000 idle_handlers kernel program refl refl
      (λ k lt. stub_fits 48 k) (omega arith) refl

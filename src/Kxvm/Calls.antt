-- ===== src/Kxvm/Calls.antt =====
-- What a program gets that raises interrupt 0x80 (`src/kern/kxvm/syscall.rs`).
use avaria.Prelude.{
  ℕ, ◌-◌, ◌^◌, ◌≤◌, ◌<◌, ◌≡◌, ◌≢◌, refl, ap, ◌∙◌, arith, List, [], ◌∷◌, length, ◌++◌, false,
  Bool-cases, ◌==◌, bit_and, ◌*◌, ◌%◌, inl, inr,
}
use avaria.Prelude.{length, lt→ltb, le→ltb, ≡→==, ≢→==, bit_or, get_or, get_or-set_self}
use avaria.Arch.Context.{IsrContext}
use avaria.Arch.Idt
use avaria.Arch.Idt.{
  Idt, IdtEntry, empty_gate, gate, Handlers, interrupt_dispatch, set_dpl, set_gate_dpl,
}
use avaria.Arch.Idt.Dispatch.{interrupt_dispatch-Registered}
use avaria.Arch.Idt.Gates.{gate_address, length-init, init-Gates}
use avaria.Serial.{puts, dec}
use avaria.Kxvm.{Kernel, slice, syscall_dispatch, init}

-- `syscall: exit(` and `syscall: unknown nr=`.
abbrev pub exit_text : List ℕ
exit_text =
    b's' ∷ b'y' ∷ b's' ∷ b'c' ∷ b'a' ∷ b'l' ∷ b'l' ∷ b':' ∷ b' ' ∷ b'e' ∷ b'x' ∷ b'i' ∷ b't' ∷ b'('
    ∷ []

abbrev pub unknown_text : List ℕ
unknown_text =
    b's' ∷ b'y' ∷ b's' ∷ b'c' ∷ b'a' ∷ b'l' ∷ b'l' ∷ b':' ∷ b' ' ∷ b'u' ∷ b'n' ∷ b'k' ∷ b'n' ∷ b'o'
    ∷ b'w' ∷ b'n' ∷ b' ' ∷ b'n' ∷ b'r' ∷ b'=' ∷ []

-- What the dispatch of an interrupt 0x80 does.
pub record Serves (hs : Handlers Kernel) (trampoline stack : ℕ) (k : Kernel) (ctx : IsrContext)
    : Type 0 where
  pub exits :
      ctx.rax ≡ 0
      → interrupt_dispatch hs k ctx ≡ (
        record k {
          serial = k.serial ++ (puts exit_text ++ (puts (dec ctx.rdi) ++ puts (b')' ∷ 10 ∷ [])));
        },
        record ctx { rip = trampoline; cs = 0x08; rflags = 0x202; rsp = stack; ss = 0x10 },
        false,
      )
  pub writes :
      ctx.rax ≡ 1
      → ctx.rdi ≢ 0
      → ctx.rsi < 4096
      → interrupt_dispatch hs k ctx ≡ (
        record k { serial = k.serial ++ puts (slice k.memory ctx.rdi ctx.rsi) },
        record ctx { rax = 0 },
        false,
      )
  pub refuses_null :
      ctx.rax ≡ 1 → ctx.rdi ≡ 0 → interrupt_dispatch hs k ctx ≡ (k, record ctx { rax = 0 }, false)
  pub refuses_long :
      ctx.rax ≡ 1
      → 4096 ≤ ctx.rsi
      → interrupt_dispatch hs k ctx ≡ (k, record ctx { rax = 0 }, false)
  pub unknown :
      1 < ctx.rax
      → interrupt_dispatch hs k ctx ≡ (
        record k {
          serial = k.serial ++ (puts unknown_text ++ (puts (dec ctx.rax) ++ puts (10 ∷ [])));
        },
        record ctx { rax = 2 ^ 64 - 1 },
        false,
      )

module _ (trampoline stack : ℕ) where
  called :
      (idt : Idt) (hs : Handlers Kernel) (k : Kernel) (ctx : IsrContext)
      → ctx.vector ≡ 0x80
      → interrupt_dispatch (init trampoline stack idt hs).1 k ctx ≡ (
        (syscall_dispatch trampoline stack k ctx).0,
        (syscall_dispatch trampoline stack k ctx).1,
        false,
      )
  unfolding init
  called idt hs k ctx e =
      (interrupt_dispatch-Registered hs 0x80 (syscall_dispatch trampoline stack) k ctx
          (omega arith)).called
        e

  dispatch-Serves :
      (idt : Idt) (hs : Handlers Kernel) (k : Kernel) (ctx : IsrContext)
      → ctx.vector ≡ 0x80
      → Serves (init trampoline stack idt hs).1 trampoline stack k ctx
  unfolding syscall_dispatch
  dispatch-Serves idt hs k ctx e =
      let call = called idt hs k ctx e in
      record {
        exits = λ z. call ∙ rw (≡→== ctx.rax 0 z) refl;
        writes = λ z nz lt.
            let quiet : (ctx.rax == 0) ≡ false = ≢→== ctx.rax 0 (omega arith) in
            call ∙ rw (quiet, ≡→== ctx.rax 1 z, ≢→== ctx.rdi 0 nz, lt→ltb ctx.rsi 4096 lt) refl;
        refuses_null = λ z null.
            let quiet : (ctx.rax == 0) ≡ false = ≢→== ctx.rax 0 (omega arith) in
            call ∙ rw (quiet, ≡→== ctx.rax 1 z, ≡→== ctx.rdi 0 null) refl;
        refuses_long = λ z long.
            let quiet : (ctx.rax == 0) ≡ false = ≢→== ctx.rax 0 (omega arith) in
            call
            ∙ rw (quiet, ≡→== ctx.rax 1 z, le→ltb ctx.rsi 4096 long)
                (elim (Bool-cases (ctx.rdi == 0)) [ inl n ↦ rw n refl | inr n ↦ rw n refl ]);
        unknown =
            λ more. call ∙ rw (≢→== ctx.rax 0 (omega arith), ≢→== ctx.rax 1 (omega arith)) refl;
      }

  opened :
      (idt : Idt) (hs : Handlers Kernel)
      → length idt ≡ 256
      → gate (init trampoline stack idt hs).0 0x80 ≡ set_dpl (gate idt 0x80) 3
  unfolding init set_gate_dpl
  opened idt hs size = get_or-set_self idt 0x80 (set_dpl (gate idt 0x80) 3) empty_gate (omega arith)

  -- On a table of 256 gates whose stubs have addresses of 64 bits, after `init` of the interrupts and
  -- `init` here: the gate of vector 0x80 leads to its stub in the kernel's code, and is open to user
  -- programs. The interrupt is served by the number in `rax`, whatever handlers there were before: 0
  -- reports the code and leaves for the trampoline, in the kernel's segments, with interrupts on and on the
  -- stack set aside for it; 1 writes the bytes that the two arguments name, unless the address is null or
  -- there are 4096 or more, and any other number is only reported, and both go on where the program was,
  -- with no register changed but `rax`.
  pub init-Serves :
      (idt : Idt) (handlers : List ℕ) (isr128 : ℕ) (hs : Handlers Kernel) (k : Kernel)
      (ctx : IsrContext)
      → length idt ≡ 256
      → length handlers ≡ 48
      → ((v : ℕ) → v < 48 → get_or handlers v 0 < 2 ^ 64)
      → isr128 < 2 ^ 64
      → ctx.vector ≡ 0x80
      → (gate_address (gate (init trampoline stack (Idt.init idt handlers isr128) hs).0 0x80)
          ≡ isr128)
        × ((gate (init trampoline stack (Idt.init idt handlers isr128) hs).0 0x80).selector ≡ 8)
        × ((gate (init trampoline stack (Idt.init idt handlers isr128) hs).0 0x80).type_attr ≡ 0xEE)
        × Serves (init trampoline stack (Idt.init idt handlers isr128) hs).1 trampoline stack k ctx
  unfolding set_dpl
  init-Serves idt handlers isr128 hs k ctx size count fits last e =
      let g = (init-Gates idt handlers isr128 size count fits last).1 in
      let got = opened (Idt.init idt handlers isr128) hs (length-init idt handlers isr128 ∙ size) in
      (
        ap gate_address got ∙ g.leads,
        ap (λ (d : IdtEntry). d.selector) got ∙ g.code,
        ap (λ (d : IdtEntry). d.type_attr) got
            ∙ ap (λ (t : ℕ). bit_or (bit_and t 0x9F) (bit_and 3 3 * 2 ^ 5 % 2 ^ 8)) g.kind,
        dispatch-Serves (Idt.init idt handlers isr128) hs k ctx e,
      )

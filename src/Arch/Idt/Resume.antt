-- ===== src/Arch/Idt/Resume.antt =====
-- What an interrupt leaves of the interrupted program: its registers as the handler puts them
-- (`src/kern/arch/x86_64/idt.rs`).
use package.avaria.Prelude.{
  ℕ, ◌≡◌, refl, ==_self, ◌++◌, Bool, Bool-cases, inl, inr, if◌then◌else◌, Option, some, List, ◌∷◌,
}
use package.avaria.Arch.Context.{IsrContext}
use package.avaria.Arch.Idt.{Handlers, interrupt_dispatch}
use package.avaria.Arch.Idt.Stubs.{
  Reg, reg_rax, reg_rbx, reg_rcx, reg_rdx, reg_rsi, reg_rdi, reg_rbp, reg_r8, reg_r9, reg_r10,
  reg_r11, reg_r12, reg_r13, reg_r14, reg_r15, InterruptFrame, Machine, isr, isr_common, has_err,
  stack_pointer, words_of, run,
}

-- The words that the processor pushes, with the error code of the exceptions that have one.
abbrev pub delivered : Bool → ℕ → InterruptFrame → List ℕ → List ℕ
delivered code e f below =
    let frame = f.rip ∷ f.cs ∷ f.rflags ∷ f.rsp ∷ f.ss ∷ below in if code then e ∷ frame else frame

-- The context of an interrupt.
abbrev pub context : (Reg → ℕ) → ℕ → ℕ → InterruptFrame → IsrContext
context regs v e f = record {
  r15 = regs reg_r15;
  r14 = regs reg_r14;
  r13 = regs reg_r13;
  r12 = regs reg_r12;
  r11 = regs reg_r11;
  r10 = regs reg_r10;
  r9 = regs reg_r9;
  r8 = regs reg_r8;
  rbp = regs reg_rbp;
  rdi = regs reg_rdi;
  rsi = regs reg_rsi;
  rdx = regs reg_rdx;
  rcx = regs reg_rcx;
  rbx = regs reg_rbx;
  rax = regs reg_rax;
  vector = v;
  error_code = e;
  rip = f.rip;
  cs = f.cs;
  rflags = f.rflags;
  rsp = f.rsp;
  ss = f.ss;
}

abbrev pub register_of : IsrContext → Reg → ℕ
register_of ctx reg_rax = ctx.rax
register_of ctx reg_rbx = ctx.rbx
register_of ctx reg_rcx = ctx.rcx
register_of ctx reg_rdx = ctx.rdx
register_of ctx reg_rsi = ctx.rsi
register_of ctx reg_rdi = ctx.rdi
register_of ctx reg_rbp = ctx.rbp
register_of ctx reg_r8 = ctx.r8
register_of ctx reg_r9 = ctx.r9
register_of ctx reg_r10 = ctx.r10
register_of ctx reg_r11 = ctx.r11
register_of ctx reg_r12 = ctx.r12
register_of ctx reg_r13 = ctx.r13
register_of ctx reg_r14 = ctx.r14
register_of ctx reg_r15 = ctx.r15

abbrev pub frame_of : IsrContext → InterruptFrame
frame_of ctx = record {
  rip = ctx.rip;
  cs = ctx.cs;
  rflags = ctx.rflags;
  rsp = ctx.rsp;
  ss = ctx.ss;
}

-- The program goes on in the context `ctx`, on the stack that it had, and the kernel is in state `s`.
pub record Resumes {S : Type 0} (s : S) (ctx : IsrContext) (below : List ℕ)
    (r : Machine S × Option InterruptFrame) : Type 0 where
  pub registers : (q : Reg) → r.0.regs q ≡ register_of ctx q
  pub stack : r.0.stack ≡ below
  pub state : r.0.state ≡ s
  pub frame : r.1 ≡ some (frame_of ctx)

module _ {S : Type 0} (hs : Handlers S) (clobber : (Reg → ℕ) → Reg → ℕ) (regs : Reg → ℕ) (s : S)
    (limit v e : ℕ) (f : InterruptFrame) (below : List ℕ) where
  abbrev at_common : Machine S
  at_common = record {
    limit = limit;
    regs = regs;
    stack = v ∷ e ∷ f.rip ∷ f.cs ∷ f.rflags ∷ f.rsp ∷ f.ss ∷ below;
    state = s;
  }

  abbrev handled : S × IsrContext × Bool
  handled = interrupt_dispatch hs s (context regs v e f)

  -- The stack pointer at the call, below the fifteen registers and the seven words of the interrupt.
  abbrev called_at : ℕ
  called_at = stack_pointer limit (words_of (context regs v e f) ++ below)

  common_registers :
      (q : Reg) → (run hs clobber isr_common at_common).0.regs q ≡ register_of handled.1 q
  unfolding run
  common_registers reg_rax = rw (==_self called_at) refl
  common_registers reg_rbx = rw (==_self called_at) refl
  common_registers reg_rcx = rw (==_self called_at) refl
  common_registers reg_rdx = rw (==_self called_at) refl
  common_registers reg_rsi = rw (==_self called_at) refl
  common_registers reg_rdi = rw (==_self called_at) refl
  common_registers reg_rbp = rw (==_self called_at) refl
  common_registers reg_r8 = rw (==_self called_at) refl
  common_registers reg_r9 = rw (==_self called_at) refl
  common_registers reg_r10 = rw (==_self called_at) refl
  common_registers reg_r11 = rw (==_self called_at) refl
  common_registers reg_r12 = rw (==_self called_at) refl
  common_registers reg_r13 = rw (==_self called_at) refl
  common_registers reg_r14 = rw (==_self called_at) refl
  common_registers reg_r15 = rw (==_self called_at) refl

  common-Resumes : Resumes handled.0 handled.1 below (run hs clobber isr_common at_common)
  unfolding run
  common-Resumes = record {
    registers = common_registers;
    stack = rw (==_self called_at) refl;
    state = rw (==_self called_at) refl;
    frame = rw (==_self called_at) refl;
  }

-- When the processor has delivered interrupt `v`, with an error code exactly where the stub takes it to
-- have one, the stub calls `interrupt_dispatch` on the address of a context that holds the interrupted program's
-- registers and frame, the vector and the error code, which is 0 without one; and then, whatever
-- registers the handler has used, the program goes on with the registers and the frame that the handler
-- left in that context, and with the stack below as it was.
pub isr-Resumes :
    {S : Type 0} (hs : Handlers S) (clobber : (Reg → ℕ) → Reg → ℕ) (regs : Reg → ℕ) (s : S)
    (limit v e : ℕ) (f : InterruptFrame) (below : List ℕ)
    → Resumes
        (interrupt_dispatch hs s (context regs v (if has_err v then e else 0) f)).0
        (interrupt_dispatch hs s (context regs v (if has_err v then e else 0) f)).1
        below
        (run hs clobber (isr v) (record {
          limit = limit;
          regs = regs;
          stack = delivered (has_err v) e f below;
          state = s;
        }))
unfolding run
isr-Resumes hs clobber regs s limit v e f below = elim (Bool-cases (has_err v)) [
  | inl q ↦ rw q (common-Resumes hs clobber regs s limit v e f below)
  | inr q ↦ rw q (common-Resumes hs clobber regs s limit v 0 f below)
]

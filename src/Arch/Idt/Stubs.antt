-- ===== src/Arch/Idt/Stubs.antt =====
-- The entry stubs of `src/kern/arch/x86_64/idt.rs`: their instructions, and what a processor does at
-- each of them. A stack is the list of its words from the stack pointer upwards, and `jmp` to the common
-- part is what follows the list of a stub.
use package.avaria.Prelude.{
  ℕ, ◌==◌, Bool, ◌||◌, if◌then◌else◌, Option, none, some, List, [], ◌∷◌, ◌++◌,
}
use package.avaria.Prelude.{drop, get_or, length, ◌-◌, ◌*◌}
use package.avaria.Arch.Context.{IsrContext}
use package.avaria.Arch.Idt.{Handlers, interrupt_dispatch}

-- The registers that the stubs save.
pub data Reg : Type 0 where
  reg_rax reg_rbx reg_rcx reg_rdx reg_rsi reg_rdi reg_rbp reg_r8 reg_r9 reg_r10 reg_r11 reg_r12
        reg_r13 reg_r14 reg_r15 :
      Reg

abbrev reg_index : Reg → ℕ
reg_index reg_rax = 0
reg_index reg_rbx = 1
reg_index reg_rcx = 2
reg_index reg_rdx = 3
reg_index reg_rsi = 4
reg_index reg_rdi = 5
reg_index reg_rbp = 6
reg_index reg_r8 = 7
reg_index reg_r9 = 8
reg_index reg_r10 = 9
reg_index reg_r11 = 10
reg_index reg_r12 = 11
reg_index reg_r13 = 12
reg_index reg_r14 = 13
reg_index reg_r15 = 14

-- The instructions that the stubs use; `add_rsp` counts words of 8 bytes.
pub data Instr : Type 0 where
  push_imm : ℕ → Instr
  push : Reg → Instr
  pop : Reg → Instr
  mov_rdi_rsp : Instr
  call_dispatch : Instr
  add_rsp : ℕ → Instr
  iretq : Instr

-- What the processor saves on an interrupt and what `iretq` takes back.
pub record InterruptFrame : Type 0 where
  pub rip : ℕ
  pub cs : ℕ
  pub rflags : ℕ
  pub rsp : ℕ
  pub ss : ℕ

-- The stack ends at the address `limit`.
pub record Machine (S : Type 0) : Type 0 where
  pub limit : ℕ
  pub regs : Reg → ℕ
  pub stack : List ℕ
  pub state : S

abbrev put : (Reg → ℕ) → Reg → ℕ → Reg → ℕ
put regs r v q = if reg_index q == reg_index r then v else regs q

-- The words at the stack pointer as an `IsrContext`, and back.
abbrev context_at : List ℕ → IsrContext
context_at ws = record {
  r15 = get_or ws 0 0;
  r14 = get_or ws 1 0;
  r13 = get_or ws 2 0;
  r12 = get_or ws 3 0;
  r11 = get_or ws 4 0;
  r10 = get_or ws 5 0;
  r9 = get_or ws 6 0;
  r8 = get_or ws 7 0;
  rbp = get_or ws 8 0;
  rdi = get_or ws 9 0;
  rsi = get_or ws 10 0;
  rdx = get_or ws 11 0;
  rcx = get_or ws 12 0;
  rbx = get_or ws 13 0;
  rax = get_or ws 14 0;
  vector = get_or ws 15 0;
  error_code = get_or ws 16 0;
  rip = get_or ws 17 0;
  cs = get_or ws 18 0;
  rflags = get_or ws 19 0;
  rsp = get_or ws 20 0;
  ss = get_or ws 21 0;
}

abbrev pub words_of : IsrContext → List ℕ
words_of ctx =
    ctx.r15 ∷ ctx.r14 ∷ ctx.r13 ∷ ctx.r12 ∷ ctx.r11 ∷ ctx.r10 ∷ ctx.r9 ∷ ctx.r8 ∷ ctx.rbp ∷ ctx.rdi
    ∷ ctx.rsi ∷ ctx.rdx ∷ ctx.rcx ∷ ctx.rbx ∷ ctx.rax ∷ ctx.vector ∷ ctx.error_code ∷ ctx.rip
    ∷ ctx.cs ∷ ctx.rflags ∷ ctx.rsp ∷ ctx.ss ∷ []

abbrev frame_at : List ℕ → InterruptFrame
frame_at ws = record {
  rip = get_or ws 0 0;
  cs = get_or ws 1 0;
  rflags = get_or ws 2 0;
  rsp = get_or ws 3 0;
  ss = get_or ws 4 0;
}

abbrev pub isr_common : List Instr
isr_common =
    push reg_rax
    ∷ push reg_rbx
    ∷ push reg_rcx
    ∷ push reg_rdx
    ∷ push reg_rsi
    ∷ push reg_rdi
    ∷ push reg_rbp
    ∷ push reg_r8
    ∷ push reg_r9
    ∷ push reg_r10
    ∷ push reg_r11
    ∷ push reg_r12
    ∷ push reg_r13
    ∷ push reg_r14
    ∷ push reg_r15
    ∷ mov_rdi_rsp
    ∷ call_dispatch
    ∷ pop reg_r15
    ∷ pop reg_r14
    ∷ pop reg_r13
    ∷ pop reg_r12
    ∷ pop reg_r11
    ∷ pop reg_r10
    ∷ pop reg_r9
    ∷ pop reg_r8
    ∷ pop reg_rbp
    ∷ pop reg_rdi
    ∷ pop reg_rsi
    ∷ pop reg_rdx
    ∷ pop reg_rcx
    ∷ pop reg_rbx
    ∷ pop reg_rax
    ∷ add_rsp 2
    ∷ iretq
    ∷ []

abbrev pub isr_no_err : ℕ → List Instr
isr_no_err num = push_imm 0 ∷ push_imm num ∷ isr_common

abbrev pub isr_err : ℕ → List Instr
isr_err num = push_imm num ∷ isr_common

-- The stubs whose exception comes with an error code.
abbrev pub has_err : ℕ → Bool
has_err v =
    v == 8 || v == 10 || v == 11 || v == 12 || v == 13 || v == 14 || v == 17 || v == 21 || v == 30

abbrev pub isr : ℕ → List Instr
isr v = if has_err v then isr_err v else isr_no_err v

-- The address of the last word that was pushed.
pub stack_pointer : ℕ → List ℕ → ℕ
stack_pointer limit stack = limit - 8 * length stack

-- A run of the instructions, up to the frame that `iretq` takes. The handler takes its context at the
-- address in `rdi`, which has to be the stack pointer: without it the run has no end. It changes the words
-- of the context in place, and leaves registers as it likes: `clobber` is what it makes of them.
module _ {S : Type 0} (hs : Handlers S) (clobber : (Reg → ℕ) → Reg → ℕ) where
  abbrev call : Machine S → Machine S
  call m =
      let r = interrupt_dispatch hs m.state (context_at m.stack) in
      record m { regs = clobber m.regs; stack = words_of r.1 ++ drop 22 m.stack; state = r.0 }

  unfoldable pub run : List Instr → Machine S → Machine S × Option InterruptFrame
  run [] m = (m, none)
  run (push_imm v ∷ is) m = run is (record m { stack = v ∷ m.stack })
  run (push r ∷ is) m = run is (record m { stack = m.regs r ∷ m.stack })
  run (pop r ∷ is) m =
      run is (record m { regs = put m.regs r (get_or m.stack 0 0); stack = drop 1 m.stack })
  run (mov_rdi_rsp ∷ is) m =
      run is (record m { regs = put m.regs reg_rdi (stack_pointer m.limit m.stack) })
  run (call_dispatch ∷ is) m =
      let after = run is (call m) in
      if m.regs reg_rdi == stack_pointer m.limit m.stack then after else (m, none)
  run (add_rsp n ∷ is) m = run is (record m { stack = drop n m.stack })
  run (iretq ∷ is) m = (record m { stack = drop 5 m.stack }, some (frame_at m.stack))

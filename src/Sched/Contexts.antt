-- ===== src/Sched/Contexts.antt =====
-- The registers of a task across an interruption (`src/kern/sched.rs`).
use avaria.Prelude.{◌≡◌, refl}
use avaria.Arch.Context.{IsrContext}
use avaria.Sched.{Task, save_ctx, load_ctx}

-- Two contexts agree on the registers that a task keeps.
pub record SameRegisters (a b : IsrContext) : Type 0 where
  pub rip : a.rip ≡ b.rip
  pub rsp : a.rsp ≡ b.rsp
  pub rflags : a.rflags ≡ b.rflags
  pub rax : a.rax ≡ b.rax
  pub rbx : a.rbx ≡ b.rbx
  pub rcx : a.rcx ≡ b.rcx
  pub rdx : a.rdx ≡ b.rdx
  pub rsi : a.rsi ≡ b.rsi
  pub rdi : a.rdi ≡ b.rdi
  pub rbp : a.rbp ≡ b.rbp
  pub r8 : a.r8 ≡ b.r8
  pub r9 : a.r9 ≡ b.r9
  pub r10 : a.r10 ≡ b.r10
  pub r11 : a.r11 ≡ b.r11
  pub r12 : a.r12 ≡ b.r12
  pub r13 : a.r13 ≡ b.r13
  pub r14 : a.r14 ≡ b.r14
  pub r15 : a.r15 ≡ b.r15

-- What `save_ctx` took from one interruption `load_ctx` gives back in another: every register that
-- a task keeps. The code and stack segments become the kernel's, the vector and the error code of
-- the second interruption stay, and so do the state, number, stack and name of the task.
pub load_ctx-save_ctx :
    (t : Task) (at_save at_load : IsrContext)
    → SameRegisters (load_ctx (save_ctx t at_save) at_load) at_save
      × ((load_ctx (save_ctx t at_save) at_load).cs ≡ 0x08)
      × ((load_ctx (save_ctx t at_save) at_load).ss ≡ 0x10)
      × ((load_ctx (save_ctx t at_save) at_load).vector ≡ at_load.vector)
      × ((load_ctx (save_ctx t at_save) at_load).error_code ≡ at_load.error_code)
      × ((save_ctx t at_save).state ≡ t.state)
      × ((save_ctx t at_save).id ≡ t.id)
      × ((save_ctx t at_save).stack_base ≡ t.stack_base)
      × ((save_ctx t at_save).stack_size ≡ t.stack_size)
      × ((save_ctx t at_save).name ≡ t.name)
unfolding load_ctx save_ctx
load_ctx-save_ctx t at_save at_load = (
  record {
    rip = refl;
    rsp = refl;
    rflags = refl;
    rax = refl;
    rbx = refl;
    rcx = refl;
    rdx = refl;
    rsi = refl;
    rdi = refl;
    rbp = refl;
    r8 = refl;
    r9 = refl;
    r10 = refl;
    r11 = refl;
    r12 = refl;
    r13 = refl;
    r14 = refl;
    r15 = refl;
  },
  refl,
  refl,
  refl,
  refl,
  refl,
  refl,
  refl,
  refl,
  refl,
)

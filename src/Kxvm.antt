-- ===== src/Kxvm.antt =====
-- `src/kern/kxvm/syscall.rs`: the system calls of user programs, by interrupt 0x80. The message of
-- `init` on the serial port is left out.
pub mod Calls
mod Tests
use avaria.Prelude.{
  ℕ, zero, suc, ◌+◌, ◌-◌, ◌^◌, ◌%◌, ◌==◌, ltb, not, ◌&&◌, if◌then◌else◌, List, [], ◌∷◌, ◌++◌,
}
use avaria.Arch.Context.{IsrContext}
use avaria.Arch.Idt.{Idt, Handlers, CtxHandler, register_ctx_handler, set_gate_dpl}
use avaria.Arch.Pic.{Writes}
use avaria.Serial.{puts, dec}

abbrev pub sys_exit : ℕ
sys_exit = 0

abbrev pub sys_serial_write : ℕ
sys_serial_write = 1

-- Memory by bytes, and what has been written to the serial port.
pub record Kernel : Type 0 where
  pub memory : ℕ → ℕ
  pub serial : Writes

-- `from_raw_parts(ptr, len)`.
pub slice : (ℕ → ℕ) → ℕ → ℕ → List ℕ
slice memory ptr zero = []
slice memory ptr (suc len) = memory (ptr % 2 ^ 64) ∷ slice memory (ptr + 1) len

-- `syscall: exit(`, the code, `)` and the end of the line.
abbrev pub exit_message : ℕ → Writes
exit_message code =
    puts (
      b's' ∷ b'y' ∷ b's' ∷ b'c' ∷ b'a' ∷ b'l' ∷ b'l' ∷ b':' ∷ b' ' ∷ b'e' ∷ b'x' ∷ b'i' ∷ b't'
      ∷ b'(' ∷ [])
    ++ (puts (dec code) ++ puts (b')' ∷ 10 ∷ []))

-- `syscall: unknown nr=`, the number, and the end of the line.
abbrev pub unknown_message : ℕ → Writes
unknown_message nr =
    puts (
      b's' ∷ b'y' ∷ b's' ∷ b'c' ∷ b'a' ∷ b'l' ∷ b'l' ∷ b':' ∷ b' ' ∷ b'u' ∷ b'n' ∷ b'k' ∷ b'n'
      ∷ b'o' ∷ b'w' ∷ b'n' ∷ b' ' ∷ b'n' ∷ b'r' ∷ b'=' ∷ [])
    ++ (puts (dec nr) ++ puts (10 ∷ []))

-- `trampoline` is the address of `hlt_trampoline`, `stack` that of the end of `RETURN_STACK`.
module _ (trampoline stack : ℕ) where
  abbrev pub exit : IsrContext → IsrContext
  exit ctx = record ctx { cs = 0x08; ss = 0x10; rip = trampoline; rflags = 0x202; rsp = stack }

  abbrev pub serial_write : Kernel → ℕ → ℕ → Kernel
  serial_write k ptr len =
      if not (ptr == 0) && ltb len 4096
      then record k { serial = k.serial ++ puts (slice k.memory ptr len) }
      else k

  unfoldable pub syscall_dispatch : CtxHandler Kernel
  syscall_dispatch k ctx =
      if ctx.rax == sys_exit
      then (record k { serial = k.serial ++ exit_message ctx.rdi }, exit ctx)
      else if ctx.rax == sys_serial_write
      then (serial_write k ctx.rdi ctx.rsi, record ctx { rax = 0 })
      else (
        record k { serial = k.serial ++ unknown_message ctx.rax },
        record ctx { rax = 2 ^ 64 - 1 },
      )

  unfoldable pub init : Idt → Handlers Kernel → Idt × Handlers Kernel
  init idt hs = (set_gate_dpl idt 0x80 3, register_ctx_handler hs 0x80 syscall_dispatch)

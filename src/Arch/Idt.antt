-- ===== src/Arch/Idt.antt =====
-- `src/kern/arch/x86_64/idt.rs`: the gates of the interrupt table, and the handlers that
-- `interrupt_dispatch` calls. The addresses of the entry stubs are arguments, and the loading of the table
-- is left out.
pub mod Gates
pub mod Dispatch
pub mod Stubs
pub mod Resume
mod Tests
use package.avaria.Prelude.{
  ℕ, zero, suc, ◌+◌, ◌*◌, ◌/◌, ◌%◌, ◌^◌, bit_and, bit_or, Bool, true, false, ltb,
}
use package.avaria.Prelude.{if◌then◌else◌, Option, none, some, List, [], ◌∷◌, get_or, set, update}
use package.avaria.Arch.Context.{IsrContext}

abbrev pub idt_entries : ℕ
idt_entries = 256

pub record IdtEntry : Type 0 where
  pub offset_low : ℕ
  pub selector : ℕ
  pub ist : ℕ
  pub type_attr : ℕ
  pub offset_mid : ℕ
  pub offset_high : ℕ
  pub reserved : ℕ

abbrev pub empty_gate : IdtEntry
empty_gate = record {
  offset_low = 0;
  selector = 0;
  ist = 0;
  type_attr = 0;
  offset_mid = 0;
  offset_high = 0;
  reserved = 0;
}

unfoldable pub set_handler : IdtEntry → ℕ → IdtEntry
set_handler e handler = record {
  offset_low = handler % 2 ^ 16;
  offset_mid = handler / 2 ^ 16 % 2 ^ 16;
  offset_high = handler / 2 ^ 32 % 2 ^ 32;
  selector = 0x08;
  type_attr = 0x8E;
  ist = 0;
  reserved = 0;
}

unfoldable pub set_dpl : IdtEntry → ℕ → IdtEntry
set_dpl e dpl = record e {
  type_attr = bit_or (bit_and e.type_attr 0x9F) (bit_and dpl 3 * 2 ^ 5 % 2 ^ 8);
}

-- `IDT` is its list of 256 gates.
abbrev pub Idt : Type 0
Idt = List IdtEntry

abbrev pub gate : Idt → ℕ → IdtEntry
gate idt i = get_or idt i empty_gate

unfoldable pub set_gate_dpl : Idt → ℕ → ℕ → Idt
unfolding set_dpl
set_gate_dpl idt vector dpl =
    if ltb vector idt_entries then set idt vector (set_dpl (gate idt vector) dpl) else idt

-- The loop of `init`: the gates from `i` on.
pub set_handlers : Idt → ℕ → List ℕ → Idt
unfolding set_handler
set_handlers idt i [] = idt
set_handlers idt i (handler ∷ rest) =
    set_handlers (set idt i (set_handler (gate idt i) handler)) (i + 1) rest

-- `handlers` are the addresses of `isr0` to `isr47`, and `isr128` is that of the last stub.
unfoldable pub init : Idt → List ℕ → ℕ → Idt
unfolding set_handlers set_handler
init idt handlers isr128 =
    let idt' = set_handlers idt 0 handlers in set idt' 0x80 (set_handler (gate idt' 0x80) isr128)

-- Handlers are functions on the state `S` of the kernel: with the vector and the error code, or with
-- the whole context, which they may change.
abbrev pub Handler : Type 0 → Type 0
Handler S = S → ℕ → ℕ → S

abbrev pub CtxHandler : Type 0 → Type 0
CtxHandler S = S → IsrContext → S × IsrContext

-- `ISR_HANDLERS` and `ISR_CTX_HANDLERS`.
pub record Handlers (S : Type 0) : Type 0 where
  pub isr_handlers : ℕ → Option (Handler S)
  pub isr_ctx_handlers : ℕ → Option (CtxHandler S)

module _ {S : Type 0} where
  unfoldable pub register_handler : Handlers S → ℕ → Handler S → Handlers S
  register_handler hs vector handler =
      if ltb vector idt_entries
      then record hs { isr_handlers = update hs.isr_handlers vector (some handler) }
      else hs

  unfoldable pub register_ctx_handler : Handlers S → ℕ → CtxHandler S → Handlers S
  register_ctx_handler hs vector handler =
      if ltb vector idt_entries
      then record hs { isr_ctx_handlers = update hs.isr_ctx_handlers vector (some handler) }
      else hs

  -- The new state and context, and whether the exception is reported on the serial port.
  abbrev pub call_handler : Option (Handler S) → S → IsrContext → S × IsrContext × Bool
  call_handler (some handler) s ctx = (handler s ctx.vector ctx.error_code, ctx, false)
  call_handler none s ctx = (s, ctx, ltb ctx.vector 32)

  abbrev pub call_ctx_handler :
      Option (CtxHandler S) → Option (Handler S) → S → IsrContext → S × IsrContext × Bool
  call_ctx_handler (some handler) other s ctx = let (s', ctx') = handler s ctx in (s', ctx', false)
  call_ctx_handler none other s ctx = call_handler other s ctx

  unfoldable pub interrupt_dispatch : Handlers S → S → IsrContext → S × IsrContext × Bool
  interrupt_dispatch hs s ctx =
      if ltb ctx.vector idt_entries
      then call_ctx_handler (hs.isr_ctx_handlers ctx.vector) (hs.isr_handlers ctx.vector) s ctx
      else (s, ctx, ltb ctx.vector 32)

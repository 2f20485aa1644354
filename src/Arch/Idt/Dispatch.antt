-- ===== src/Arch/Idt/Dispatch.antt =====
-- Which handler an interrupt reaches (`interrupt_dispatch` of `src/kern/arch/x86_64/idt.rs`).
use package.avaria.Prelude.{
  ℕ, ◌<◌, ◌≡◌, ◌≢◌, refl, sym, ap, ◌∙◌, arith, true, false, ltb, lt→ltb, some, update,
}
use package.avaria.Prelude.{get-update_self, get-update_ne}
use package.avaria.Arch.Context.{IsrContext}
use package.avaria.Arch.Idt.{Handlers, CtxHandler, register_ctx_handler, interrupt_dispatch}

-- What an interrupt does once `handler` is registered for `vector`.
pub record Registered {S : Type 0} (hs : Handlers S) (vector : ℕ) (handler : CtxHandler S) (s : S)
    (ctx : IsrContext) : Type 0 where
  pub called :
      ctx.vector ≡ vector
      → interrupt_dispatch (register_ctx_handler hs vector handler) s ctx
        ≡ ((handler s ctx).0, (handler s ctx).1, false)
  pub others :
      ctx.vector ≢ vector
      → interrupt_dispatch (register_ctx_handler hs vector handler) s ctx
        ≡ interrupt_dispatch hs s ctx

-- After a handler with the context is registered for a vector below 256, an interrupt of the vector
-- runs that handler, whatever other handlers the vector has, and reports nothing; an interrupt of any
-- other vector does what it did before.
pub interrupt_dispatch-Registered :
    {S : Type 0} (hs : Handlers S) (vector : ℕ) (handler : CtxHandler S) (s : S) (ctx : IsrContext)
    → vector < 256
    → Registered hs vector handler s ctx
unfolding interrupt_dispatch register_ctx_handler
interrupt_dispatch-Registered hs vector handler s ctx lt = record {
  called = λ e.
      let small : ltb ctx.vector 256 ≡ true = lt→ltb ctx.vector 256 (omega arith) in
      let got : update hs.isr_ctx_handlers vector (some handler) ctx.vector ≡ some handler =
        ap (update hs.isr_ctx_handlers vector (some handler)) e
        ∙ get-update_self hs.isr_ctx_handlers vector (some handler) in
      rw (lt→ltb vector 256 lt, small, got) refl;
  others = λ ne.
      let got : update hs.isr_ctx_handlers vector (some handler) ctx.vector
          ≡ hs.isr_ctx_handlers ctx.vector =
        get-update_ne hs.isr_ctx_handlers vector ctx.vector (some handler) (λ e. ne (sym e)) in
      rw (lt→ltb vector 256 lt, got) refl;
}

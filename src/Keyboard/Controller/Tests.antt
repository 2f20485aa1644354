-- ===== src/Keyboard/Controller/Tests.antt =====
-- A controller that passes its self-test.
use package.avaria.Prelude.{ℕ, suc, ◌≡◌, refl, none, [], ◌∷◌}
use package.avaria.Arch.Pic.{clear_mask}
use package.avaria.Arch.Idt.{Handlers, CtxHandler}
use package.avaria.Keyboard.Controller.{
  Ports, init, self_test, read_data, wait_output, unmask, reset_keyboard, flush_output, send_data,
  wait_input, send_command,
}
use package.avaria.Keyboard.Controller.Handshake.{Handshake, init-Handshake}

abbrev at_boot : Ports
at_boot = record { reads = 0; out = [] }

abbrev idle_handlers : Handlers ℕ
idle_handlers = record { isr_handlers = λ _. none; isr_ctx_handlers = λ _. none }

abbrev irq_handler : CtxHandler ℕ
irq_handler n ctx = (suc n, ctx)

-- Every read gives 0x55: the output is full, the input is empty, and the test has passed.
abbrev passes : ℕ → ℕ → ℕ
passes n port = 0x55

handshake_writes :
    (init passes idle_handlers irq_handler at_boot).0.out
    ≡ (0x64, 0xAD)
      ∷ (0x64, 0xA7)
      ∷ (0x64, 0x20)
      ∷ (0x64, 0x60)
      ∷ (0x60, 0x45)
      ∷ (0x64, 0xAA)
      ∷ (0x64, 0x60)
      ∷ (0x60, 0x45)
      ∷ (0x64, 0xAE)
      ∷ (0x60, 0xFF)
      ∷ (0x21, 0x55)
      ∷ []
unfolding init self_test read_data wait_output unmask reset_keyboard flush_output send_data
    wait_input send_command clear_mask
handshake_writes = refl

init-Handshake_example : Handshake passes idle_handlers irq_handler at_boot
init-Handshake_example = init-Handshake passes idle_handlers irq_handler at_boot

-- ===== src/Keyboard/Controller.antt =====
-- `init` of `src/kern/drv/ps2/mod.rs`: the handshake with the keyboard controller. What the controller
-- answers is a parameter: the value of each read, by its number and its port.
pub mod Steps
pub mod Handshake
mod Tests
use package.avaria.Prelude.{
  ℕ, zero, suc, ◌+◌, ◌-◌, ◌%◌, ◌==◌, Bool, true, false, if◌then◌else◌, List, [], ◌∷◌, ◌++◌,
}
use package.avaria.Prelude.{bit_and, bit_or, and_not, with_bit}
use package.avaria.Arch.Pic.{Writes, clear_mask}
use package.avaria.Arch.Idt.{Handlers, CtxHandler, register_ctx_handler}
use package.avaria.Keyboard.{kb_irq}

abbrev pub data_port : ℕ
data_port = 0x60

-- `STATUS_PORT` and `CMD_PORT`.
abbrev pub cmd_port : ℕ
cmd_port = 0x64

abbrev pub cmd_read_config : ℕ
cmd_read_config = 0x20

abbrev pub cmd_write_config : ℕ
cmd_write_config = 0x60

abbrev pub cmd_disable_port1 : ℕ
cmd_disable_port1 = 0xAD

abbrev pub cmd_disable_port2 : ℕ
cmd_disable_port2 = 0xA7

abbrev pub cmd_enable_port1 : ℕ
cmd_enable_port1 = 0xAE

abbrev pub cmd_self_test : ℕ
cmd_self_test = 0xAA

abbrev pub kb_cmd_reset : ℕ
kb_cmd_reset = 0xFF

abbrev pub kb_response_ack : ℕ
kb_response_ack = 0xFA

abbrev pub kb_vector : ℕ
kb_vector = 33

-- How many reads have been made, and what has been written.
pub record Ports : Type 0 where
  pub reads : ℕ
  pub out : Writes

abbrev pub M : Type 0 → Type 0
M A = Ports → Ports × A

infixl 5 ◌>>=◌ ◌>>◌
abbrev pub ◌>>=◌ : {A B : Type 0} → M A → (A → M B) → M B
◌>>=◌ m f p = f (m p).1 (m p).0

abbrev pub ◌>>◌ : {A B : Type 0} → M A → M B → M B
◌>>◌ m k p = k (m p).0

abbrev pub pure : {A : Type 0} → A → M A
pure a p = (p, a)

abbrev pub outb : ℕ → ℕ → M (Unit {0})
outb port val p = (record p { out = p.out ++ ((port, val) ∷ []) }, tt)

module _ (answer : ℕ → ℕ → ℕ) where
  abbrev pub inb : ℕ → M ℕ
  inb port p = (record p { reads = p.reads + 1 }, answer p.reads port % 256)

  -- The loop of `wait_input`, with the rounds left.
  pub wait_input : ℕ → M (Unit {0})
  wait_input zero = pure tt
  wait_input (suc rounds) = do
    status ← inb cmd_port
    let rest = wait_input rounds
    if bit_and status 2 == 0 then pure tt else rest

  -- The loop of `wait_output`.
  pub wait_output : ℕ → M Bool
  wait_output zero = pure false
  wait_output (suc rounds) = do
    status ← inb cmd_port
    let rest = wait_output rounds
    if bit_and status 1 == 0 then rest else pure true

  pub send_command : ℕ → M (Unit {0})
  send_command cmd = do wait_input 100000; outb cmd_port cmd

  pub send_data : ℕ → M (Unit {0})
  send_data val = do wait_input 100000; outb data_port val

  pub read_data : M ℕ
  read_data = do ready ← wait_output 100000; if ready then inb data_port else pure 0

  -- The loop of `flush_output`.
  pub flush_output : ℕ → M (Unit {0})
  flush_output zero = pure tt
  flush_output (suc rounds) = do
    status ← inb cmd_port
    let rest = flush_output rounds
    if bit_and status 1 == 0 then pure tt else (inb data_port >> rest)

  -- `init` up to the result of the self-test: the configuration it has written, and the result.
  pub self_test : M (ℕ × ℕ)
  self_test = do
    send_command cmd_disable_port1
    send_command cmd_disable_port2
    flush_output 32
    send_command cmd_read_config
    read ← read_data
    let config = and_not (with_bit read 0) 0x10
    send_command cmd_write_config
    send_data config
    send_command cmd_self_test
    test_result ← read_data
    pure (config, test_result)

  -- The rest of `init` on the ports, after a self-test that passed. The second answer to a reset is read
  -- only after an acknowledgement.
  pub reset_keyboard : ℕ → M (Unit {0})
  reset_keyboard config = do
    send_command cmd_write_config
    send_data config
    send_command cmd_enable_port1
    send_data kb_cmd_reset
    ack ← read_data
    (if ack == kb_response_ack then read_data else pure 0)
    flush_output 32

  -- `clear_mask` reads the mask of the first controller, and writes it.
  pub unmask : M (Unit {0})
  unmask p = (
    record p {
      reads = p.reads + 1;
      out = p.out ++ clear_mask (λ port. answer p.reads port % 256) kb_irq;
    },
    tt,
  )

  pub init : {S : Type 0} → Handlers S → CtxHandler S → Ports → Ports × Handlers S
  init hs irq_handler p =
      let (p', (config, test_result)) = self_test p in
      if test_result == 0x55
      then ((unmask (reset_keyboard config p').0).0, register_ctx_handler hs kb_vector irq_handler)
      else (p', hs)

-- ===== src/Keyboard/Controller/Handshake.antt =====
-- What `init` of `src/kern/drv/ps2/mod.rs` writes and reads, whatever the controller answers.
use package.avaria.Prelude.{
  ℕ, ◌+◌, ◌%◌, ◌≤◌, ◌≡◌, ◌≢◌, inl, inr, refl, ◌∙◌, arith, ◌==◌, ≡→==, ≢→==, Bool-cases, true, false,
}
use package.avaria.Prelude.{[], ◌∷◌, ◌++◌, append_assoc, and_not, with_bit}
use package.avaria.Prelude.{
  test_bit, test_bit-with_bit_self, test_bit-and_not_self, test_bit-and_not_ne,
}
use package.avaria.Arch.Idt.{Handlers, CtxHandler, register_ctx_handler}
use package.avaria.Keyboard.Controller.{Ports, self_test, reset_keyboard, init}
use package.avaria.Keyboard.Controller.Steps.{
  with_irq, with_irq-others, opening, closing, Reply, self_test-out, self_test-reads,
  self_test-Replies, reset_keyboard-ge, reset_keyboard-out, reset_keyboard-reads, unmask-out,
  unmask-reads,
}

-- A run of `init`: what it heard, wrote and registered, and how often it read.
pub record Handshake {S : Type 0} (answer : ℕ → ℕ → ℕ) (hs : Handlers S)
    (irq_handler : CtxHandler S) (p : Ports) : Type 0 where
  pub config : ℕ
  pub read : ℕ
  pub test_result : ℕ
  pub asked_at : ℕ
  pub read_at : ℕ
  pub tested_at : ℕ
  pub done_at : ℕ
  pub in_order : (p.reads ≤ asked_at) × (read_at ≤ tested_at)
  pub reply : Reply answer asked_at read read_at
  pub test_reply : Reply answer tested_at test_result done_at
  pub irq_on : test_bit config 0 ≡ true
  pub clock_on : test_bit config 4 ≡ false
  pub others : (i : ℕ) → i ≢ 0 → i ≢ 4 → test_bit config i ≡ test_bit read i
  pub failed :
      test_result ≢ 0x55
      → ((init answer hs irq_handler p).0.out ≡ p.out ++ opening config)
        × ((init answer hs irq_handler p).1 ≡ hs)
  pub passed :
      test_result ≡ 0x55
      → (at : ℕ) × (done_at ≤ at)
        × ((init answer hs irq_handler p).0.out
            ≡ p.out
              ++ (opening config
                  ++ (closing config ++ ((0x21, and_not (answer at 0x21 % 256) 2) ∷ []))))
        × ((init answer hs irq_handler p).1 ≡ register_ctx_handler hs 33 irq_handler)
  pub bounded : (init answer hs irq_handler p).0.reads ≤ p.reads + 1400133

-- Whatever the controller answers, `init` reads two replies one after the other, each from the data port
-- right after the status port first says that there is output, or 0 if it does not in 100000 reads. The
-- first is the configuration, which it writes back with the interrupt of the first port on, its clock on
-- and no other bit changed; the second is the answer to the self-test. It makes at most 1400133 reads. If
-- the self-test does not answer 0x55, it stops there: no handler is registered and the line stays masked.
-- If it does, the port is enabled, the keyboard is reset, the handler is registered for vector 33 and
-- the bit of line 1 alone is taken out of the mask that the interrupt controller answers after that.
pub init-Handshake :
    {S : Type 0} (answer : ℕ → ℕ → ℕ) (hs : Handlers S) (irq_handler : CtxHandler S) (p : Ports)
    → Handshake answer hs irq_handler p
unfolding init
init-Handshake answer hs irq_handler p =
    let replies = self_test-Replies answer p in
    let config = replies.config in
    record {
      config = with_irq replies.read;
      read = replies.read;
      test_result = (self_test answer p).1.1;
      asked_at = replies.asked_at;
      read_at = replies.read_at;
      tested_at = replies.tested_at;
      done_at = (self_test answer p).0.reads;
      in_order = (replies.begins, replies.later);
      reply = replies.reply;
      test_reply = replies.test_reply;
      irq_on =
          test_bit-and_not_ne (with_bit replies.read 0) 4 0 (λ e. cc)
          ∙ test_bit-with_bit_self replies.read 0;
      clock_on = test_bit-and_not_self (with_bit replies.read 0) 4;
      others = with_irq-others replies.read;
      failed = λ ne. rw (≢→== _ _ ne) (rw (self_test-out answer p, config) refl, refl);
      passed = λ e.
          let rest = reset_keyboard answer (self_test answer p).1.0 (self_test answer p).0 in
          (
            rest.0.reads,
            reset_keyboard-ge answer (self_test answer p).1.0 (self_test answer p).0,
            rw (≡→== _ _ e) (
                unmask-out answer rest.0
                ∙ simp (reset_keyboard-out answer, self_test-out answer, config, append_assoc)),
            rw (≡→== _ _ e) refl,
          );
      bounded = elim (Bool-cases ((self_test answer p).1.1 == 0x55)) [
        | inl e ↦ rw e (
            omega (arith, unmask-reads answer, reset_keyboard-reads answer, self_test-reads answer))
        | inr e ↦ rw e (omega (arith, self_test-reads answer p))
      ];
    }

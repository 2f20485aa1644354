-- ===== src/Keyboard/Controller/Steps.antt =====
-- What the steps of `init` of `src/kern/drv/ps2/mod.rs` write and read.
use package.avaria.Prelude.{
  ◌<◌, ==→≡, ==→≢, Bool, true, false, ℕ, zero, suc, ◌+◌, ◌*◌, ◌%◌, ◌≤◌, ◌≡◌, ◌≢◌, ◌⊎◌, inl, inr,
  refl, sym, ◌∙◌, arith, ◌==◌, Bool-cases,
}
use package.avaria.Prelude.{[], ◌∷◌, ◌++◌, append_assoc, bit_and, and_not, with_bit}
use package.avaria.Prelude.{test_bit, test_bit-with_bit_ne, test_bit-and_not_ne}
use package.avaria.Arch.Pic.{Writes, clear_mask}
use package.avaria.Keyboard.Controller.{
  Ports, wait_input, wait_output, send_command, send_data, read_data, flush_output, self_test,
  reset_keyboard, unmask, data_port, cmd_port,
}

-- The configuration that is written back, from the one that was read.
abbrev pub with_irq : ℕ → ℕ
with_irq read = and_not (with_bit read 0) 0x10

-- The writes before the configuration is read, up to the self-test, and after it.
abbrev pub set_config : ℕ → Writes
set_config config = (0x64, 0x60) ∷ (0x60, config) ∷ []

abbrev pub opening : ℕ → Writes
opening config =
    (0x64, 0xAD) ∷ (0x64, 0xA7) ∷ (0x64, 0x20) ∷ (set_config config ++ ((0x64, 0xAA) ∷ []))

abbrev pub closing : ℕ → Writes
closing config = set_config config ++ ((0x64, 0xAE) ∷ (0x60, 0xFF) ∷ [])

module _ (answer : ℕ → ℕ → ℕ) where
  -- What read number `n` of the status port says.
  abbrev pub IsEmpty : ℕ → Type 0
  IsEmpty n = bit_and (answer n 0x64 % 256) 1 ≡ 0

  -- One `read_data`, from read number `from` up to read number `to`: the status port is read until it says
  -- that there is output, and then the value is the next read of the data port; or it says so in none of
  -- 100000 reads, and the value is 0.
  pub data Reply (from value to : ℕ) : Type 0 where
    answered :
        (n : ℕ)
        → n < 100000
        → ((k : ℕ) → k < n → IsEmpty (from + k))
        → bit_and (answer (from + n) 0x64 % 256) 1 ≢ 0
        → value ≡ answer (from + n + 1) 0x60 % 256
        → to ≡ from + n + 2
        → Reply from value to
    silent :
        ((k : ℕ) → k < 100000 → IsEmpty (from + k))
        → value ≡ 0
        → to ≡ from + 100000
        → Reply from value to

  -- The same of `wait_output`, with `rounds` rounds.
  data Waited (rounds from : ℕ) (r : Ports × Bool) : Type 0 where
    full :
        (n : ℕ)
        → n < rounds
        → ((k : ℕ) → k < n → IsEmpty (from + k))
        → bit_and (answer (from + n) 0x64 % 256) 1 ≢ 0
        → r.0.reads ≡ from + n + 1
        → r.1 ≡ true
        → Waited rounds from r
    timed_out :
        ((k : ℕ) → k < rounds → IsEmpty (from + k))
        → r.0.reads ≡ from + rounds
        → r.1 ≡ false
        → Waited rounds from r

  first_too :
      (from n : ℕ)
      → IsEmpty from
      → ((k : ℕ) → k < n → IsEmpty (from + 1 + k))
      → (k : ℕ) → k < n + 1
      → IsEmpty (from + k)
  first_too from n e rest zero lt = rw (let q : from + 0 ≡ from = omega arith in q) e
  first_too from n e rest (suc k) lt =
      rw (let q : from + suc k ≡ from + 1 + k = omega arith in q) (rest k (omega arith))

  one_more :
      (rounds from : ℕ) (r : Ports × Bool)
      → IsEmpty from
      → Waited rounds (from + 1) r
      → Waited (suc rounds) from r
  one_more rounds from r e (full n lt before at reads ready) =
      full (n + 1) (omega arith) (first_too from n e before)
        (rw (let q : from + (n + 1) ≡ from + 1 + n = omega arith in q) at) (omega (arith, reads))
        ready
  one_more rounds from r e (timed_out all reads quiet) =
      timed_out (λ k lt. first_too from rounds e all k (omega arith)) (omega (arith, reads)) quiet

  wait_output-Waited :
      (rounds : ℕ) (p : Ports) → Waited rounds p.reads (wait_output answer rounds p)
  unfolding wait_output
  wait_output-Waited zero p = timed_out (λ k lt. absurd (omega arith)) (omega arith) refl
  wait_output-Waited (suc rounds) p =
      elim (Bool-cases (bit_and (answer p.reads cmd_port % 256) 1 == 0)) [
        | inl e ↦ rw e (
            one_more rounds p.reads _ (==→≡ _ 0 e)
              (wait_output-Waited rounds (record p { reads = p.reads + 1 })))
        | inr e ↦ rw e (
            full 0 (omega arith) (λ k lt. absurd (omega arith))
              (rw (let q : p.reads + 0 ≡ p.reads = omega arith in q) (==→≢ _ 0 e)) (omega arith)
              refl)
      ]

  read_data-Reply : (p : Ports) → Reply p.reads (read_data answer p).1 (read_data answer p).0.reads
  unfolding read_data
  read_data-Reply p = elim (wait_output-Waited 100000 p) [
    | full n lt before at reads ready ↦
        rw (ready, reads) (answered n lt before at refl (omega arith))
    | timed_out all reads quiet ↦ rw quiet (silent all refl reads)
  ]

  wait_input-ge : (rounds : ℕ) (p : Ports) → p.reads ≤ (wait_input answer rounds p).0.reads
  unfolding wait_input
  wait_input-ge zero p = omega arith
  wait_input-ge (suc rounds) p =
      let rest = wait_input-ge rounds (record p { reads = p.reads + 1 }) in
      elim (Bool-cases (bit_and (answer p.reads cmd_port % 256) 2 == 0)) [
        | inl e ↦ rw e (omega arith)
        | inr e ↦ rw e (omega (arith, rest))
      ]

  flush_output-ge : (rounds : ℕ) (p : Ports) → p.reads ≤ (flush_output answer rounds p).0.reads
  unfolding flush_output
  flush_output-ge zero p = omega arith
  flush_output-ge (suc rounds) p =
      let rest = flush_output-ge rounds (record p { reads = p.reads + 1 + 1 }) in
      elim (Bool-cases (bit_and (answer p.reads cmd_port % 256) 1 == 0)) [
        | inl e ↦ rw e (omega arith)
        | inr e ↦ rw e (omega (arith, rest))
      ]

  send_command-ge : (c : ℕ) (p : Ports) → p.reads ≤ (send_command answer c p).0.reads
  unfolding send_command
  send_command-ge c p = wait_input-ge 100000 p

  send_data-ge : (c : ℕ) (p : Ports) → p.reads ≤ (send_data answer c p).0.reads
  unfolding send_data
  send_data-ge c p = wait_input-ge 100000 p

  wait_input-quiet :
      (rounds : ℕ) (p : Ports)
      → ((wait_input answer rounds p).0.out ≡ p.out)
        × ((wait_input answer rounds p).0.reads ≤ p.reads + rounds)
  unfolding wait_input
  wait_input-quiet zero p = (refl, omega arith)
  wait_input-quiet (suc rounds) p =
      let rest = wait_input-quiet rounds (record p { reads = p.reads + 1 }) in
      elim (Bool-cases (bit_and (answer p.reads cmd_port % 256) 2 == 0)) [
        | inl e ↦ rw e (refl, omega arith)
        | inr e ↦ rw e (rest.0, omega (arith, rest.1))
      ]

  wait_output-quiet :
      (rounds : ℕ) (p : Ports)
      → ((wait_output answer rounds p).0.out ≡ p.out)
        × ((wait_output answer rounds p).0.reads ≤ p.reads + rounds)
  unfolding wait_output
  wait_output-quiet zero p = (refl, omega arith)
  wait_output-quiet (suc rounds) p =
      let rest = wait_output-quiet rounds (record p { reads = p.reads + 1 }) in
      elim (Bool-cases (bit_and (answer p.reads cmd_port % 256) 1 == 0)) [
        | inl e ↦ rw e (rest.0, omega (arith, rest.1))
        | inr e ↦ rw e (refl, omega arith)
      ]

  flush_output-quiet :
      (rounds : ℕ) (p : Ports)
      → ((flush_output answer rounds p).0.out ≡ p.out)
        × ((flush_output answer rounds p).0.reads ≤ p.reads + 2 * rounds)
  unfolding flush_output
  flush_output-quiet zero p = (refl, omega arith)
  flush_output-quiet (suc rounds) p =
      let rest = flush_output-quiet rounds (record p { reads = p.reads + 1 + 1 }) in
      elim (Bool-cases (bit_and (answer p.reads cmd_port % 256) 1 == 0)) [
        | inl e ↦ rw e (refl, omega arith)
        | inr e ↦ rw e (rest.0, omega (arith, rest.1))
      ]

  send_command-out :
      (c : ℕ) (p : Ports) → (send_command answer c p).0.out ≡ p.out ++ ((cmd_port, c) ∷ [])
  unfolding send_command
  send_command-out c p = rw ((wait_input-quiet 100000 p).0) refl

  send_data-out :
      (c : ℕ) (p : Ports) → (send_data answer c p).0.out ≡ p.out ++ ((data_port, c) ∷ [])
  unfolding send_data
  send_data-out c p = rw ((wait_input-quiet 100000 p).0) refl

  read_data-quiet :
      (p : Ports)
      → ((read_data answer p).0.out ≡ p.out) × ((read_data answer p).0.reads ≤ p.reads + 100001)
  unfolding read_data
  read_data-quiet p =
      let wait = wait_output-quiet 100000 p in
      elim (Bool-cases (wait_output answer 100000 p).1) [
        | inl e ↦ rw e (wait.0, omega (arith, wait.1))
        | inr e ↦ rw e (wait.0, omega (arith, wait.1))
      ]

  send_command-reads : (c : ℕ) (p : Ports) → (send_command answer c p).0.reads ≤ p.reads + 100000
  unfolding send_command
  send_command-reads c p = (wait_input-quiet 100000 p).1

  send_data-reads : (c : ℕ) (p : Ports) → (send_data answer c p).0.reads ≤ p.reads + 100000
  unfolding send_data
  send_data-reads c p = (wait_input-quiet 100000 p).1

  read_data-out : (p : Ports) → (read_data answer p).0.out ≡ p.out
  read_data-out p = (read_data-quiet p).0

  flush_output-out : (rounds : ℕ) (p : Ports) → (flush_output answer rounds p).0.out ≡ p.out
  flush_output-out rounds p = (flush_output-quiet rounds p).0

  read_data-reads : (p : Ports) → (read_data answer p).0.reads ≤ p.reads + 100001
  read_data-reads p = (read_data-quiet p).1

  flush_output-reads :
      (rounds : ℕ) (p : Ports) → (flush_output answer rounds p).0.reads ≤ p.reads + 2 * rounds
  flush_output-reads rounds p = (flush_output-quiet rounds p).1

  pub self_test-out :
      (p : Ports) → (self_test answer p).0.out ≡ p.out ++ opening (self_test answer p).1.0
  unfolding self_test
  self_test-out p =
      simp (send_command-out, send_data-out, read_data-out, flush_output-out, append_assoc)

  pub self_test-reads : (p : Ports) → (self_test answer p).0.reads ≤ p.reads + 800066
  unfolding self_test
  self_test-reads p =
      omega (arith, send_command-reads, send_data-reads, read_data-reads, flush_output-reads)

  -- The keyboard after its reset, up to the answer to it.
  abbrev asked : ℕ → Ports → Ports × ℕ
  asked config p =
      read_data answer
        (send_data answer 0xFF
          (send_command answer 0xAE (send_data answer config (send_command answer 0x60 p).0).0).0).0

  reset_keyboard-cases :
      (config : ℕ) (p : Ports)
      → ((reset_keyboard answer config p).0 ≡ (flush_output answer 32 (asked config p).0).0)
        ⊎ ((reset_keyboard answer config p).0
            ≡ (flush_output answer 32 (read_data answer (asked config p).0).0).0)
  unfolding reset_keyboard
  reset_keyboard-cases config p = elim (Bool-cases ((asked config p).1 == 0xFA)) [
    | inl e ↦ inr (rw e refl)
    | inr e ↦ inl (rw e refl)
  ]

  pub reset_keyboard-out :
      (config : ℕ) (p : Ports) → (reset_keyboard answer config p).0.out ≡ p.out ++ closing config
  reset_keyboard-out config p = elim (reset_keyboard-cases config p) [
    | inl e ↦
        rw e (simp (send_command-out, send_data-out, read_data-out, flush_output-out, append_assoc))
    | inr e ↦
        rw e (simp (send_command-out, send_data-out, read_data-out, flush_output-out, append_assoc))
  ]

  pub reset_keyboard-reads :
      (config : ℕ) (p : Ports) → (reset_keyboard answer config p).0.reads ≤ p.reads + 600066
  reset_keyboard-reads config p = elim (reset_keyboard-cases config p) [
    | inl e ↦
        rw e
          (omega (arith, send_command-reads, send_data-reads, read_data-reads, flush_output-reads))
    | inr e ↦
        rw e
          (omega (arith, send_command-reads, send_data-reads, read_data-reads, flush_output-reads))
  ]

  read_data-ge : (p : Ports) → p.reads ≤ (read_data answer p).0.reads
  read_data-ge p = elim (read_data-Reply p) [
    | answered n lt before at val to ↦ omega (arith, to)
    | silent all val to ↦ omega (arith, to)
  ]

  asked-ge : (config : ℕ) (p : Ports) → p.reads ≤ (asked config p).0.reads
  asked-ge config p =
      let c1 = (send_command answer 0x60 p).0 in
      let d1 = (send_data answer config c1).0 in
      let c2 = (send_command answer 0xAE d1).0 in
      let d2 = (send_data answer 0xFF c2).0 in
      omega (
        arith,
        send_command-ge 0x60 p,
        send_data-ge config c1,
        send_command-ge 0xAE d1,
        send_data-ge 0xFF c2,
        read_data-ge d2,
      )

  pub reset_keyboard-ge :
      (config : ℕ) (p : Ports) → p.reads ≤ (reset_keyboard answer config p).0.reads
  reset_keyboard-ge config p = elim (reset_keyboard-cases config p) [
    | inl e ↦ rw e (omega (arith, asked-ge config p, flush_output-ge 32 (asked config p).0))
    | inr e ↦
        let again = (read_data answer (asked config p).0).0 in
        rw e (
          omega
            (arith, asked-ge config p, read_data-ge (asked config p).0, flush_output-ge 32 again))
  ]

  pub unmask-out :
      (p : Ports)
      → (unmask answer p).0.out ≡ p.out ++ ((0x21, and_not (answer p.reads 0x21 % 256) 2) ∷ [])
  unfolding unmask clear_mask
  unmask-out p = refl

  pub unmask-reads : (p : Ports) → (unmask answer p).0.reads ≡ p.reads + 1
  unfolding unmask
  unmask-reads p = refl

  -- The two replies that `self_test` reads, one after the other.
  pub record Replies (p : Ports) : Type 0 where
    pub read : ℕ
    pub asked_at : ℕ
    pub read_at : ℕ
    pub tested_at : ℕ
    pub begins : p.reads ≤ asked_at
    pub reply : Reply asked_at read read_at
    pub later : read_at ≤ tested_at
    pub test_reply : Reply tested_at (self_test answer p).1.1 (self_test answer p).0.reads
    pub config : (self_test answer p).1.0 ≡ with_irq read

  abbrev before_read : Ports → Ports
  before_read p =
      (send_command answer 0x20
        (flush_output answer 32 (send_command answer 0xA7 (send_command answer 0xAD p).0).0).0).0

  abbrev before_test : Ports → Ports
  before_test p =
      let r = read_data answer (before_read p) in
      (send_command answer 0xAA
        (send_data answer (with_irq r.1) (send_command answer 0x60 r.0).0).0).0

  pub self_test-Replies : (p : Ports) → Replies p
  unfolding self_test
  self_test-Replies p = record {
    read = (read_data answer (before_read p)).1;
    asked_at = (before_read p).reads;
    read_at = (read_data answer (before_read p)).0.reads;
    tested_at = (before_test p).reads;
    begins = omega (arith, send_command-ge, flush_output-ge);
    reply = read_data-Reply (before_read p);
    later = omega (arith, send_command-ge, send_data-ge);
    test_reply = read_data-Reply (before_test p);
    config = refl;
  }

pub with_irq-others : (read i : ℕ) → i ≢ 0 → i ≢ 4 → test_bit (with_irq read) i ≡ test_bit read i
with_irq-others read i ne0 ne4 =
    test_bit-and_not_ne (with_bit read 0) 4 i (λ e. ne4 (sym e))
    ∙ test_bit-with_bit_ne read 0 i (λ e. ne0 (sym e))

-- ===== src/Keyboard/Keys.antt =====
-- The buffer of `src/kern/drv/ps2/mod.rs` is a queue of 255 characters.
use avaria.Fifo
use avaria.Fifo.{
  contents, contents-push, contents-pop, length-contents, held, held_full, held_not_full, next,
}
use avaria.Prelude.{
  ℕ, ◌+◌, ◌-◌, ◌<◌, ◌≡◌, refl, sym, ◌∙◌, arith, true, false, ◌==◌, ==→≡, ==→≢, Bool-cases,
}
use avaria.Prelude.{inl, inr, List, length, length-set, ≡→==, ≢→==, bit_and, bit_and_low}
use avaria.Keyboard.{Keyboard, kb_buf_size, buf_push, read_key}

-- 256 slots, and both indices inside them.
pub record IsValid (k : Keyboard) : Type 0 where
  pub slots : length k.buf ≡ 256
  pub head_in : k.head < 256
  pub tail_in : k.tail < 256

-- The characters that wait, oldest first.
abbrev pub keys : Keyboard → List ℕ
keys k = contents 0 256 k.buf k.head k.tail

-- The masked step of an index is the step round the buffer.
masked_step : (i : ℕ) → bit_and (i + 1) (kb_buf_size - 1) ≡ next 256 i
masked_step i = bit_and_low 8 (i + 1)

module _ {k : Keyboard} (v : IsValid k) where
  -- On a valid buffer, `buf_push` adds a character behind those that wait, or drops it when 255 wait; the buffer stays
  -- valid.
  pub buf_push_refines :
      (ch : ℕ) → (keys (buf_push k ch) ≡ (Fifo.push 256 (keys k) ch).1) × IsValid (buf_push k ch)
  unfolding Fifo.push buf_push
  buf_push_refines ch =
      let size = length-contents 0 256 k.buf k.head k.tail (omega arith) v.head_in v.tail_in in
      elim (Bool-cases (next 256 k.head == k.tail)) [
        | inl e ↦
            let e' = ==→≡ (next 256 k.head) k.tail e in
            let full : (length (keys k) + 1 == 256) ≡ true =
              ≡→== _ _ (omega (arith, size, held_full 256 k.head k.tail v.head_in v.tail_in e')) in
            rw (masked_step k.head, e, full) (refl, v)
        | inr e ↦
            let ne = ==→≢ (next 256 k.head) k.tail e in
            let room : (length (keys k) + 1 == 256) ≡ false =
              ≢→== _ _
                (omega (arith, size, held_not_full 256 k.head k.tail v.head_in v.tail_in ne)) in
            rw (masked_step k.head, e, room)
              (
                contents-push 0 256 k.buf k.head k.tail (omega arith) v.head_in v.tail_in ch ne,
                record {
                  slots = length-set k.buf k.head ch ∙ v.slots;
                  head_in = omega arith;
                  tail_in = v.tail_in;
                },
              )
      ]

  -- On a valid buffer, `read_key` returns the oldest character that waits, or nothing, and leaves the rest; the buffer
  -- stays valid.
  pub read_key_refines :
      ((read_key k).1 ≡ (Fifo.pop (keys k)).0)
      × (keys (read_key k).0 ≡ (Fifo.pop (keys k)).1)
      × IsValid (read_key k).0
  unfolding Fifo.pop read_key
  read_key_refines = elim (Bool-cases (k.tail == k.head)) [
    | inl e ↦
        let e' = ==→≡ k.tail k.head e in
        let none_held : held 256 k.head k.tail ≡ 0 = omega arith in
        rw (e, none_held) (refl, refl, v)
    | inr e ↦
        let ne = ==→≢ k.tail k.head e in
        let pop =
          contents-pop 0 256 k.buf k.head k.tail (omega arith) v.head_in v.tail_in
            (λ h. ne (sym h)) in
        rw (e, pop, masked_step k.tail)
          (refl, refl, record { slots = v.slots; head_in = v.head_in; tail_in = omega arith })
  ]

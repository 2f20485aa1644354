-- ===== src/Ipc/Rings.antt =====
-- The ring of a channel (`RingBuffer` of `src/kern/arch/x86_64/ipc.rs`) is a queue of 63 messages.
use avaria.Fifo
use avaria.Fifo.{contents, contents-push, contents-pop, length-contents, held, held_full}
use avaria.Fifo.{held_not_full, next}
use avaria.Prelude.{ℕ, ◌+◌, ◌%◌, ◌<◌, ◌≡◌, refl, sym, ◌∙◌, arith, true, false}
use avaria.Prelude.{◌==◌, ==→≡, ==→≢, Bool-cases, inl, inr, List, length, set, get_or, length-set}
use avaria.Prelude.{≡→==, ≢→==, add_w, ◌≢◌, ◌↔◌, some, none}
use avaria.Ipc.{Message, RingBuffer, ring_size, empty_message, push, pop, len, is_empty}

-- 64 slots, and both indices inside them.
pub record IsValid (r : RingBuffer) : Type 0 where
  pub slots : length r.buf ≡ 64
  pub head_in : r.head < 64
  pub tail_in : r.tail < 64

-- The messages that wait in a ring, oldest first.
abbrev pub queue : RingBuffer → List Message
queue r = contents empty_message 64 r.buf r.head r.tail

-- The `u32` step of an index is the step round the ring.
step_index : (i : ℕ) → i < 64 → add_w 32 i 1 % ring_size ≡ next 64 i
step_index i h = omega arith

module _ {r : RingBuffer} (v : IsValid r) where
  push_full : (msg : Message) → next 64 r.head ≡ r.tail → push r msg ≡ (r, false)
  unfolding push
  push_full msg e = rw (step_index r.head v.head_in, ≡→== _ _ e) refl

  push_room :
      (msg : Message)
      → next 64 r.head ≢ r.tail
      → push r msg ≡ (record r { buf = set r.buf r.head msg; head = next 64 r.head }, true)
  unfolding push
  push_room msg ne = rw (step_index r.head v.head_in, ≢→== _ _ ne) refl

  -- On a valid ring, `push` answers as the bounded queue does, leaves the ring with that queue, and keeps it valid.
  pub push_refines :
      (msg : Message)
      → ((push r msg).1 ≡ (Fifo.push 64 (queue r) msg).0)
        × (queue (push r msg).0 ≡ (Fifo.push 64 (queue r) msg).1)
        × IsValid (push r msg).0
  unfolding Fifo.push
  push_refines msg =
      let size =
        length-contents empty_message 64 r.buf r.head r.tail (omega arith) v.head_in v.tail_in in
      elim (Bool-cases (next 64 r.head == r.tail)) [
        | inl e ↦
            let e' = ==→≡ (next 64 r.head) r.tail e in
            let full : (length (queue r) + 1 == 64) ≡ true =
              ≡→== _ _ (omega (arith, size, held_full 64 r.head r.tail v.head_in v.tail_in e')) in
            rw (push_full msg e', full) (refl, refl, v)
        | inr e ↦
            let ne = ==→≢ (next 64 r.head) r.tail e in
            let room : (length (queue r) + 1 == 64) ≡ false =
              ≢→== _ _
                (omega (arith, size, held_not_full 64 r.head r.tail v.head_in v.tail_in ne)) in
            rw (push_room msg ne, room)
              (
                refl,
                contents-push empty_message 64 r.buf r.head r.tail (omega arith) v.head_in v.tail_in
                    msg ne,
                record {
                  slots = length-set r.buf r.head msg ∙ v.slots;
                  head_in = omega arith;
                  tail_in = v.tail_in;
                },
              )
      ]

  pop_empty : r.tail ≡ r.head → pop r ≡ (r, none)
  unfolding pop
  pop_empty e = rw (≡→== _ _ e) refl

  pop-some :
      r.tail ≢ r.head
      → pop r ≡ (record r { tail = next 64 r.tail }, some (get_or r.buf r.tail empty_message))
  unfolding pop
  pop-some ne = rw (≢→== _ _ ne, step_index r.tail v.tail_in) refl

  -- On a valid ring, `pop` returns the oldest message of the queue, or nothing when it is empty, leaves the ring
  -- with the rest, and keeps it valid.
  pub pop_refines :
      ((pop r).1 ≡ (Fifo.pop (queue r)).0)
      × (queue (pop r).0 ≡ (Fifo.pop (queue r)).1)
      × IsValid (pop r).0
  unfolding Fifo.pop
  pop_refines = elim (Bool-cases (r.tail == r.head)) [
    | inl e ↦
        let e' = ==→≡ r.tail r.head e in
        let none_held : held 64 r.head r.tail ≡ 0 = omega arith in
        rw (pop_empty e', none_held) (refl, refl, v)
    | inr e ↦
        let ne = ==→≢ r.tail r.head e in
        rw
          (
            pop-some ne,
            contents-pop empty_message 64 r.buf r.head r.tail (omega arith) v.head_in v.tail_in
                (λ h. ne (sym h)),
          )
          (refl, refl, record { slots = v.slots; head_in = v.head_in; tail_in = omega arith })
  ]

  -- `len` counts the waiting messages, at most 63, and `is_empty` tells whether it is 0.
  pub len-eq-length-queue :
      (len r ≡ length (queue r)) × (len r < 64) × ((is_empty r ≡ true) ↔ (len r ≡ 0))
  unfolding len is_empty
  len-eq-length-queue =
      let size =
        length-contents empty_message 64 r.buf r.head r.tail (omega arith) v.head_in v.tail_in in
      (omega (arith, size), omega arith, ground arith)

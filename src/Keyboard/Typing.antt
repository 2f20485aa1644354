-- ===== src/Keyboard/Typing.antt =====
-- The keyboard of `src/kern/drv/ps2/mod.rs` as its users see it: two modifiers and a queue of characters.
use avaria.Fifo
use avaria.Prelude.{ℕ, ◌+◌, ◌%◌, ◌≡◌, refl, sym, ◌∙◌, Bool, true, false, not, ◌==◌, ==→≡, leb}
use avaria.Prelude.{◌||◌, if◌then◌else◌, Option, none, List, [], ◌∷◌, Bool-cases, inl, inr, bit_and}
use avaria.Keyboard.{
  Keyboard, key_char, buf_push, press, process_scancode, poll, read_key, Event, interrupt, polled,
  taken, react, react_all, keyboard_irq_handler,
}
use avaria.Keyboard.Keys.{IsValid, keys, buf_push_refines, read_key_refines}

-- What a user sees: the caps lock, the shift key, and the characters that wait, at most 255.
pub record Typist : Type 0 where
  pub caps : Bool
  pub shift : Bool
  pub waiting : List ℕ

abbrev pub typist : Keyboard → Typist
typist k = record { caps = k.caps_lock; shift = k.shift_held; waiting = keys k }

-- A character is typed behind those that wait, or lost; 0 is none.
typed : Typist → ℕ → Typist
typed t ch = if ch == 0 then t else record t { waiting = (Fifo.push 256 t.waiting ch).1 }

-- What a scan code does: the shift keys go down and up, the caps lock goes on and off, and the press
-- of another key types its character.
hears : Typist → ℕ → Typist
hears t c =
    if c == 0xE0
    then t
    else if c % 128 == 0x2A || c % 128 == 0x36
    then record t { shift = not (leb 128 c) }
    else if leb 128 c
    then t
    else if c % 128 == 0x3A
    then record t { caps = not t.caps }
    else typed t (key_char t.caps t.shift (c % 128))

answers : Typist → Event → Typist × Option ℕ
answers t (interrupt c) = (hears t c, none)
answers t (polled status c) = (if bit_and status 1 == 0 then t else hears t c, none)
answers t taken = let rest = Fifo.pop t.waiting in (record t { waiting = rest.1 }, rest.0)

-- The characters that the reads of a sequence of events get.
pub run : Typist → List Event → List (Option ℕ)
run t [] = []
run t (e ∷ es) = let r = answers t e in r.1 ∷ run r.0 es

record Keeps (k : Keyboard) (t : Typist) : Type 0 where
  state : typist k ≡ t
  valid : IsValid k

buf_push-modifiers :
    (k : Keyboard) (ch : ℕ)
    → ((buf_push k ch).caps_lock ≡ k.caps_lock) × ((buf_push k ch).shift_held ≡ k.shift_held)
unfolding buf_push
buf_push-modifiers k ch = elim (Bool-cases (bit_and (k.head + 1) 255 == k.tail)) [
  | inl e ↦ rw e (refl, refl)
  | inr e ↦ rw e (refl, refl)
]

-- The modifier keys are no part of what makes the buffer valid.
same :
    {k : Keyboard}
    → IsValid k
    → {shift ctrl alt caps : Bool}
    → IsValid (record k { shift_held = shift; ctrl_held = ctrl; alt_held = alt; caps_lock = caps })
same v = record { slots = v.slots; head_in = v.head_in; tail_in = v.tail_in }

press-Keeps :
    {k : Keyboard}
    → IsValid k
    → (code : ℕ) → Keeps (press k code) (typed (typist k) (key_char k.caps_lock k.shift_held code))
unfolding press typed
press-Keeps {k = k} v code = elim (Bool-cases (key_char k.caps_lock k.shift_held code == 0)) [
  | inl e ↦ record { state = rw e refl; valid = rw e v }
  | inr e ↦
      let ch = key_char k.caps_lock k.shift_held code in
      let pushed = buf_push_refines v ch in
      let same = buf_push-modifiers k ch in
      record {
        state = rw e (λ i. record { caps = same.0 i; shift = same.1 i; waiting = pushed.0 i });
        valid = rw e pushed.1;
      }
]

-- A control or an alt key has no character.
key_char-control :
    (caps shift : Bool) → (key_char caps shift 0x1D ≡ 0) × (key_char caps shift 0x38 ≡ 0)
unfolding key_char
key_char-control true true = (refl, refl)
key_char-control true false = (refl, refl)
key_char-control false true = (refl, refl)
key_char-control false false = (refl, refl)

typed-control :
    (t : Typist) (c : ℕ) → (c == 0x1D || c == 0x38) ≡ true → typed t (key_char t.caps t.shift c) ≡ t
unfolding typed
typed-control t c h = elim (Bool-cases (c == 0x1D)) [
  | inl e ↦ rw (==→≡ c 0x1D e, (key_char-control t.caps t.shift).0) refl
  | inr e ↦
      let alt : (c == 0x38) ≡ true = (rw e at h) in
      rw (==→≡ c 0x38 alt, (key_char-control t.caps t.shift).1) refl
]

module _ (c : ℕ) (e0 : (c == 0xE0) ≡ false)
    (e1 : (c % 128 == 0x2A || c % 128 == 0x36) ≡ false) where
  hears-control :
      (t : Typist)
      → (c % 128 == 0x1D || c % 128 == 0x38) ≡ true
      → (c % 128 == 0x3A) ≡ false
      → hears t c ≡ t
  unfolding hears
  hears-control t h caps = elim (Bool-cases (leb 128 c)) [
    | inl r ↦ rw (e0, e1, r) refl
    | inr r ↦ rw (e0, e1, r, caps) (typed-control t (c % 128) h)
  ]

  scancode-Keeps : {k : Keyboard} → IsValid k → Keeps (process_scancode k c) (hears (typist k) c)
  unfolding process_scancode hears
  scancode-Keeps {k = k} v = elim (Bool-cases (c % 128 == 0x1D)) [
    | inl e2 ↦
        let code = ==→≡ (c % 128) 0x1D e2 in
        let quiet = hears-control (typist k) (rw code refl) (rw code refl) in
        let kept : typist (process_scancode k c) ≡ typist k = rw (e0, e1, e2) refl in
        record { state = kept ∙ sym quiet; valid = rw (e0, e1, e2) (same v) }
    | inr e2 ↦ elim (Bool-cases (c % 128 == 0x38)) [
      | inl e3 ↦
          let code = ==→≡ (c % 128) 0x38 e3 in
          let quiet = hears-control (typist k) (rw code refl) (rw code refl) in
          let kept : typist (process_scancode k c) ≡ typist k = rw (e0, e1, e2, e3) refl in
          record { state = kept ∙ sym quiet; valid = rw (e0, e1, e2, e3) (same v) }
      | inr e3 ↦ elim (Bool-cases (c % 128 == 0x3A)) [
        | inl e4 ↦ elim (Bool-cases (leb 128 c)) [
          | inl r ↦ rw (e0, e1, e2, e3, e4, r) (record { state = refl; valid = v })
          | inr r ↦ rw (e0, e1, e2, e3, e4, r) (record { state = refl; valid = same v })
        ]
        | inr e4 ↦ elim (Bool-cases (leb 128 c)) [
          | inl r ↦ rw (e0, e1, e2, e3, e4, r) (record { state = refl; valid = v })
          | inr r ↦ rw (e0, e1, e2, e3, e4, r) (press-Keeps v (c % 128))
        ]
      ]
    ]
  ]

process_scancode-Keeps :
    {k : Keyboard} → IsValid k → (c : ℕ) → Keeps (process_scancode k c) (hears (typist k) c)
unfolding process_scancode hears
process_scancode-Keeps {k = k} v c = elim (Bool-cases (c == 0xE0)) [
  | inl e0 ↦ record { state = rw e0 refl; valid = rw e0 v }
  | inr e0 ↦ elim (Bool-cases (c % 128 == 0x2A || c % 128 == 0x36)) [
    | inl e1 ↦ record { state = rw (e0, e1) refl; valid = rw (e0, e1) (same v) }
    | inr e1 ↦ scancode-Keeps c e0 e1 v
  ]
]

read_key-modifiers :
    (k : Keyboard)
    → ((read_key k).0.caps_lock ≡ k.caps_lock) × ((read_key k).0.shift_held ≡ k.shift_held)
unfolding read_key
read_key-modifiers k = elim (Bool-cases (k.tail == k.head)) [
  | inl e ↦ rw e (refl, refl)
  | inr e ↦ rw e (refl, refl)
]

react-Keeps :
    {k : Keyboard}
    → IsValid k
    → (e : Event)
    → Keeps (react k e).0 (answers (typist k) e).0 × ((react k e).1 ≡ (answers (typist k) e).1)
unfolding react answers poll keyboard_irq_handler
react-Keeps v (interrupt c) = (process_scancode-Keeps v c, refl)
react-Keeps v (polled status c) = elim (Bool-cases (bit_and status 1 == 0)) [
  | inl e ↦ (rw e (record { state = refl; valid = v }), refl)
  | inr e ↦ (rw e (process_scancode-Keeps v c), refl)
]
react-Keeps {k = k} v taken =
    let read = read_key_refines v in
    let modifiers = read_key-modifiers k in
    (
      record {
        state = λ i. record { caps = modifiers.0 i; shift = modifiers.1 i; waiting = read.1 i };
        valid = read.2;
      },
      read.0,
    )

-- From a valid buffer, whatever interrupts and polls bring scan codes between the reads, the reads get
-- what an abstract keyboard gives: each press of a key that has a character adds the one for the shift
-- key and the caps lock as they stand, or loses it while 255 wait, and each read takes the oldest.
pub react_all_refines :
    (es : List Event) {k : Keyboard} → IsValid k → react_all k es ≡ run (typist k) es
unfolding react_all run
react_all_refines [] v = refl
react_all_refines (e ∷ es) v =
    let step = react-Keeps v e in rw (react_all_refines es step.0.valid, step.0.state, step.1) refl

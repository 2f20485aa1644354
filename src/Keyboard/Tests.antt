-- ===== src/Keyboard/Tests.antt =====
-- Typing on the keyboard of `src/kern/drv/ps2/mod.rs`.
use avaria.Prelude.{◌≡◌, refl, arith, none, some, List, [], ◌∷◌}
use avaria.Keyboard.{Event, interrupt, polled, taken, react_all}
use avaria.Keyboard.{idle, read_key, process_scancode}
use avaria.Keyboard.Keys.{IsValid}
use avaria.Keyboard.Typing.{typist, run, react_all_refines}

idle-IsValid : IsValid idle
idle-IsValid = record { slots = refl; head_in = omega arith; tail_in = omega arith }

-- Shift down, `q`, shift up: a capital letter waits.
types_capital :
    (read_key (process_scancode (process_scancode (process_scancode idle 0x2A) 0x10) 0xAA)).1
    ≡ some b'Q'
unfolding read_key process_scancode
types_capital = refl

-- A capital letter is typed and read, and a plain one is typed by a poll while its reader waits.
abbrev session : List Event
session =
    interrupt 0x2A ∷ interrupt 0x10 ∷ interrupt 0xAA ∷ taken ∷ taken ∷ polled 1 0x10 ∷ taken ∷ []

session_reads :
    react_all idle session ≡ (none ∷ none ∷ none ∷ some b'Q' ∷ none ∷ none ∷ some b'q' ∷ [])
unfolding react_all
session_reads = refl

react_all_refines_example : react_all idle session ≡ run (typist idle) session
react_all_refines_example = react_all_refines session {k = idle} idle-IsValid

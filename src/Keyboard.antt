-- ===== src/Keyboard.antt =====
-- `src/kern/drv/ps2/mod.rs`: scan codes to characters, and the buffer of typed characters. What the
-- controller answers in `init` is not modelled.
pub mod Keys
pub mod Letters
pub mod Typing
pub mod Controller
mod Tests
use package.avaria.Prelude.{
  ℕ, zero, suc, ◌+◌, ◌-◌, ◌%◌, Bool, true, false, not, ◌==◌, leb, ltb, ◌&&◌, ◌||◌,
}
use package.avaria.Prelude.{
  if◌then◌else◌, Option, none, some, List, [], ◌∷◌, ◌++◌, get_or, set, replicate, bit_and,
}
use package.avaria.Arch.Pic.{Writes, eoi}

abbrev pub kb_buf_size : ℕ
kb_buf_size = 256

-- The static variables of the module.
pub record Keyboard : Type 0 where
  pub buf : List ℕ
  pub head : ℕ
  pub tail : ℕ
  pub shift_held : Bool
  pub ctrl_held : Bool
  pub alt_held : Bool
  pub caps_lock : Bool

abbrev pub idle : Keyboard
idle = record {
  buf = replicate kb_buf_size 0;
  head = 0;
  tail = 0;
  shift_held = false;
  ctrl_held = false;
  alt_held = false;
  caps_lock = false;
}

-- The end of either table, from code 58 on.
abbrev keypad : List ℕ
keypad = replicate 16 0 ++ (b'-' ∷ 0 ∷ 0 ∷ 0 ∷ b'+' ∷ replicate 49 0)

abbrev pub scancode_table : List ℕ
scancode_table =
    0 ∷ 0x1B ∷ b'1' ∷ b'2' ∷ b'3' ∷ b'4' ∷ b'5' ∷ b'6' ∷ b'7' ∷ b'8' ∷ b'9' ∷ b'0' ∷ b'-' ∷ b'='
    ∷ 0x08 ∷ b'\t' ∷ b'q' ∷ b'w' ∷ b'e' ∷ b'r' ∷ b't' ∷ b'y' ∷ b'u' ∷ b'i' ∷ b'o' ∷ b'p' ∷ b'['
    ∷ b']' ∷ b'\n' ∷ 0 ∷ b'a' ∷ b's' ∷ b'd' ∷ b'f' ∷ b'g' ∷ b'h' ∷ b'j' ∷ b'k' ∷ b'l' ∷ b';' ∷ 39
    ∷ b'`' ∷ 0 ∷ 92 ∷ b'z' ∷ b'x' ∷ b'c' ∷ b'v' ∷ b'b' ∷ b'n' ∷ b'm' ∷ b',' ∷ b'.' ∷ b'/' ∷ 0 ∷ b'*'
    ∷ 0 ∷ b' ' ∷ keypad

abbrev pub scancode_table_shift : List ℕ
scancode_table_shift =
    0 ∷ 0x1B ∷ b'!' ∷ b'@' ∷ b'#' ∷ b'$' ∷ b'%' ∷ b'^' ∷ b'&' ∷ b'*' ∷ b'(' ∷ b')' ∷ b'_' ∷ b'+'
    ∷ 0x08 ∷ b'\t' ∷ b'Q' ∷ b'W' ∷ b'E' ∷ b'R' ∷ b'T' ∷ b'Y' ∷ b'U' ∷ b'I' ∷ b'O' ∷ b'P' ∷ b'{'
    ∷ b'}' ∷ b'\n' ∷ 0 ∷ b'A' ∷ b'S' ∷ b'D' ∷ b'F' ∷ b'G' ∷ b'H' ∷ b'J' ∷ b'K' ∷ b'L' ∷ b':' ∷ 34
    ∷ b'~' ∷ 0 ∷ b'|' ∷ b'Z' ∷ b'X' ∷ b'C' ∷ b'V' ∷ b'B' ∷ b'N' ∷ b'M' ∷ b'<' ∷ b'>' ∷ b'?' ∷ 0
    ∷ b'*' ∷ 0 ∷ b' ' ∷ keypad

pub buf_push : Keyboard → ℕ → Keyboard
buf_push k ch =
    let next = bit_and (k.head + 1) (kb_buf_size - 1) in
    if next == k.tail then k else record k { buf = set k.buf k.head ch; head = next }

pub read_key : Keyboard → Keyboard × Option ℕ
read_key k =
    if k.tail == k.head
    then (k, none)
    else (record k { tail = bit_and (k.tail + 1) (kb_buf_size - 1) }, some (get_or k.buf k.tail 0))

pub has_key : Keyboard → Bool
has_key k = not (k.tail == k.head)

abbrev is_lower : ℕ → Bool
is_lower c = leb b'a' c && leb c b'z'

-- The character of a key, by the caps lock and the shift key.
pub key_char : Bool → Bool → ℕ → ℕ
key_char caps shift code =
    let base = get_or scancode_table code 0 in
    let shifted = get_or scancode_table_shift code 0 in
    if caps && not shift
    then (if is_lower base then base - 32 else base)
    else if caps && shift
    then (if is_lower base then base else shifted)
    else if shift
    then shifted
    else base

-- The part of `process_scancode` after the modifier keys, for a press.
pub press : Keyboard → ℕ → Keyboard
unfolding key_char buf_push
press k code =
    let ch = key_char k.caps_lock k.shift_held code in if ch == 0 then k else buf_push k ch

pub process_scancode : Keyboard → ℕ → Keyboard
unfolding press
process_scancode k scancode =
    let released = leb 128 scancode in
    let code = scancode % 128 in
    if scancode == 0xE0
    then k
    else if code == 0x2A || code == 0x36
    then record k { shift_held = not released }
    else if code == 0x1D
    then record k { ctrl_held = not released }
    else if code == 0x38
    then record k { alt_held = not released }
    else if code == 0x3A && not released
    then record k { caps_lock = not k.caps_lock }
    else if released
    then k
    else press k code

-- `poll`: `status` and `data` are what the two ports read as.
pub poll : Keyboard → ℕ → ℕ → Keyboard
unfolding process_scancode
poll k status data' = if bit_and status 1 == 0 then k else process_scancode k data'

abbrev kb_irq : ℕ
kb_irq = 1

-- `keyboard_irq_handler`: `data` is what the data port reads as; the writes go to the interrupt
-- controllers.
pub keyboard_irq_handler : Keyboard → ℕ → Keyboard × Writes
unfolding process_scancode
keyboard_irq_handler k data' = (process_scancode k data', eoi kb_irq)

-- What happens to the keyboard: an interrupt, a `poll`, a `read_key`.
pub data Event : Type 0 where
  interrupt : ℕ → Event
  polled : ℕ → ℕ → Event
  taken : Event

pub react : Keyboard → Event → Keyboard × Option ℕ
unfolding keyboard_irq_handler poll read_key
react k (interrupt c) = ((keyboard_irq_handler k c).0, none)
react k (polled status c) = (poll k status c, none)
react k taken = read_key k

pub react_all : Keyboard → List Event → List (Option ℕ)
unfolding react
react_all k [] = []
react_all k (e ∷ es) = let r = react k e in r.1 ∷ react_all r.0 es

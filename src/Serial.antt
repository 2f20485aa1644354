-- ===== src/Serial.antt =====
-- `src/kern/serial.rs`: numbers as digits, and the bytes that leave through the port COM1. A byte
-- is sent once the line is ready; how long that takes is not modelled.
pub mod Digits
mod Tests
use package.avaria.Prelude.{
  ℕ, zero, suc, ◌+◌, ◌-◌, ◌/◌, ◌%◌, ◌==◌, ltb, if◌then◌else◌, List, [], ◌∷◌, ◌++◌, bit_and,
}
use package.avaria.Arch.Pic.{Writes}

abbrev pub com1 : ℕ
com1 = 0x3F8

pub init : Writes
init =
    (com1 + 1, 0x00)
    ∷ (com1 + 3, 0x80)
    ∷ (com1, 0x03)
    ∷ (com1 + 1, 0x00)
    ∷ (com1 + 3, 0x03)
    ∷ (com1 + 2, 0xC7)
    ∷ (com1 + 4, 0x0B)
    ∷ []

pub putb : ℕ → Writes
putb b = (com1, b) ∷ []

unfoldable pub puts : List ℕ → Writes
unfolding putb
puts [] = []
puts (b ∷ bs) = putb b ++ puts bs

-- The printing loop: the buffer from its last byte down to its first.
unfoldable pub backwards : List ℕ → List ℕ
backwards [] = []
backwards (d ∷ ds) = backwards ds ++ (d ∷ [])

abbrev pub hex_digit : ℕ → ℕ
hex_digit d = if ltb d 10 then b'0' + d else b'a' + d - 10

-- The filling loop of `hex`, with the bytes of the buffer left.
pub hex_fill : ℕ → ℕ → List ℕ
hex_fill zero v = []
hex_fill (suc left) v =
    let rest = hex_fill left (v / 16) in if v == 0 then [] else hex_digit (v % 16) ∷ rest

-- What `hex` prints.
unfoldable pub hex : ℕ → List ℕ
unfolding hex_fill backwards
hex v = if v == 0 then b'0' ∷ [] else backwards (hex_fill 16 v)

unfoldable pub dec_fill : ℕ → ℕ → List ℕ
dec_fill zero v = []
dec_fill (suc left) v =
    let rest = dec_fill left (v / 10) in if v == 0 then [] else (b'0' + v % 10) ∷ rest

-- What `dec` prints.
unfoldable pub dec : ℕ → List ℕ
unfolding dec_fill backwards
dec v = if v == 0 then b'0' ∷ [] else backwards (dec_fill 20 v)

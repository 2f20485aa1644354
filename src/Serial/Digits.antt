-- ===== src/Serial/Digits.antt =====
-- What `hex` and `dec` of `src/kern/serial.rs` print reads back as the number.
use avaria.Prelude.{
  ℕ, zero, suc, ◌+◌, ◌-◌, ◌*◌, ◌/◌, ◌%◌, ◌^◌, ◌<◌, ◌≡◌, refl, ap, ◌∙◌, arith, Bool-cases,
}
use avaria.Prelude.{false, inl, inr, ◌==◌, ==→≡, ltb, if◌then◌else◌, List, [], ◌∷◌, ◌++◌}
use avaria.Prelude.{length, length-append}
use avaria.Serial.{backwards, hex_digit, hex_fill, hex, dec_fill, dec}
use native.Mathlib.Nat.{pow-suc}

-- The value of a digit: `0` to `9`, then `a` and on.
abbrev pub digit_value : ℕ → ℕ
digit_value c = if ltb c b'a' then c - b'0' else c - b'a' + 10

-- The number that a string spells, most significant digit first.
unfoldable pub read_from : ℕ → ℕ → List ℕ → ℕ
read_from base acc [] = acc
read_from base acc (c ∷ cs) = read_from base (acc * base + digit_value c) cs

unfoldable pub read_number : ℕ → List ℕ → ℕ
unfolding read_from
read_number base cs = read_from base 0 cs

read_from-append :
    (base acc : ℕ) (cs : List ℕ) (c : ℕ)
    → read_from base acc (cs ++ (c ∷ [])) ≡ read_from base acc cs * base + digit_value c
unfolding read_from
read_from-append base acc [] c = refl
read_from-append base acc (d ∷ cs) c = read_from-append base (acc * base + digit_value d) cs c

length-backwards : (cs : List ℕ) → length (backwards cs) ≡ length cs
unfolding backwards
length-backwards [] = refl
length-backwards (c ∷ cs) =
    omega (arith, length-append (backwards cs) (c ∷ []), length-backwards cs)

hex_digit-value : (d : ℕ) → d < 16 → digit_value (hex_digit d) ≡ d
hex_digit-value d h = ground arith

dec_digit-value : (d : ℕ) → d < 10 → digit_value (b'0' + d) ≡ d
dec_digit-value d h = ground arith

hex_fill-read : (left v : ℕ) → v < 16 ^ left → read_from 16 0 (backwards (hex_fill left v)) ≡ v
unfolding hex_fill backwards read_from
hex_fill-read zero v h = omega arith
hex_fill-read (suc left) v h = elim (Bool-cases (v == 0)) [
  | inl e ↦ rw e (omega (arith, ==→≡ v 0 e))
  | inr e ↦
      rw (e, read_from-append 16 0 (backwards (hex_fill left (v / 16))) (hex_digit (v % 16)))
        (omega (
          arith,
          hex_fill-read left (v / 16) (omega (arith, pow-suc 16 left)),
          hex_digit-value (v % 16) (omega arith),
        ))
]

dec_fill-read : (left v : ℕ) → v < 10 ^ left → read_from 10 0 (backwards (dec_fill left v)) ≡ v
unfolding dec_fill backwards read_from
dec_fill-read zero v h = omega arith
dec_fill-read (suc left) v h = elim (Bool-cases (v == 0)) [
  | inl e ↦ rw e (omega (arith, ==→≡ v 0 e))
  | inr e ↦
      rw (e, read_from-append 10 0 (backwards (dec_fill left (v / 10))) (b'0' + v % 10))
        (omega (
          arith,
          dec_fill-read left (v / 10) (omega (arith, pow-suc 10 left)),
          dec_digit-value (v % 10) (omega arith),
        ))
]

hex_nonzero : (v : ℕ) → (v == 0) ≡ false → hex v ≡ backwards (hex_fill 16 v)
unfolding hex
hex_nonzero v e = rw e refl

hex_zero : (v : ℕ) → v ≡ 0 → read_number 16 (hex v) ≡ v
unfolding hex read_number
hex_zero v e = rw e refl

-- What `hex` prints for a 64-bit number reads back as that number in base 16: the buffer of 16
-- digits is never too short.
pub read_number-hex : (v : ℕ) → v < 2 ^ 64 → read_number 16 (hex v) ≡ v
unfolding read_number
read_number-hex v h = elim (Bool-cases (v == 0)) [
  | inl e ↦ hex_zero v (==→≡ v 0 e)
  | inr e ↦ ap (read_from 16 0) (hex_nonzero v e) ∙ hex_fill-read 16 v (omega arith)
]

dec_nonzero : (v : ℕ) → (v == 0) ≡ false → dec v ≡ backwards (dec_fill 20 v)
unfolding dec
dec_nonzero v e = rw e refl

dec_zero : (v : ℕ) → v ≡ 0 → read_number 10 (dec v) ≡ v
unfolding dec read_number
dec_zero v e = rw e refl

-- What `dec` prints for a 64-bit number reads back as that number in base 10: the buffer of 20
-- digits is never too short.
pub read_number-dec : (v : ℕ) → v < 2 ^ 64 → read_number 10 (dec v) ≡ v
unfolding read_number
read_number-dec v h = elim (Bool-cases (v == 0)) [
  | inl e ↦ dec_zero v (==→≡ v 0 e)
  | inr e ↦ ap (read_from 10 0) (dec_nonzero v e) ∙ dec_fill-read 20 v (omega arith)
]

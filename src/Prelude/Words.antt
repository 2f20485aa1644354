-- ===== src/Prelude/Words.antt =====
-- Little-endian words as bytes, and unsigned arithmetic that wraps.
use Prim.Native.Nat.{ℕ, zero, suc, ◌+◌, ◌-◌, ◌*◌, ◌/◌, ◌%◌, ◌^◌, ◌<◌, ◌≤◌}
use mathlib.Core.Path.{◌≡◌, refl, ap, ◌∙◌}
use mathlib.Core.List.{List, [], ◌∷◌, ◌++◌}
use native.Mathlib.Nat.{pow-suc, one-le-pow}
use native.Mathlib.Omega.{arith}
use avaria.Prelude.Lists.{length, take, drop}

-- `wrapping_add` and `wrapping_sub` at a width of `w` bits.
abbrev pub add_w : ℕ → ℕ → ℕ → ℕ
add_w w a b = (a + b) % 2 ^ w

abbrev pub sub_w : ℕ → ℕ → ℕ → ℕ
sub_w w a b = (a + 2 ^ w - b) % 2 ^ w

-- `to_le_bytes` of an `n`-byte word, and `from_le_bytes`.
abbrev pub le_bytes : ℕ → ℕ → List ℕ
le_bytes zero v = []
le_bytes (suc n) v = v % 256 ∷ le_bytes n (v / 256)

abbrev pub le_value : List ℕ → ℕ
le_value [] = 0
le_value (b ∷ bs) = b + 256 * le_value bs

-- The little-endian number in `n` bytes at `off`.
abbrev pub le_field : List ℕ → ℕ → ℕ → ℕ
le_field bytes off n = le_value (take n (drop off bytes))

pub length-le_bytes : (n v : ℕ) → length (le_bytes n v) ≡ n
length-le_bytes zero v = refl
length-le_bytes (suc n) v = ap suc (length-le_bytes n (v / 256))

pub le_value-le_bytes : (n v : ℕ) → v < 256 ^ n → le_value (le_bytes n v) ≡ v
le_value-le_bytes zero v h = omega arith
le_value-le_bytes (suc n) v h =
    omega (arith, le_value-le_bytes n (v / 256) (omega (arith, pow-suc 256 n)))

pub take-append_le_bytes : (n v : ℕ) (rest : List ℕ) → take n (le_bytes n v ++ rest) ≡ le_bytes n v
take-append_le_bytes zero v rest = refl
take-append_le_bytes (suc n) v rest =
    ap (λ bs. v % 256 ∷ bs) (take-append_le_bytes n (v / 256) rest)

pub two_pow-add : (a b : ℕ) → 2 ^ (a + b) ≡ 2 ^ a * 2 ^ b
two_pow-add a zero = ap (λ n. 2 ^ n) (let e : a + 0 ≡ a = omega arith in e) ∙ omega arith
two_pow-add a (suc b) =
    ap (λ n. 2 ^ n) (let e : a + suc b ≡ suc (a + b) = omega arith in e)
    ∙ omega (arith, pow-suc 2 (a + b), two_pow-add a b, ap (λ (t : ℕ). 2 ^ a * t) (pow-suc 2 b))

pub two_pow_pos : (a : ℕ) → 0 < 2 ^ a
two_pow_pos a = one-le-pow a 2 (omega arith)

pub two_pow_mono : (a b : ℕ) → a ≤ b → 2 ^ a ≤ 2 ^ b
two_pow_mono a b h =
    let split : 2 ^ b ≡ 2 ^ (b - a) * 2 ^ a =
      ap (λ n. 2 ^ n) (let e : b ≡ b - a + a = omega arith in e) ∙ two_pow-add (b - a) a in
    rw split (grind (arith, two_pow_pos (b - a)))

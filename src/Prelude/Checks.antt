-- ===== src/Prelude/Checks.antt =====
-- A small range checked value by value, and the bytes of two lists.
use Prim.Native.Nat.{ℕ, zero, suc, ◌<◌}
use mathlib.Core.Path.{◌≡◌, refl}
use mathlib.Core.Logic.{inl, inr}
use mathlib.Core.Bool.{Bool, true, false}
use mathlib.Core.List.{List, [], ◌∷◌}
use native.Mathlib.Omega.{arith}
use avaria.Prelude.Tests.{Bool-cases, if◌then◌else◌, ◌==◌, ==→≡}
use avaria.Prelude.Lists.{bytes_equal}

unfoldable pub all_below : (ℕ → Bool) → ℕ → Bool
all_below p zero = true
all_below p (suc n) = if p n then all_below p n else false

pub all_below_sound : (p : ℕ → Bool) (n : ℕ) → all_below p n ≡ true → (i : ℕ) → i < n → p i ≡ true
unfolding all_below
all_below_sound p zero all i lt = absurd (omega arith)
all_below_sound p (suc n) all i lt = elim (Bool-cases (p n)) [
  | inr e ↦ let bad : false ≡ true = (rw e at all) in absurd (cc)
  | inl e ↦ elim (Bool-cases (i == n)) [
    | inl q ↦ rw (==→≡ i n q) e
    | inr q ↦ all_below_sound p n (rw e at all) i (ground arith)
  ]
]

pub bytes_equal→≡ : (xs ys : List ℕ) → bytes_equal xs ys ≡ true → xs ≡ ys
bytes_equal→≡ [] [] e = refl
bytes_equal→≡ [] (y ∷ ys) e = absurd (cc)
bytes_equal→≡ (x ∷ xs) [] e = absurd (cc)
bytes_equal→≡ (x ∷ xs) (y ∷ ys) e = ground (arith, bytes_equal→≡ xs ys)

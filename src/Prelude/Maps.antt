-- ===== src/Prelude/Maps.antt =====
-- Large fixed arrays as functions of the index.
use Prim.Native.Nat.{ℕ}
use mathlib.Core.Path.{◌≡◌, refl, fun_ext}
use mathlib.Core.Logic.{◌≢◌, inl, inr}
use avaria.Prelude.Tests.{◌==◌, if◌then◌else◌, Bool-cases, ==→≡, ==_self, ≢→==}

module _ {ℓ} {A : Type ℓ} (f : ℕ → A) where
  -- `f[i] = v`
  abbrev pub update : ℕ → A → ℕ → A
  update i v j = if i == j then v else f j

  pub get-update_self : (i : ℕ) (v : A) → update i v i ≡ v
  get-update_self i v = rw (==_self i) refl

  pub get-update_ne : (i j : ℕ) (v : A) → i ≢ j → update i v j ≡ f j
  get-update_ne i j v ne = rw (≢→== i j ne) refl

  pub update_self : (i : ℕ) → update i (f i) ≡ f
  update_self i =
      fun_ext
        λ j. elim (Bool-cases (i == j)) [ inl e ↦ rw (e, ==→≡ i j e) refl | inr e ↦ rw e refl ]

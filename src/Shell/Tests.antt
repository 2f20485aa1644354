-- ===== src/Shell/Tests.antt =====
-- Runs of the console, and its theorem on one.
use package.avaria.Prelude.{ℕ, ◌≡◌, refl, arith, List, [], ◌∷◌}
use package.avaria.Shell.{shell_start, shell_keys}
use package.avaria.Shell.Screen.{Screen, show}
use package.avaria.Shell.Pressed.{Shows}
use package.avaria.Shell.Editor.{edit_all, shell_keys-Shows}

abbrev dirty : Screen
dirty = λ r c. b'#'

-- "ls" with a slip, then enter, then "x", on a grid of three rows and twelve columns.
abbrev keys : List ℕ
keys = b'l' ∷ b'd' ∷ 0x08 ∷ b's' ∷ 0x0A ∷ b'x' ∷ []

shell_keys-Shows_example :
    Shows 12 3
      (shell_keys 12 3 shell_start keys).0
      (edit_all 12 [] keys)
      (show dirty (shell_keys 12 3 shell_start keys).1)
shell_keys-Shows_example =
    shell_keys-Shows 12 3 dirty keys (omega arith) (omega arith) (omega arith)

one_character : edit_all 12 [] keys ≡ b'x' ∷ []
unfolding edit_all
one_character = refl

-- The line that was entered stands above, after its mark.
repeated_line : show dirty (shell_keys 12 3 shell_start keys).1 1 3 ≡ b's'
unfolding show shell_keys
repeated_line = refl

-- On a grid of two rows it is cleared as soon as it is drawn.
repeated_line_lost : show dirty (shell_keys 12 2 shell_start keys).1 1 3 ≡ 0x20
unfolding show shell_keys
repeated_line_lost = refl

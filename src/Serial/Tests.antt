-- ===== src/Serial/Tests.antt =====
-- Numbers that `src/kern/serial.rs` prints.
use avaria.Prelude.{◌≡◌, refl, [], ◌∷◌}
use avaria.Serial.{hex, dec}

prints_hex : hex 0xBEEF ≡ b'b' ∷ b'e' ∷ b'e' ∷ b'f' ∷ []
unfolding hex
prints_hex = refl

prints_dec : dec 1024 ≡ b'1' ∷ b'0' ∷ b'2' ∷ b'4' ∷ []
unfolding dec
prints_dec = refl

-- ===== src/Modules/Tests.antt =====
-- What `memtest` prints for a time.
use avaria.Prelude.{ℕ, ◌/◌, ◌≡◌, refl, arith, List, [], ◌∷◌, ◌++◌, length}
use avaria.Serial.Digits.{read_number}
use avaria.Modules.{print_num, print_ms, report}
use avaria.Modules.Report.{AllDigits, print_ms-reads}

-- 24014000 ticks of a counter of 2 GHz are 12007 microseconds.
prints_12007 : report 2000000 5000 24019000 ≡ b'1' ∷ b'2' ∷ b'.' ∷ b'0' ∷ b'0' ∷ b'7' ∷ []
unfolding report
prints_12007 = refl

print_ms-reads_example :
    (fraction : List ℕ) × (print_ms 12007 ≡ print_num (12007 / 1000) ++ (b'.' ∷ fraction))
    × (length fraction ≡ 3)
    × AllDigits fraction
    × AllDigits (print_num (12007 / 1000))
    × (read_number 10 (print_num (12007 / 1000) ++ fraction) ≡ 12007)
print_ms-reads_example = print_ms-reads 12007 (omega arith)

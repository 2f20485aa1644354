-- ===== src/Initrd/Tests.antt =====
-- An archive of one short file, as `src/kern/fs/initrd.rs` reads it.
use avaria.Prelude.{ℕ, ◌+◌, ◌≡◌, ◌≢◌, refl, true, false, List, [], ◌∷◌, ◌++◌, length, replicate}
use avaria.Initrd.{archive, out_of_fuel, parse, parse_from}
use avaria.Initrd.Archive.{octal_digits, parse_enough}

-- The file `f` of the bytes 7 and 8.
abbrev one_file : List ℕ
one_file =
    (b'f' ∷ replicate 123 0)
    ++ octal_digits 11 2
    ++ replicate 21 0
    ++ (b'0' ∷ replicate 355 0)
    ++ (7 ∷ 8 ∷ replicate 510 0)

parses_one :
    parse (λ _. true) one_file
    ≡ archive (record { name = b'f' ∷ []; contents = 7 ∷ 8 ∷ []; is_dir = false } ∷ [])
unfolding parse octal_digits
parses_one = refl

parse_enough_example :
    (parse (λ _. true) one_file ≢ out_of_fuel)
    × (parse_from (λ _. true) one_file (length one_file + 1 + 5) 64 0 ≡ parse (λ _. true) one_file)
parse_enough_example = parse_enough (λ _. true) one_file 5

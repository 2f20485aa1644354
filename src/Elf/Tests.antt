-- ===== src/Elf/Tests.antt =====
-- A program of two bytes in one segment, loaded by `src/kern/crates/avaria-elf`.
use avaria.Prelude.{
  ℕ, ◌+◌, ◌-◌, ◌*◌, ◌^◌, ◌<◌, ◌≡◌, refl, arith, List, [], ◌∷◌, ◌++◌, replicate, le_bytes,
}
use avaria.Elf.{Elf64Header, program_headers, out_of_bounds, load_at, phdrs_at, header_of}
use avaria.Elf.Span.{AllFit, no_more, one_more}
use avaria.Elf.Bounds.{Loaded, load_at-Loaded}

-- The header, a program header at 64, and the segment at 120.
abbrev program : List ℕ
program =
    (0x7F ∷ b'E' ∷ b'L' ∷ b'F' ∷ 2 ∷ 1 ∷ replicate 10 0)
    ++ le_bytes 2 3
    ++ le_bytes 2 62
    ++ le_bytes 4 1
    ++ le_bytes 8 0x1000
    ++ le_bytes 8 64
    ++ le_bytes 8 0
    ++ le_bytes 4 0
    ++ le_bytes 2 64
    ++ le_bytes 2 56
    ++ le_bytes 2 1
    ++ le_bytes 2 0
    ++ le_bytes 2 0
    ++ le_bytes 2 0
    ++ le_bytes 4 1
    ++ le_bytes 4 5
    ++ le_bytes 8 120
    ++ le_bytes 8 0x1000
    ++ le_bytes 8 0
    ++ le_bytes 8 2
    ++ le_bytes 8 4
    ++ le_bytes 8 8
    ++ (0x90 ∷ 0xC3 ∷ [])

loads : (load_at program 0x8000 (replicate 6 1)).0 ≡ 0x90 ∷ 0xC3 ∷ 0 ∷ 0 ∷ 1 ∷ 1 ∷ []
unfolding load_at
loads = refl

program-AllFit : AllFit (phdrs_at program (header_of program).e_phnum (header_of program).e_phoff)
unfolding phdrs_at header_of
program-AllFit =
    one_more (λ _. record { in_memory = omega arith; in_file = omega arith; covered = omega arith })
      no_more

headers_straight :
    (header_of program).e_phoff + (header_of program).e_phnum * (header_of program).e_phentsize
    < 2 ^ 64
unfolding header_of
headers_straight = omega arith

load_at-Loaded_example : Loaded (replicate 6 1) (load_at program 0x8000 (replicate 6 1))
load_at-Loaded_example =
    load_at-Loaded program 0x8000 (replicate 6 1) headers_straight program-AllFit

-- A table of one header, 56 bytes before the end of the address space: the sum wraps to 0, and the check
-- lets it pass.
abbrev wrapping : Elf64Header
wrapping = record (header_of program) { e_phoff = 2 ^ 64 - 56; e_phnum = 1; e_phentsize = 56 }

reads_beyond : program_headers program wrapping ≡ out_of_bounds
unfolding program_headers
reads_beyond = refl

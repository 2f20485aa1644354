-- ===== src/Modules.antt =====
-- `src/modules/memtest/src/main.rs`, the benchmark of the allocators, and what it calls of
-- `src/kern/crates/avaria-api/src/lib.rs`. The headings that it prints are left out.
pub mod Report
mod Tests
use avaria.Prelude.{
  ℕ, zero, suc, ◌+◌, ◌-◌, ◌*◌, ◌/◌, ◌%◌, ◌^◌, ◌==◌, ltb, if◌then◌else◌, List, [], ◌∷◌, ◌++◌,
}
use avaria.Prelude.{sub_w}
use avaria.Mm.Heap
use avaria.Mm.Heap.{Heap}

-- `avariaApi::ticks_to_us`.
unfoldable pub ticks_to_us : ℕ → ℕ → ℕ
ticks_to_us freq ticks = if freq == 0 then 0 else ticks * 1000 % 2 ^ 64 / freq

-- The filling loop of `print_num`, with the bytes of the buffer left.
pub print_fill : ℕ → ℕ → List ℕ
print_fill zero v = []
print_fill (suc left) v =
    let rest = print_fill left (v / 10) in if v == 0 then [] else (b'0' + v % 10) ∷ rest

-- Its printing loop.
pub print_backwards : List ℕ → List ℕ
print_backwards [] = []
print_backwards (d ∷ ds) = print_backwards ds ++ (d ∷ [])

unfoldable pub print_num : ℕ → List ℕ
unfolding print_fill print_backwards
print_num v = if v == 0 then b'0' ∷ [] else print_backwards (print_fill 20 v)

-- The zeros before a fraction of fewer than three digits.
abbrev pub pad : ℕ → List ℕ
pad us_frac =
    (if ltb us_frac 100 then b'0' ∷ [] else []) ++ (if ltb us_frac 10 then b'0' ∷ [] else [])

-- What a benchmark prints for `us` microseconds, up to the unit.
unfoldable pub print_ms : ℕ → List ℕ
unfolding print_num
print_ms us = print_num (us / 1000) ++ (b'.' ∷ (pad (us % 1000) ++ print_num (us % 1000)))

-- What it prints when the counter read `start` and then `end`.
unfoldable pub report : ℕ → ℕ → ℕ → List ℕ
unfolding print_ms ticks_to_us
report freq start end = print_ms (ticks_to_us freq (sub_w 64 end start))

-- One round of a benchmark: a block is taken and given back.
unfoldable pub round : Heap → ℕ → Heap
unfolding Heap.kmalloc Heap.kfree
round h size =
    let (h', ptr) = Heap.kmalloc h size in if ptr == 0 then h' else Heap.kfree h' ptr size

-- The loop of `bench_slab` and of `bench_buddy`, over the rounds left.
pub bench : ℕ → Heap → ℕ → Heap
unfolding round
bench zero h size = h
bench (suc left) h size = bench left (round h size) size

-- The loop of `bench_mixed`, from round `i` on.
pub bench_mixed : ℕ → ℕ → Heap → Heap
unfolding round
bench_mixed zero i h = h
bench_mixed (suc left) i h = bench_mixed left (i + 1) (round h (16 + i % 8 * 32))

abbrev pub buddy_size : ℕ → ℕ
buddy_size order = 2 ^ order * 4096

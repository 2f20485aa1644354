-- ===== src/Mm/Slab.antt =====
-- `SlabPage` of `src/kern/mm/slab.rs`: a page cut into objects of one size.
pub mod Words
pub mod Page
pub mod Full
use package.avaria.Prelude.{
  ℕ, zero, suc, ◌+◌, ◌-◌, ◌*◌, ◌/◌, ◌%◌, ◌^◌, Bool, true, false, not, ◌==◌, ltb,
}
use package.avaria.Prelude.{
  leb, ◌&&◌, ◌||◌, if◌then◌else◌, Option, none, some, List, [], ◌∷◌, get_or, set,
}
use package.avaria.Prelude.{replicate, with_bit, and_not, bit_and, add_w}
use package.avaria.Mm.Buddy.{page_size}

-- `u64::MAX`, and `!x` of a `u64`.
abbrev pub u64_max : ℕ
u64_max = 2 ^ 64 - 1

abbrev pub not_u64 : ℕ → ℕ
not_u64 x = u64_max - x

-- `x.trailing_zeros()` of an `n`-bit word.
pub trailing_zeros : ℕ → ℕ → ℕ
trailing_zeros zero x = 0
trailing_zeros (suc n) x = let more = trailing_zeros n (x / 2) in if x % 2 == 1 then 0 else suc more

-- `bitmap` is an array of four `u64`.
pub record SlabPage : Type 0 where
  pub base : ℕ
  pub obj_size : ℕ
  pub capacity : ℕ
  pub bitmap : List ℕ

unfoldable pub new_page : ℕ → ℕ → SlabPage
new_page base obj_size =
    let capacity = page_size / obj_size in
    record {
      base = base;
      obj_size = obj_size;
      capacity = if ltb 256 capacity then 256 else capacity;
      bitmap = replicate 4 0;
    }

-- The loop of `SlabPage::alloc`, at `word` with `left` words to go.
pub alloc_from : SlabPage → ℕ → ℕ → SlabPage × Option ℕ
alloc_from p zero word = (p, none)
alloc_from p (suc left) word =
    let w = get_or p.bitmap word 0 in
    let free = not_u64 w in
    let bit = trailing_zeros 64 free in
    let i = word * 64 + bit in
    let rest = alloc_from p left (word + 1) in
    if free == 0 then rest else if leb p.capacity i then rest else (
      record p { bitmap = set p.bitmap word (with_bit w bit) },
      some (add_w 64 p.base (i * p.obj_size)),
    )

unfoldable pub page_alloc : SlabPage → SlabPage × Option ℕ
unfolding alloc_from trailing_zeros
page_alloc p = alloc_from p 4 0

-- `base + capacity * obj_size`, which wraps.
abbrev pub page_end : SlabPage → ℕ
page_end p = add_w 64 p.base (p.capacity * p.obj_size % 2 ^ 64)

unfoldable pub contains : SlabPage → ℕ → Bool
contains p addr = leb p.base addr && ltb addr (page_end p)

unfoldable pub page_free : SlabPage → ℕ → SlabPage × Bool
page_free p addr =
    let idx = (addr - p.base) / p.obj_size in
    let word = idx / 64 in
    if ltb addr p.base || leb (page_end p) addr then (p, false) else (
      record p { bitmap = set p.bitmap word (and_not (get_or p.bitmap word 0) (2 ^ (idx % 64))) },
      true,
    )

-- The loop of `is_full` over the whole words.
pub words_full : List ℕ → ℕ → ℕ → Bool
words_full bitmap zero w = true
words_full bitmap (suc left) w =
    let rest = words_full bitmap left (w + 1) in
    if get_or bitmap w 0 == u64_max then rest else false

unfoldable pub is_full : SlabPage → Bool
unfolding words_full
is_full p =
    let full_words = p.capacity / 64 in
    let rem = p.capacity % 64 in
    let mask = 2 ^ rem - 1 in
    if not (words_full p.bitmap full_words 0)
    then false
    else if ltb 0 rem
    then bit_and (get_or p.bitmap full_words 0) mask == mask
    else true

unfoldable pub is_empty : SlabPage → Bool
is_empty p =
    get_or p.bitmap 0 0 == 0
    && get_or p.bitmap 1 0 == 0
    && get_or p.bitmap 2 0 == 0
    && get_or p.bitmap 3 0 == 0
